-- ===== src/Network/Target.antt =====
-- `resolveProviderRequestTarget` and `validateProviderUrl` of packages/adapters/src/network-policy.ts. The
-- parsed URL, the reading of an address and the name service come from outside; the text of the
-- normalised URL is not modelled.
use vrrelay.Prelude.{
  String, Bool, true, false, not, ◌&&◌, Option, none, some, List, [], ◌∷◌, all, if◌then◌else◌,
}
use vrrelay.Network.Address.{Address, is_private, is_blocked}

pub data Protocol : Type 0 where
  http https other_protocol : Protocol

pub record Url : Type 0 where
  pub protocol : Protocol
  pub has_credentials : Bool
  pub has_fragment : Bool
  pub has_query : Bool
  pub hostname : String

pub data Refusal : Type 0 where
  invalid_url wrong_protocol credentials fragment query unresolved no_address invalid_address
        blocked_address public_http :
      Refusal

-- `PinnedProviderTarget`
pub record Target : Type 0 where
  pub address : Address
  pub private_network : Bool

pub data Resolved : Type 0 where
  target : Target → Resolved
  refused : Refusal → Resolved

abbrev pub is_other : Protocol → Bool
is_other other_protocol = true
is_other _ = false

abbrev pub is_http : Protocol → Bool
is_http http = true
is_http _ = false

-- `parseProviderUrl`: why a URL is refused.
unfoldable pub url_refusal : Option Url → Option Refusal
url_refusal none = some invalid_url
url_refusal (some u) =
    if is_other u.protocol
    then some wrong_protocol
    else if u.has_credentials
    then some credentials
    else if u.has_fragment
    then some fragment
    else none

pub data Checked : Type 0 where
  passed : List Address → Checked
  failed : Refusal → Checked

unfoldable pub check_rest : Address → Checked → Checked
check_rest a (passed bs) = passed (a ∷ bs)
check_rest a (failed r) = failed r

unfoldable pub check_first : Option Address → Checked → Checked
check_first none rest = failed invalid_address
check_first (some a) rest = if is_blocked a then failed blocked_address else check_rest a rest

-- Every address must be one, and none may be blocked; the first that fails decides.
unfoldable pub check_addresses : (String → Option Address) → List String → Checked
unfolding check_first check_rest
check_addresses ip [] = passed []
check_addresses ip (s ∷ ss) = check_first (ip s) (check_addresses ip ss)

unfoldable pub as_target : Checked → Resolved
as_target (failed r) = refused r
as_target (passed []) = refused no_address
as_target (passed (a ∷ rest)) =
    target (record { address = a; private_network = all is_private (a ∷ rest) })

unfoldable pub resolve_names : (String → Option Address) → Option (List String) → Resolved
resolve_names ip none = refused unresolved
resolve_names ip (some names) = as_target (check_addresses ip names)

-- The addresses of a host: itself, or what the name service answers.
unfoldable pub addresses_of :
    (String → Option Address) → (String → Option (List String)) → String → Option (List String)
addresses_of ip lookup host = elim (ip host) [ some a ↦ some (host ∷ []) | none ↦ lookup host ]

unfoldable pub resolve_checked :
    (String → Option Address)
    → (String → Option (List String))
    → Option Url
    → Option Refusal
    → Resolved
resolve_checked ip lookup u (some r) = refused r
resolve_checked ip lookup none none = refused invalid_url
resolve_checked ip lookup (some u) none = resolve_names ip (addresses_of ip lookup u.hostname)

-- `resolveProviderRequestTarget`
unfoldable pub resolve_target :
    (String → Option Address) → (String → Option (List String)) → Option Url → Resolved
unfolding resolve_checked resolve_names as_target
resolve_target ip lookup u = resolve_checked ip lookup u (url_refusal u)

-- A target is only accepted over HTTP if all of its addresses are private or that is approved.
unfoldable pub permit : Bool → Url → Resolved → Resolved
permit allow_public_http u (refused r) = refused r
permit allow_public_http u (target t) =
    if is_http u.protocol && not t.private_network && not allow_public_http
    then refused public_http
    else target t

unfoldable pub validate_checked :
    (String → Option Address)
    → (String → Option (List String))
    → Bool
    → Option Url
    → Option Refusal
    → Resolved
validate_checked ip lookup allow_public_http u (some r) = refused r
validate_checked ip lookup allow_public_http none none = refused invalid_url
validate_checked ip lookup allow_public_http (some u) none =
    if u.has_query
    then refused query
    else permit allow_public_http u (resolve_target ip lookup (some u))

-- `validateProviderUrl`
unfoldable pub validate_url :
    (String → Option Address) → (String → Option (List String)) → Bool → Option Url → Resolved
unfolding permit validate_checked
validate_url ip lookup allow_public_http u =
    validate_checked ip lookup allow_public_http u (url_refusal u)
