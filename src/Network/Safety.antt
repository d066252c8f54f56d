-- ===== src/Network/Safety.antt =====
-- What is known of a provider's address that is accepted.
use vrrelay.Prelude.{
  String, Bool, true, false, Option, none, some, List, [], ◌∷◌, all, if◌then◌else◌, ◌≡◌, inl, inr,
  refl, arith, Bool-cases,
}
use mathlib.Core.Path.{subst, sym}
use vrrelay.Network.Address.{Address, is_private, is_blocked}
use vrrelay.Network.Target.{
  Url, Target, target, refused, Refusal, query, Resolved, is_http, is_other, url_refusal, Checked,
  passed, failed, check_first, check_rest, check_addresses, as_target, resolve_names, addresses_of,
  resolve_checked, resolve_target, permit, validate_checked, validate_url,
}

-- Every text is an address that is not blocked.
abbrev pub AreOpen : (String → Option Address) → List String → List Address → Type 0
AreOpen ip [] bs = bs ≡ []
AreOpen ip (s ∷ ss) [] = ⊥
AreOpen ip (s ∷ ss) (a ∷ rest) = (ip s ≡ some a) × (is_blocked a ≡ false) × AreOpen ip ss rest

check_addresses-AreOpen :
    (ip : String → Option Address) (ss : List String) (bs : List Address)
    → check_addresses ip ss ≡ passed bs
    → AreOpen ip ss bs
unfolding check_addresses check_first check_rest
check_addresses-AreOpen ip [] bs h = ground (arith, h)
check_addresses-AreOpen ip (s ∷ ss) bs h =
    by_first (check_addresses-AreOpen ip ss) (ip s) refl (check_addresses ip ss) refl h
  where
    by_first :
        ((cs : List Address) → check_addresses ip ss ≡ passed cs → AreOpen ip ss cs)
        → (o : Option Address) → ip s ≡ o
        → (r : Checked) → check_addresses ip ss ≡ r
        → check_first o r ≡ passed bs
        → AreOpen ip (s ∷ ss) bs
    by_first ih none e r f k = absurd (ground (arith, k))
    by_first ih (some a) e (failed r) f k = absurd (ground (arith, k))
    by_first ih (some a) e (passed cs) f k = elim (Bool-cases (is_blocked a)) [
      | inl y ↦ absurd (ground (arith, y, k))
      | inr n ↦
          let same : bs ≡ a ∷ cs = ground (arith, n, k) in
          subst (AreOpen ip (s ∷ ss)) (sym same) (e, n, ih cs f)
    ]

-- What is known of a target.
pub record IsSafe (ip : String → Option Address) (lookup : String → Option (List String))
    (allow_public_http : Bool) (u : Url) (t : Target) : Type 0 where
  pub names : List String
  pub addresses : List Address
  pub named : addresses_of ip lookup u.hostname ≡ some names
  pub open_ones : AreOpen ip names (t.address ∷ addresses)
  pub privacy : t.private_network ≡ all is_private (t.address ∷ addresses)
  pub protocol : is_other u.protocol ≡ false
  pub bare : (u.has_credentials ≡ false) × (u.has_fragment ≡ false) × (u.has_query ≡ false)
  pub encrypted : (is_http u.protocol ≡ true) → t.private_network ≡ false → allow_public_http ≡ true

module _ (ip : String → Option Address) (lookup : String → Option (List String)) where
  -- What a target that is resolved for a host is.
  unfoldable IsResolved : Option (List String) → Target → Type 0
  IsResolved o t =
      (names : List String) × (addresses : List Address) × (o ≡ some names)
      × AreOpen ip names (t.address ∷ addresses)
      × (t.private_network ≡ all is_private (t.address ∷ addresses))

  resolve_names-IsResolved :
      (o : Option (List String)) (t : Target) → resolve_names ip o ≡ target t → IsResolved o t
  unfolding resolve_names as_target IsResolved
  resolve_names-IsResolved none t h = absurd (ground (arith, h))
  resolve_names-IsResolved (some names) t h = by_check (check_addresses ip names) refl h
    where
      by_check :
          (c : Checked)
          → check_addresses ip names ≡ c
          → as_target c ≡ target t
          → IsResolved (some names) t
      by_check (failed r) e k = absurd (ground (arith, k))
      by_check (passed []) e k = absurd (ground (arith, k))
      by_check (passed (a ∷ rest)) e k =
          let same : t ≡ record { address = a; private_network = all is_private (a ∷ rest) } =
            ground (arith, k) in
          rw same (names, rest, refl, check_addresses-AreOpen ip names (a ∷ rest) e, refl)

  permit-target :
      (allow_public_http : Bool) (u : Url) (r : Resolved) (t : Target)
      → permit allow_public_http u r ≡ target t
      → (r ≡ target t)
        × ((is_http u.protocol ≡ true) → t.private_network ≡ false → allow_public_http ≡ true)
  unfolding permit
  permit-target allow_public_http u (refused r) t h = absurd (ground (arith, h))
  permit-target allow_public_http u (target t') t h =
      (ground (arith, h), λ x y. ground (arith, h, x, y))

  -- Why a URL is not refused.
  unfoldable IsBare : Url → Type 0
  IsBare u = (is_other u.protocol ≡ false) × (u.has_credentials ≡ false) × (u.has_fragment ≡ false)

  url_refusal-IsBare : (u : Url) → url_refusal (some u) ≡ none → IsBare u
  unfolding url_refusal IsBare
  url_refusal-IsBare u h = (ground (arith, h), ground (arith, h), ground (arith, h))

  -- A provider's URL is only accepted with an address at which the host is: the host is resolved once,
  -- every address that it has is one and is not blocked (not link-local, multicast, unspecified or a
  -- metadata service, also where it is an IPv4 address that is mapped into IPv6), and the first is the
  -- target, which counts as private when all of them are. The URL is HTTP or HTTPS and has no
  -- credentials, fragment or query; over HTTP the target is private, unless public HTTP is approved.
  pub validate_url-IsSafe :
      (allow_public_http : Bool) (u : Url) (t : Target)
      → validate_url ip lookup allow_public_http (some u) ≡ target t
      → IsSafe ip lookup allow_public_http u t
  unfolding validate_url validate_checked resolve_target resolve_checked IsResolved IsBare
  validate_url-IsSafe allow_public_http u t h = by_refusal (url_refusal (some u)) refl h
    where
      by_query :
          (b : Bool)
          → (if b
              then refused query
              else permit allow_public_http u (resolve_target ip lookup (some u)))
            ≡ target t
          → (b ≡ false)
            × (permit allow_public_http u (resolve_target ip lookup (some u)) ≡ target t)
      by_query true k = absurd (ground (arith, k))
      by_query false k = (refl, k)

      by_refusal :
          (o : Option Refusal)
          → url_refusal (some u) ≡ o
          → validate_checked ip lookup allow_public_http (some u) o ≡ target t
          → IsSafe ip lookup allow_public_http u t
      by_refusal (some r) e k = absurd (ground (arith, k))
      by_refusal none e k =
          let (protocol, credentials, fragment) = url_refusal-IsBare u e in
          let (q, passes) = by_query u.has_query k in
          let (accepted, encrypted) = permit-target allow_public_http u _ t passes in
          let (names, addresses, named, open_ones, privacy) =
            resolve_names-IsResolved (addresses_of ip lookup u.hostname) t
              (rw (e, resolve_target) at accepted) in
          record {
            names = names;
            addresses = addresses;
            named = named;
            open_ones = open_ones;
            privacy = privacy;
            protocol = protocol;
            bare = (credentials, fragment, q);
            encrypted = encrypted;
          }
