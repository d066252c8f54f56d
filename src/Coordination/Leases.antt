-- ===== src/Coordination/Leases.antt =====
-- `acquire`, `renew` and `release` of local-infrastructure.ts: leases with an owner and an expiry.
use vrrelay.Prelude.{
  ℕ, ◌+◌, String, Bool, true, false, not, ◌&&◌, ◌||◌, Option, none, some, ltb, leb, str_eq, Map,
  if◌then◌else◌,
}
use vrrelay.Prelude.Maps.{get, set, delete}

pub record Lease : Type 0 where
  pub owner : String
  pub expires_at : ℕ

-- The test by which `acquire` refuses: another owner's lease that has not run out.
unfoldable pub is_taken : Option Lease → String → ℕ → Bool
is_taken none owner now = false
is_taken (some l) owner now = ltb now l.expires_at && not (str_eq l.owner owner)

unfoldable pub acquire : Map Lease → String → String → ℕ → ℕ → Map Lease × Bool
unfolding is_taken
acquire leases key owner ttl now =
    if is_taken (get key leases) owner now
    then (leases, false)
    else (set key (record { owner = owner; expires_at = now + ttl }) leases, true)

renew_found : Option Lease → Map Lease → String → String → ℕ → ℕ → Map Lease × Bool
renew_found none leases key owner ttl now = (leases, false)
renew_found (some l) leases key owner ttl now =
    if not (str_eq l.owner owner) || leb l.expires_at now
    then (leases, false)
    else (set key (record l { expires_at = now + ttl }) leases, true)

unfoldable pub renew : Map Lease → String → String → ℕ → ℕ → Map Lease × Bool
unfolding renew_found
renew leases key owner ttl now = renew_found (get key leases) leases key owner ttl now

release_found : Option Lease → Map Lease → String → String → Map Lease
release_found none leases key owner = leases
release_found (some l) leases key owner = if str_eq l.owner owner then delete key leases else leases

unfoldable pub release : Map Lease → String → String → Map Lease
unfolding release_found
release leases key owner = release_found (get key leases) leases key owner
