-- ===== src/Coordination/Values.antt =====
-- `set`, `get` and `delete` of local-infrastructure.ts: values that run out.
use vrrelay.Prelude.{
  ℕ, ◌+◌, ◌<◌, ◌≤◌, String, ◌≡◌, Option, none, some, leb, Map, arith, if◌then◌else◌, eq_refl,
}
use vrrelay.Prelude.Maps
use vrrelay.Prelude.Maps.{get-set, get-delete}

pub record StoredValue : Type 0 where
  pub value : String
  pub expires_at : ℕ

unfoldable pub set : Map StoredValue → String → String → ℕ → ℕ → Map StoredValue
set values key value ttl now =
    Maps.set key (record { value = value; expires_at = now + ttl }) values

get_found : Option StoredValue → Map StoredValue → String → ℕ → Map StoredValue × Option String
get_found none values key now = (values, none)
get_found (some stored) values key now =
    if leb stored.expires_at now
    then (Maps.delete key values, none)
    else (values, some stored.value)

unfoldable pub get : Map StoredValue → String → ℕ → Map StoredValue × Option String
unfolding get_found
get values key now = get_found (Maps.get key values) values key now

unfoldable pub delete : Map StoredValue → String → Map StoredValue
delete values key = Maps.delete key values

-- A value can be read under its key exactly until its time to live has passed, whatever stood
-- there before.
pub get-set_until :
    (values : Map StoredValue) (key value : String) (ttl now later : ℕ)
    → ((later < now + ttl) → (get (set values key value ttl now) key later).1 ≡ some value)
      × ((now + ttl ≤ later) → (get (set values key value ttl now) key later).1 ≡ none)
unfolding get set
get-set_until values key value ttl now later =
    let stored = get-set key key (record { value = value; expires_at = now + ttl }) values in
    ((λ h. ground (arith, stored, eq_refl key)), (λ h. ground (arith, stored, eq_refl key)))
