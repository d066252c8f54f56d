-- ===== src/Live/Capacity.antt =====
-- When a channel is created.
use vrrelay.Prelude.{
  ℕ, suc, ◌≤◌, ◌<◌, String, true, false, Option, none, some, List, [], ◌∷◌, leb, str_eq, any,
  length, if◌then◌else◌, ◌≡◌, ◌≢◌, inl, inr, refl, arith, eq_iff, Bool-cases, is_some,
}
use vrrelay.Prelude.Maps.{Map, get, set}
use vrrelay.Repository.{Versioned}
use vrrelay.Cluster.Record.{ClusterNode}
use vrrelay.Live.Record.{LiveChannel, Channels, Db}
use vrrelay.Live.Channels.{
  Limits, Created, created, installation_limit, owner_not_found, owner_limit, failed, owns, owned,
  insert_channel, insert_owned, create_within,
}
use vrrelay.Live.Creation.{Request, given_text, select_origin, new_channel, create}

length-set :
    {V : Type 0} (k : String) (v : V) (m : Map V)
    → get k m ≡ none
    → length (set k v m) ≡ suc (length m)
unfolding get set
length-set k v [] e = refl
length-set k v ((j, w) ∷ m) e = ground (arith, e, length-set k v m)

owned-set :
    (o k : String) (row : Versioned LiveChannel) (m : Channels)
    → get k m ≡ none
    → owned o (set k row m) ≡ (if owns o row.value then suc (owned o m) else owned o m)
unfolding get set owned
owned-set o k row [] e = ground arith
owned-set o k row ((j, w) ∷ m) e = ground (arith, e, owned-set o k row m)

-- What is right about the answer to a creation for an owner, if there is one.
abbrev pub IsAnswered : Db → LiveChannel → Limits → Option String → Db → Created → Type 0
IsAnswered db c l o after (created row) =
    (get c.id db.channels ≡ none)
    × (row ≡ record { value = c; revision = 1 })
    × (after ≡ record db { channels = set c.id row db.channels })
    × (length after.channels ≤ l.max_total)
    × ((p : String)
        → o ≡ some p
        → (any (str_eq p) db.users ≡ true) × (owned p after.channels ≤ l.max_per_owner))
IsAnswered db c l o after installation_limit = (after ≡ db) × (l.max_total ≤ length db.channels)
IsAnswered db c l o after owner_not_found =
    (after ≡ db) × (p : String) × (o ≡ some p) × (any (str_eq p) db.users ≡ false)
IsAnswered db c l o after owner_limit =
    (after ≡ db) × (p : String) × (o ≡ some p) × (l.max_per_owner ≤ owned p db.channels)
IsAnswered db c l o after failed = (after ≡ db) × (is_some (get c.id db.channels) ≡ true)

module _ (db : Db) (c : LiveChannel) (l : Limits) (o : Option String)
    (room : length db.channels < l.max_total)
    (allowed : (p : String)
      → o ≡ some p
      → (any (str_eq p) db.users ≡ true) × (owned p db.channels < l.max_per_owner)) where
  insert_channel-IsAnswered :
      (found : Option (Versioned LiveChannel))
      → get c.id db.channels ≡ found
      → IsAnswered db c l o (insert_channel db c found).0 (insert_channel db c found).1
  unfolding insert_channel
  insert_channel-IsAnswered none e = (
    e,
    refl,
    refl,
    omega (arith, room, length-set c.id row db.channels e),
    λ p q.
        let (known, few) = allowed p q in
        (known, ground (arith, few, owned-set p c.id row db.channels e)),
  )
    where
      row : Versioned LiveChannel
      row = record { value = c; revision = 1 }
  insert_channel-IsAnswered (some row) e = (refl, ground (arith, e))

insert_owned-IsAnswered :
    (db : Db) (c : LiveChannel) (l : Limits) (o : Option String)
    → length db.channels < l.max_total
    → (o ≢ some "")
    → IsAnswered db c l o (insert_owned db c l o).0 (insert_owned db c l o).1
unfolding insert_owned
insert_owned-IsAnswered db c l none room named =
    insert_channel-IsAnswered db c l none room (λ p q. absurd (ground (arith, q)))
      (get c.id db.channels) refl
insert_owned-IsAnswered db c l (some p) room named = elim (Bool-cases (str_eq p "")) [
  | inl y ↦ absurd (named (ground (arith, y, eq_iff p "")))
  | inr n ↦ elim (Bool-cases (any (str_eq p) db.users)) [
    | inr x ↦ rw (n, x) (refl, p, refl, x)
    | inl k ↦ elim (Bool-cases (leb l.max_per_owner (owned p db.channels))) [
      | inl f ↦ rw (n, k, f) (refl, p, refl, ground (arith, f))
      | inr g ↦
          rw (n, k, g)
            (insert_channel-IsAnswered db c l (some p) room
              (λ q e. (ground (arith, e, k), ground (arith, e, g))) (get c.id db.channels) refl)
    ]
  ]
]

-- A live channel is created within the limits or not at all. If it is created, its identifier was
-- free, its row is the new channel's, nothing else changes, and afterwards there are at most as many
-- channels as the installation may have, and, if it has an owner, the owner is known and has at most
-- as many as an owner may have. Otherwise nothing changes, and the reason that is given holds: the
-- installation is full, the owner is not known or has too many channels, or the identifier is taken.
pub create-IsAnswered :
    (r : Request) (l : Limits) (nodes : List ClusterNode) (now : ℕ) (db : Db)
    → IsAnswered db
        (new_channel r (select_origin r.preferred_region nodes) now)
        l
        (given_text r.owner_id)
        (create r l nodes now db).0
        (create r l nodes now db).1
unfolding create create_within new_channel
create-IsAnswered r l nodes now db = elim (Bool-cases (leb l.max_total (length db.channels))) [
  | inl y ↦ rw y (refl, ground (arith, y))
  | inr n ↦ rw n (
      insert_owned-IsAnswered db _ l (given_text r.owner_id) (ground (arith, n))
        (never_empty r.owner_id))
]
  where
    never_empty : (o : Option String) → given_text o ≢ some ""
    never_empty none e = ground (arith, e)
    never_empty (some s) e = ground (arith, e, eq_iff s "")
