-- ===== src/Live/Channels.antt =====
-- The operations on live channels of packages/adapters/src/sqlite-repository.ts. Each is one
-- transaction and takes effect at once. A row's key is the identifier of its channel.
use vrrelay.Prelude.{
  ℕ, String, Bool, true, false, not, Option, none, some, List, ◌==◌, leb, ltb, str_eq, any, map,
  length, filter, if◌then◌else◌,
}
use vrrelay.Prelude.Maps.{get, set, delete}
use vrrelay.Prelude.Sorting.{sort}
use vrrelay.Repository.{
  Versioned, WriteResult, applied, not_found, revision_conflict, invalid_state, compare_and_set,
}
use vrrelay.Live.Record.{LiveChannel, Channels, Db, is_offline}

pub record Limits : Type 0 where
  pub max_total : ℕ
  pub max_per_owner : ℕ

-- `failed` is the error of an identifier that is taken.
pub data Created : Type 0 where
  created : Versioned LiveChannel → Created
  installation_limit owner_not_found owner_limit failed : Created

abbrev pub owns : String → LiveChannel → Bool
owns o c = elim c.owner_id [ none ↦ false | some p ↦ str_eq p o ]

unfoldable pub owned : String → Channels → ℕ
owned o rows = length (filter (λ e. owns o e.1.value) rows)

unfoldable pub insert_channel : Db → LiveChannel → Option (Versioned LiveChannel) → Db × Created
insert_channel db c none =
    let row : Versioned LiveChannel = record { value = c; revision = 1 } in
    (record db { channels = set c.id row db.channels }, created row)
insert_channel db c (some row) = (db, failed)

unfoldable pub insert_owned : Db → LiveChannel → Limits → Option String → Db × Created
insert_owned db c l none = insert_channel db c (get c.id db.channels)
insert_owned db c l (some o) =
    if str_eq o ""
    then insert_channel db c (get c.id db.channels)
    else if not (any (str_eq o) db.users)
    then (db, owner_not_found)
    else if leb l.max_per_owner (owned o db.channels)
    then (db, owner_limit)
    else insert_channel db c (get c.id db.channels)

-- `createLiveChannelWithinCapacity`
unfoldable pub create_within : Db → LiveChannel → Limits → Db × Created
unfolding insert_owned insert_channel
create_within db c l =
    if leb l.max_total (length db.channels)
    then (db, installation_limit)
    else insert_owned db c l c.owner_id

abbrev pub any_channel : LiveChannel → Bool
any_channel c = true

-- `compareAndSetLiveChannel`
unfoldable pub write_channel :
    Channels → String → LiveChannel → ℕ → Channels × WriteResult LiveChannel
write_channel rows id c expected = compare_and_set any_channel rows id c expected

delete_found : Db → String → ℕ → Option (Versioned LiveChannel) → Db × WriteResult LiveChannel
delete_found db id expected none = (db, not_found)
delete_found db id expected (some row) =
    if not (row.revision == expected)
    then (db, revision_conflict row)
    else if not (is_offline row.value.publisher_state)
    then (db, invalid_state row)
    else if any (str_eq id) db.playing
    then (db, invalid_state row)
    else (record db { channels = delete id db.channels }, applied row)

-- `deleteLiveChannel`
unfoldable pub delete_channel : Db → String → ℕ → Db × WriteResult LiveChannel
unfolding delete_found
delete_channel db id expected = delete_found db id expected (get id db.channels)

-- `listLiveChannels`, the latest first.
unfoldable pub list_channels : Channels → List LiveChannel
list_channels rows = sort (λ a b. ltb b.created_at a.created_at) (map (λ e. e.1.value) rows)
