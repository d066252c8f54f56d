-- ===== src/Live/Service.antt =====
-- The methods of `LiveService` that write a channel (packages/application/src/live-service.ts), while
-- other processes write to the same table: `others 5` acts before the first read, and `others n` between
-- the read and the write of the round that has `n` of the five rounds after it. A round after a conflict goes on with the row that the
-- conflicting write returned.
use vrrelay.Prelude.{
  ℕ, zero, suc, String, Bool, true, false, not, ◌&&◌, Option, none, some, str_eq, any,
  if◌then◌else◌,
}
use vrrelay.Prelude.Maps.{get}
use vrrelay.Repository.{
  Versioned, WriteResult, applied, not_found, revision_conflict, invalid_state,
}
use vrrelay.Live.Record.{
  PublisherState, LiveChannel, Channels, Db, is_offline, is_online, is_held, ingest,
}
use vrrelay.Live.Channels.{write_channel, delete_channel}

pub data Rewritten : Type 0 where
  wrote : Versioned LiveChannel → Rewritten
  refused missing conflict : Rewritten

abbrev pub Others : Type 0
Others = ℕ → Channels → Channels

-- What follows a write, given how it goes on with the row that stands there.
unfoldable pub after_write :
    Channels × WriteResult LiveChannel
    → (Versioned LiveChannel → Channels × Rewritten)
    → Channels × Rewritten
after_write (t, applied row) again = (t, wrote row)
after_write (t, not_found) again = (t, missing)
after_write (t, revision_conflict row) again = again row
after_write (t, invalid_state row) again = again row

-- The rounds from a row that was read.
unfoldable pub rewrite_from :
    (LiveChannel → Bool)
    → (LiveChannel → LiveChannel)
    → ℕ
    → Others
    → String
    → Versioned LiveChannel
    → Channels
    → Channels × Rewritten
rewrite_from accepts update zero others id row t = (t, conflict)
rewrite_from accepts update (suc n) others id row t = elim (accepts row.value) [
  | false ↦ (t, refused)
  | true ↦
      let w = write_channel (others n t) id (update row.value) row.revision in
      after_write w (λ r. rewrite_from accepts update n others id r w.0)
]

unfoldable pub rewrite_read :
    (LiveChannel → Bool)
    → (LiveChannel → LiveChannel)
    → Others
    → String
    → Option (Versioned LiveChannel)
    → Channels
    → Channels × Rewritten
rewrite_read accepts update others id none t = (t, missing)
rewrite_read accepts update others id (some row) t = rewrite_from accepts update 5 others id row t

unfoldable pub rewrite :
    (LiveChannel → Bool)
    → (LiveChannel → LiveChannel)
    → Others
    → String
    → Channels
    → Channels × Rewritten
unfolding rewrite_read
rewrite accepts update others id t =
    let read = others 5 t in rewrite_read accepts update others id (get id read) read

-- `replacePublisher`; `hash` is that of the new token.
unfoldable pub replacing : String → ℕ → LiveChannel → LiveChannel
replacing hash now c = record c {
  replacement_token_hash = some hash;
  replacement_requested_at = some now;
}

unfoldable pub replace_publisher : Others → String → String → ℕ → Channels → Channels × Rewritten
replace_publisher others id hash now t = rewrite (λ c. true) (replacing hash now) others id t

abbrev pub same_hash : String → Option String → Bool
same_hash hash none = false
same_hash hash (some h) = str_eq hash h

abbrev pub is_given : Option String → Bool
is_given none = false
is_given (some h) = not (str_eq h "")

-- Whether the publisher's slot is given to who presents a token with this hash.
unfoldable pub may_claim : String → LiveChannel → Bool
may_claim hash c =
    let replaces = same_hash hash c.replacement_token_hash in
    let is_primary = str_eq hash c.publish_token_hash in
    if not replaces && not is_primary
    then false
    else if is_primary && is_given c.replacement_token_hash
    then false
    else if not replaces && is_held c.publisher_state
    then false
    else true

-- `#promoteReplacementPublisher`
unfoldable pub promoted : String → LiveChannel → LiveChannel
promoted hash c = record c {
  publish_token_hash = hash;
  replacement_token_hash = none;
  replacement_requested_at = none;
}

unfoldable pub claiming : String → ℕ → LiveChannel → LiveChannel
unfolding promoted
claiming hash now c =
    let next = if same_hash hash c.replacement_token_hash then promoted hash c else c in
    record next { publisher_state = PublisherState.reconnecting; publisher_updated_at = some now }

abbrev pub is_written : Rewritten → Bool
is_written (wrote row) = true
is_written _ = false

-- `#claimPublisherSlot`
unfoldable pub claim_slot : Others → String → String → ℕ → Channels → Channels × Bool
claim_slot others id hash now t =
    let r = rewrite (may_claim hash) (claiming hash now) others id t in (r.0, is_written r.1)

abbrev pub state_of : Bool → PublisherState
state_of true = PublisherState.online
state_of false = PublisherState.offline

abbrev pub is_state : Bool → PublisherState → Bool
is_state true s = is_online s
is_state false s = is_offline s

-- Whether the normaliser of a channel is started or stopped.
pub data Action : Type 0 where
  starts stops keeps : Action

unfoldable pub normalize_action : (has_profile online running can_start : Bool) → Action
normalize_action has_profile online running can_start =
    if not has_profile
    then if running then stops else keeps
    else if online && not running && can_start
    then starts
    else if not online && running
    then stops
    else keeps

reconcile_written : Channels × WriteResult LiveChannel → Channels × Option LiveChannel
reconcile_written (t, applied row) = (t, some row.value)
reconcile_written (t, _) = (t, none)

reconcile_found :
    Others
    → (String → Bool)
    → ℕ
    → String
    → Option (Versioned LiveChannel)
    → Channels
    → Channels × Option LiveChannel
reconcile_found others ready now id none t = (t, none)
reconcile_found others ready now id (some row) t =
    let online = ready (ingest row.value) in
    if is_state online row.value.publisher_state
    then (t, some row.value)
    else reconcile_written (
        write_channel (others 0 t) id
          (record row.value { publisher_state = state_of online; publisher_updated_at = some now })
          row.revision)

-- `reconcilePublisherPaths` for one of the channels that it lists: the channel as it is then, or `none` if
-- it is left for the next time. `ready` is the set of the paths that are published.
unfoldable pub reconcile_publisher :
    Others → (String → Bool) → ℕ → String → Channels → Channels × Option LiveChannel
unfolding reconcile_found reconcile_written
reconcile_publisher others ready now id t =
    let read = others 1 t in reconcile_found others ready now id (get id read) read

-- How `delete` ends.
pub data Deleted : Type 0 where
  deleted not_there publishing played changed : Deleted

-- Why a channel is not deleted.
why : Versioned LiveChannel → Db → String → Deleted
why row db id =
    if not (is_offline row.value.publisher_state)
    then publishing
    else if any (str_eq id) db.playing
    then played
    else changed

settle_delete : String → Db × WriteResult LiveChannel → Db × Deleted
settle_delete id (db, applied row) = (db, deleted)
settle_delete id (db, not_found) = (db, not_there)
settle_delete id (db, revision_conflict row) = (db, why row db id)
settle_delete id (db, invalid_state row) = (db, why row db id)

delete_read : (Db → Db) → String → Option (Versioned LiveChannel) → Db → Db × Deleted
delete_read others id none db = (db, not_there)
delete_read others id (some row) db =
    if not (is_offline row.value.publisher_state)
    then (db, publishing)
    else if any (str_eq id) db.playing
    then (db, played)
    else settle_delete id (delete_channel (others db) id row.revision)

-- `delete`; `others` is what others do while the normaliser stops.
unfoldable pub delete : (Db → Db) → String → Db → Db × Deleted
unfolding why settle_delete delete_read
delete others id db = delete_read others id (get id db.channels) db
