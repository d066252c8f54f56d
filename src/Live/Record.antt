-- ===== src/Live/Record.antt =====
-- `LiveChannelSchema` of packages/domain/src/index.ts, without the addresses that are shown to the
-- publisher, and the tables that the operations on channels read.
use vrrelay.Prelude.{ℕ, String, Bool, true, false, Option, List, or_else}
use vrrelay.Repository.{Table}

pub data PublisherState : Type 0 where
  offline online reconnecting error : PublisherState

pub record LiveChannel : Type 0 where
  pub id : String
  pub owner_id : Option String
  pub name : String
  pub path : String
  pub ingest_path : Option String
  pub origin_node_id : Option String
  pub region : Option String
  pub normalization_profile_id : Option String
  pub normalize : Bool
  pub publisher_state : PublisherState
  pub publisher_updated_at : Option ℕ
  pub publish_token_hash : String
  pub replacement_token_hash : Option String
  pub replacement_requested_at : Option ℕ
  pub created_at : ℕ

abbrev pub Channels : Type 0
Channels = Table LiveChannel

-- The channels, the identifiers of the users and the channels of the sessions that play one.
pub record Db : Type 0 where
  pub channels : Channels
  pub users : List String
  pub playing : List String

abbrev pub is_offline : PublisherState → Bool
is_offline PublisherState.offline = true
is_offline _ = false

abbrev pub is_online : PublisherState → Bool
is_online PublisherState.online = true
is_online _ = false

-- A publisher holds the slot.
abbrev pub is_held : PublisherState → Bool
is_held PublisherState.online = true
is_held PublisherState.reconnecting = true
is_held _ = false

abbrev pub ingest : LiveChannel → String
ingest c = or_else c.ingest_path c.path
