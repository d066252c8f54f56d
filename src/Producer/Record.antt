-- ===== src/Producer/Record.antt =====
-- The durable record of a producer: packages/domain/src/index.ts, `VodProducerSchema` and the types
-- that it names. A timestamp is the number of milliseconds that its ISO text stands for.
use vrrelay.Prelude.{ℕ, String, Bool, true, false, Option, List}

pub data ProducerState : Type 0 where
  idle starting running switching complete failed cancelled : ProducerState

pub data BufferState : Type 0 where
  catching_up buffered : BufferState

pub data AttemptState : Type 0 where
  running complete failed cancelled : AttemptState

pub record Attempt : Type 0 where
  pub generation : ℕ
  pub node_id : String
  pub state : AttemptState
  pub start_segment_index : ℕ
  pub started_at : ℕ
  pub completed_at : Option ℕ
  pub error_message : Option String

pub record VodProducer : Type 0 where
  pub id : String
  pub session_id : String
  pub owner_node_id : Option String
  pub generation : ℕ
  pub state : ProducerState
  pub demanded_segment_index : ℕ
  pub start_segment_index : ℕ
  pub anchor_segment : Option ℕ
  pub anchor_at : Option ℕ
  pub last_published : Option ℕ
  pub buffer_state : Option BufferState
  pub lease_expires_at : Option ℕ
  pub last_demand_at : ℕ
  pub idle_deadline_at : Option ℕ
  pub error_message : Option String
  pub worker_history : List Attempt
  pub created_at : ℕ
  pub updated_at : ℕ

-- `ACTIVE_STATES.includes(state)`
abbrev pub is_active : ProducerState → Bool
is_active starting = true
is_active running = true
is_active switching = true
is_active _ = false

-- The states from which `#startExclusive` may take a record over.
abbrev pub is_startable : ProducerState → Bool
is_startable starting = false
is_startable running = false
is_startable _ = true
