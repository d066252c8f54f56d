-- ===== src/Producer/Updates.antt =====
-- The values that the coordinator writes: one function for each update of a producer's record in
-- `#startExclusive`, `#run`, `#refreshDemand`, `ensure` and `recoverExpired`.
use vrrelay.Prelude.{
  ℕ, zero, suc, ◌+◌, ◌-◌, String, Bool, true, false, ◌&&◌, Option, none, some, List, [], ◌∷◌, ◌++◌,
  ◌==◌, if◌then◌else◌, str_eq, length, drop,
}
use vrrelay.Producer.Record.{
  ProducerState, AttemptState, BufferState, buffered, catching_up, Attempt, VodProducer,
}

abbrev pub is_running : AttemptState → Bool
is_running AttemptState.running = true
is_running _ = false

-- `...(errorMessage ? { errorMessage } : {})` over the former message
abbrev pub with_error : Option String → Option String → Option String
with_error none old = old
with_error (some m) old = if str_eq m "" then old else some m

-- Closes the last attempt if it runs in this generation.
unfoldable pub close_last : ℕ → AttemptState → Option String → ℕ → List Attempt → List Attempt
close_last generation state error now [] = []
close_last generation state error now (a ∷ []) =
    (if (a.generation == generation) && is_running a.state
      then record a {
        state = state;
        completed_at = some now;
        error_message = with_error error a.error_message;
      }
      else a)
    ∷ []
close_last generation state error now (a ∷ b ∷ rest) =
    a ∷ close_last generation state error now (b ∷ rest)

-- `xs.slice(-limit)`
abbrev pub slice_last {ℓ} : {A : Type ℓ} → ℕ → List A → List A
slice_last limit xs = drop (length xs - limit) xs

unfoldable pub finish_attempt : VodProducer → AttemptState → Option String → ℕ → VodProducer
finish_attempt p state error now = record p {
  worker_history = slice_last 100 (close_last p.generation state error now p.worker_history);
}

-- `current?.value.generation ?? 0`, and so for the history and the time of creation
abbrev pub generation_of : Option VodProducer → ℕ
generation_of none = 0
generation_of (some p) = p.generation

abbrev pub history_of : Option VodProducer → List Attempt
history_of none = []
history_of (some p) = p.worker_history

abbrev created_of : Option VodProducer → ℕ → ℕ
created_of none now = now
created_of (some p) now = p.created_at

abbrev pub first_attempt : Option VodProducer → String → ℕ → ℕ → Attempt
first_attempt former node_id index now = record {
  generation = generation_of former + 1;
  node_id = node_id;
  state = AttemptState.running;
  start_segment_index = index;
  started_at = now;
  completed_at = none;
  error_message = none;
}

-- The record that a start writes, over the former one if there is any.
unfoldable pub started : Option VodProducer → String → String → ℕ → ℕ → ℕ → ℕ → VodProducer
started former session_id node_id index lease_ms idle_ms now = record {
  id = session_id;
  session_id = session_id;
  owner_node_id = some node_id;
  generation = generation_of former + 1;
  state = ProducerState.starting;
  demanded_segment_index = index;
  start_segment_index = index;
  anchor_segment = some index;
  anchor_at = some now;
  last_published = none;
  buffer_state = some catching_up;
  lease_expires_at = some (now + lease_ms);
  last_demand_at = now;
  idle_deadline_at = some (now + idle_ms);
  error_message = none;
  worker_history = history_of former ++ first_attempt former node_id index now ∷ [];
  created_at = created_of former now;
  updated_at = now;
}

-- The producer's process runs.
unfoldable pub set_running : ℕ → VodProducer → VodProducer
set_running now p = record p { state = ProducerState.running; updated_at = now }

-- The lease was renewed.
unfoldable pub set_lease : ℕ → ℕ → VodProducer → VodProducer
set_lease lease_ms now p = record p { lease_expires_at = some (now + lease_ms); updated_at = now }

-- A segment was published.
unfoldable pub set_published : ℕ → BufferState → ℕ → ℕ → VodProducer → VodProducer
set_published index buffer lease_ms now p = record p {
  state = ProducerState.running;
  last_published = some index;
  buffer_state = some buffer;
  lease_expires_at = some (now + lease_ms);
  updated_at = now;
}

-- The audience's demand was read again.
unfoldable pub set_demand : ℕ → ℕ → ℕ → BufferState → ℕ → ℕ → ℕ → VodProducer → VodProducer
set_demand index anchor anchor_at buffer demanded_at idle_ms now p = record p {
  demanded_segment_index = index;
  anchor_segment = some anchor;
  anchor_at = some anchor_at;
  buffer_state = some buffer;
  last_demand_at = demanded_at;
  idle_deadline_at = some (demanded_at + idle_ms);
  updated_at = now;
}

-- Nobody owns the record any more.
abbrev disowned : ProducerState → ℕ → VodProducer → VodProducer
disowned state now p = record p {
  state = state;
  owner_node_id = none;
  lease_expires_at = none;
  idle_deadline_at = none;
  updated_at = now;
}

unfoldable pub set_complete : ℕ → VodProducer → VodProducer
unfolding finish_attempt
set_complete now p =
    let q = disowned ProducerState.complete now (finish_attempt p AttemptState.complete none now) in
    record q { buffer_state = some buffered }

-- `message.slice(0, limit)`
unfoldable pub truncate : ℕ → String → String
truncate zero s = String.[]
truncate (suc n) String.[] = String.[]
truncate (suc n) (String.◌∷◌ c s) = String.◌∷◌ c (truncate n s)

-- `error instanceof Error ? error.message.slice(0, 2_000) : 'Producer failed'`
abbrev failure_text : Option String → String
failure_text none = "Producer failed"
failure_text (some m) = truncate 2000 m

-- The end of `#run` when the producer was not told to stop: `message` is that of the error, if what
-- was thrown is an `Error`.
unfoldable pub set_failed : Option String → ℕ → VodProducer → VodProducer
unfolding finish_attempt
set_failed message now p =
    let q = disowned ProducerState.failed now (finish_attempt p AttemptState.failed message now) in
    record q { error_message = some (failure_text message) }

-- The end of `#run`, or of a start that was not handed over, by a request to stop.
unfoldable pub set_stopped : ProducerState → ℕ → VodProducer → VodProducer
unfolding finish_attempt
set_stopped state now p =
    let q = disowned state now (finish_attempt p AttemptState.cancelled none now) in
    record q { error_message = none }

unfoldable pub set_recovered : ℕ → VodProducer → VodProducer
unfolding finish_attempt
set_recovered now p =
    let q =
      disowned ProducerState.idle now
        (finish_attempt p AttemptState.failed (some "Recovered expired producer lease") now) in
    record q { error_message = none }
