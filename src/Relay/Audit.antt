-- ===== src/Relay/Audit.antt =====
-- apps/relay/src/audited-operation.ts: an operation between two audit records. The audit service is
-- the argument `record`, which gives the error of a failed write; what the function does to its
-- surroundings is a list of effects in order.
use vrrelay.Prelude.{String, Option, none, some, List, [], ◌∷◌, Map}
use vrrelay.Prelude.Maps.{set}

pub data Stage : Type 0 where
  attempt success failure : Stage

pub data AuditOutcome : Type 0 where
  attempt success denied failure : AuditOutcome

pub data Result (E A : Type 0) : Type 0 where
  ok : A → Result E A
  error : E → Result E A

-- The outcomes `success` and `failure` may name.
pub data SuccessOutcome : Type 0 where
  succeeded failed : SuccessOutcome

pub data FailureOutcome : Type 0 where
  refused broken : FailureOutcome

abbrev pub success_outcome : Option SuccessOutcome → AuditOutcome
success_outcome none = AuditOutcome.success
success_outcome (some succeeded) = AuditOutcome.success
success_outcome (some failed) = AuditOutcome.failure

abbrev pub failure_outcome : Option FailureOutcome → AuditOutcome
failure_outcome none = AuditOutcome.failure
failure_outcome (some refused) = denied
failure_outcome (some broken) = AuditOutcome.failure

pub record AuditTarget : Type 0 where
  pub kind : String
  pub id : Option String

-- What is written; the operation's id, category, action and actor are the same throughout.
pub record AuditInput : Type 0 where
  pub outcome : AuditOutcome
  pub target : Option AuditTarget
  pub context : Map String

-- What `success` and `failure` say; absent fields are `none` and the empty context.
pub record Info (O : Type 0) : Type 0 where
  pub outcome : Option O
  pub target : Option AuditTarget
  pub context : Map String

abbrev pub no_info : {O : Type 0} → Info O
no_info = record { outcome = none; target = none; context = [] }

-- `{ ...a, ...b }`
unfoldable pub spread : Map String → Map String → Map String
spread a [] = a
spread a ((k, v) ∷ b) = spread (set k v a) b

abbrev pub or_target : Option AuditTarget → Option AuditTarget → Option AuditTarget
or_target none t = t
or_target (some t) _ = some t

-- An effect on the surroundings: a record was written, the failure to write one was reported, or the
-- operation ran.
pub data Effect : Type 0 where
  recorded : AuditInput → Effect
  write_failed : Stage → String → Effect
  ran : Effect

-- `AuditedOperationOptions`; `success` may throw.
pub record Options (T E : Type 0) : Type 0 where
  pub target : Option AuditTarget
  pub context : Map String
  pub success : T → Result E (Info SuccessOutcome)
  pub failure : Info FailureOutcome

-- `auditFailureType` of an error, and the audit service.
pub record Surroundings (E : Type 0) : Type 0 where
  pub failure_type : E → String
  pub record_event : AuditInput → Result E (Unit {0})

-- The effect of writing one record, or of failing to.
unfoldable pub written :
    {E : Type 0} → Surroundings E → Stage → AuditInput → Result E (Unit {0}) → Effect
written s stage input (ok _) = recorded input
written s stage input (error e) = write_failed stage (s.failure_type e)

unfoldable pub write : {E : Type 0} → Surroundings E → Stage → AuditInput → Effect
unfolding written
write s stage input = written s stage input (s.record_event input)

module _ {T E : Type 0} where
  abbrev pub attempt_input : Options T E → AuditInput
  attempt_input o = record {
    outcome = AuditOutcome.attempt;
    target = o.target;
    context = o.context;
  }

  abbrev pub failure_input : Surroundings E → Options T E → E → AuditInput
  failure_input s o e = record {
    outcome = failure_outcome o.failure.outcome;
    target = or_target o.failure.target o.target;
    context = set "errorType" (s.failure_type e) (spread (spread [] o.context) o.failure.context);
  }

  abbrev pub success_input : Options T E → Info SuccessOutcome → AuditInput
  success_input o i = record {
    outcome = success_outcome i.outcome;
    target = or_target i.target o.target;
    context = spread (spread [] o.context) i.context;
  }

  unfoldable pub success_effect :
      Surroundings E → Options T E → Result E (Info SuccessOutcome) → Effect
  unfolding write
  success_effect s o (error e) = write_failed Stage.success (s.failure_type e)
  success_effect s o (ok i) = write s Stage.success (success_input o i)

  unfoldable pub finished : Surroundings E → Options T E → Result E T → List Effect
  unfolding write success_effect
  finished s o (error e) = ran ∷ write s Stage.failure (failure_input s o e) ∷ []
  finished s o (ok t) = ran ∷ success_effect s o (o.success t) ∷ []

  unfoldable pub attempted :
      Surroundings E → Options T E → Result E T → Result E (Unit {0}) → List Effect × Result E T
  unfolding finished
  attempted s o operation (error e) = (write_failed Stage.attempt (s.failure_type e) ∷ [], error e)
  attempted s o operation (ok _) = (recorded (attempt_input o) ∷ finished s o operation, operation)

  -- `operation` is what the operation gives if it runs.
  unfoldable pub audited_operation :
      Surroundings E → Options T E → Result E T → List Effect × Result E T
  unfolding attempted
  audited_operation s o operation = attempted s o operation (s.record_event (attempt_input o))
