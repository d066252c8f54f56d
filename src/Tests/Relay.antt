-- ===== src/Tests/Relay.antt =====
-- An audited deletion that fails.
use vrrelay.Prelude.{ℕ, String, ◌≡◌, ◌⊎◌, some, [], ◌∷◌}
use vrrelay.Relay.Audit.{
  Stage, ok, error, Effect, recorded, write_failed, ran, Options, Surroundings, no_info,
  attempt_input, audited_operation,
}
use vrrelay.Relay.Auditing.{IsAccountOf, audited_operation_total}

abbrev services : Surroundings String
services = record { failure_type = λ e. e; record_event = λ _. ok tt }

abbrev deletion : Options ℕ String
deletion = record {
  target = some (record { kind = "session"; id = some "s" });
  context = [];
  success = λ _. ok no_info;
  failure = no_info;
}

audited_operation_total_example :
    ((e : String) × (services.record_event (attempt_input deletion) ≡ error e)
      × (audited_operation services deletion (error "gone")
          ≡ (write_failed Stage.attempt (services.failure_type e) ∷ [], error e)))
    ⊎ ((f : Effect) × IsAccountOf {T = ℕ} {E = String} (error "gone") f
        × (audited_operation services deletion (error "gone")
            ≡ (recorded (attempt_input deletion) ∷ ran ∷ f ∷ [], error "gone")))
audited_operation_total_example = audited_operation_total services deletion (error "gone")
