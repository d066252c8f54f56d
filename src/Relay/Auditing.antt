-- ===== src/Relay/Auditing.antt =====
-- What auditing promises.
use vrrelay.Prelude.{String, Option, none, some, [], ◌∷◌, ◌≡◌, refl, ap, ◌⊎◌, inl, inr}
use vrrelay.Relay.Audit.{
  Stage, AuditOutcome, Result, ok, error, AuditInput, Info, Effect, recorded, write_failed, ran,
  Options, Surroundings, attempt_input, write, audited_operation, denied, FailureOutcome,
  failure_outcome, SuccessOutcome, broken, refused, failure_input, success_input, written,
  success_effect, success_outcome, succeeded, failed, finished, attempted,
}

-- A record of `input`, or the report that a record of this stage could not be written.
pub data IsAccount (stage : Stage) (P : AuditInput → Type 0) : Effect → Type 0 where
  by_record : (input : AuditInput) → P input → IsAccount stage P (recorded input)
  by_report : (e : String) → IsAccount stage P (write_failed stage e)

abbrev pub IsFailure : AuditInput → Type 0
IsFailure input = (input.outcome ≡ AuditOutcome.failure) ⊎ (input.outcome ≡ denied)

abbrev pub IsSuccess : AuditInput → Type 0
IsSuccess input = (input.outcome ≡ AuditOutcome.success) ⊎ (input.outcome ≡ AuditOutcome.failure)

-- The account of a run: what is said of it fits how it ended.
pub data IsAccountOf {T E : Type 0} : Result E T → Effect → Type 0 where
  of_error : (e : E) (f : Effect) → IsAccount Stage.failure IsFailure f → IsAccountOf (error e) f
  of_ok : (t : T) (f : Effect) → IsAccount Stage.success IsSuccess f → IsAccountOf (ok t) f

write-IsAccount :
    {E : Type 0} (s : Surroundings E) (stage : Stage) (P : AuditInput → Type 0) (input : AuditInput)
    → P input
    → IsAccount stage P (write s stage input)
unfolding write written
write-IsAccount {E} s stage P input p = go (s.record_event input)
  where
    go : (r : Result E (Unit {0})) → IsAccount stage P (written s stage input r)
    go (ok _) = by_record input p
    go (error e) = by_report (s.failure_type e)

failure_outcome-IsFailure :
    (o : Option FailureOutcome)
    → (failure_outcome o ≡ AuditOutcome.failure) ⊎ (failure_outcome o ≡ denied)
failure_outcome-IsFailure none = inl refl
failure_outcome-IsFailure (some refused) = inr refl
failure_outcome-IsFailure (some broken) = inl refl

success_outcome-IsSuccess :
    (o : Option SuccessOutcome)
    → (success_outcome o ≡ AuditOutcome.success) ⊎ (success_outcome o ≡ AuditOutcome.failure)
success_outcome-IsSuccess none = inl refl
success_outcome-IsSuccess (some succeeded) = inl refl
success_outcome-IsSuccess (some failed) = inr refl

module _ {T E : Type 0} (s : Surroundings E) (o : Options T E) where
  success_effect-IsAccount :
      (i : Result E (Info SuccessOutcome))
      → IsAccount Stage.success IsSuccess (success_effect s o i)
  unfolding success_effect
  success_effect-IsAccount (error e) = by_report (s.failure_type e)
  success_effect-IsAccount (ok i) =
      write-IsAccount s Stage.success IsSuccess (success_input o i)
        (success_outcome-IsSuccess i.outcome)

  finished-IsAccountOf :
      (r : Result E T) → (f : Effect) × ((finished s o r ≡ ran ∷ f ∷ []) × IsAccountOf r f)
  unfolding finished
  finished-IsAccountOf (error e) = (
    write s Stage.failure (failure_input s o e),
    (
      refl,
      of_error e _ (
          write-IsAccount s Stage.failure IsFailure (failure_input s o e)
            (failure_outcome-IsFailure o.failure.outcome)),
    ),
  )
  finished-IsAccountOf (ok t) =
      (success_effect s o (o.success t), (refl, of_ok t _ (success_effect-IsAccount (o.success t))))

  -- Either the attempt could not be recorded: that is reported, the operation does not run and the
  -- error of the write is thrown; or the attempt is recorded first, the operation runs once, after it
  -- comes exactly one record or report of its end that fits how it ended, and the caller gets what
  -- the operation gave, whether or not that last record could be written.
  pub audited_operation_total :
      (r : Result E T)
      → ((e : E) × (s.record_event (attempt_input o) ≡ error e)
          × (audited_operation s o r
              ≡ (write_failed Stage.attempt (s.failure_type e) ∷ [], error e)))
        ⊎ ((f : Effect) × IsAccountOf r f
            × (audited_operation s o r ≡ (recorded (attempt_input o) ∷ ran ∷ f ∷ [], r)))
  unfolding audited_operation attempted
  audited_operation_total r = go (s.record_event (attempt_input o)) refl
    where
      go :
          (a : Result E (Unit {0}))
          → s.record_event (attempt_input o) ≡ a
          → ((e : E) × (s.record_event (attempt_input o) ≡ error e)
              × (attempted s o r a ≡ (write_failed Stage.attempt (s.failure_type e) ∷ [], error e)))
            ⊎ ((f : Effect) × IsAccountOf r f
                × (attempted s o r a ≡ (recorded (attempt_input o) ∷ ran ∷ f ∷ [], r)))
      go (error e) w = inl (e, w, refl)
      go (ok _) w =
          let (f, (eq, account)) = finished-IsAccountOf r in
          inr (f, account, ap (λ l. (recorded (attempt_input o) ∷ l, r)) eq)
