-- ===== src/Producer/History.antt =====
-- The history of attempts that a producer's record keeps.
use vrrelay.Prelude.{
  ℕ, zero, suc, ◌+◌, ◌-◌, ◌≤◌, String, ◌≡◌, refl, true, false, Option, none, some, List, [], ◌∷◌,
  ◌++◌, length, drop, arith, All, length-drop,
}
use vrrelay.Producer.Record.{
  ProducerState, AttemptState, BufferState, Attempt, VodProducer, is_startable,
}
use vrrelay.Producer.Updates.{
  is_running, close_last, finish_attempt, started, first_attempt, set_running, set_lease,
  set_published, set_demand, set_complete, set_failed, set_stopped, set_recovered,
}

-- No attempt runs.
abbrev pub AllClosed : List Attempt → Type 0
AllClosed = All (λ a. is_running a.state ≡ false)

-- No attempt runs but perhaps the last, and that only in the given generation.
abbrev pub OnlyLast : ℕ → List Attempt → Type 0
OnlyLast g [] = Unit
OnlyLast g (a ∷ []) = (is_running a.state ≡ true) → (a.generation ≡ g)
OnlyLast g (a ∷ b ∷ rest) = (is_running a.state ≡ false) × OnlyLast g (b ∷ rest)

AllClosed-close_last :
    (g : ℕ) (s : AttemptState) (e : Option String) (now : ℕ) (h : List Attempt)
    → is_running s ≡ false
    → OnlyLast g h
    → AllClosed (close_last g s e now h)
unfolding close_last
AllClosed-close_last g s e now [] c o = tt
AllClosed-close_last g s e now (a ∷ []) c o = (ground arith, tt)
AllClosed-close_last g s e now (a ∷ b ∷ rest) c (o, os) =
    (o, AllClosed-close_last g s e now (b ∷ rest) c os)

AllClosed-drop : (n : ℕ) (h : List Attempt) → AllClosed h → AllClosed (drop n h)
AllClosed-drop zero h c = c
AllClosed-drop (suc n) [] c = c
AllClosed-drop (suc n) (a ∷ h) (_, c) = AllClosed-drop n h c

AllClosed-OnlyLast : (g : ℕ) (h : List Attempt) → AllClosed h → OnlyLast g h
AllClosed-OnlyLast g [] c = tt
AllClosed-OnlyLast g (a ∷ []) (c, _) = λ r. cc
AllClosed-OnlyLast g (a ∷ b ∷ rest) (c, cs) = (c, AllClosed-OnlyLast g (b ∷ rest) cs)

OnlyLast-append :
    (g : ℕ) (a : Attempt) (h : List Attempt)
    → AllClosed h
    → a.generation ≡ g
    → OnlyLast g (h ++ a ∷ [])
OnlyLast-append g a [] c e = λ _. e
OnlyLast-append g a (b ∷ []) (c, _) e = (c, λ _. e)
OnlyLast-append g a (b ∷ b' ∷ rest) (c, cs) e = (c, OnlyLast-append g a (b' ∷ rest) cs e)

-- A record's history: at most the last attempt runs, in the record's generation, and none does
-- unless the record is starting or running.
pub record IsConsistent (p : VodProducer) : Type 0 where
  pub only_last : OnlyLast p.generation p.worker_history
  pub idle_closed : is_startable p.state ≡ true → AllClosed p.worker_history

finish-AllClosed :
    (p : VodProducer) (s : AttemptState) (e : Option String) (now : ℕ)
    → is_running s ≡ false
    → IsConsistent p
    → AllClosed (finish_attempt p s e now).worker_history
unfolding finish_attempt
finish-AllClosed p s e now c h =
    AllClosed-drop _ _ (AllClosed-close_last p.generation s e now p.worker_history c h.only_last)

-- An update of a record that exists. A start has the session, the node, the index, the two times to
-- live and the time.
pub data Update : Type 0 where
  starts : String → String → ℕ → ℕ → ℕ → ℕ → Update
  runs : ℕ → Update
  renews : ℕ → ℕ → Update
  publishes : ℕ → BufferState → ℕ → ℕ → Update
  demands : ℕ → ℕ → ℕ → BufferState → ℕ → ℕ → ℕ → Update
  completes : ℕ → Update
  fails : Option String → ℕ → Update
  stops : ProducerState → ℕ → Update
  recovers : ℕ → Update

unfoldable pub update : Update → VodProducer → VodProducer
update (starts session node index lease_ms idle_ms now) p =
    started (some p) session node index lease_ms idle_ms now
update (runs now) p = set_running now p
update (renews lease_ms now) p = set_lease lease_ms now p
update (publishes index pace lease_ms now) p = set_published index pace lease_ms now p
update (demands index anchor anchor_at pace at idle_ms now) p =
    set_demand index anchor anchor_at pace at idle_ms now p
update (completes now) p = set_complete now p
update (fails message now) p = set_failed message now p
update (stops state now) p = set_stopped state now p
update (recovers now) p = set_recovered now p

-- A start is only written over a record in a state that allows it (the compare-and-set tests that); the
-- other updates are written over any.
abbrev pub IsAllowed : Update → VodProducer → Type 0
IsAllowed (starts session node index lease_ms idle_ms now) p = is_startable p.state ≡ true
IsAllowed _ p = Unit

closed-IsConsistent : (p : VodProducer) → AllClosed p.worker_history → IsConsistent p
closed-IsConsistent p c = record {
  only_last = AllClosed-OnlyLast p.generation p.worker_history c;
  idle_closed = λ _. c;
}

-- A start over a consistent record in a state from which a start is allowed leaves a consistent one:
-- of the former attempts none runs, and the new one is of the next generation.
started-IsConsistent :
    (former : VodProducer) (session node : String) (index lease_ms idle_ms now : ℕ)
    → IsConsistent former
    → is_startable former.state ≡ true
    → IsConsistent (started (some former) session node index lease_ms idle_ms now)
      × AllClosed former.worker_history
      × ((started (some former) session node index lease_ms idle_ms now).generation
          ≡ former.generation + 1)
unfolding started
started-IsConsistent former session node index lease_ms idle_ms now h s = (
  record {
    only_last =
        OnlyLast-append _ (first_attempt (some former) node index now) former.worker_history
          (h.idle_closed s) refl;
    idle_closed = λ e. cc;
  },
  h.idle_closed s,
  refl,
)

-- Every update that the coordinator writes over a record keeps the history consistent: at most the last
-- attempt runs, in the record's generation, and none does unless the record is starting or running.
-- A start has to be over a record in a state that allows it; the others may be over any.
pub update-IsConsistent :
    (u : Update) (p : VodProducer) → IsAllowed u p → IsConsistent p → IsConsistent (update u p)
unfolding update set_running set_lease set_published set_demand set_complete set_failed set_stopped
    set_recovered
update-IsConsistent (starts session node index lease_ms idle_ms now) p a h =
    (started-IsConsistent p session node index lease_ms idle_ms now h a).0
update-IsConsistent (runs now) p a h = record { only_last = h.only_last; idle_closed = λ e. cc }
update-IsConsistent (renews lease_ms now) p a h = record {
  only_last = h.only_last;
  idle_closed = h.idle_closed;
}
update-IsConsistent (publishes index pace lease_ms now) p a h = record {
  only_last = h.only_last;
  idle_closed = λ e. cc;
}
update-IsConsistent (demands index anchor anchor_at pace at idle_ms now) p a h = record {
  only_last = h.only_last;
  idle_closed = h.idle_closed;
}
update-IsConsistent (completes now) p a h =
    closed-IsConsistent _ (finish-AllClosed p AttemptState.complete none now refl h)
update-IsConsistent (fails message now) p a h =
    closed-IsConsistent _ (finish-AllClosed p AttemptState.failed message now refl h)
update-IsConsistent (stops state now) p a h =
    closed-IsConsistent _ (finish-AllClosed p AttemptState.cancelled none now refl h)
update-IsConsistent (recovers now) p a h =
    closed-IsConsistent _
      (finish-AllClosed p AttemptState.failed (some "Recovered expired producer lease") now refl h)

-- A finished history never holds more than a hundred attempts.
pub finish_attempt-length :
    (p : VodProducer) (s : AttemptState) (e : Option String) (now : ℕ)
    → length (finish_attempt p s e now).worker_history ≤ 100
unfolding finish_attempt
finish_attempt-length p s e now = omega (
  arith,
  length-drop {0} (length (close_last p.generation s e now p.worker_history) - 100)
      (close_last p.generation s e now p.worker_history),
)
