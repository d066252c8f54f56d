-- ===== src/Prelude/Unique.antt =====
-- Maps in which each key stands once, as every JavaScript `Map` does, and what `set`, `delete` and
-- the removal of entries during an iteration do to them.
use Prim.Native.String.{String}
use mathlib.Core.Path.{◌≡◌, refl}
use mathlib.Core.Logic.{inl, inr}
use mathlib.Core.Bool.{Bool}
use mathlib.Core.Option.{Option, none, some}
use mathlib.Core.List.{[], ◌∷◌}
use native.Mathlib.Omega.{arith}
use text.Mathlib.Text.{◌==◌ as str_eq}
use text.Mathlib.TextEquality.{eq_iff}
use vrrelay.Prelude.Tests.{if◌then◌else◌, Bool-cases}
use vrrelay.Prelude.Lists.{filter}
use vrrelay.Prelude.Maps.{Map, get, set, delete, get-set, get-delete}

module _ {ℓ} {V : Type ℓ} where
  abbrev pub Unique : Map V → Type ℓ
  Unique [] = Unit
  Unique ((k, v) ∷ m) = (get k m ≡ none) × Unique m

  -- What is left of an entry by a loop that deletes the entries failing a test.
  abbrev pub keep_if : (V → Bool) → Option V → Option V
  keep_if p none = none
  keep_if p (some v) = if p v then some v else none

  -- `for (const [key, value] of m) if (!p(value)) m.delete(key)`
  unfoldable pub retain : (V → Bool) → Map V → Map V
  retain p m = filter (λ e. p e.1) m

  pub get-retain_absent :
      (p : V → Bool) (k : String) (m : Map V) → get k m ≡ none → get k (retain p m) ≡ none
  unfolding get retain
  get-retain_absent p k [] h = refl
  get-retain_absent p k ((j, v) ∷ m) h = ground (arith, get-retain_absent p k m)

  pub get-retain :
      (p : V → Bool) (k : String) (m : Map V) → Unique m → get k (retain p m) ≡ keep_if p (get k m)
  unfolding get retain
  get-retain p k [] u = refl
  get-retain p k ((j, v) ∷ m) (fresh, u) =
      ground (arith, get-retain p k m u, eq_iff j k, get-retain_absent p j m fresh)

  pub retain-Unique : (p : V → Bool) (m : Map V) → Unique m → Unique (retain p m)
  unfolding retain
  retain-Unique p [] u = tt
  retain-Unique p ((j, v) ∷ m) (fresh, u) = elim (Bool-cases (p v)) [
    | inl e ↦ rw e (get-retain_absent p j m fresh, retain-Unique p m u)
    | inr e ↦ rw e (retain-Unique p m u)
  ]

  pub set-Unique : (k : String) (v : V) (m : Map V) → Unique m → Unique (set k v m)
  unfolding set get
  set-Unique k v [] u = (refl, tt)
  set-Unique k v ((j, w) ∷ m) (fresh, u) = elim (Bool-cases (str_eq j k)) [
    | inl e ↦ rw e (fresh, u)
    | inr e ↦ rw e (ground (arith, get-set j k v m, eq_iff j k, eq_iff k j), set-Unique k v m u)
  ]

  pub delete-Unique : (k : String) (m : Map V) → Unique m → Unique (delete k m)
  unfolding delete
  delete-Unique k [] u = tt
  delete-Unique k ((j, w) ∷ m) (fresh, u) = elim (Bool-cases (str_eq j k)) [
    | inl e ↦ rw e (delete-Unique k m u)
    | inr e ↦ rw e (ground (arith, get-delete j k m), delete-Unique k m u)
  ]

  pub retain-retain : (p : V → Bool) (m : Map V) → retain p (retain p m) ≡ retain p m
  unfolding retain
  retain-retain p [] = refl
  retain-retain p ((j, v) ∷ m) = ground (arith, retain-retain p m)
