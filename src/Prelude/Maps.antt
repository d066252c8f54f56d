-- ===== src/Prelude/Maps.antt =====
-- JavaScript's `Map` with string keys: an association list in insertion order. A map built by `set`
-- from the empty one has each key once.
use Prim.Native.String.{String}
use mathlib.Core.Path.{◌≡◌, refl}
use mathlib.Core.Bool.{Bool}
use mathlib.Core.Option.{Option, none, some}
use mathlib.Core.List.{List, [], ◌∷◌}
use native.Mathlib.Omega.{arith}
use text.Mathlib.Text.{◌==◌ as str_eq}
use text.Mathlib.TextEquality.{eq_iff}
use vrrelay.Prelude.Tests.{if◌then◌else◌, is_some, or_else}

abbrev pub Map {ℓ} : Type ℓ → Type ℓ
Map V = List (String × V)

module _ {ℓ} {V : Type ℓ} where
  unfoldable pub get : String → Map V → Option V
  get k [] = none
  get k ((j, v) ∷ m) = if str_eq j k then some v else get k m

  -- An existing key keeps its place, a new one goes to the end.
  unfoldable pub set : String → V → Map V → Map V
  set k v [] = (k, v) ∷ []
  set k v ((j, w) ∷ m) = let rest = set k v m in if str_eq j k then (j, v) ∷ m else (j, w) ∷ rest

  unfoldable pub delete : String → Map V → Map V
  delete k [] = []
  delete k ((j, v) ∷ m) = let rest = delete k m in if str_eq j k then rest else (j, v) ∷ rest

  abbrev pub has : String → Map V → Bool
  has k m = is_some (get k m)

  pub get-set :
      (j k : String) (v : V) (m : Map V)
      → get j (set k v m) ≡ (if str_eq k j then some v else get j m)
  unfolding get set
  get-set j k v [] = refl
  get-set j k v ((i, w) ∷ m) = ground (arith, get-set j k v m, eq_iff i k, eq_iff i j, eq_iff k j)

  pub get-delete :
      (j k : String) (m : Map V) → get j (delete k m) ≡ (if str_eq k j then none else get j m)
  unfolding get delete
  get-delete j k [] = ground arith
  get-delete j k ((i, w) ∷ m) = ground (arith, get-delete j k m, eq_iff i k, eq_iff i j, eq_iff k j)

  pub get-nil : (k : String) → get k [] ≡ none
  unfolding get
  get-nil k = refl

-- A map of maps, in which an inner map that becomes empty is removed.
module _ {ℓ} {V : Type ℓ} where
  unfoldable pub put_inner : String → Map V → Map (Map V) → Map (Map V)
  put_inner k [] all = delete k all
  put_inner k (e ∷ m) all = set k (e ∷ m) all

  unfoldable pub inner : String → Map (Map V) → Map V
  inner k all = or_else (get k all) []

  pub inner-put_inner :
      (j k : String) (m : Map V) (all : Map (Map V))
      → inner j (put_inner k m all) ≡ (if str_eq k j then m else inner j all)
  unfolding inner put_inner
  inner-put_inner j k [] all = ground (arith, get-delete j k all)
  inner-put_inner j k (e ∷ m) all = ground (arith, get-set j k (e ∷ m) all)
