-- ===== src/Prelude/Sorting.antt =====
-- `xs.sort(compare)`, which is stable, by a strict Boolean order: `compare(a, b) < 0`.
use mathlib.Core.Path.{◌≡◌, refl, sym, ap, subst}
use mathlib.Core.Logic.{◌⊎◌, inl, inr}
use mathlib.Core.Bool.{Bool, true, false}
use mathlib.Core.List.{List, [], ◌∷◌, map}
use native.Mathlib.Omega.{arith}
use vrrelay.Prelude.Tests.{if◌then◌else◌, Bool-cases}
use vrrelay.Prelude.Lists.{All, filter}

-- One of the list's elements.
abbrev pub Member : {A : Type 0} → A → List A → Type 0
Member a [] = ⊥
Member a (x ∷ xs) = (a ≡ x) ⊎ Member a xs

module _ {ℓ} {A : Type ℓ} where
  unfoldable pub insert : (A → A → Bool) → A → List A → List A
  insert lt x [] = x ∷ []
  insert lt x (y ∷ ys) = let rest = insert lt x ys in if lt y x then y ∷ rest else x ∷ y ∷ ys

  unfoldable pub sort : (A → A → Bool) → List A → List A
  unfolding insert
  sort lt [] = []
  sort lt (x ∷ xs) = insert lt x (sort lt xs)

module _ {A B : Type 0} (f : A → B) where
  pub Member-map : (b : B) (xs : List A) → Member b (map f xs) → (a : A) × Member a xs × (b ≡ f a)
  Member-map b [] m = absurd m
  Member-map b (x ∷ xs) (inl e) = (x, inl refl, e)
  Member-map b (x ∷ xs) (inr m) = let (a, there, e) = Member-map b xs m in (a, inr there, e)

  pub map-Member : (a : A) (xs : List A) → Member a xs → Member (f a) (map f xs)
  map-Member a [] m = m
  map-Member a (x ∷ xs) (inl e) = inl (ap f e)
  map-Member a (x ∷ xs) (inr m) = inr (map-Member a xs m)

pub All-Member : {A : Type 0} (P : A → Type 0) (a : A) (xs : List A) → All P xs → Member a xs → P a
All-Member P a [] h m = absurd m
All-Member P a (x ∷ xs) (h, _) (inl e) = subst P (sym e) h
All-Member P a (x ∷ xs) (_, h) (inr m) = All-Member P a xs h m

pub Member-All :
    {A : Type 0} (P : A → Type 0) (xs : List A) → ((a : A) → Member a xs → P a) → All P xs
Member-All P [] h = tt
Member-All P (x ∷ xs) h = (h x (inl refl), Member-All P xs (λ a m. h a (inr m)))

-- What a comparison must satisfy for `sort` to put a least element first.
pub record IsOrder {A : Type 0} (lt : A → A → Bool) : Type 0 where
  pub irreflexive : (a : A) → lt a a ≡ false
  pub asymmetric : (a b : A) → lt a b ≡ true → lt b a ≡ false
  pub transitive : (a b c : A) → lt b a ≡ false → lt c b ≡ false → lt c a ≡ false

module _ {A : Type 0} (lt : A → A → Bool) (o : IsOrder lt) where
  below :
      (y x : A) (zs : List A)
      → lt y x ≡ false
      → All (λ z. lt z y ≡ false) zs
      → All (λ z. lt z x ≡ false) zs
  below y x [] h a = tt
  below y x (z ∷ zs) h (a, rest) = (o.transitive x y z h a, below y x zs h rest)

  pub sort-nil : (xs : List A) → sort lt xs ≡ [] → xs ≡ []
  unfolding sort
  sort-nil [] e = refl
  sort-nil (x ∷ xs) e = absurd (insert_nonempty (sort lt xs) e)
    where
      insert_nonempty : (ys : List A) → insert lt x ys ≡ [] → ⊥
      insert_nonempty [] f = cc
      insert_nonempty (y ∷ ys) f = ground arith

  insert_head :
      (x w : A) (xs ys rest : List A)
      → ((v : A) (vs : List A) → ys ≡ v ∷ vs → Member v xs × All (λ z. lt z v ≡ false) xs)
      → (ys ≡ [] → xs ≡ [])
      → insert lt x ys ≡ w ∷ rest
      → Member w (x ∷ xs) × All (λ z. lt z w ≡ false) (x ∷ xs)
  unfolding insert
  insert_head x w xs [] rest ih empty f =
      let same : w ≡ x = cc (f) in rw (same, empty refl) (inl refl, (o.irreflexive x, tt))
  insert_head x w xs (y ∷ ys) rest ih empty f =
      let (there, least) = ih y ys refl in
      elim (Bool-cases (lt y x)) [
        | inl h ↦
            let same : w ≡ y = ground arith in
            subst Heads (sym same) (inr there, (o.asymmetric y x h, least))
        | inr h ↦
            let same : w ≡ x = ground arith in
            subst Heads (sym same) (inl refl, (o.irreflexive x, below y x xs h least))
      ]
    where
      Heads : A → Type 0
      Heads v = Member v (x ∷ xs) × All (λ z. lt z v ≡ false) (x ∷ xs)

  -- The head of a sorted list is an element before which no element comes.
  pub sort_head :
      (xs : List A) (w : A) (rest : List A)
      → sort lt xs ≡ w ∷ rest
      → Member w xs × All (λ x. lt x w ≡ false) xs
  unfolding sort
  sort_head [] w rest e = cc
  sort_head (x ∷ xs) w rest e = insert_head x w xs (sort lt xs) rest (sort_head xs) (sort-nil xs) e

module _ {A : Type 0} (p : A → Bool) where
  pub filter-Member : (a : A) (xs : List A) → Member a xs → p a ≡ true → Member a (filter p xs)
  filter-Member a [] m h = absurd m
  filter-Member a (x ∷ xs) (inl e) h = rw (sym_test x a e h) (inl e)
    where
      sym_test : (x a : A) → a ≡ x → p a ≡ true → p x ≡ true
      sym_test x a e h = ground (arith, e, h)
  filter-Member a (x ∷ xs) (inr m) h = elim (Bool-cases (p x)) [
    | inl y ↦ rw y (inr (filter-Member a xs m h))
    | inr n ↦ rw n (filter-Member a xs m h)
  ]

  pub Member-filter : (a : A) (xs : List A) → Member a (filter p xs) → Member a xs × (p a ≡ true)
  Member-filter a [] m = absurd m
  Member-filter a (x ∷ xs) m = by_test (Member-filter a xs) (p x) refl m
    where
      by_test :
          (Member a (filter p xs) → Member a xs × (p a ≡ true))
          → (b : Bool) → p x ≡ b
          → Member a (if b then x ∷ filter p xs else filter p xs)
          → Member a (x ∷ xs) × (p a ≡ true)
      by_test ih true h (inl e) = (inl e, ground (arith, e, h))
      by_test ih true h (inr k) = let (there, q) = ih k in (inr there, q)
      by_test ih false h k = let (there, q) = ih k in (inr there, q)
