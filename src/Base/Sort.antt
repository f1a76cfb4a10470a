-- ===== src/Base/Sort.antt =====
-- sort.SliceStable as a stable insertion sort by a strict order test, with its laws.
use mathlib.Core.Path.{◌≡◌, refl, ap, ◌∙◌}
use mathlib.Core.Bool.{Bool, true, false, not, ◌&&◌}
use mathlib.Core.Logic.{inl, inr}
use mathlib.Core.List.{List, [], ◌∷◌, ◌++◌, map, Permᴰ}
use mathlib.Core.List.Permᴰ
use native.Mathlib.Omega.{arith}
use rout_wire.Base.Tests.{if◌then◌else◌, Bool-cases}
use rout_wire.Base.Lists.{All, Ordered, All-mono, All-perm, select, select-All}

module _ {ℓ} {A : Type ℓ} (lt : A → A → Bool) where
  -- An entry goes before the later ones that are not smaller, so that equal ones keep their order.
  unfoldable pub place : A → List A → List A
  place x [] = x ∷ []
  place x (y ∷ ys) = let rest = place x ys in if lt y x then y ∷ rest else x ∷ y ∷ ys

  unfoldable pub stable_sort : List A → List A
  unfolding place
  stable_sort [] = []
  stable_sort (x ∷ xs) = place x (stable_sort xs)

  -- No later entry is smaller.
  abbrev pub IsSorted : List A → Type 0
  IsSorted = Ordered (λ a b. lt b a ≡ false)

  pub place-perm : (x : A) (xs : List A) → Permᴰ (x ∷ xs) (place x xs)
  unfolding place
  place-perm x [] = Permᴰ.refl (x ∷ [])
  place-perm x (y ∷ ys) = elim (Bool-cases (lt y x)) [
    | inl e ↦ rw e (Permᴰ.trans (Permᴰ.swap refl refl) (Permᴰ.cons refl (place-perm x ys)))
    | inr e ↦ rw e (Permᴰ.refl (x ∷ y ∷ ys))
  ]

  pub stable_sort-perm : (xs : List A) → Permᴰ xs (stable_sort xs)
  unfolding stable_sort
  stable_sort-perm [] = Permᴰ.nil
  stable_sort-perm (x ∷ xs) =
      Permᴰ.trans (Permᴰ.cons refl (stable_sort-perm xs)) (place-perm x (stable_sort xs))

  module _ (asym : (a b : A) → lt a b ≡ true → lt b a ≡ false)
      (trans : (a b c : A) → lt b a ≡ false → lt c b ≡ false → lt c a ≡ false) where
    place-IsSorted : (x : A) (xs : List A) → IsSorted xs → IsSorted (place x xs)
    unfolding place
    place-IsSorted x [] h = (tt, tt)
    place-IsSorted x (y ∷ ys) h = elim (Bool-cases (lt y x)) [
      | inl e ↦ rw e (
        All-perm (λ b. lt b y ≡ false) (place-perm x ys) (asym y x e, h.0),
        place-IsSorted x ys h.1,
      )
      | inr e ↦ rw e ((e, All-mono (λ b k. trans x y b e k) ys h.0), h)
    ]

    pub stable_sort-IsSorted : (xs : List A) → IsSorted (stable_sort xs)
    unfolding stable_sort
    stable_sort-IsSorted [] = tt
    stable_sort-IsSorted (x ∷ xs) = place-IsSorted x (stable_sort xs) (stable_sort-IsSorted xs)

  -- A class that is never split by the order keeps its order: stability.
  module _ (p : A → Bool) (even : (a b : A) → p a ≡ true → p b ≡ true → lt b a ≡ false) where
    select-place : (x : A) (xs : List A) → select p (place x xs) ≡ select p (x ∷ xs)
    unfolding place
    select-place x [] = refl
    select-place x (y ∷ ys) = ground (arith, even x y, select-place x ys)

    pub select-stable_sort : (xs : List A) → select p (stable_sort xs) ≡ select p xs
    unfolding stable_sort
    select-stable_sort [] = refl
    select-stable_sort (x ∷ xs) =
        ground (arith, select-place x (stable_sort xs), select-stable_sort xs)

-- Sorting by what a function gives is sorting and then applying it.
module _ {ℓ κ} {A : Type ℓ} {B : Type κ} (f : A → B) (lt : B → B → Bool) where
  place-map :
      (x : A) (xs : List A) → place lt (f x) (map f xs) ≡ map f (place (λ a b. lt (f a) (f b)) x xs)
  unfolding place
  place-map x [] = refl
  place-map x (y ∷ ys) = elim (Bool-cases (lt (f y) (f x))) [
    | inl e ↦ rw e (ap (λ zs. f y ∷ zs) (place-map x ys))
    | inr e ↦ rw e refl
  ]

  pub stable_sort-map :
      (xs : List A) → stable_sort lt (map f xs) ≡ map f (stable_sort (λ a b. lt (f a) (f b)) xs)
  unfolding stable_sort
  stable_sort-map [] = refl
  stable_sort-map (x ∷ xs) =
      ap (place lt (f x)) (stable_sort-map xs)
      ∙ place-map x (stable_sort (λ a b. lt (f a) (f b)) xs)

-- Sorting by a test puts those that pass it first, each part in its old order.
module _ {ℓ} {A : Type ℓ} (p : A → Bool) (lt : A → A → Bool)
    (two : (a b : A) → lt a b ≡ (p a && not (p b))) where
  place-first :
      (x : A) (xs ys : List A)
      → p x ≡ true
      → All (λ a. p a ≡ true) xs
      → All (λ a. p a ≡ false) ys
      → place lt x (xs ++ ys) ≡ x ∷ (xs ++ ys)
  unfolding place
  place-first x [] [] px h k = refl
  place-first x [] (y ∷ ys) px h k = ground (arith, two y x)
  place-first x (y ∷ xs) ys px h k = ground (arith, two y x)

  place-last :
      (x : A) (xs ys : List A)
      → p x ≡ false
      → All (λ a. p a ≡ true) xs
      → All (λ a. p a ≡ false) ys
      → place lt x (xs ++ ys) ≡ xs ++ (x ∷ ys)
  unfolding place
  place-last x [] [] px h k = refl
  place-last x [] (y ∷ ys) px h k = ground (arith, two y x)
  place-last x (y ∷ xs) ys px h k =
      let e : lt y x ≡ true = ground (arith, two y x) in
      rw e (ap (λ zs. y ∷ zs) (place-last x xs ys px h.1 k))

  pub stable_sort-halves :
      (xs : List A) → stable_sort lt xs ≡ select p xs ++ select (λ a. not (p a)) xs
  unfolding stable_sort
  stable_sort-halves [] = refl
  stable_sort-halves (x ∷ xs) =
      let lows = select-All p xs in
      let highs = All-mono (λ a k. ground arith) _ (select-All (λ a. not (p a)) xs) in
      ap (place lt x) (stable_sort-halves xs) ∙ elim (Bool-cases (p x)) [
        | inl e ↦ rw e (place-first x _ _ e lows highs)
        | inr e ↦ rw e (place-last x _ _ e lows highs)
      ]
