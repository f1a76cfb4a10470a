-- ===== src/Base/Lists.antt =====
-- Lists measured by native numbers, predicates on lists by recursion, and a Boolean filter.
use Prim.Native.Nat.{ℕ, zero, suc, ◌+◌, ◌≤◌}
use mathlib.Core.Path.{◌≡◌, refl, subst, sym, ◌∙◌}
use mathlib.Core.Logic.{inl, inr}
use mathlib.Core.Bool.{Bool, true, false, ◌||◌}
use mathlib.Core.List.{List, [], ◌∷◌, ◌++◌, Memᴰ, Permᴰ}
use native.Mathlib.Omega.{arith}
use rout_wire.Base.Tests.{if◌then◌else◌, Bool-cases}

module _ {ℓ} {A : Type ℓ} where
  abbrev pub length : List A → ℕ
  length [] = 0
  length (x ∷ xs) = suc (length xs)

  abbrev pub take : ℕ → List A → List A
  take zero xs = []
  take (suc n) [] = []
  take (suc n) (x ∷ xs) = x ∷ take n xs

  abbrev pub drop : ℕ → List A → List A
  drop zero xs = xs
  drop (suc n) [] = []
  drop (suc n) (x ∷ xs) = drop n xs

  pub length-append : (xs ys : List A) → length (xs ++ ys) ≡ length xs + length ys
  length-append [] ys = omega arith
  length-append (x ∷ xs) ys = omega (arith, length-append xs ys)

  pub length-take-le : (n : ℕ) (xs : List A) → length (take n xs) ≤ n
  length-take-le zero xs = omega arith
  length-take-le (suc n) [] = omega arith
  length-take-le (suc n) (x ∷ xs) = omega (arith, length-take-le n xs)

  pub length-take_of_le : (n : ℕ) (xs : List A) → n ≤ length xs → length (take n xs) ≡ n
  length-take_of_le zero xs h = refl
  length-take_of_le (suc n) [] h = absurd (omega arith)
  length-take_of_le (suc n) (x ∷ xs) h = omega (arith, length-take_of_le n xs (omega arith))

  pub take-append-drop : (n : ℕ) (xs : List A) → take n xs ++ drop n xs ≡ xs
  take-append-drop zero xs = refl
  take-append-drop (suc n) [] = refl
  take-append-drop (suc n) (x ∷ xs) = rw (take-append-drop n xs)

  -- The entries that pass a Boolean test, in order.
  abbrev pub select : (A → Bool) → List A → List A
  select p [] = []
  select p (x ∷ xs) = if p x then x ∷ select p xs else select p xs

  -- Some entry passes the test.
  abbrev pub any : (A → Bool) → List A → Bool
  any p [] = false
  any p (x ∷ xs) = p x || any p xs

module _ {ℓ κ} {A : Type ℓ} where
  abbrev pub All : (A → Type κ) → List A → Type κ
  All P [] = Unit
  All P (x ∷ xs) = P x × All P xs

  -- Each entry is related to every later one.
  abbrev pub Ordered : (A → A → Type κ) → List A → Type κ
  Ordered R [] = Unit
  Ordered R (x ∷ xs) = All (R x) xs × Ordered R xs

  pub All-of_mem : {P : A → Type κ} (xs : List A) → ((a : A) → Memᴰ a xs → P a) → All P xs
  All-of_mem [] h = tt
  All-of_mem (x ∷ xs) h = (h x (Memᴰ.head refl), All-of_mem xs (λ a m. h a (Memᴰ.tail m)))

  pub mem_of_All : (P : A → Type κ) (a : A) (xs : List A) → All P xs → Memᴰ a xs → P a
  mem_of_All P a (x ∷ xs) h (Memᴰ.head e) = subst P (sym e) h.0
  mem_of_All P a (x ∷ xs) h (Memᴰ.tail m) = mem_of_All P a xs h.1 m
  mem_of_All P a [] h m = elim m [ ]

  pub All-append : (P : A → Type κ) (xs ys : List A) → All P xs → All P ys → All P (xs ++ ys)
  All-append P [] ys h k = k
  All-append P (x ∷ xs) ys h k = (h.0, All-append P xs ys h.1 k)

  pub All-select : (P : A → Type κ) (p : A → Bool) (xs : List A) → All P xs → All P (select p xs)
  All-select P p [] h = tt
  All-select P p (x ∷ xs) h = elim (Bool-cases (p x)) [
    | inl e ↦ rw e (h.0, All-select P p xs h.1)
    | inr e ↦ rw e (All-select P p xs h.1)
  ]

  pub All-take : (P : A → Type κ) (n : ℕ) (xs : List A) → All P xs → All P (take n xs)
  All-take P zero xs h = tt
  All-take P (suc n) [] h = tt
  All-take P (suc n) (x ∷ xs) h = (h.0, All-take P n xs h.1)

  pub All-perm : (P : A → Type κ) {xs ys : List A} → Permᴰ xs ys → All P xs → All P ys
  All-perm P Permᴰ.nil h = tt
  All-perm P (Permᴰ.cons e p) h = (subst P e h.0, All-perm P p h.1)
  All-perm P (Permᴰ.swap e f) h = (subst P f h.1.0, (subst P e h.0, h.1.1))
  All-perm P (Permᴰ.trans p q) h = All-perm P q (All-perm P p h)

module _ {ℓ κ ι} {A : Type ℓ} where
  pub All-mono :
      {P : A → Type κ} {Q : A → Type ι} (f : (a : A) → P a → Q a) (xs : List A)
      → All P xs
      → All Q xs
  All-mono f [] h = tt
  All-mono f (x ∷ xs) h = (f x h.0, All-mono f xs h.1)

module _ {ℓ κ} {A : Type ℓ} where
  pub All-drop : (P : A → Type κ) (n : ℕ) (xs : List A) → All P xs → All P (drop n xs)
  All-drop P zero xs h = h
  All-drop P (suc n) [] h = tt
  All-drop P (suc n) (x ∷ xs) h = All-drop P n xs h.1

  -- In an ordered list every entry of the front part is related to every one of the back part.
  pub Ordered-split :
      (R : A → A → Type κ) (n : ℕ) (xs : List A)
      → Ordered R xs
      → All (λ a. All (R a) (drop n xs)) (take n xs)
  Ordered-split R zero xs h = tt
  Ordered-split R (suc n) [] h = tt
  Ordered-split R (suc n) (x ∷ xs) h = (All-drop (R x) n xs h.0, Ordered-split R n xs h.1)

module _ {ℓ} {A : Type ℓ} where
  pub drop_all : (n : ℕ) (xs : List A) → length xs ≤ n → drop n xs ≡ []
  drop_all zero [] h = refl
  drop_all zero (x ∷ xs) h = absurd (omega arith)
  drop_all (suc n) [] h = refl
  drop_all (suc n) (x ∷ xs) h = drop_all n xs (omega arith)

  pub length-perm : {xs ys : List A} → Permᴰ xs ys → length xs ≡ length ys
  length-perm Permᴰ.nil = refl
  length-perm (Permᴰ.cons e p) = omega (arith, length-perm p)
  length-perm (Permᴰ.swap e f) = refl
  length-perm (Permᴰ.trans p q) = omega (arith, length-perm p, length-perm q)

module _ {ℓ} {A : Type ℓ} where
  pub mem-perm : {a : A} {xs ys : List A} → Permᴰ xs ys → Memᴰ a xs → Memᴰ a ys
  mem-perm Permᴰ.nil m = m
  mem-perm (Permᴰ.cons e p) (Memᴰ.head f) = Memᴰ.head (f ∙ e)
  mem-perm (Permᴰ.cons e p) (Memᴰ.tail m) = Memᴰ.tail (mem-perm p m)
  mem-perm (Permᴰ.swap e f) (Memᴰ.head g) = Memᴰ.tail (Memᴰ.head (g ∙ e))
  mem-perm (Permᴰ.swap e f) (Memᴰ.tail (Memᴰ.head g)) = Memᴰ.head (g ∙ f)
  mem-perm (Permᴰ.swap e f) (Memᴰ.tail (Memᴰ.tail m)) = Memᴰ.tail (Memᴰ.tail m)
  mem-perm (Permᴰ.trans p q) m = mem-perm q (mem-perm p m)

  pub perm_symm : {xs ys : List A} → Permᴰ xs ys → Permᴰ ys xs
  perm_symm Permᴰ.nil = Permᴰ.nil
  perm_symm (Permᴰ.cons e p) = Permᴰ.cons (sym e) (perm_symm p)
  perm_symm (Permᴰ.swap e f) = Permᴰ.swap (sym f) (sym e)
  perm_symm (Permᴰ.trans p q) = Permᴰ.trans (perm_symm q) (perm_symm p)

module _ {ℓ κ} {A : Type ℓ} where
  -- A symmetric relation between all the entries does not depend on their order.
  pub Ordered-perm :
      (R : A → A → Type κ)
      → ((a b : A) → R a b → R b a)
      → {xs ys : List A} → Permᴰ xs ys
      → Ordered R xs
      → Ordered R ys
  Ordered-perm R s Permᴰ.nil h = h
  Ordered-perm R s (Permᴰ.cons {b = b} {l₂ = l} e p) h =
      (subst (λ x. All (R x) l) e (All-perm (R _) p h.0), Ordered-perm R s p h.1)
  Ordered-perm R s (Permᴰ.swap {a = a} {b = b} {l = l} e f) h = (
    (subst (R _) e (subst (λ x. R x a) f (s a b h.0.0)), subst (λ x. All (R x) l) f h.1.0),
    (subst (λ x. All (R x) l) e h.0.1, h.1.1),
  )
  Ordered-perm R s (Permᴰ.trans p q) h = Ordered-perm R s q (Ordered-perm R s p h)

module _ {ℓ κ} {A : Type ℓ} (R : A → A → Type κ) where
  pub Ordered-take : (n : ℕ) (xs : List A) → Ordered R xs → Ordered R (take n xs)
  Ordered-take zero xs h = tt
  Ordered-take (suc n) [] h = tt
  Ordered-take (suc n) (x ∷ xs) h = (All-take (R x) n xs h.0, Ordered-take n xs h.1)

  pub Ordered-select : (p : A → Bool) (xs : List A) → Ordered R xs → Ordered R (select p xs)
  Ordered-select p [] h = tt
  Ordered-select p (x ∷ xs) h = elim (Bool-cases (p x)) [
    | inl e ↦ rw e (All-select (R x) p xs h.0, Ordered-select p xs h.1)
    | inr e ↦ rw e (Ordered-select p xs h.1)
  ]

  pub Ordered-append :
      (xs ys : List A)
      → Ordered R xs
      → Ordered R ys
      → All (λ x. All (R x) ys) xs
      → Ordered R (xs ++ ys)
  Ordered-append [] ys h k c = k
  Ordered-append (x ∷ xs) ys h k c =
      (All-append (R x) xs ys h.0 c.0, Ordered-append xs ys h.1 k c.1)

module _ {ℓ} {A : Type ℓ} where
  -- What is selected passes the test.
  pub select-All : (p : A → Bool) (xs : List A) → All (λ x. p x ≡ true) (select p xs)
  select-All p [] = tt
  select-All p (x ∷ xs) = elim (Bool-cases (p x)) [
    | inl e ↦ rw e (e, select-All p xs)
    | inr e ↦ rw e (select-All p xs)
  ]

pub Ordered-mono {ℓ κ ι} :
    {A : Type ℓ} {R : A → A → Type κ} {S : A → A → Type ι}
    → ((a b : A) → R a b → S a b)
    → (xs : List A) → Ordered R xs
    → Ordered S xs
Ordered-mono f [] h = tt
Ordered-mono f (x ∷ xs) h = (All-mono (f x) xs h.0, Ordered-mono f xs h.1)
