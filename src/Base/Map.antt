-- ===== src/Base/Map.antt =====
-- Go's maps with string keys, and with keys that are byte arrays, as association lists. The order
-- of the entries is one of the orders in which a `range` may visit them.
use mathlib.Core.Path.{◌≡◌, refl, sym, ap}
use mathlib.Core.Bool.{Bool, true, false}
use mathlib.Core.Option.{Option, none, some}
use mathlib.Core.List.{List, [], ◌∷◌, Memᴰ}
use mathlib.Core.Logic.{inl, inr}
use native.Mathlib.Omega.{arith}
use rout_wire.Base.Tests.{if◌then◌else◌, Bool-cases, is_some}
use rout_wire.Base.Lists.{All, Ordered, any, mem_of_All}
use rout_wire.Base.Bytes.{Bytes, bytes_eq, bytes_eq_iff, bytes_eq_refl}

abbrev pub Map {ℓ} : Type ℓ → Type ℓ
Map V = List (Bytes × V)

module _ {ℓ} {V : Type ℓ} where
  -- v, ok := m[k]
  unfoldable pub lookup : Bytes → Map V → Option V
  lookup k [] = none
  lookup k ((j, v) ∷ m) = if bytes_eq j k then some v else lookup k m

  -- delete(m, k)
  unfoldable pub delete : Bytes → Map V → Map V
  delete k [] = []
  delete k ((j, v) ∷ m) = let rest = delete k m in if bytes_eq j k then rest else (j, v) ∷ rest

  -- m[k] = v
  unfoldable pub insert : Bytes → V → Map V → Map V
  unfolding delete
  insert k v m = (k, v) ∷ delete k m

  -- _, ok := m[k]
  abbrev pub has_key : Bytes → Map V → Bool
  has_key k m = is_some (lookup k m)

  abbrev pub keys : Map V → List Bytes
  keys [] = []
  keys ((j, v) ∷ m) = j ∷ keys m

  pub lookup-delete :
      (k j : Bytes) (m : Map V)
      → lookup j (delete k m) ≡ (if bytes_eq k j then none else lookup j m)
  unfolding lookup delete
  lookup-delete k j [] = ground arith
  lookup-delete k j ((i, v) ∷ m) =
      ground (arith, lookup-delete k j m, bytes_eq_iff i k, bytes_eq_iff i j, bytes_eq_iff k j)

  pub lookup-insert :
      (k j : Bytes) (v : V) (m : Map V)
      → lookup j (insert k v m) ≡ (if bytes_eq k j then some v else lookup j m)
  unfolding insert lookup
  lookup-insert k j v m = ground (arith, lookup-delete k j m)

  pub lookup-insert_self : (k : Bytes) (v : V) (m : Map V) → lookup k (insert k v m) ≡ some v
  lookup-insert_self k v m = simp (lookup-insert, bytes_eq_refl)

  -- No key stands twice.
  abbrev pub HasUniqueKeys : Map V → Type 0
  HasUniqueKeys m = Ordered (λ a b. bytes_eq a b ≡ false) (keys m)

  pub All-delete :
      (P : Bytes → Type 0) (k : Bytes) (m : Map V) → All P (keys m) → All P (keys (delete k m))
  unfolding delete
  All-delete P k [] h = tt
  All-delete P k ((j, v) ∷ m) h = elim (Bool-cases (bytes_eq j k)) [
    | inl e ↦ rw e (All-delete P k m h.1)
    | inr e ↦ rw e (h.0, All-delete P k m h.1)
  ]

  pub delete-HasUniqueKeys : (k : Bytes) (m : Map V) → HasUniqueKeys m → HasUniqueKeys (delete k m)
  unfolding delete
  delete-HasUniqueKeys k [] h = tt
  delete-HasUniqueKeys k ((j, v) ∷ m) h = elim (Bool-cases (bytes_eq j k)) [
    | inl e ↦ rw e (delete-HasUniqueKeys k m h.1)
    | inr e ↦ rw e (All-delete _ k m h.0, delete-HasUniqueKeys k m h.1)
  ]

  fresh-delete : (k : Bytes) (m : Map V) → All (λ a. bytes_eq k a ≡ false) (keys (delete k m))
  unfolding delete
  fresh-delete k [] = tt
  fresh-delete k ((j, v) ∷ m) = elim (Bool-cases (bytes_eq j k)) [
    | inl e ↦ rw e (fresh-delete k m)
    | inr e ↦ rw e (ground (arith, bytes_eq_iff j k, bytes_eq_iff k j), fresh-delete k m)
  ]

  pub insert-HasUniqueKeys :
      (k : Bytes) (v : V) (m : Map V) → HasUniqueKeys m → HasUniqueKeys (insert k v m)
  unfolding insert
  insert-HasUniqueKeys k v m h = (fresh-delete k m, delete-HasUniqueKeys k m h)

  -- What a lookup finds stands in the list.
  pub mem_of_lookup : (k : Bytes) (v : V) (m : Map V) → lookup k m ≡ some v → Memᴰ (k, v) m
  unfolding lookup
  mem_of_lookup k v [] h = cc
  mem_of_lookup k v ((j, w) ∷ m) h = elim (Bool-cases (bytes_eq j k)) [
    | inl e ↦ Memᴰ.head (ground (arith, bytes_eq_iff j k))
    | inr e ↦ Memᴰ.tail (mem_of_lookup k v m (ground arith))
  ]

  pub lookup_of_mem :
      (k : Bytes) (v : V) (m : Map V) → HasUniqueKeys m → Memᴰ (k, v) m → lookup k m ≡ some v
  unfolding lookup
  lookup_of_mem k v [] u h = elim h [ ]
  lookup_of_mem k v ((j, w) ∷ m) u (Memᴰ.head e) =
      ground (arith, ap (λ (p : Bytes × V). p.0) e, ap (λ (p : Bytes × V). p.1) e, bytes_eq_refl j)
  lookup_of_mem k v ((j, w) ∷ m) u (Memᴰ.tail h) =
      rw (mem_of_All (λ a. bytes_eq j a ≡ false) k (keys m) u.0 (mem_keys k v m h))
        (lookup_of_mem k v m u.1 h)
    where
      mem_keys : (a : Bytes) (x : V) (n : Map V) → Memᴰ (a, x) n → Memᴰ a (keys n)
      mem_keys a x [] h = elim h [ ]
      mem_keys a x ((b, y) ∷ n) (Memᴰ.head e) = Memᴰ.head (ap (λ (p : Bytes × V). p.0) e)
      mem_keys a x ((b, y) ∷ n) (Memᴰ.tail h) = Memᴰ.tail (mem_keys a x n h)

-- Membership by the test on byte strings.
pub mem_of_any :
    (a : Bytes) (words : List Bytes) → any (λ f. bytes_eq f a) words ≡ true → Memᴰ a words
mem_of_any a [] h = cc
mem_of_any a (w ∷ words) h = elim (Bool-cases (bytes_eq w a)) [
  | inl e ↦ Memᴰ.head (sym ((bytes_eq_iff w a).0 e))
  | inr n ↦ Memᴰ.tail (mem_of_any a words (ground arith))
]

pub any_of_mem :
    (a : Bytes) (words : List Bytes) → Memᴰ a words → any (λ f. bytes_eq f a) words ≡ true
any_of_mem a [] m = elim m [ ]
any_of_mem a (w ∷ words) (Memᴰ.head e) = rw ((bytes_eq_iff w a).1 (sym e)) refl
any_of_mem a (w ∷ words) (Memᴰ.tail m) = ground (arith, any_of_mem a words m)
