-- ===== src/Engine/MockStore/Expiry.antt =====
-- The store seen as a table of expiry times, one for each key and value.
use rout_wire.Base.{
  ℕ, ◌+◌, ◌≡◌, refl, Bool, true, false, not, List, [], ◌∷◌, Option, none, some, arith, ltb,
  if◌then◌else◌, select, map, All, Ordered, All-select, Bool-cases, inl, inr, ◌&&◌, is_some, ap,
  ◌∙◌,
}
use rout_wire.Base.Bytes.{Bytes, bytes_eq, bytes_eq_iff, bytes_eq_refl, bytes_eq_comm}
use rout_wire.Base.Map.{lookup, insert, lookup-insert, lookup-delete}
use rout_wire.Engine.Store.{visible}
use rout_wire.Engine.MockStore.{
  Entry, MockStore, new_mock_store, entries, store_live, is_live, purge, get, renew, put, remove,
  live_count,
}

-- When the value expires, if the entries hold it.
pub exp_in : Bytes → List Entry → Option ℕ
exp_in v [] = none
exp_in v (e ∷ es) = if bytes_eq e.v v then some e.exp else exp_in v es

-- The expiry time of a value under a key: the abstract state of the store.
pub expiry : MockStore → Bytes → Bytes → Option ℕ
expiry s key v = exp_in v (entries key s)

-- What is left at the time `now` of an expiry time.
abbrev pub still : ℕ → Option ℕ → Option ℕ
still now none = none
still now (some exp) = if ltb now exp then some exp else none

abbrev Distinct : List Entry → Type 0
Distinct = Ordered (λ a b. bytes_eq a.v b.v ≡ false)

-- No key holds a value twice.
pub record IsValid (s : MockStore) : Type 0 where
  pub distinct : (key : Bytes) → Distinct (entries key s)

module _ (key j : Bytes) (s : MockStore) where
  entries-insert :
      (es : List Entry)
      → entries j (record s { values = insert key es s.values })
        ≡ (if bytes_eq key j then es else entries j s)
  unfolding entries
  entries-insert es = ground (arith, lookup-insert key j es s.values)

  entries-store_live :
      (es : List Entry)
      → entries j (record s { values = store_live key es s.values })
        ≡ (if bytes_eq key j then es else entries j s)
  unfolding entries store_live
  entries-store_live [] = ground (arith, lookup-delete key j s.values)
  entries-store_live (e ∷ es) = ground (arith, lookup-insert key j (e ∷ es) s.values)

  pub entries-purge :
      (now : ℕ)
      → entries j (purge now key s)
        ≡ (if bytes_eq key j then select (is_live now) (entries key s) else entries j s)
  unfolding purge
  entries-purge now = entries-store_live (select (is_live now) (entries key s))

module _ (v : Bytes) where
  exp_in_fresh :
      (a : Bytes) (es : List Entry)
      → All (λ b. bytes_eq a b.v ≡ false) es
      → a ≡ v
      → exp_in v es ≡ none
  unfolding exp_in
  exp_in_fresh a [] h e = refl
  exp_in_fresh a (b ∷ es) h e =
      ground (arith, bytes_eq_comm a b.v, bytes_eq_comm v b.v, exp_in_fresh a es h.1 e)

  exp_in-live :
      (now : ℕ) (es : List Entry)
      → Distinct es
      → exp_in v (select (is_live now) es) ≡ still now (exp_in v es)
  unfolding exp_in
  exp_in-live now [] h = refl
  exp_in-live now (e ∷ es) h =
      ground (arith, exp_in-live now es h.1, exp_in_fresh e.v es h.0, bytes_eq_iff e.v v)

  exp_in-renew :
      (w : Bytes) (exp : ℕ) (es : List Entry)
      → exp_in w (renew exp v es) ≡ (if bytes_eq v w then some exp else exp_in w es)
  unfolding exp_in renew
  exp_in-renew w exp [] = refl
  exp_in-renew w exp (e ∷ es) =
      ground
        (arith, exp_in-renew w exp es, bytes_eq_iff e.v v, bytes_eq_iff e.v w, bytes_eq_iff v w)

  exp_in-remove :
      (w : Bytes) (es : List Entry)
      → exp_in w (select (λ e. not (bytes_eq e.v v)) es)
        ≡ (if bytes_eq v w then none else exp_in w es)
  unfolding exp_in
  exp_in-remove w [] = ground arith
  exp_in-remove w (e ∷ es) =
      ground (arith, exp_in-remove w es, bytes_eq_iff e.v v, bytes_eq_iff e.v w, bytes_eq_iff v w)

Distinct-select : (p : Entry → Bool) (es : List Entry) → Distinct es → Distinct (select p es)
Distinct-select p [] h = tt
Distinct-select p (e ∷ es) h = elim (Bool-cases (p e)) [
  | inl y ↦ rw y (All-select _ p es h.0, Distinct-select p es h.1)
  | inr n ↦ rw n (Distinct-select p es h.1)
]

All-renew :
    (a v : Bytes) (exp : ℕ) (es : List Entry)
    → bytes_eq a v ≡ false
    → All (λ b. bytes_eq a b.v ≡ false) es
    → All (λ b. bytes_eq a b.v ≡ false) (renew exp v es)
unfolding renew
All-renew a v exp [] n h = (n, tt)
All-renew a v exp (e ∷ es) n h = elim (Bool-cases (bytes_eq e.v v)) [
  | inl y ↦ rw y (h.0, h.1)
  | inr x ↦ rw x (h.0, All-renew a v exp es n h.1)
]

Distinct-renew : (exp : ℕ) (v : Bytes) (es : List Entry) → Distinct es → Distinct (renew exp v es)
unfolding renew
Distinct-renew exp v [] h = (tt, tt)
Distinct-renew exp v (e ∷ es) h = elim (Bool-cases (bytes_eq e.v v)) [
  | inl y ↦ rw y (h.0, h.1)
  | inr x ↦ rw x (All-renew e.v v exp es x h.0, Distinct-renew exp v es h.1)
]

visible-map :
    (w : Bytes) (es : List Entry) → visible w (map (λ (e : Entry). e.v) es) ≡ is_some (exp_in w es)
unfolding visible exp_in
visible-map w [] = refl
visible-map w (e ∷ es) = ground (arith, visible-map w es)

Distinct-if :
    (b : Bool) (es fs : List Entry) → Distinct es → Distinct fs → Distinct (if b then es else fs)
Distinct-if true es fs h k = h
Distinct-if false es fs h k = k

purge-IsValid : (now : ℕ) (key : Bytes) (s : MockStore) → IsValid s → IsValid (purge now key s)
purge-IsValid now key s h = record {
  distinct = λ j. rw (entries-purge key j s now) (
      Distinct-if (bytes_eq key j) (select (is_live now) (entries key s)) (entries j s)
        (Distinct-select (is_live now) (entries key s) (h.distinct key)) (h.distinct j));
}

expiry-purge :
    (now : ℕ) (key j w : Bytes) (s : MockStore)
    → IsValid s
    → expiry (purge now key s) j w
      ≡ (if bytes_eq key j then still now (expiry s j w) else expiry s j w)
unfolding expiry
expiry-purge now key j w s h =
    rw (entries-purge key j s now)
      (ground (arith, exp_in-live w now (entries key s) (h.distinct key), bytes_eq_iff key j))

-- Get returns a value exactly when the time is before its expiry.
pub visible-get :
    (now : ℕ) (key w : Bytes) (s : MockStore)
    → IsValid s
    → visible w (get now key s).0 ≡ is_some (still now (expiry s key w))
unfolding get
visible-get now key w s h =
    rw (visible-map w (entries key (purge now key s)))
      (ap is_some (unfold expiry in (expiry-purge now key key w s h ∙ rw (bytes_eq_refl key) refl)))

entries-put :
    (t0 t1 : ℕ) (key v j : Bytes) (s : MockStore)
    → entries j (put t0 t1 key v s) ≡ (
        if bytes_eq key j
        then renew (t1 + s.ttl) v (entries key (purge t0 key s))
        else entries j (purge t0 key s))
unfolding put purge
entries-put t0 t1 key v j s =
    entries-insert key j (purge t0 key s) (renew (t1 + s.ttl) v (entries key (purge t0 key s)))

-- Put sets the expiry of the value to its clock reading plus the store's ttl, drops what had
-- expired under that key by the purge's reading, and leaves every other key and value as it was.
pub expiry-put :
    (t0 t1 : ℕ) (key v j w : Bytes) (s : MockStore)
    → IsValid s
    → expiry (put t0 t1 key v s) j w ≡ (
        if bytes_eq key j
        then (if bytes_eq v w then some (t1 + s.ttl) else still t0 (expiry s j w))
        else expiry s j w)
unfolding expiry
expiry-put t0 t1 key v j w s h = elim (Bool-cases (bytes_eq key j)) [
  | inl same ↦
      let e : key ≡ j = (bytes_eq_iff key j).0 same in
      rw (entries-put, same, exp_in-renew v w (t1 + s.ttl) (entries key (purge t0 key s)))
        (ground (arith, purged, e))
  | inr other ↦ rw (entries-put, other) (rw other at (expiry-purge t0 key j w s h))
]
  where
    purged : expiry (purge t0 key s) key w ≡ still t0 (expiry s key w)
    purged = rw (bytes_eq_refl key) at (expiry-purge t0 key key w s h)

-- Delete forgets that one value and no other.
pub expiry-remove :
    (key v j w : Bytes) (s : MockStore)
    → expiry (remove key v s) j w ≡ (if bytes_eq key j && bytes_eq v w then none else expiry s j w)
unfolding remove expiry
expiry-remove key v j w s =
    rw (entries-insert key j s (select (λ e. not (bytes_eq e.v v)) (entries key s)))
      (ground (arith, exp_in-remove v w (entries key s), bytes_eq_iff key j))

-- The operations of the store.
pub data Op : Type 0 where
  gets : ℕ → Bytes → Op
  puts : ℕ → ℕ → Bytes → Bytes → Op
  removes : Bytes → Bytes → Op
  counts : ℕ → Bytes → Op

pub apply : Op → MockStore → MockStore
apply (gets now key) s = (get now key s).1
apply (puts t0 t1 key v) s = put t0 t1 key v s
apply (removes key v) s = remove key v s
apply (counts now key) s = (live_count now key s).1

pub run : MockStore → List Op → MockStore
run s [] = s
run s (o ∷ os) = run (apply o s) os

apply-IsValid : (o : Op) (s : MockStore) → IsValid s → IsValid (apply o s)
unfolding apply get live_count remove
apply-IsValid (gets now key) s h = purge-IsValid now key s h
apply-IsValid (counts now key) s h = purge-IsValid now key s h
apply-IsValid (puts t0 t1 key v) s h = record {
  distinct = λ j. rw (entries-put t0 t1 key v j s) (
      Distinct-if (bytes_eq key j) (renew (t1 + s.ttl) v (entries key (purge t0 key s)))
        (entries j (purge t0 key s))
        (Distinct-renew (t1 + s.ttl) v _ ((purge-IsValid t0 key s h).distinct key))
        ((purge-IsValid t0 key s h).distinct j));
}
apply-IsValid (removes key v) s h = record {
  distinct = λ j. rw (entries-insert key j s (select (λ e. not (bytes_eq e.v v)) (entries key s))) (
      Distinct-if (bytes_eq key j) (select (λ e. not (bytes_eq e.v v)) (entries key s))
        (entries j s) (Distinct-select _ (entries key s) (h.distinct key)) (h.distinct j));
}

new_mock_store-IsValid : (ttl : ℕ) → IsValid (new_mock_store ttl)
unfolding new_mock_store entries lookup
new_mock_store-IsValid ttl = record { distinct = λ key. tt }

run-IsValid : (s : MockStore) (os : List Op) → IsValid s → IsValid (run s os)
unfolding run
run-IsValid s [] h = h
run-IsValid s (o ∷ os) h = run-IsValid (apply o s) os (apply-IsValid o s h)

-- Whatever calls a new store has served, at whatever clock readings, no key holds a value twice.
pub run-new_mock_store-IsValid : (ttl : ℕ) (os : List Op) → IsValid (run (new_mock_store ttl) os)
run-new_mock_store-IsValid ttl os = run-IsValid (new_mock_store ttl) os (new_mock_store-IsValid ttl)
