-- ===== src/Mesh/Roster/Stable.antt =====
-- What FetchStable keeps of its attempts.
use rout_wire.Base.{
  ℕ, zero, suc, ◌+◌, ◌-◌, ◌≤◌, ◌≡◌, refl, sym, inl, inr, Bool, false, [], ◌∷◌, Option, none, some,
  ltb, arith, Memᴰ, Bool-cases, subst,
}
use rout_wire.Base.Bytes.{Bytes, bytes_eq, bytes_eq_iff}
use rout_wire.Base.Map.{Map, lookup, lookup-insert, lookup-insert_self}
use rout_wire.Engine.Store.{Error, Result, ok, err}
use rout_wire.Mesh.Record.{Record}
use rout_wire.Mesh.Roster.{
  merge_entry, merge_fetched, after_attempt, settle, pause_then, attempts_from, fetch_stable,
}

-- A map has a record of at least a Seq under a name.
abbrev pub Knows : ℕ → Bytes → Map Record → Type 0
Knows q n m = (cur : Record) × (lookup n m ≡ some cur) × (q ≤ cur.seq)

merge_entry-Knows :
    (q : ℕ) (n name : Bytes) (rec : Record) (merged : Map Record) (at : Option Record)
    → lookup name merged ≡ at
    → Knows q n merged
    → Knows q n (merge_entry at name rec merged)
unfolding merge_entry
merge_entry-Knows q n name rec merged none e (cur, l, h) =
    (cur, rw (lookup-insert name n rec merged) (ground (arith, bytes_eq_iff name n)), h)
merge_entry-Knows q n name rec merged (some old) e (cur, l, h) =
    elim (Bool-cases (ltb old.seq rec.seq)) [
      | inr stays ↦ rw stays (cur, l, h)
      | inl newer ↦ rw newer (elim (Bool-cases (bytes_eq name n)) [
        | inr other ↦ (cur, rw (lookup-insert name n rec merged) (rw other l), h)
        | inl same ↦
            let one : old ≡ cur = let k = (bytes_eq_iff name n).0 same in cc in
            (
              rec,
              rw (lookup-insert name n rec merged) (rw same refl),
              let k : cur.seq ≤ rec.seq =
                    subst (λ (r : Record). r.seq ≤ rec.seq) one (ground arith) in
                  omega arith,
            )
      ])
    ]

merge_entry-Knows_new :
    (name : Bytes) (rec : Record) (merged : Map Record) (at : Option Record)
    → lookup name merged ≡ at
    → Knows rec.seq name (merge_entry at name rec merged)
unfolding merge_entry
merge_entry-Knows_new name rec merged none e =
    (rec, lookup-insert_self name rec merged, omega arith)
merge_entry-Knows_new name rec merged (some old) e = elim (Bool-cases (ltb old.seq rec.seq)) [
  | inl newer ↦ rw newer (rec, lookup-insert_self name rec merged, omega arith)
  | inr stays ↦ rw stays (old, e, ground arith)
]

merge_fetched-Knows :
    (q : ℕ) (n : Bytes) (got merged : Map Record)
    → Knows q n merged
    → Knows q n (merge_fetched got merged)
unfolding merge_fetched
merge_fetched-Knows q n [] merged h = h
merge_fetched-Knows q n ((name, rec) ∷ got) merged h =
    merge_fetched-Knows q n got (merge_entry (lookup name merged) name rec merged)
      (merge_entry-Knows q n name rec merged (lookup name merged) refl h)

merge_fetched-Knows_got :
    (n : Bytes) (r : Record) (got merged : Map Record)
    → Memᴰ (n, r) got
    → Knows r.seq n (merge_fetched got merged)
unfolding merge_fetched
merge_fetched-Knows_got n r [] merged h = elim h [ ]
merge_fetched-Knows_got n r ((name, rec) ∷ got) merged (Memᴰ.tail h) =
    merge_fetched-Knows_got n r got (merge_entry (lookup name merged) name rec merged) h
merge_fetched-Knows_got n r ((name, rec) ∷ got) merged (Memᴰ.head e) =
    merge_fetched-Knows r.seq n got (merge_entry (lookup name merged) name rec merged) (
      subst
        (λ (p : Bytes × Record).
          Knows p.1.seq p.0 (merge_entry (lookup name merged) name rec merged))
        (sym e) (merge_entry-Knows_new name rec merged (lookup name merged) refl))

after_attempt-Knows :
    (q : ℕ) (n : Bytes) (r : Result (Map Record)) (v : Map Record × Option Error)
    → Knows q n v.0
    → Knows q n (after_attempt r v).0
unfolding after_attempt
after_attempt-Knows q n (err e) (merged, last) h = h
after_attempt-Knows q n (ok got) (merged, last) h = merge_fetched-Knows q n got merged h

-- A result that is a map and has a record of at least a Seq under a name.
abbrev pub Answers : ℕ → Bytes → Result (Map Record) → Type 0
Answers q n r = (m : Map Record) × (r ≡ ok m) × Knows q n m

settle-Answers :
    (q : ℕ) (n : Bytes) (v : Map Record × Option Error) → Knows q n v.0 → Answers q n (settle v)
unfolding settle lookup
settle-Answers q n ([], last) (cur, l, h) = cc
settle-Answers q n (e ∷ merged, last) h = (e ∷ merged, refl, h)

module _ {S : Type 0} (fetch_once : ℕ → S → Result (Map Record) × S)
    (ended interrupted : ℕ → Bool) where
  attempts_from-Answers :
      (left i q : ℕ) (n : Bytes) (v : Map Record × Option Error) (s : S)
      → Knows q n v.0
      → Answers q n (attempts_from fetch_once ended interrupted left i v s).0
  unfolding attempts_from pause_then
  attempts_from-Answers zero i q n v s h = elim (Bool-cases (ended i)) [
    | inl stop ↦ rw stop (settle-Answers q n v h)
    | inr go ↦ rw go (settle-Answers q n _ (after_attempt-Knows q n (fetch_once i s).0 v h))
  ]
  attempts_from-Answers (suc left) i q n v s h =
      let k = after_attempt-Knows q n (fetch_once i s).0 v h in
      elim (Bool-cases (ended i)) [
        | inl stop ↦ rw stop (settle-Answers q n v h)
        | inr go ↦ rw go (elim (Bool-cases (interrupted i)) [
          | inl cut ↦ rw cut (_, refl, k)
          | inr on ↦ rw on (attempts_from-Answers left (i + 1) q n _ _ k)
        ])
      ]

  -- The state before attempt i + d, when the state before attempt i is s.
  unfoldable pub state_at : ℕ → ℕ → S → S
  state_at i zero s = s
  state_at i (suc d) s = state_at (i + 1) d (fetch_once i s).1

  after_attempt-Knows_got :
      (n : Bytes) (r : Record) (got : Map Record) (res : Result (Map Record))
      (v : Map Record × Option Error)
      → res ≡ ok got
      → Memᴰ (n, r) got
      → Knows r.seq n (after_attempt res v).0
  unfolding after_attempt
  after_attempt-Knows_got n r got res (merged, last) e m =
      rw e (merge_fetched-Knows_got n r got merged m)

  reached-Answers :
      (d left i t : ℕ) (n : Bytes) (r : Record) (got : Map Record) (v : Map Record × Option Error)
      (s : S)
      → t ≡ i + d
      → d ≤ left
      → ((j : ℕ) → i ≤ j → j ≤ t → ended j ≡ false)
      → ((j : ℕ) → i ≤ j → suc j ≤ t → interrupted j ≡ false)
      → (fetch_once t (state_at i d s)).0 ≡ ok got
      → Memᴰ (n, r) got
      → Answers r.seq n (attempts_from fetch_once ended interrupted left i v s).0
  unfolding attempts_from pause_then state_at
  reached-Answers zero zero i t n r got v s at le on through e m =
      let here : t ≡ i = omega arith in
      let e' = subst (λ j. (fetch_once j s).0 ≡ ok got) here e in
      rw (on i (omega arith) (omega arith))
        (settle-Answers r.seq n _ (after_attempt-Knows_got n r got _ v e' m))
  reached-Answers zero (suc left) i t n r got v s at le on through e m =
      let here : t ≡ i = omega arith in
      let e' = subst (λ j. (fetch_once j s).0 ≡ ok got) here e in
      let k = after_attempt-Knows_got n r got _ v e' m in
      rw (on i (omega arith) (omega arith)) (elim (Bool-cases (interrupted i)) [
        | inl cut ↦ rw cut (_, refl, k)
        | inr more ↦ rw more (attempts_from-Answers left (i + 1) r.seq n _ _ k)
      ])
  reached-Answers (suc d) zero i t n r got v s at le on through e m =
      let no : zero ≡ suc zero = omega arith in cc
  reached-Answers (suc d) (suc left) i t n r got v s at le on through e m =
      rw (on i (omega arith) (omega arith)) (
        rw (through i (omega arith) (omega arith)) (
          reached-Answers d left (i + 1) t n r got _ (fetch_once i s).1 (omega arith) (omega arith)
            (λ j low. on j (omega arith)) (λ j low. through j (omega arith)) e m))

  -- When FetchStable reaches an attempt, because the context did not end before it, and that
  -- attempt finds a record of a name, the answer is no error but a map with a record of at least
  -- that Seq under the name, whatever the attempts before and after do.
  pub fetch_stable-Answers :
      (attempts d : ℕ) (n : Bytes) (r : Record) (got : Map Record) (s : S)
      → d ≤ attempts - 1
      → ((j : ℕ) → j ≤ d → ended j ≡ false)
      → ((j : ℕ) → suc j ≤ d → interrupted j ≡ false)
      → (fetch_once d (state_at 0 d s)).0 ≡ ok got
      → Memᴰ (n, r) got
      → Answers r.seq n (fetch_stable fetch_once ended interrupted attempts s).0
  unfolding fetch_stable
  fetch_stable-Answers attempts d n r got s le on through e m =
      reached-Answers d (attempts - 1) 0 d n r got ([], none) s (omega arith) le (λ j low. on j)
        (λ j low. through j) e m
