-- ===== src/Engine/Store/Publish.antt =====
-- What `ReliableStore.Publish` promises: success only after the value was seen, a bounded number
-- of puts, and the error that each way of failing gives.
use mathlib.Core.List.{Memᴰ}
use rout_wire.Base.{
  ℕ, zero, suc, ◌+◌, ◌≡◌, refl, ◌⊎◌, inl, inr, Bool, true, false, List, [], ◌∷◌, Option, none, some,
  arith, Bool-cases, Option-cases, sym, ◌≢◌,
}
use rout_wire.Base.Bytes.{Bytes, bytes_eq, bytes_eq_refl, eq_of_bytes_eq}
use rout_wire.Engine.Store.{
  Error, Result, ok, err, not_published, unavailable, Store, visible, confirm, confirmed, pause,
  after_confirm, after_put, publish_from, publish,
}

pub mem_of_visible : (v : Bytes) (got : List Bytes) → visible v got ≡ true → Memᴰ v got
unfolding visible
mem_of_visible v [] h = cc
mem_of_visible v (g ∷ got) h = elim (Bool-cases (bytes_eq g v)) [
  | inl e ↦ Memᴰ.head (sym (eq_of_bytes_eq g v e))
  | inr e ↦ Memᴰ.tail (mem_of_visible v got (ground arith))
]

pub visible_of_mem : (v : Bytes) (got : List Bytes) → Memᴰ v got → visible v got ≡ true
unfolding visible
visible_of_mem v [] m = elim m [ ]
visible_of_mem v (g ∷ got) (Memᴰ.head e) = rw e (ground (arith, bytes_eq_refl g))
visible_of_mem v (g ∷ got) (Memᴰ.tail m) = ground (arith, visible_of_mem v got m)

module _ (store : Store) where
  open store use {State, get, put}

  -- A Get of `key` that returned `v` led to the state `t`.
  abbrev pub SeenAt : Bytes → Bytes → State → Type 0
  SeenAt key v t =
      (before : State) × (got : List Bytes) × (get key before ≡ (ok got, t)) × Memᴰ v got

  -- Why the state `t` was left with the error `e`: a wait ended with it, the last put failed, or
  -- the last get failed or did not show the value.
  abbrev pub Because : (ℕ → Option Error) → Bytes → Bytes → Error → State → Type 0
  Because sleeps key v e t =
      ((i : ℕ) × (sleeps i ≡ some e))
      ⊎ ((e ≡ unavailable) × ((before : State) × (c : Error) × (put key v before ≡ (some c, t))))
      ⊎ ((e ≡ not_published)
          × ((before : State) × (r : Result (List Bytes)) × (get key before ≡ (r, t))
              × (confirmed store v r ≢ ok true)))

  module _ (sleeps : ℕ → Option Error) (key v : Bytes) where
    abbrev Outcome : Option Error × State → Type 0
    Outcome (none, t) = SeenAt key v t
    Outcome (some e, t) = Because sleeps key v e t

    -- What the next round promises, if there is one.
    abbrev OnRest : Option (State → Option Error × State) → Type 0
    OnRest none = Unit
    OnRest (some more) = (s : State) → Outcome (more s)

    pause-Outcome :
        (i : ℕ) (more : State → Option Error × State) (s : State)
        → Outcome (more s)
        → Outcome (pause store (sleeps i) more s)
    unfolding pause
    pause-Outcome i more s h = elim (Option-cases (sleeps i)) [
      | inl e ↦ rw (e, pause) h
      | inr (c, e) ↦ rw (e, pause) (inl (i, e))
    ]

    unconfirmed-Outcome :
        (rest : Option (State → Option Error × State)) (i : ℕ) (before s : State)
        (r : Result (List Bytes)) (c : Result Bool)
        → OnRest rest
        → get key before ≡ (r, s)
        → confirmed store v r ≡ c
        → c ≢ ok true
        → Outcome (after_confirm store rest (sleeps i) (c, s))
    unfolding after_confirm
    unconfirmed-Outcome rest i before s r (ok true) h e f g = absurd (g refl)
    unconfirmed-Outcome none i before s r (ok false) h e f g =
        inr (inr (refl, (before, r, e, rw f g)))
    unconfirmed-Outcome none i before s r (err x) h e f g = inr (inr (refl, (before, r, e, rw f g)))
    unconfirmed-Outcome (some more) i before s r (ok false) h e f g = pause-Outcome i more s (h s)
    unconfirmed-Outcome (some more) i before s r (err x) h e f g = pause-Outcome i more s (h s)

    after_confirm-Outcome :
        (rest : Option (State → Option Error × State)) (i : ℕ) (before s : State)
        (r : Result (List Bytes))
        → OnRest rest
        → get key before ≡ (r, s)
        → Outcome (after_confirm store rest (sleeps i) (confirmed store v r, s))
    unfolding confirmed
    after_confirm-Outcome rest i before s (err c) h e =
        unconfirmed-Outcome rest i before s (err c) (err c) h e refl (λ x. cc)
    after_confirm-Outcome rest i before s (ok got) h e = elim (Bool-cases (visible v got)) [
      | inl seen ↦ rw seen (unfold after_confirm in (before, got, e, mem_of_visible v got seen))
      | inr unseen ↦
          rw unseen
            (unconfirmed-Outcome rest i before s (ok got) (ok false) h e (rw unseen) (λ x. cc))
    ]

    after_put-Outcome :
        (rest : Option (State → Option Error × State)) (i : ℕ) (before s : State) (r : Option Error)
        → OnRest rest
        → put key v before ≡ (r, s)
        → Outcome (after_put store rest (sleeps i) key v (r, s))
    unfolding after_put confirm
    after_put-Outcome rest i before s none h e =
        after_confirm-Outcome rest i s (get key s).1 (get key s).0 h refl
    after_put-Outcome none i before s (some c) h e = inr (inl (refl, (before, c, e)))
    after_put-Outcome (some more) i before s (some c) h e = pause-Outcome i more s (h s)

    publish_from-Outcome :
        (left attempt : ℕ) (s : State) → Outcome (publish_from store sleeps key v left attempt s)
    unfolding publish_from
    publish_from-Outcome zero attempt s =
        after_put-Outcome none attempt s (put key v s).1 (put key v s).0 tt refl
    publish_from-Outcome (suc left) attempt s =
        after_put-Outcome (some (publish_from store sleeps key v left (attempt + 1))) attempt s
          (put key v s).1 (put key v s).0 (publish_from-Outcome left (attempt + 1)) refl

  -- Publish reports success only if the last Get that it made on that key returned the value:
  -- whatever the store, the retry limit and the waits do, the final state is the one that this
  -- Get left.
  pub publish-seen :
      (max_retries : ℕ) (sleeps : ℕ → Option Error) (key v : Bytes) (s t : State)
      → publish store max_retries sleeps key v s ≡ (none, t)
      → SeenAt key v t
  unfolding publish
  publish-seen max_retries sleeps key v s t h =
      rw h at (publish_from-Outcome sleeps key v max_retries 0 s)

  -- Publish fails with `unavailable` only if its last call was a Put that failed, and with
  -- `not_published` only if its last call was a Get that failed or did not show the value. Any
  -- other error is the one that a wait between two attempts ended with.
  pub publish-Because :
      (max_retries : ℕ) (sleeps : ℕ → Option Error) (key v : Bytes) (s t : State) (e : Error)
      → publish store max_retries sleeps key v s ≡ (some e, t)
      → Because sleeps key v e t
  unfolding publish
  publish-Because max_retries sleeps key v s t e h =
      rw h at (publish_from-Outcome sleeps key v max_retries 0 s)
