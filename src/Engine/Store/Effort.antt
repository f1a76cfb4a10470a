-- ===== src/Engine/Store/Effort.antt =====
-- How much work `ReliableStore.Publish` does, and when it succeeds.
use rout_wire.Base.{ℕ, zero, suc, ◌+◌, ◌≤◌, ◌≡◌, true, List, Option, none, some, arith}
use rout_wire.Base.Bytes.{Bytes}
use rout_wire.Engine.Store.{
  Error, Result, ok, err, Store, visible, confirmed, confirm, pause, after_confirm, after_put,
  publish_from, publish,
}

module _ (store : Store) where
  open store use {State, get, put}

  module _ (cost : State → ℕ) (sleeps : ℕ → Option Error) (key v : Bytes) where
    -- Each put of the value costs at most 1 and each get of the key nothing.
    abbrev pub IsCounted : Type 0
    IsCounted =
        ((s : State) → cost (put key v s).1 ≤ cost s + 1)
        × ((s : State) → cost (get key s).1 ≤ cost s)

    abbrev Costs : ℕ → Option (State → Option Error × State) → Type 0
    Costs n none = Unit
    Costs n (some more) = (s : State) → cost (more s).1 ≤ cost s + n

    pause-cost :
        (n : ℕ) (slept : Option Error) (more : State → Option Error × State) (s : State)
        → cost (more s).1 ≤ cost s + n
        → cost (pause store slept more s).1 ≤ cost s + n
    unfolding pause
    pause-cost n none more s h = h
    pause-cost n (some e) more s h = omega arith

    after_confirm-cost :
        (n : ℕ) (rest : Option (State → Option Error × State)) (slept : Option Error)
        (r : Result (List Bytes)) (s : State)
        → Costs n rest
        → cost (after_confirm store rest slept (confirmed store v r, s)).1 ≤ cost s + n
    unfolding after_confirm confirmed
    after_confirm-cost n none slept (err e) s h = omega arith
    after_confirm-cost n (some more) slept (err e) s h = pause-cost n slept more s (h s)
    after_confirm-cost n none slept (ok got) s h = ground arith
    after_confirm-cost n (some more) slept (ok got) s h =
        ground (arith, pause-cost n slept more s (h s))

    after_put-cost :
        (n : ℕ) (rest : Option (State → Option Error × State)) (slept : Option Error)
        (r : Option Error) (s : State)
        → IsCounted
        → Costs n rest
        → cost (after_put store rest slept key v (r, s)).1 ≤ cost s + n
    unfolding after_put confirm
    after_put-cost n none slept (some e) s c h = omega arith
    after_put-cost n (some more) slept (some e) s c h = pause-cost n slept more s (h s)
    after_put-cost n rest slept none s c h =
        omega (arith, c.1 s, after_confirm-cost n rest slept (get key s).0 (get key s).1 h)

    publish_from-cost :
        (left attempt : ℕ) (s : State)
        → IsCounted
        → cost (publish_from store sleeps key v left attempt s).1 ≤ cost s + (left + 1)
    unfolding publish_from
    publish_from-cost zero attempt s c =
        omega (
          arith,
          c.0 s,
          after_put-cost 0 none (sleeps attempt) (put key v s).0 (put key v s).1 c tt,
        )
    publish_from-cost (suc left) attempt s c = omega (
      arith,
      c.0 s,
      after_put-cost (left + 1) (some (publish_from store sleeps key v left (attempt + 1)))
          (sleeps attempt) (put key v s).0 (put key v s).1 c
          (λ t. publish_from-cost left (attempt + 1) t c),
    )

    -- Publish puts the value at most max_retries + 1 times: any count that a put raises by at most
    -- 1 and a get not at all grows by at most that much.
    pub publish-cost :
        (max_retries : ℕ) (s : State)
        → IsCounted
        → cost (publish store max_retries sleeps key v s).1 ≤ cost s + (max_retries + 1)
    unfolding publish
    publish-cost max_retries s c = publish_from-cost max_retries 0 s c

  confirmed_put :
      (rest : Option (State → Option Error × State)) (slept : Option Error) (key v : Bytes)
      (s t : State) (got : List Bytes)
      → get key s ≡ (ok got, t)
      → visible v got ≡ true
      → after_put store rest slept key v (none, s) ≡ (none, t)
  unfolding after_put confirm confirmed after_confirm
  confirmed_put rest slept key v s t got g h = rw (g, h)

  -- One put that the next get confirms is enough, whatever the retry limit.
  pub publish_confirmed :
      (max_retries : ℕ) (sleeps : ℕ → Option Error) (key v : Bytes) (s t u : State)
      (got : List Bytes)
      → put key v s ≡ (none, t)
      → get key t ≡ (ok got, u)
      → visible v got ≡ true
      → publish store max_retries sleeps key v s ≡ (none, u)
  unfolding publish publish_from
  publish_confirmed zero sleeps key v s t u got p g h =
      rw p (confirmed_put none (sleeps 0) key v t u got g h)
  publish_confirmed (suc n) sleeps key v s t u got p g h = rw p (
      confirmed_put (some (publish_from store sleeps key v n (0 + 1))) (sleeps 0) key v t u got g h)
