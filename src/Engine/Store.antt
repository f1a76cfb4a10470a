-- ===== src/Engine/Store.antt =====
-- internal/engine/store.go: the raw store interface and the reliable publisher on top of it.
-- A context that ends is the answer of the sleep that it interrupts; the log is not modelled.
-- `max_retries` is the source's int, a negative one acting as 0.
pub mod Publish
pub mod Effort
use rout_wire.Base.{
  ℕ, zero, suc, ◌+◌, ◌≡◌, Bool, true, false, List, [], ◌∷◌, Option, none, some, if◌then◌else◌,
}
use rout_wire.Base.Bytes.{Bytes, bytes_eq}

-- The error values of the package, and those that a backend or a context returns.
pub data Error : Type 0 where
  not_stored not_published unavailable invalid_key invalid_value : Error
  canceled : Error
  backend : Bytes → Error

pub data Result {ℓ} (A : Type ℓ) : Type ℓ where
  ok : A → Result A
  err : Error → Result A

-- type Store interface: Get and Put over a state that calls may change.
pub record Store : Type 1 where
  pub State : Type 0
  pub get : Bytes → State → Result (List Bytes) × State
  pub put : Bytes → Bytes → State → Option Error × State

-- The loop of `confirm`: is some value equal to v?
unfoldable pub visible : Bytes → List Bytes → Bool
visible v [] = false
visible v (g ∷ got) = if bytes_eq g v then true else visible v got

module _ (store : Store) where
  open store use {State, get, put}

  unfoldable pub confirmed : Bytes → Result (List Bytes) → Result Bool
  unfolding visible
  confirmed v (ok got) = ok (visible v got)
  confirmed v (err e) = err e

  -- func (r *ReliableStore) confirm
  unfoldable pub confirm : Bytes → Bytes → State → Result Bool × State
  unfolding confirmed
  confirm key v s = let (r, s') = get key s in (confirmed v r, s')

  -- `sleeps i` is what the sleep after attempt i returns; `rest` is the loop from the next attempt.
  pause : Option Error → (State → Option Error × State) → State → Option Error × State
  pause (some e) rest s = (some e, s)
  pause none rest s = rest s

  after_confirm :
      Option (State → Option Error × State)
      → Option Error
      → Result Bool × State
      → Option Error × State
  unfolding pause
  after_confirm rest slept (ok true, s) = (none, s)
  after_confirm none slept (_, s) = (some not_published, s)
  after_confirm (some more) slept (_, s) = pause slept more s

  after_put :
      Option (State → Option Error × State)
      → Option Error
      → Bytes
      → Bytes
      → Option Error × State
      → Option Error × State
  unfolding pause after_confirm confirm
  after_put rest slept key v (none, s) = after_confirm rest slept (confirm key v s)
  after_put none slept key v (some e, s) = (some unavailable, s)
  after_put (some more) slept key v (some e, s) = pause slept more s

  -- The loop from `attempt` on, where `left` is maxRetries - attempt.
  unfoldable pub publish_from :
      (ℕ → Option Error) → Bytes → Bytes → ℕ → ℕ → State → Option Error × State
  unfolding after_put
  publish_from sleeps key v zero attempt s = after_put none (sleeps attempt) key v (put key v s)
  publish_from sleeps key v (suc left) attempt s =
      after_put (some (publish_from sleeps key v left (attempt + 1))) (sleeps attempt) key v
        (put key v s)

  -- func (r *ReliableStore) Publish
  unfoldable pub publish : ℕ → (ℕ → Option Error) → Bytes → Bytes → State → Option Error × State
  unfolding publish_from
  publish max_retries sleeps key v s = publish_from sleeps key v max_retries 0 s

  -- func (r *ReliableStore) Read
  abbrev pub read : Bytes → State → Result (List Bytes) × State
  read = get
