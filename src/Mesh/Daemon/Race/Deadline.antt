-- ===== src/Mesh/Daemon/Race/Deadline.antt =====
-- tryConnect comes to an end, and says what it has seen.
use rout_wire.Base.{
  ℕ, zero, suc, ◌+◌, ◌*◌, ◌≤◌, ◌≡◌, refl, Bool, true, false, Option, none, some, is_some, arith,
  ◌&&◌, ltb, if◌then◌else◌, not,
}
use rout_wire.Base.Bytes.{Bytes}
use rout_wire.Base.Int.{ℤ}
use rout_wire.Mesh.Daemon.World.{World}
use rout_wire.Mesh.Daemon.Race.{race_poll, race_wait, polls, poll_fuel}

abbrev pub is_yes : Option Bool → Bool
is_yes none = false
is_yes (some b) = b

-- One turn of the loop.
turn-ends :
    {S : Type 0} (late hit : Bool) (s s' : S) (rest : Option Bool × S)
    → (late ≡ false → is_some rest.0 ≡ true)
    → is_some (if late then (some false, s) else if hit then (some true, s') else rest).0 ≡ true
turn-ends true hit s s' rest h = refl
turn-ends false true s s' rest h = refl
turn-ends false false s s' rest h = h refl

-- A pause lasts at least as long as it was asked to.
module _ (w : World) (passes : (d : ℕ) (s : w.State) → w.now s + d ≤ w.now (w.sleep d s)) where
  open w use {State, now, sleep, probe, handshake}

  polls-ends :
      (fuel start : ℕ) (key : Bytes) (s : State)
      → start + race_wait ≤ now s + fuel * race_poll
      → is_some (polls w (suc fuel) start key s).0 ≡ true
  unfolding polls
  polls-ends zero start key s e =
      turn-ends (not (ltb (now s) (start + race_wait)))
        (ltb start (handshake key (sleep race_poll s))) s (sleep race_poll s)
        (none, sleep race_poll s) (λ late. ground arith)
  polls-ends (suc fuel) start key s e =
      turn-ends (not (ltb (now s) (start + race_wait))) _ s (sleep race_poll s) _
        (λ late. polls-ends fuel start key (sleep race_poll s) (omega (arith, passes race_poll s)))

  -- If a pause lasts at least as long as it is asked to, and the clock does not go back while the probe
  -- is started, then the loop of tryConnect ends with an answer, after seventeen pauses at most.
  pub try_connect-ends :
      (key : Bytes) (ip : Option ℕ) (port : ℤ) (s : State)
      → now s ≤ now (probe ip port s)
      → is_some (polls w poll_fuel (now s) key (probe ip port s)).0 ≡ true
  try_connect-ends key ip port s e = polls-ends 17 (now s) key (probe ip port s) (omega arith)

-- An answer of success is only given where the peer's handshake is later than the start.
turn_sound :
    {S : Type 0} (late hit : Bool) (s s' : S) (rest : Option Bool × S) (f : S → Bool)
    → f s' ≡ hit
    → (is_yes rest.0 && not (f rest.1)) ≡ false
    → let out = (if late then (some false, s) else if hit then (some true, s') else rest) in
      (is_yes out.0 && not (f out.1)) ≡ false
turn_sound true hit s s' rest f e h = refl
turn_sound false true s s' rest f e h = rw e refl
turn_sound false false s s' rest f e h = h

module _ (w : World) where
  open w use {State, now, sleep, probe, handshake}

  polls_sound :
      (fuel start : ℕ) (key : Bytes) (s : State)
      → let (answer, s') = polls w fuel start key s in
        (is_yes answer && not (ltb start (handshake key s'))) ≡ false
  unfolding polls
  polls_sound zero start key s = refl
  polls_sound (suc fuel) start key s =
      turn_sound (not (ltb (now s) (start + race_wait))) _ s (sleep race_poll s) _
        (λ u. ltb start (handshake key u)) refl (polls_sound fuel start key (sleep race_poll s))
