-- ===== src/Mesh/Daemon/Race.antt =====
-- The dialling of one peer in internal/mesh/daemon.go: tryConnect, and the body of Tick's loop over
-- the plans after the first Apply.
pub mod Deadline
pub mod Kept
use rout_wire.Base.{
  ℕ, zero, suc, ◌+◌, Bool, true, false, not, ◌&&◌, ◌||◌, List, [], ◌∷◌, ◌++◌, Option, none, some,
  if◌then◌else◌, ltb,
}
use rout_wire.Base.Bytes.{Bytes, bytes_eq}
use rout_wire.Base.Int.{ℤ}
use rout_wire.Base.Map.{Map, insert}
use rout_wire.Mesh.FakeDevice.{PeerDesire}
use rout_wire.Mesh.Record.{Candidate}
use rout_wire.Mesh.Daemon.World.{World, UdpAddr, Applied, applied, device_gone, apply_failed}
use rout_wire.Mesh.Daemon.Plans.{Plan, no_candidate, observed_candidate, state_with}

-- dm.racePoll and dm.raceWait
abbrev pub race_poll : ℕ
race_poll = 150000000

abbrev pub race_wait : ℕ
race_wait = 2500000000

-- the seventeen pauses of 150 ms that are made in 2.5 s, and the last look at the clock
abbrev pub poll_fuel : ℕ
poll_fuel = 18

-- What dialling a peer has changed: its plan, the map of winners and whether a dial won.
pub record Dialled : Type 0 where
  pub plan : Plan
  pub good : Map Candidate
  pub won : Bool

module _ (w : World) where
  open w use {State, now, sleep, probe, apply, handshake, endpoint}

  -- The loop of tryConnect; nothing is returned when the fuel is used up.
  unfoldable pub polls : ℕ → ℕ → Bytes → State → Option Bool × State
  polls zero start key s = (none, s)
  polls (suc fuel) start key s =
      let s' = sleep race_poll s in
      let rest = polls fuel start key s' in
      if not (ltb (now s) (start + race_wait))
      then (some false, s)
      else if ltb start (handshake key s')
      then (some true, s')
      else rest

  or_false : Option Bool × State → Bool × State
  or_false (none, s) = (false, s)
  or_false (some b, s) = (b, s)

  -- func (dm *Daemon) tryConnect
  unfoldable pub try_connect : Bytes → Option ℕ → ℤ → State → Bool × State
  unfolding polls or_false
  try_connect key ip port s = or_false (polls poll_fuel (now s) key (probe ip port s))

  -- The endpoint that the device tracks, if it has an IP.
  known : Option UdpAddr → Option Bytes
  known none = none
  known (some ep) = if ep.has_ip then some ep.text else none

  -- What a dial that worked is credited with.
  credited : Candidate → Option Bytes → Plan → Map Candidate → Dialled
  credited cand none p good = record {
    plan = record p { winner = cand; have_win = true };
    good = insert p.peer cand good;
    won = true;
  }
  credited cand (some text) p good =
      if bytes_eq text cand.addr
      then record {
        plan = record p { winner = cand; have_win = true };
        good = insert p.peer cand good;
        won = true;
      }
      else let win = observed_candidate text in
        record {
          plan = record p {
            winner = win;
            have_win = true;
            desire = record p.desire { endpoint = some text };
          };
          good = insert p.peer win good;
          won = true;
        }

  after_connect :
      (Plan → State → Dialled × State)
      → Candidate
      → Plan
      → Map Candidate
      → Bool × State
      → Dialled × State
  unfolding credited known
  after_connect next cand p good (false, s) = next p s
  after_connect next cand p good (true, s) =
      (credited cand (known (endpoint p.pub_key s)) p good, s)

  after_apply : (State → Dialled × State) → Dialled → Applied × State → Dialled × State
  after_apply next lost (applied, s) = next s
  after_apply next lost (device_gone, s) = (lost, s)
  after_apply next lost (apply_failed, s) = (lost, s)

  module _ (resolve : Bytes → Option Bytes) (ip_of : Bytes → Option ℕ) where
    dial :
        (Plan → State → Dialled × State)
        → List Plan
        → List Plan
        → Candidate
        → Plan
        → Map Candidate
        → Option Bytes
        → State
        → Dialled × State
    unfolding after_connect after_apply try_connect
    dial next before after cand p good none s = next p s
    dial next before after cand p good (some ep) s =
        let q = record p { desire = record p.desire { endpoint = some ep } } in
        after_apply
          (λ u. after_connect next cand q good (try_connect q.pub_key (ip_of q.peer) q.peer_port u))
          (record { plan = q; good = good; won = false })
          (apply (state_with before q.desire after) s)

    -- The loop over the candidates of a plan, which stands between two lists of plans.
    unfoldable pub dial_all :
        List Plan → List Plan → List Candidate → Map Candidate → Plan → State → Dialled × State
    unfolding dial
    dial_all before after [] good p s = (record { plan = p; good = good; won = false }, s)
    dial_all before after (cand ∷ cands) good p s =
        dial (dial_all before after cands good) before after cand p good (resolve cand.addr) s

    -- The loss of all candidates, if there were any.
    exhausted : List Candidate → Dialled × State → Dialled × State
    exhausted [] v = v
    exhausted (c ∷ cands) (d, s) =
        if d.won then (d, s) else (record d { good = insert d.plan.peer no_candidate d.good }, s)

    -- A live session is left alone; its endpoint is adopted if there is no winner.
    adopted : Option Bytes → Plan → Map Candidate → Dialled
    adopted none p good = record { plan = p; good = good; won = false }
    adopted (some text) p good =
        let win = observed_candidate text in
        record {
          plan = record p { winner = win; have_win = true };
          good = insert p.peer win good;
          won = false;
        }

    unfoldable pub settle_live : Plan → Map Candidate → State → Dialled
    unfolding adopted known
    settle_live p good s =
        if p.have_win
        then record { plan = p; good = good; won = false }
        else adopted (known (endpoint p.pub_key s)) p good

    -- The body of the loop.
    unfoldable pub race_plan :
        List Plan → List Plan → Plan → Map Candidate → State → Dialled × State
    unfolding settle_live dial_all exhausted
    race_plan before after p good s =
        if p.fresh_now
        then (settle_live p good s, s)
        else exhausted p.ordered (dial_all before after p.ordered good p s)

    -- The loop over the plans.
    unfoldable pub race_plans :
        List Plan → List Plan → Map Candidate → State → List Plan × Map Candidate × State
    unfolding race_plan
    race_plans before [] good s = (before, good, s)
    race_plans before (p ∷ after) good s =
        let (d, s') = race_plan before after p good s in
        race_plans (before ++ (d.plan ∷ [])) after d.good s'
