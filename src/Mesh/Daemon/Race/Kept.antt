-- ===== src/Mesh/Daemon/Race/Kept.antt =====
-- What dialling keeps is what the calls of the device and the pauses keep.
use rout_wire.Base.{
  ℕ, zero, suc, Bool, true, false, not, List, [], ◌∷◌, ◌++◌, inl, inr, Bool-cases, Option, none,
  some, if◌then◌else◌, ltb, ◌+◌,
}
use rout_wire.Base.Bytes.{Bytes}
use rout_wire.Base.Int.{ℤ}
use rout_wire.Base.Map.{Map}
use rout_wire.Mesh.FakeDevice.{PeerDesire}
use rout_wire.Mesh.Record.{Candidate}
use rout_wire.Mesh.Daemon.World.{World, Applied, applied, device_gone, apply_failed}
use rout_wire.Mesh.Daemon.Plans.{Plan, state_with}
use rout_wire.Mesh.Daemon.Spokes.Kept.{RouterKeeps}
use rout_wire.Mesh.Daemon.Race.{
  Dialled, race_poll, race_wait, polls, poll_fuel, or_false, try_connect, after_connect,
  after_apply, dial, dial_all, exhausted, race_plan, race_plans,
}

-- What is kept by everything of the world that a tick calls.
pub record WorldKeeps (w : World) (P : w.State → Type 0) : Type 0 where
  pub router_keeps : RouterKeeps w P
  pub apply_keeps : (peers : List PeerDesire) (s : w.State) → P s → P (w.apply peers s).1
  pub routes_keep : (routes : List Bytes) (s : w.State) → P s → P (w.apply_routes routes s).1
  pub sleep_keeps : (d : ℕ) (s : w.State) → P s → P (w.sleep d s)
  pub probe_keeps : (ip : Option ℕ) (port : ℤ) (s : w.State) → P s → P (w.probe ip port s)

module _ (w : World) (P : w.State → Type 0) (k : WorldKeeps w P) where
  open w use {State, now, sleep, handshake}

  -- Of the outcomes of a turn, each keeps it.
  turn_keeps :
      (late hit : Bool) (s s' : State) (rest : Option Bool × State)
      → P s
      → P s'
      → P rest.1
      → P (if late then (some false, s) else if hit then (some true, s') else rest).1
  turn_keeps true hit s s' rest p q r = p
  turn_keeps false true s s' rest p q r = q
  turn_keeps false false s s' rest p q r = r

  polls-keeps : (fuel start : ℕ) (key : Bytes) (s : State) → P s → P (polls w fuel start key s).1
  unfolding polls
  polls-keeps zero start key s p = p
  polls-keeps (suc fuel) start key s p =
      let q = k.sleep_keeps race_poll s p in
      turn_keeps (not (ltb (now s) (start + race_wait)))
        (ltb start (handshake key (sleep race_poll s))) s (sleep race_poll s)
        (polls w fuel start key (sleep race_poll s)) p q
        (polls-keeps fuel start key (sleep race_poll s) q)

  or_false-keeps : (v : Option Bool × State) → P v.1 → P (or_false w v).1
  unfolding or_false
  or_false-keeps (none, s) p = p
  or_false-keeps (some b, s) p = p

  try_connect-keeps :
      (key : Bytes) (ip : Option ℕ) (port : ℤ) (s : State) → P s → P (try_connect w key ip port s).1
  unfolding try_connect
  try_connect-keeps key ip port s p =
      or_false-keeps _ (polls-keeps poll_fuel (now s) key _ (k.probe_keeps ip port s p))

  after_connect-keeps :
      (next : Plan → State → Dialled × State) (cand : Candidate) (q : Plan) (good : Map Candidate)
      (v : Bool × State)
      → ((u : State) → P u → P (next q u).1)
      → P v.1
      → P (after_connect w next cand q good v).1
  unfolding after_connect
  after_connect-keeps next cand q good (false, s) h p = h s p
  after_connect-keeps next cand q good (true, s) h p = p

  after_apply-keeps :
      (next : State → Dialled × State) (lost : Dialled) (v : Applied × State)
      → ((u : State) → P u → P (next u).1)
      → P v.1
      → P (after_apply w next lost v).1
  unfolding after_apply
  after_apply-keeps next lost (applied, s) h p = h s p
  after_apply-keeps next lost (device_gone, s) h p = p
  after_apply-keeps next lost (apply_failed, s) h p = p

  module _ (resolve : Bytes → Option Bytes) (ip_of : Bytes → Option ℕ)
      (before after : List Plan) where
    dial-keeps :
        (next : Plan → State → Dialled × State) (cand : Candidate) (p : Plan) (good : Map Candidate)
        (ep : Option Bytes) (s : State)
        → ((q : Plan) (u : State) → P u → P (next q u).1)
        → P s
        → P (dial w resolve ip_of next before after cand p good ep s).1
    unfolding dial
    dial-keeps next cand p good none s h i = h p s i
    dial-keeps next cand p good (some ep) s h i =
        let q : Plan = record p { desire = record p.desire { endpoint = some ep } } in
        let tried = λ (u : State). try_connect w p.pub_key (ip_of p.peer) p.peer_port u in
        after_apply-keeps (λ u. after_connect w next cand q good (tried u))
          (record { plan = q; good = good; won = false })
          (w.apply (state_with before q.desire after) s)
          (λ u j.
            after_connect-keeps next cand q good (tried u) (h q)
              (try_connect-keeps p.pub_key (ip_of p.peer) p.peer_port u j))
          (k.apply_keeps (state_with before q.desire after) s i)

    dial_all-keeps :
        (cands : List Candidate) (good : Map Candidate) (p : Plan) (s : State)
        → P s
        → P (dial_all w resolve ip_of before after cands good p s).1
    unfolding dial_all
    dial_all-keeps [] good p s i = i
    dial_all-keeps (cand ∷ cands) good p s i =
        dial-keeps (dial_all w resolve ip_of before after cands good) cand p good
          (resolve cand.addr) s (λ q u j. dial_all-keeps cands good q u j) i

    exhausted-keeps :
        (cands : List Candidate) (v : Dialled × State)
        → P v.1
        → P (exhausted w resolve ip_of cands v).1
    unfolding exhausted
    exhausted-keeps [] v i = i
    exhausted-keeps (c ∷ cands) (d, s) i = elim (Bool-cases d.won) [
      | inl e ↦ rw e i
      | inr e ↦ rw e i
    ]

    race_plan-keeps :
        (p : Plan) (good : Map Candidate) (s : State)
        → P s
        → P (race_plan w resolve ip_of before after p good s).1
    unfolding race_plan
    race_plan-keeps p good s i = elim (Bool-cases p.fresh_now) [
      | inl e ↦ rw e i
      | inr e ↦ simp e (exhausted-keeps p.ordered _ (dial_all-keeps p.ordered good p s i))
    ]

  module _ (resolve : Bytes → Option Bytes) (ip_of : Bytes → Option ℕ) where
    pub race_plans-keeps :
        (after before : List Plan) (good : Map Candidate) (s : State)
        → P s
        → P (race_plans w resolve ip_of before after good s).2
    unfolding race_plans
    race_plans-keeps [] before good s i = i
    race_plans-keeps (p ∷ after) before good s i =
        let v = race_plan w resolve ip_of before after p good s in
        race_plans-keeps after (before ++ (v.0.plan ∷ [])) v.0.good v.1
          (race_plan-keeps resolve ip_of before after p good s i)
