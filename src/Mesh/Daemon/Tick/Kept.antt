-- ===== src/Mesh/Daemon/Tick/Kept.antt =====
-- What a run of the daemon keeps is what the calls that it makes keep.
use rout_wire.Base.{List, [], ◌∷◌, inl, inr, Bool-cases, Option, none, some}
use rout_wire.Base.Bytes.{Bytes}
use rout_wire.Base.Map.{Map}
use rout_wire.Engine.Crypto.{Outcome, good, bad}
use rout_wire.Mesh.Deriver.{Derivation, overlay_ip, roster_key}
use rout_wire.Mesh.Record.{Candidate, Record, sign}
use rout_wire.Mesh.Roster.{seal_record}
use rout_wire.Mesh.Spokes.{Disk, Io}
use rout_wire.Mesh.Daemon.World.{World, Applied, applied, device_gone, apply_failed}
use rout_wire.Mesh.Daemon.Node.{Daemon, next_seq}
use rout_wire.Mesh.Daemon.Plans.{Plan, desires, build_plans}
use rout_wire.Mesh.Daemon.Spokes.{reload_spokes}
use rout_wire.Mesh.Daemon.Race.{race_plans}
use rout_wire.Mesh.Daemon.Spokes.Kept.{sync_nat-keeps}
use rout_wire.Mesh.Daemon.Race.Kept.{WorldKeeps, race_plans-keeps}
use rout_wire.Mesh.Daemon.Tick.{
  Board, Tools, TickInput, is_gone, routed, after_race, after_first, converge, after_fetch,
  after_seal, tick, run_ticks, valid_of, initial_plans, announcement,
}

pub record BoardKeeps (w : World) (board : Board w) (P : w.State → Type 0) : Type 0 where
  pub publish_keeps : (key v : Bytes) (s : w.State) → P s → P (board.publish key v s).1
  pub fetch_keeps : (dm : Daemon) (s : w.State) → P s → P (board.fetch dm s).1

module _ (w : World) (board : Board w) (x : Derivation) (t : Tools) (P : w.State → Type 0)
    (k : WorldKeeps w P) (b : BoardKeeps w board P) where
  open w use {State}

  routed-keeps : (adv : List Bytes) (s : State) → P s → P (routed w board x t adv s)
  unfolding routed
  routed-keeps [] s p = p
  routed-keeps (a ∷ adv) s p = k.routes_keep _ s p

  after_race-keeps :
      (io : Io) (disk : Disk) (dm : Daemon) (v : List Plan × Map Candidate × State)
      → P v.2
      → P (after_race w board x t io disk dm v).3
  unfolding after_race
  after_race-keeps io disk dm (plans, last, s) p =
      sync_nat-keeps w x P k.router_keeps t.parse_cidr _ _ (routed-keeps _ s p)

  after_first-keeps :
      (io : Io) (disk : Disk) (dm : Daemon) (plans : List Plan) (v : Applied × State)
      → P v.1
      → P (after_first w board x t io disk dm plans v).3
  unfolding after_first
  after_first-keeps io disk dm plans (device_gone, s) p = p
  after_first-keeps io disk dm plans (apply_failed, s) p = p
  after_first-keeps io disk dm plans (applied, s) p =
      let that = λ (name : Bytes). valid_of (overlay_ip x dm.deriver name dm.cfg.cidr) in
      after_race-keeps io disk dm (race_plans w t.resolve that [] plans dm.last_good s)
        (race_plans-keeps w P k t.resolve that plans [] dm.last_good s p)

  after_fetch-keeps :
      (io : Io) (disk : Disk) (dm : Daemon) (mine : List Candidate)
      (v : Option (Map Record) × State)
      → P v.1
      → P (after_fetch w board x t io disk dm mine v).3
  unfolding after_fetch converge
  after_fetch-keeps io disk dm mine (none, s) p = p
  after_fetch-keeps io disk dm mine (some peers, s) p =
      let ready =
        initial_plans w board x t dm s
          (build_plans t.split_host t.to4 w x t.ip_string t.parse_cidr dm mine s peers) in
      after_first-keeps io disk dm ready (w.apply (desires ready) s)
        (k.apply_keeps (desires ready) s p)

  after_seal-keeps :
      (io : Io) (disk : Disk) (dm : Daemon) (mine : List Candidate) (sealed : Outcome Bytes)
      (s : State)
      → P s
      → P (after_seal w board x t io disk dm mine sealed s).3
  unfolding after_seal
  after_seal-keeps io disk dm mine (bad e) s p = p
  after_seal-keeps io disk dm mine (good sealed) s p =
      let key = roster_key x dm.deriver in
      let s' = (board.publish key sealed s).1 in
      after_fetch-keeps io disk dm mine (board.fetch dm s')
        (b.fetch_keeps dm s' (b.publish_keeps key sealed s p))

  pub tick-keeps :
      (i : TickInput) (disk : Disk) (dm : Daemon) (s : State)
      → P s
      → P (tick w board x t i.io i.salt i.unix i.mine disk dm s).3
  unfolding tick
  tick-keeps i disk dm s p =
      let (seq, dm') = next_seq i.unix (reload_spokes disk dm) in
      let rec =
        sign x.crypto t.json dm'.identity (announcement w board x t dm' i.mine i.unix seq) in
      after_seal-keeps i.io disk dm' i.mine
        (seal_record x t.ip_string t.json dm'.deriver i.salt rec) s p

  pub run_ticks-keeps :
      (inputs : List TickInput) (disk : Disk) (dm : Daemon) (s : State)
      → P s
      → P (run_ticks w board x t inputs disk dm s).2
  unfolding run_ticks
  run_ticks-keeps [] disk dm s p = p
  run_ticks-keeps (i ∷ inputs) disk dm s p =
      let q = tick-keeps i disk dm s p in
      elim (Bool-cases (is_gone (tick w board x t i.io i.salt i.unix i.mine disk dm s).0)) [
        | inl e ↦ rw e q
        | inr e ↦ rw e (run_ticks-keeps inputs _ _ _ q)
      ]
