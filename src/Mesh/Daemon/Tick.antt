-- ===== src/Mesh/Daemon/Tick.antt =====
-- Tick and Setup of internal/mesh/daemon.go. The candidates of the node itself, the pause between
-- two ticks and the clock of the record are arguments.
pub mod Live
pub mod Kept
pub mod Restored
use rout_wire.Base.{
  ℕ, ◌-◌, Bool, true, false, List, [], ◌∷◌, ◌++◌, Option, none, some, if◌then◌else◌, ltb, length,
  ◌&&◌, ◌==◌, ◌^◌,
}
use rout_wire.Base.Bytes.{Bytes}
use rout_wire.Base.Int.{ℤ, pos, negsuc}
use rout_wire.Base.Map.{Map}
use rout_wire.Engine.Crypto.{Outcome, good, bad}
use rout_wire.Engine.Envelope.{Json}
use rout_wire.Mesh.Deriver.{Derivation, Checked, valid, bad_name, bad_cidr, overlay_ip, roster_key}
use rout_wire.Mesh.Peers.{Ip4}
use rout_wire.Mesh.Record.{Candidate, Record, sign}
use rout_wire.Mesh.Roster.{seal_record}
use rout_wire.Mesh.Router.Masquerade.{Subnet}
use rout_wire.Mesh.Spokes.{Disk, Io}
use rout_wire.Mesh.Daemon.World.{World, Applied, applied, device_gone, apply_failed}
use rout_wire.Mesh.Daemon.Node.{Settings, Daemon, next_seq}
use rout_wire.Mesh.Daemon.Cidrs.{parse_cidrs, texts}
use rout_wire.Mesh.Daemon.Spokes.{reload_spokes, evict_stale_spokes, sync_nat}
use rout_wire.Mesh.Daemon.Plans.{Plan, initial_plan, desires, build_plans}
use rout_wire.Mesh.Daemon.Race.{race_plans}

-- The errors of Tick.
pub data TickError : Type 0 where
  not_sealed no_roster apply_gone apply_error : TickError

-- The functions that Tick hands to its parts.
pub record Tools : Type 0 where
  pub json : Json Record
  pub ip_string : ℕ → Bytes
  pub parse_cidr : Bytes → Option Subnet
  pub resolve : Bytes → Option Bytes
  pub split_host : Bytes → Option Bytes
  pub to4 : Bytes → Option Ip4

-- What Tick uses of the reliable store and of the roster: Publish, and FetchStable of a new roster.
pub record Board (w : World) : Type 0 where
  pub publish : Bytes → Bytes → w.State → Bool × w.State
  pub fetch : Daemon → w.State → Option (Map Record) × w.State

-- time.Since, which is the longest duration for the zero time
abbrev pub since : ℕ → ℕ → ℕ
since now t = if t == 0 then 2 ^ 63 - 1 else now - t

-- Is a time that long ago within the window?
abbrev pub within : ℕ → ℤ → Bool
within ago (pos n) = ltb ago n
within ago (negsuc n) = false

abbrev pub all_adv : List Plan → List Bytes
all_adv [] = []
all_adv (p ∷ plans) = p.adv ++ all_adv plans

abbrev pub valid_of {ℓ} : {A : Type ℓ} → Checked A → Option A
valid_of (valid a) = some a
valid_of (bad_name e) = none
valid_of bad_cidr = none

-- What a tick takes from outside.
pub record TickInput : Type 0 where
  pub io : Io
  pub salt : Option Bytes
  pub unix : ℕ
  pub mine : List Candidate

abbrev pub is_gone : Option TickError → Bool
is_gone none = false
is_gone (some apply_gone) = true
is_gone (some not_sealed) = false
is_gone (some no_roster) = false
is_gone (some apply_error) = false

-- func (dm *Daemon) Setup; an error of Forwarding is only logged
unfoldable pub setup_daemon : (w : World) → Daemon → w.State → Bool × w.State
setup_daemon w dm s =
    let (ok, s') = w.setup dm.key dm.cfg.port dm.cfg.mtu dm.my_ip dm.cfg.cidr s in
    if ok && ltb 0 (length dm.cfg.announce) then (true, (w.forwarding s').1) else (ok, s')

module _ (w : World) (board : Board w) (x : Derivation) (t : Tools) where
  open w use {State, now, handshake, apply, apply_routes}

  -- What a tick returns: an error, the daemon, the file of spokes and the world.
  abbrev pub Ticked : Type 0
  Ticked = Option TickError × Daemon × Disk × State

  -- The record that a node announces, without its signature.
  unfoldable pub announcement : Daemon → List Candidate → ℕ → ℕ → Record
  announcement dm mine unix seq = record {
    name = dm.cfg.node_name;
    ip = t.ip_string dm.my_ip;
    port = dm.cfg.port;
    candidates = mine;
    adv = dm.cfg.announce;
    ts = pos unix;
    seq = seq;
    pk = [];
    sig = [];
  }

  -- The first loop over the plans, and the body of the second.
  unfoldable pub mark_fresh : Daemon → State → Plan → Plan
  mark_fresh dm s p = record p {
    fresh_now = within (since (now s) (handshake p.pub_key s)) dm.cfg.stale_after;
  }

  unfoldable pub initial_plans : Daemon → State → List Plan → List Plan
  unfolding mark_fresh
  initial_plans dm s [] = []
  initial_plans dm s (p ∷ plans) =
      initial_plan t.resolve (mark_fresh dm s p) ∷ initial_plans dm s plans

  routed : List Bytes → State → State
  routed [] s = s
  routed (a ∷ adv) s = (apply_routes (texts t.parse_cidr (parse_cidrs t.parse_cidr (a ∷ adv))) s).1

  -- The end of Tick: routes, masquerades and eviction.
  after_race : Io → Disk → Daemon → List Plan × Map Candidate × State → Ticked
  unfolding routed
  after_race io disk dm (plans, last, s) =
      let (dm', s') =
        sync_nat w x t.parse_cidr (record dm { last_good = last }) (routed (all_adv plans) s) in
      let (dm'', disk') = evict_stale_spokes w x io dm' disk s' in (none, dm'', disk', s')

  after_first : Io → Disk → Daemon → List Plan → Applied × State → Ticked
  unfolding after_race
  after_first io disk dm plans (device_gone, s) = (some apply_gone, dm, disk, s)
  after_first io disk dm plans (apply_failed, s) = (some apply_error, dm, disk, s)
  after_first io disk dm plans (applied, s) = after_race io disk dm (
      race_plans w t.resolve (λ name. valid_of (overlay_ip x dm.deriver name dm.cfg.cidr)) [] plans
        dm.last_good s)

  -- The part of Tick from the plans on.
  unfoldable pub converge : Io → Disk → Daemon → List Plan → State → Ticked
  unfolding initial_plans after_first
  converge io disk dm plans s =
      let ready = initial_plans dm s plans in after_first io disk dm ready (apply (desires ready) s)

  after_fetch : Io → Disk → Daemon → List Candidate → Option (Map Record) × State → Ticked
  unfolding converge
  after_fetch io disk dm mine (none, s) = (some no_roster, dm, disk, s)
  after_fetch io disk dm mine (some peers, s) =
      converge io disk dm
        (build_plans t.split_host t.to4 w x t.ip_string t.parse_cidr dm mine s peers) s

  -- A publication that fails is only logged.
  after_seal : Io → Disk → Daemon → List Candidate → Outcome Bytes → State → Ticked
  unfolding after_fetch
  after_seal io disk dm mine (bad e) s = (some not_sealed, dm, disk, s)
  after_seal io disk dm mine (good sealed) s =
      let s' = (board.publish (roster_key x dm.deriver) sealed s).1 in
      after_fetch io disk dm mine (board.fetch dm s')

  -- func (dm *Daemon) Tick, at a Unix time, with the nonce that the random source gives
  unfoldable pub tick : Io → Option Bytes → ℕ → List Candidate → Disk → Daemon → State → Ticked
  unfolding after_seal announcement
  tick io salt unix mine disk dm s =
      let (seq, dm') = next_seq unix (reload_spokes disk dm) in
      let rec = sign x.crypto t.json dm'.identity (announcement dm' mine unix seq) in
      after_seal io disk dm' mine (seal_record x t.ip_string t.json dm'.deriver salt rec) s

  -- func (dm *Daemon) Run, over the ticks that come before its context ends
  unfoldable pub run_ticks : List TickInput → Disk → Daemon → State → Daemon × Disk × State
  unfolding tick
  run_ticks [] disk dm s = (dm, disk, s)
  run_ticks (i ∷ inputs) disk dm s =
      let (e, dm', disk', s') = tick i.io i.salt i.unix i.mine disk dm s in
      let rest = run_ticks inputs disk' dm' s' in if is_gone e then (dm', disk', s') else rest
