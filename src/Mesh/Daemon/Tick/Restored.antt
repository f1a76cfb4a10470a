-- ===== src/Mesh/Daemon/Tick/Restored.antt =====
-- Setup, the ticks and Close at the end of main in cmd/meshd/main.go, with the Linux router as the
-- router of the daemon.
use rout_wire.Base.{
  ℕ, ◌≡◌, refl, ap, if◌then◌else◌, inl, inr, Bool, true, false, ◌&&◌, List, [], Bool-cases, ltb,
  length, arith,
}
use rout_wire.Base.Bytes.{Bytes}
use rout_wire.Mesh.Deriver.{Derivation, Cidr}
use rout_wire.Mesh.Spokes.{Disk}
use rout_wire.Mesh.Router.Host.{Host, LinuxRouter}
use rout_wire.Mesh.Router.Masquerade.Owned.{IsTracked, forwarding-IsTracked}
use rout_wire.Mesh.Router.Lifetime.{close}
use rout_wire.Mesh.Router.Lifetime.Restored.{ClosingKeeps, close-restores}
use rout_wire.Mesh.Daemon.World.{World}
use rout_wire.Mesh.Daemon.Node.{Daemon}
use rout_wire.Mesh.Daemon.Race.Kept.{WorldKeeps}
use rout_wire.Mesh.Daemon.Spokes.Tracked.{Both, with_router, RouterLaws, Tracked, router_keeps}
use rout_wire.Mesh.Daemon.Tick.{Board, Tools, TickInput, setup_daemon, run_ticks, tick}
use rout_wire.Mesh.Daemon.Tick.Kept.{BoardKeeps, run_ticks-keeps, tick-keeps}

module _ (w : World) (h : Host) (ip4_text : ℕ → Bytes) (overlay_text : Cidr → Bytes) where
  abbrev both_world : World
  both_world = with_router w h ip4_text overlay_text

  -- The store and the roster do not reach the router.
  abbrev pub with_board : Board w → Board both_world
  with_board board = record {
    publish = λ key v u. let (ok, s) = board.publish key v u.0 in (ok, (s, u.1, u.2));
    fetch = λ dm u. let (peers, s) = board.fetch dm u.0 in (peers, (s, u.1, u.2));
  }

  -- The ticks of a process: the first one of main and then those of Run, and rtr.Close at the end.
  -- The source starts Run beside the first tick, and Run waits for a poll interval before it ticks.
  served :
      Board w
      → Derivation
      → Tools
      → TickInput
      → List TickInput
      → Disk
      → Daemon
      → Both w h ip4_text overlay_text
      → h.State
  served board x t i inputs disk dm v =
      let (e, dm', disk', v') =
        tick both_world (with_board board) x t i.io i.salt i.unix i.mine disk dm v in
      let last = (run_ticks both_world (with_board board) x t inputs disk' dm' v').2 in
      (close h last.1 last.2).2

  -- The end of main, from Setup on: what the process leaves of the host.
  unfoldable pub lifetime :
      Board w
      → Derivation
      → Tools
      → TickInput
      → List TickInput
      → Disk
      → Daemon
      → Both w h ip4_text overlay_text
      → h.State
  unfolding served
  lifetime board x t i inputs disk dm v =
      let (ok, v') = setup_daemon both_world dm v in
      if ok then served board x t i inputs disk dm v' else v'.2

  module _ (laws : RouterLaws w h ip4_text overlay_text) (base : List Bytes → ℕ) where
    abbrev Ours : Both w h ip4_text overlay_text → Type 0
    Ours = Tracked w h ip4_text overlay_text laws base

    world_keeps : WorldKeeps both_world Ours
    world_keeps = record {
      router_keeps = router_keeps w h ip4_text overlay_text laws base;
      apply_keeps = λ peers v k. k;
      routes_keep = λ routes v k. k;
      sleep_keeps = λ d v k. k;
      probe_keeps = λ ip port v k. k;
    }

    board_keeps : (board : Board w) → BoardKeeps both_world (with_board board) Ours
    board_keeps board = record { publish_keeps = λ key text v k. k; fetch_keeps = λ dm v k. k }

    setup_daemon-Tracked :
        (dm : Daemon) (v : Both w h ip4_text overlay_text)
        → Ours v
        → Ours (setup_daemon both_world dm v).1
    unfolding setup_daemon
    setup_daemon-Tracked dm v k =
        let ok = (w.setup dm.key dm.cfg.port dm.cfg.mtu dm.my_ip dm.cfg.cidr v.0).0 in
        elim (Bool-cases (ok && ltb 0 (length dm.cfg.announce))) [
          | inl e ↦ rw e (forwarding-IsTracked h laws.nat_laws base v.1 v.2 k)
          | inr e ↦ rw e k
        ]

    -- What follows a Setup that returns no error.
    served-restores :
        (board : Board w) (x : Derivation) (t : Tools) (i : TickInput) (inputs : List TickInput)
        (disk : Disk) (dm : Daemon) (v : Both w h ip4_text overlay_text)
        → ((port : ℕ)
            → ClosingKeeps h port
                (λ s. (rule : List Bytes) → laws.nat_laws.copies rule s ≡ base rule))
        → Ours v
        → (rule : List Bytes)
        → laws.nat_laws.copies rule (served board x t i inputs disk dm v) ≡ base rule
    unfolding served
    served-restores board x t i inputs disk dm v others k =
        let b = board_keeps board in
        close-restores h laws.nat_laws base _ _ (others _) (
          run_ticks-keeps both_world (with_board board) x t Ours world_keeps b inputs _ _ _
            (tick-keeps both_world (with_board board) x t Ours world_keeps b i disk dm v k))

  fresh_lem :
      (laws : RouterLaws w h ip4_text overlay_text) (r : LinuxRouter) (s : h.State)
      → r.added ≡ []
      → r.announce_nat ≡ []
      → IsTracked h laws.nat_laws (λ t. laws.nat_laws.copies t s) r s
  fresh_lem laws r s a n = record {
    unique_added = rw a tt;
    unique_announced = rw n tt;
    holds = λ rule. rw (a, n) (omega arith);
  }

  failing_lem :
      (ok adv : Bool) (a b : Both w h ip4_text overlay_text)
      → (if◌then◌else◌ {A = Bool × Both w h ip4_text overlay_text} (ok && adv) (true, a) (ok, b)).0
        ≡ false
      → (if◌then◌else◌ {A = Bool × Both w h ip4_text overlay_text} (ok && adv) (true, a) (ok, b)).1
        ≡ b
  failing_lem true true a b e = cc
  failing_lem true false a b e = refl
  failing_lem false adv a b e = refl

  -- A Setup that fails has not called the router.
  failed_lem :
      (dm : Daemon) (v : Both w h ip4_text overlay_text)
      → (setup_daemon both_world dm v).0 ≡ false
      → (setup_daemon both_world dm v).1.2 ≡ v.2
  unfolding setup_daemon
  failed_lem dm v e =
      let (ok, u) = w.setup dm.key dm.cfg.port dm.cfg.mtu dm.my_ip dm.cfg.cidr v.0 in
      ap (λ p. p.2)
        (failing_lem ok (ltb 0 (length dm.cfg.announce)) (both_world.forwarding (u, v.1, v.2)).1
          (u, v.1, v.2) e)

  -- With a router that tracks nothing yet, whatever the ticks of the process find in the roster and in
  -- their other inputs, and whether Setup succeeds or not, the nat table holds in the end as many
  -- copies of every rule as it did before Setup. The conditions are that a deletion of a rule that is
  -- there never fails, and that what the process does elsewhere does not change the nat table.
  pub lifetime-restores :
      (laws : RouterLaws w h ip4_text overlay_text) (board : Board w) (x : Derivation) (t : Tools)
      (i : TickInput) (inputs : List TickInput) (disk : Disk) (dm : Daemon) (u : w.State)
      (r : LinuxRouter) (s : h.State)
      → ((port : ℕ) (f : List Bytes → ℕ)
          → ClosingKeeps h port (λ v. (rule : List Bytes) → laws.nat_laws.copies rule v ≡ f rule))
      → r.added ≡ []
      → r.announce_nat ≡ []
      → (rule : List Bytes)
      → laws.nat_laws.copies rule (lifetime board x t i inputs disk dm (u, r, s))
        ≡ laws.nat_laws.copies rule s
  unfolding lifetime
  lifetime-restores laws board x t i inputs disk dm u r s others a n rule =
      let base = λ (rule : List Bytes). laws.nat_laws.copies rule s in
      elim (Bool-cases (setup_daemon both_world dm (u, r, s)).0) [
        | inl e ↦ rw e (
            served-restores laws base board x t i inputs disk dm _ (λ port. others port base)
              (setup_daemon-Tracked laws base dm (u, r, s) (fresh_lem laws r s a n)) rule)
        | inr e ↦ rw e (ap (laws.nat_laws.copies rule) (failed_lem dm (u, r, s) e))
      ]
