-- ===== src/Mesh/Daemon/Spokes/Tracked.antt =====
-- The daemon with the Linux router: syncNat keeps every masquerade tracked.
use rout_wire.Base.{ℕ, Bool, List, Option, some, is_some, not, ◌≡◌, ◌∙◌, true}
use rout_wire.Base.Bytes.{Bytes}
use rout_wire.Mesh.Deriver.{Derivation, Cidr}
use rout_wire.Mesh.Router.Host.{Host, LinuxRouter, RouterError}
use rout_wire.Mesh.Router.Ports.{ensure_port, probe_args, insert_args}
use rout_wire.Mesh.Router.Ports.Open.{ensure_port-keeps_all}
use rout_wire.Mesh.Router.Forwarding.{forwarding}
use rout_wire.Mesh.Router.Masquerade.{Subnet, add_source, remove_source, announce_nat_rules}
use rout_wire.Mesh.Router.Masquerade.Owned.{
  NatLaws, IsTracked, forwarding-IsTracked, add_source-IsTracked, remove_source-IsTracked,
}
use rout_wire.Mesh.Router.Masquerade.Reconciled.{announce_nat_rules-reconciled}
use rout_wire.Mesh.Daemon.World.{World}
use rout_wire.Mesh.Daemon.Node.{Daemon}
use rout_wire.Mesh.Daemon.Spokes.{sync_nat}
use rout_wire.Mesh.Daemon.Spokes.Kept.{RouterKeeps, sync_nat-keeps}

module _ (w : World) (h : Host) (ip4_text : ℕ → Bytes) (overlay_text : Cidr → Bytes) where
  abbrev pub Both : Type 0
  Both = w.State × LinuxRouter × h.State

  -- A call of the router, by whether it returns no error.
  abbrev pub called : w.State → Option RouterError × LinuxRouter × h.State → Bool × Both
  called u (e, r, s) = (not (is_some e), (u, r, s))

  -- A world whose router is the Linux router.
  abbrev pub with_router : World
  with_router = record {
    State = Both;
    now = λ v. w.now v.0;
    sleep = λ d v. (w.sleep d v.0, v.1, v.2);
    probe = λ ip port v. (w.probe ip port v.0, v.1, v.2);
    apply = λ peers v. let (a, u) = w.apply peers v.0 in (a, (u, v.1, v.2));
    setup = λ key port mtu ip cidr v.
        let (ok, u) = w.setup key port mtu ip cidr v.0 in (ok, (u, v.1, v.2));
    apply_routes = λ routes v. let (ok, u) = w.apply_routes routes v.0 in (ok, (u, v.1, v.2));
    handshake = λ key v. w.handshake key v.0;
    endpoint = λ key v. w.endpoint key v.0;
    forwarding = λ v. called v.0 (forwarding h v.1 v.2);
    announce_nat = λ overlay subnets v.
        let (r, s) = announce_nat_rules h (overlay_text overlay) subnets v.1 v.2 in
        (true, (v.0, r, s));
    ensure_port = λ v. (true, (v.0, v.1, ensure_port h v.1 v.2));
    add_source = λ ip v. called v.0 (add_source h (some (ip4_text ip)) v.1 v.2);
    remove_source = λ ip v. called v.0 (remove_source h (some (ip4_text ip)) v.1 v.2);
  }

  -- What the router's commands promise: those of the nat table as in NatLaws, and those for the port
  -- leave that table alone.
  pub record RouterLaws : Type 0 where
    pub nat_laws : NatLaws h
    pub probe_keeps :
        (port : ℕ) (fam : Bytes) (t : List Bytes) (s : h.State)
        → nat_laws.copies t (h.exec fam (probe_args port) s).1 ≡ nat_laws.copies t s
    pub insert_keeps :
        (port : ℕ) (fam : Bytes) (t : List Bytes) (s : h.State)
        → nat_laws.copies t (h.exec fam (insert_args port) s).1 ≡ nat_laws.copies t s

  module _ (laws : RouterLaws) (base : List Bytes → ℕ) where
    open laws use {nat_laws, probe_keeps, insert_keeps}

    abbrev pub Tracked : Both → Type 0
    Tracked v = IsTracked h nat_laws base v.1 v.2

    same_copies_lem :
        (r : LinuxRouter) (s s' : h.State)
        → ((t : List Bytes) → nat_laws.copies t s' ≡ nat_laws.copies t s)
        → IsTracked h nat_laws base r s
        → IsTracked h nat_laws base r s'
    same_copies_lem r s s' same k = record {
      unique_added = k.unique_added;
      unique_announced = k.unique_announced;
      holds = λ t. same t ∙ k.holds t;
    }

    pub router_keeps : RouterKeeps with_router Tracked
    router_keeps = record {
      forwarding_keeps = λ v k. forwarding-IsTracked h nat_laws base v.1 v.2 k;
      announce_keeps = λ overlay subnets v k.
          (announce_nat_rules-reconciled h nat_laws base (overlay_text overlay) subnets v.1 v.2
            k).0;
      ensure_keeps = λ v k.
          ensure_port-keeps_all h v.1 (λ s. IsTracked h nat_laws base v.1 s)
            (λ fam s. same_copies_lem v.1 s _ (λ t. probe_keeps v.1.port fam t s))
            (λ fam s. same_copies_lem v.1 s _ (λ t. insert_keeps v.1.port fam t s)) v.2 k;
      add_keeps = λ ip v k. add_source-IsTracked h nat_laws base (some (ip4_text ip)) v.1 v.2 k;
      remove_keeps =
          λ ip v k. remove_source-IsTracked h nat_laws base (some (ip4_text ip)) v.1 v.2 k;
    }

    -- With the Linux router as its router, the daemon's syncNat keeps every masquerade tracked: beside
    -- the rules that were there before, the nat table holds exactly those that the router tracks.
    pub sync_nat-Tracked :
        (x : Derivation) (parse_cidr : Bytes → Option Subnet) (dm : Daemon) (v : Both)
        → Tracked v
        → Tracked (sync_nat with_router x parse_cidr dm v).1
    sync_nat-Tracked x parse_cidr dm v k =
        sync_nat-keeps with_router x Tracked router_keeps parse_cidr dm v k
