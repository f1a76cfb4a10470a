-- ===== src/Mesh/Daemon/Spokes/Kept.antt =====
-- What syncNat keeps is what the calls of the router keep.
use rout_wire.Base.{
  ℕ, Bool, true, false, List, [], ◌∷◌, inl, inr, Bool-cases, Option, if◌then◌else◌,
}
use rout_wire.Base.Bytes.{Bytes}
use rout_wire.Base.Map.{Map, has_key, keys}
use rout_wire.Mesh.Deriver.{Derivation, Cidr}
use rout_wire.Mesh.Router.Masquerade.{Subnet}
use rout_wire.Mesh.Daemon.World.{World}
use rout_wire.Mesh.Daemon.Node.{Daemon}
use rout_wire.Mesh.Daemon.Spokes.{
  drop_source, drop_sources, after_add, add_new_source, add_sources, assert_rules, wanted_sources,
  sync_nat,
}

-- What is kept by the methods of the router that syncNat calls.
pub record RouterKeeps (w : World) (P : w.State → Type 0) : Type 0 where
  pub forwarding_keeps : (s : w.State) → P s → P (w.forwarding s).1
  pub announce_keeps :
      (overlay : Cidr) (subnets : List Subnet) (s : w.State)
      → P s
      → P (w.announce_nat overlay subnets s).1
  pub ensure_keeps : (s : w.State) → P s → P (w.ensure_port s).1
  pub add_keeps : (ip : ℕ) (s : w.State) → P s → P (w.add_source ip s).1
  pub remove_keeps : (ip : ℕ) (s : w.State) → P s → P (w.remove_source ip s).1

module _ (w : World) (x : Derivation) (P : w.State → Type 0) (k : RouterKeeps w P) where
  open w use {State}

  drop_source-keeps :
      (want : Map ℕ) (name : Bytes) (ip : ℕ) (v : Map ℕ × State)
      → P v.1
      → P (drop_source w x want name ip v).1
  unfolding drop_source
  drop_source-keeps want name ip (src, s) p = elim (Bool-cases (has_key name want)) [
    | inl e ↦ rw e p
    | inr e ↦ rw e (k.remove_keeps ip s p)
  ]

  drop_sources-keeps :
      (want src : Map ℕ) (v : Map ℕ × State) → P v.1 → P (drop_sources w x want src v).1
  unfolding drop_sources
  drop_sources-keeps want [] v p = p
  drop_sources-keeps want ((name, ip) ∷ src) v p =
      drop_sources-keeps want src _ (drop_source-keeps want name ip v p)

  after_add-keeps :
      (name : Bytes) (ip : ℕ) (src : Map ℕ) (v : Bool × State)
      → P v.1
      → P (after_add w x name ip src v).1
  unfolding after_add
  after_add-keeps name ip src (true, s) p = p
  after_add-keeps name ip src (false, s) p = p

  add_new_source-keeps :
      (name : Bytes) (ip : ℕ) (v : Map ℕ × State) → P v.1 → P (add_new_source w x name ip v).1
  unfolding add_new_source
  add_new_source-keeps name ip (src, s) p = elim (Bool-cases (has_key name src)) [
    | inl e ↦ rw e p
    | inr e ↦ rw e (after_add-keeps name ip src _ (k.add_keeps ip s p))
  ]

  add_sources-keeps : (want : Map ℕ) (v : Map ℕ × State) → P v.1 → P (add_sources w x want v).1
  unfolding add_sources
  add_sources-keeps [] v p = p
  add_sources-keeps ((name, ip) ∷ want) v p =
      add_sources-keeps want _ (add_new_source-keeps name ip v p)

  assert_rules-keeps :
      (parse_cidr : Bytes → Option Subnet) (dm : Daemon) (s : State)
      → P s
      → P (assert_rules w x parse_cidr dm s)
  unfolding assert_rules
  assert_rules-keeps parse_cidr dm s p =
      k.ensure_keeps _ (k.announce_keeps dm.cfg.cidr _ _ (started dm.fwd_warned))
    where
      started : (b : Bool) → P (if b then s else (w.forwarding s).1)
      started true = p
      started false = k.forwarding_keeps s p

  pub sync_nat-keeps :
      (parse_cidr : Bytes → Option Subnet) (dm : Daemon) (s : State)
      → P s
      → P (sync_nat w x parse_cidr dm s).1
  unfolding sync_nat
  sync_nat-keeps parse_cidr dm s p =
      add_sources-keeps (wanted_sources w x dm (keys dm.spokes) []) _ (
        drop_sources-keeps (wanted_sources w x dm (keys dm.spokes) []) dm.spoke_src _
          (assert_rules-keeps parse_cidr dm s p))
