-- ===== src/Mesh/Daemon/Spokes.antt =====
-- The spokes in internal/mesh/daemon.go: reloadSpokes, evictStaleSpokes and syncNat. A range over a
-- map goes in the order of its list.
pub mod Synced
pub mod Evicted
pub mod Kept
pub mod Tracked
use rout_wire.Base.{
  ℕ, ◌-◌, Bool, true, false, not, ◌&&◌, ◌||◌, List, [], ◌∷◌, Option, none, some, if◌then◌else◌, ltb,
  ◌==◌,
}
use rout_wire.Base.Bytes.{Bytes}
use rout_wire.Base.Map.{Map, lookup, insert, delete, has_key, keys}
use rout_wire.Mesh.Deriver.{
  Derivation, Deriver, Checked, valid, bad_name, bad_cidr, node_wg_pub_key, overlay_ip,
}
use rout_wire.Mesh.Router.Masquerade.{Subnet}
use rout_wire.Mesh.Spokes.{SpokeSet, Disk, Io, load_spokes, save_spokes}
use rout_wire.Mesh.Daemon.World.{World}
use rout_wire.Mesh.Daemon.Node.{Settings, Daemon, spoke_evict_after}
use rout_wire.Mesh.Daemon.Cidrs.{parse_cidrs}

reloaded : Option SpokeSet → Daemon → Daemon
reloaded none dm = dm
reloaded (some set) dm = record dm { spokes = set }

-- func (dm *Daemon) reloadSpokes
unfoldable pub reload_spokes : Disk → Daemon → Daemon
unfolding reloaded
reload_spokes disk dm =
    if dm.cfg.has_spokes_file then reloaded (load_spokes dm.cfg.has_spokes_file disk) dm else dm

module _ (w : World) (x : Derivation) where
  open w use {
    State, now, handshake, forwarding, announce_nat, ensure_port, add_source, remove_source,
  }

  stale_since : ℕ → ℕ → ℕ → Bool
  stale_since after t hs = not (hs == 0 || ltb (t - hs) after)

  stale_key : ℕ → State → Checked Bytes → Bool
  unfolding stale_since
  stale_key after s (valid key) = stale_since after (now s) (handshake key s)
  stale_key after s (bad_name e) = false
  stale_key after s bad_cidr = false

  -- The tests of the loop of evictStaleSpokes: has the spoke connected and been quiet since?
  unfoldable pub is_stale : Daemon → State → Bytes → Bool
  unfolding stale_key
  is_stale dm s name = stale_key (spoke_evict_after dm.cfg) s (node_wg_pub_key x dm.deriver name)

  -- The loop of evictStaleSpokes, with the mark that something changed.
  unfoldable pub evict_from : Daemon → State → List Bytes → SpokeSet × Bool → SpokeSet × Bool
  evict_from dm s [] v = v
  evict_from dm s (name ∷ names) (set, changed) =
      evict_from dm s names (if is_stale dm s name then (delete name set, true) else (set, changed))

  -- func (dm *Daemon) evictStaleSpokes; a save that fails is only logged
  unfoldable pub evict_stale_spokes : Io → Daemon → Disk → State → Daemon × Disk
  unfolding evict_from
  evict_stale_spokes io dm disk s =
      let (set, changed) = evict_from dm s (keys dm.spokes) (dm.spokes, false) in
      (
        record dm { spokes = set },
        if changed && dm.cfg.has_spokes_file
            then (save_spokes io dm.cfg.has_spokes_file set disk).1
            else disk,
      )

  with_address : Bytes → Checked ℕ → Map ℕ → Map ℕ
  with_address name (valid ip) want = insert name ip want
  with_address name (bad_name e) want = want
  with_address name bad_cidr want = want

  -- The loop of syncNat that fills want.
  unfoldable pub wanted_sources : Daemon → List Bytes → Map ℕ → Map ℕ
  unfolding with_address
  wanted_sources dm [] want = want
  wanted_sources dm (name ∷ names) want =
      wanted_sources dm names (with_address name (overlay_ip x dm.deriver name dm.cfg.cidr) want)

  -- The sources and the world.
  abbrev pub Sources : Type 0
  Sources = Map ℕ × State

  -- The body of the loop over dm.spokeSrc: what RemoveSource returns is not looked at.
  unfoldable pub drop_source : Map ℕ → Bytes → ℕ → Sources → Sources
  drop_source want name ip (src, s) =
      if has_key name want then (src, s) else (delete name src, (remove_source ip s).1)

  unfoldable pub drop_sources : Map ℕ → Map ℕ → Sources → Sources
  unfolding drop_source
  drop_sources want [] v = v
  drop_sources want ((name, ip) ∷ src) v = drop_sources want src (drop_source want name ip v)

  after_add : Bytes → ℕ → Map ℕ → Bool × State → Sources
  after_add name ip src (false, s) = (src, s)
  after_add name ip src (true, s) = (insert name ip src, s)

  -- The body of the loop over want.
  unfoldable pub add_new_source : Bytes → ℕ → Sources → Sources
  unfolding after_add
  add_new_source name ip (src, s) =
      if has_key name src then (src, s) else after_add name ip src (add_source ip s)

  unfoldable pub add_sources : Map ℕ → Sources → Sources
  unfolding add_new_source
  add_sources [] v = v
  add_sources ((name, ip) ∷ want) v = add_sources want (add_new_source name ip v)

  -- The calls at the head of syncNat, whose errors are only logged.
  unfoldable pub assert_rules : (Bytes → Option Subnet) → Daemon → State → State
  assert_rules parse_cidr dm s =
      let s1 = if dm.fwd_warned then s else (forwarding s).1 in
      let s2 = (announce_nat dm.cfg.cidr (parse_cidrs parse_cidr dm.cfg.announce) s1).1 in
      (ensure_port s2).1

  -- func (dm *Daemon) syncNat
  unfoldable pub sync_nat : (Bytes → Option Subnet) → Daemon → State → Daemon × State
  unfolding wanted_sources drop_sources add_sources assert_rules
  sync_nat parse_cidr dm s =
      let want = wanted_sources dm (keys dm.spokes) [] in
      let (src, s') =
        add_sources want
          (drop_sources want dm.spoke_src (dm.spoke_src, assert_rules parse_cidr dm s)) in
      (record dm { fwd_warned = true; spoke_src = src }, s')
