-- ===== src/Mesh/Daemon/Node.antt =====
-- The daemon's own state in internal/mesh/daemon.go: Config, NewDaemon and nextSeq.
pub mod Sequence
use rout_wire.Base.{
  ℕ, zero, suc, ◌+◌, ◌*◌, ◌^◌, ◌%◌, Bool, false, List, [], Option, none, some, if◌then◌else◌, ◌==◌,
}
use rout_wire.Base.Bytes.{Bytes, bytes}
use rout_wire.Base.Int.{ℤ, pos, negsuc}
use rout_wire.Base.Map.{Map}
use rout_wire.Base.Text.{is_empty}
use rout_wire.Engine.Envelope.{Identity}
use rout_wire.Mesh.Deriver.{
  Derivation, Deriver, Checked, valid, bad_name, bad_cidr, NameError, Cidr, normalize_name,
  validate_name, node_wg_key, node_identity, overlay_ip,
}
use rout_wire.Mesh.Record.{Candidate}
use rout_wire.Mesh.Spokes.{SpokeSet, Disk, load_spokes}

-- type Config, without the router; durations are in nanoseconds
pub record Settings : Type 0 where
  pub node_name : Bytes
  pub iface : Bytes
  pub cidr : Cidr
  pub port : ℤ
  pub mtu : ℤ
  pub poll : ℤ
  pub stale_after : ℤ
  pub stun_servers : List Bytes
  pub stun_timeout : ℤ
  pub announce : List Bytes
  pub has_spokes_file : Bool

-- type Daemon, without what it talks to
pub record Daemon : Type 0 where
  pub cfg : Settings
  pub deriver : Deriver
  pub identity : Identity
  pub key : Bytes
  pub my_ip : ℕ
  pub spoke_src : Map ℕ
  pub spokes : SpokeSet
  pub fwd_warned : Bool
  pub seq : ℕ
  pub last_good : Map Candidate

abbrev pub milliseconds : ℕ → ℤ
milliseconds n = pos (n * 1000000)

-- if v == 0 { v = d }
abbrev pub or_if_zero : ℤ → ℤ → ℤ
or_if_zero d (pos zero) = d
or_if_zero d (pos (suc n)) = pos (suc n)
or_if_zero d (negsuc n) = negsuc n

-- if v <= 0 { v = d }
abbrev pub or_unless_positive : ℤ → ℤ → ℤ
or_unless_positive d (pos zero) = d
or_unless_positive d (pos (suc n)) = pos (suc n)
or_unless_positive d (negsuc n) = d

-- The defaults of NewDaemon, and the normalized name.
unfoldable pub with_defaults : Settings → Settings
with_defaults cfg = record cfg {
  node_name = normalize_name cfg.node_name;
  iface = if is_empty cfg.iface then bytes "wgmesh0" else cfg.iface;
  port = or_if_zero (pos 51820) cfg.port;
  mtu = or_if_zero (pos 1420) cfg.mtu;
  poll = or_unless_positive (milliseconds 15000) cfg.poll;
  stale_after = or_unless_positive (milliseconds 180000) cfg.stale_after;
  stun_timeout = or_unless_positive (milliseconds 800) cfg.stun_timeout;
}

-- A set that cannot be loaded is empty.
abbrev pub or_no_spokes : Option SpokeSet → SpokeSet
or_no_spokes none = []
or_no_spokes (some set) = set

-- if dm.cfg.StaleAfter > 0 { return 3 * dm.cfg.StaleAfter }, or nine minutes
unfoldable pub spoke_evict_after : Settings → ℕ
spoke_evict_after cfg = elim cfg.stale_after [
  | pos zero ↦ 540000000000
  | pos (suc n) ↦ 3 * suc n
  | negsuc n ↦ 540000000000
]

-- func (dm *Daemon) nextSeq, at a Unix time; the counter wraps at 64 bits
unfoldable pub next_seq : ℕ → Daemon → ℕ × Daemon
next_seq unix dm =
    let n = ((if dm.seq == 0 then unix else dm.seq) + 1) % 2 ^ 64 in (n, record dm { seq = n })

module _ (x : Derivation) where
  with_ip : Settings → Deriver → SpokeSet → ℕ → Bytes → Identity → Checked ℕ → Checked Daemon
  with_ip cfg d spokes nano key me (bad_name e) = bad_name e
  with_ip cfg d spokes nano key me bad_cidr = bad_cidr
  with_ip cfg d spokes nano key me (valid ip) = valid (record {
    cfg = cfg;
    deriver = d;
    identity = me;
    key = key;
    my_ip = ip;
    spoke_src = [];
    spokes = spokes;
    fwd_warned = false;
    seq = nano % 2 ^ 64;
    last_good = [];
  })

  with_identity : Settings → Deriver → SpokeSet → ℕ → Bytes → Checked Identity → Checked Daemon
  unfolding with_ip
  with_identity cfg d spokes nano key (bad_name e) = bad_name e
  with_identity cfg d spokes nano key bad_cidr = bad_cidr
  with_identity cfg d spokes nano key (valid me) =
      with_ip cfg d spokes nano key me (overlay_ip x d cfg.node_name cfg.cidr)

  with_key : Settings → Deriver → SpokeSet → ℕ → Checked Bytes → Checked Daemon
  unfolding with_identity
  with_key cfg d spokes nano (bad_name e) = bad_name e
  with_key cfg d spokes nano bad_cidr = bad_cidr
  with_key cfg d spokes nano (valid key) =
      with_identity cfg d spokes nano key (node_identity x d cfg.node_name)

  checked_name : Settings → Deriver → SpokeSet → ℕ → Option NameError → Checked Daemon
  unfolding with_key
  checked_name cfg d spokes nano (some e) = bad_name e
  checked_name cfg d spokes nano none = with_key cfg d spokes nano (node_wg_key x d cfg.node_name)

  -- func NewDaemon, at a time in nanoseconds
  unfoldable pub new_daemon : Settings → Deriver → Disk → ℕ → Checked Daemon
  unfolding checked_name
  new_daemon settings d disk nano =
      let cfg = with_defaults settings in
      checked_name cfg d (or_no_spokes (load_spokes cfg.has_spokes_file disk)) nano
        (validate_name cfg.node_name)
