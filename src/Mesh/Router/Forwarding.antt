-- ===== src/Mesh/Router/Forwarding.antt =====
-- Forwarding of internal/mesh/router.go. What the log says is left out, but not the commands that
-- are run to find out.
pub mod Kept
use rout_wire.Base.{
  ℕ, Bool, true, false, not, ◌&&◌, ◌||◌, List, [], ◌∷◌, Option, none, some, if◌then◌else◌, ◌==◌,
  length,
}
use rout_wire.Base.Bytes.{Bytes, bytes, bytes_eq}
use rout_wire.Base.Text.{trim_space}
use rout_wire.Mesh.Router.Host.{
  Host, Chain, LinuxRouter, RouterError, write_failed, ip_forward_path,
}
use rout_wire.Mesh.Router.Nft.{apply_forward_self_heal}
use rout_wire.Mesh.Router.Scan.{warn_legacy_forward}

module _ (h : Host) where
  open h use {State, read_file, write_file}

  heal_forward : LinuxRouter → List Chain × State → LinuxRouter × State
  unfolding warn_legacy_forward
  heal_forward r (chains, s) = (
    record r { fwd_fixed = true; tagged_chains = chains },
    if length chains == length r.tagged_chains then (warn_legacy_forward h r.iface s).1 else s,
  )

  -- The end of Forwarding, with applyForwardSelfHeal and its guard.
  unfoldable pub after_forwarding : LinuxRouter → State → LinuxRouter × State
  unfolding heal_forward
  after_forwarding r s =
      if not r.selfheal
      then (r, (warn_legacy_forward h r.iface s).1)
      else if r.fwd_fixed
      then (r, s)
      else heal_forward r (apply_forward_self_heal h r.iface (r.tagged_chains, s))

  -- Does the file say 1 already?
  abbrev pub says_one : Option Bytes → Bool
  says_one none = false
  says_one (some b) = bytes_eq (trim_space b) (bytes "1")

  after_write : LinuxRouter → Bool × State → Option RouterError × LinuxRouter × State
  unfolding after_forwarding
  after_write r (false, s) = (some write_failed, r, s)
  after_write r (true, s) =
      let (r', s') = after_forwarding (record r { fwd_set = true }) s in (none, r', s')

  -- func (r *linuxRouter) Forwarding
  unfoldable pub forwarding : LinuxRouter → State → Option RouterError × LinuxRouter × State
  unfolding after_write
  forwarding r s =
      if r.fwd_set
      then (none, r, s)
      else if says_one (read_file ip_forward_path s)
      then (let (r', s') = after_forwarding (record r { fwd_set = true }) s in (none, r', s'))
      else after_write r (write_file ip_forward_path (bytes "1") s)
