-- ===== src/Mesh/Router/Lifetime.antt =====
-- NewLinuxRouter and Close of internal/mesh/router.go.
pub mod Restored
use rout_wire.Base.{
  ℕ, zero, suc, Bool, true, false, not, ◌&&◌, ◌||◌, List, [], ◌∷◌, ◌++◌, Option, none, some,
  if◌then◌else◌, drop, map, is_some,
}
use rout_wire.Base.Bytes.{Bytes, bytes, bytes_eq, has_prefix}
use rout_wire.Base.Int.{ℤ, pos, negsuc}
use rout_wire.Base.Map.{Map, keys}
use rout_wire.Base.Text.{trim_space, split, fields, contains, is_empty}
use rout_wire.Mesh.Router.Host.{
  Host, Chain, Rule, LinuxRouter, RouterError, empty_iface, invalid_port, no_ip_forward,
  no_iptables, command_failed, write_failed, nft_failed, iptables_bin, ip6tables_bin,
  ip_forward_path, ipt_comment, nft_comment, run,
}
use rout_wire.Mesh.Router.Nft.{apply_input_self_heal}
use rout_wire.Mesh.Router.Scan.{warn_blocked_port}
use rout_wire.Mesh.Router.Ports.{open_port, del_ipt_rule, delete_args}
use rout_wire.Mesh.Router.Masquerade.{Subnet, spoke_rule, announce_rule, nat_delete, before_bar}

-- What NewLinuxRouter returns: a router, or an error, with the no-op router if iptables is missing.
pub data Built : Type 0 where
  built : LinuxRouter → Built
  no_router : RouterError → Built
  noop_router : RouterError → Built

-- if err != nil && first == nil { first = err }
abbrev pub or_first : Option RouterError → Option RouterError → Option RouterError
or_first none e = e
or_first (some e) other = some e

abbrev pub failure : Bool → RouterError → Option RouterError
failure true e = none
failure false e = some e

-- the rules of the two maps
abbrev pub announce_rules : Map Bytes → List (List Bytes)
announce_rules [] = []
announce_rules ((key, dst) ∷ m) = announce_rule (before_bar key) dst ∷ announce_rules m

abbrev pub spoke_rules : Bytes → Map Bool → List (List Bytes)
spoke_rules iface [] = []
spoke_rules iface ((src, v) ∷ m) = spoke_rule iface src ∷ spoke_rules iface m

module _ (h : Host) where
  open h use {
    State, exec, look_path, read_file, write_file, nft_new, list_chains, get_rules, del_rule, flush,
  }

  healed_router : LinuxRouter → List Chain × State → LinuxRouter × State
  healed_router r (chains, s) = (record r { tagged_chains = chains }, s)

  -- The end of NewLinuxRouter, after openPort. With a log that is nil the source scans no dump.
  opened_router : LinuxRouter → Option RouterError × State → Built × State
  unfolding healed_router
  opened_router r (some e, s) = (no_router e, s)
  opened_router r (none, s) =
      let (r', s') =
        if r.selfheal
        then healed_router r (apply_input_self_heal h r.port (r.tagged_chains, s))
        else (r, s) in
      (built r', (warn_blocked_port h r.port s').1)

  new_with : Bytes → ℕ → Bool → Option Bytes → State → Built × State
  unfolding opened_router
  new_with iface port selfheal none s = (no_router no_ip_forward, s)
  new_with iface port selfheal (some prior) s =
      if not (look_path iptables_bin s)
      then (noop_router no_iptables, s)
      else let r : LinuxRouter = record {
        iface = iface;
        port = port;
        added = [];
        announce_nat = [];
        fwd_set = false;
        fwd_fixed = false;
        prior_fwd = trim_space prior;
        has_ip6 = look_path ip6tables_bin s;
        selfheal = selfheal;
        tagged_chains = [];
      } in
        opened_router r (open_port h r s)

  -- func NewLinuxRouter
  unfoldable pub new_linux_router : Bytes → ℤ → Bool → State → Built × State
  unfolding new_with
  new_linux_router iface (negsuc n) selfheal s =
      (no_router (if is_empty iface then empty_iface else invalid_port), s)
  new_linux_router iface (pos zero) selfheal s =
      (no_router (if is_empty iface then empty_iface else invalid_port), s)
  new_linux_router iface (pos (suc n)) selfheal s =
      if is_empty iface
      then (no_router empty_iface, s)
      else new_with iface (suc n) selfheal (read_file ip_forward_path s) s

  -- A loop of Close over the rules of the nat table, with the first error.
  unfoldable pub delete_rules :
      List (List Bytes) → Option RouterError × State → Option RouterError × State
  delete_rules [] v = v
  delete_rules (rule ∷ rules) (first, s) =
      let (ok, s') = run h (bytes "nat") (nat_delete rule) s in
      delete_rules rules (or_first first (failure ok command_failed), s')

  delete_tagged : List Rule → Option RouterError × State → Option RouterError × State
  delete_tagged [] v = v
  delete_tagged (rule ∷ rules) (first, s) = delete_tagged rules (
      if bytes_eq rule.user_data nft_comment
      then (let (ok, s') = del_rule rule s in (or_first first (failure ok nft_failed), s'))
      else (first, s))

  sweep_chain : Option (List Rule) → Option RouterError × State → Option RouterError × State
  unfolding delete_tagged
  sweep_chain none v = v
  sweep_chain (some rules) v = delete_tagged rules v

  sweep_chains : List Chain → Option RouterError × State → Option RouterError × State
  unfolding sweep_chain
  sweep_chains [] v = v
  sweep_chains (c ∷ chains) v = sweep_chains chains (sweep_chain (get_rules c v.1) v)

  flushed : Option RouterError × State → Option RouterError × State
  flushed (first, s) = let (ok, s') = flush s in (or_first first (failure ok nft_failed), s')

  -- The part of Close for the tagged chains.
  unfoldable pub remove_tagged :
      List Chain → Option RouterError × State → Option RouterError × State
  unfolding sweep_chains flushed
  remove_tagged [] v = v
  remove_tagged (c ∷ chains) v = if nft_new v.1 then flushed (sweep_chains (c ∷ chains) v) else v

  -- The part of Close for the ports.
  unfoldable pub close_ports : LinuxRouter → State → State
  close_ports r s =
      let s4 = del_ipt_rule h iptables_bin (delete_args r.port) s in
      if r.has_ip6 then del_ipt_rule h ip6tables_bin (delete_args r.port) s4 else s4

  -- The part of Close that restores the value of ip_forward.
  unfoldable pub restore_forwarding :
      LinuxRouter → Option RouterError × State → Option RouterError × State
  restore_forwarding r (first, s) =
      if r.fwd_set && not (is_empty r.prior_fwd)
      then (let (ok, s') = write_file ip_forward_path r.prior_fwd s in
          (or_first first (failure ok write_failed), s'))
      else (first, s)

  -- func (r *linuxRouter) Close
  unfoldable pub close : LinuxRouter → State → Option RouterError × LinuxRouter × State
  unfolding delete_rules close_ports remove_tagged restore_forwarding
  close r s =
      let (first, s1) =
        delete_rules (announce_rules r.announce_nat ++ spoke_rules r.iface r.added) (none, s) in
      let (last, s2) =
        restore_forwarding r (remove_tagged r.tagged_chains (first, close_ports r s1)) in
      (last, record r { added = []; announce_nat = []; tagged_chains = [] }, s2)
