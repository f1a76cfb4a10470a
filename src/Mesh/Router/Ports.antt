-- ===== src/Mesh/Router/Ports.antt =====
-- The accepts for the listen port in internal/mesh/router.go: openPort, EnsurePort and the probed
-- deletion of a rule.
pub mod Open
use rout_wire.Base.{
  ℕ, Bool, true, false, not, List, [], ◌∷◌, ◌++◌, Option, none, some, if◌then◌else◌, is_some,
}
use rout_wire.Base.Bytes.{Bytes, bytes, bytes_eq}
use rout_wire.Base.Decimal.{format_uint}
use rout_wire.Mesh.Router.Host.{
  Host, LinuxRouter, RouterError, command_failed, iptables_bin, ip6tables_bin, run_bin,
}

abbrev pub accept_rule : ℕ → List Bytes
accept_rule port =
    bytes "-p" ∷ bytes "udp" ∷ bytes "--dport" ∷ format_uint port ∷ bytes "-j" ∷ bytes "ACCEPT" ∷ []

abbrev pub probe_args : ℕ → List Bytes
probe_args port = bytes "-C" ∷ bytes "INPUT" ∷ accept_rule port

abbrev pub insert_args : ℕ → List Bytes
insert_args port = bytes "-I" ∷ bytes "INPUT" ∷ bytes "1" ∷ accept_rule port

abbrev pub delete_args : ℕ → List Bytes
delete_args port = bytes "-D" ∷ bytes "INPUT" ∷ accept_rule port

-- The copy of the arguments whose first -D is -C.
unfoldable pub probe_of : List Bytes → List Bytes
probe_of [] = []
probe_of (a ∷ args) = if bytes_eq a (bytes "-D") then bytes "-C" ∷ args else a ∷ probe_of args

module _ (h : Host) where
  open h use {State, exec}

  insert_missing : Bytes → ℕ → Bool × State → Option RouterError × State
  unfolding run_bin
  insert_missing bin port (true, s) = (none, s)
  insert_missing bin port (false, s) =
      let (ok, s') = run_bin h bin (bytes "filter") (insert_args port) s in
      (if ok then none else some command_failed, s')

  open_family : Bytes → ℕ → State → Option RouterError × State
  unfolding insert_missing
  open_family bin port s =
      insert_missing bin port (run_bin h bin (bytes "filter") (probe_args port) s)

  open_six : LinuxRouter → Option RouterError × State → Option RouterError × State
  unfolding open_family
  open_six r (some e, s) = (some e, s)
  open_six r (none, s) = if r.has_ip6 then open_family ip6tables_bin r.port s else (none, s)

  -- func (r *linuxRouter) openPort
  unfoldable pub open_port : LinuxRouter → State → Option RouterError × State
  unfolding open_family open_six
  open_port r s = open_six r (open_family iptables_bin r.port s)

  reinsert : Bytes → ℕ → Option Bytes × State → State
  reinsert fam port (some out, s) = s
  reinsert fam port (none, s) = (exec fam (insert_args port) s).1

  -- The loop body of EnsurePort.
  unfoldable pub ensure_family : Bytes → ℕ → State → State
  unfolding reinsert
  ensure_family fam port s = reinsert fam port (exec fam (probe_args port) s)

  -- func (r *linuxRouter) EnsurePort, which returns no error
  unfoldable pub ensure_port : LinuxRouter → State → State
  unfolding ensure_family
  ensure_port r s = ensure_family ip6tables_bin r.port (ensure_family iptables_bin r.port s)

  delete_found : Bytes → List Bytes → Option Bytes × State → State
  delete_found bin args (none, s) = s
  delete_found bin args (some out, s) = (exec bin args s).1

  -- func delIPTRule
  unfoldable pub del_ipt_rule : Bytes → List Bytes → State → State
  unfolding delete_found
  del_ipt_rule bin args s = delete_found bin args (exec bin (probe_of args) s)
