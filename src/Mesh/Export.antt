-- ===== src/Mesh/Export.antt =====
-- internal/mesh/export.go: the configuration of a device that does not run the daemon. The texts
-- of keys, addresses and the time are parameters, as is %q of fmt.
pub mod Checks
use rout_wire.Base.{
  ℕ, zero, suc, Bool, true, false, not, List, [], ◌∷◌, ◌++◌, Option, none, some, if◌then◌else◌, map,
  is_some,
}
use rout_wire.Base.Bytes.{Bytes, bytes, bytes_eq}
use rout_wire.Base.Decimal.{format_uint}
use rout_wire.Base.Int.{ℤ, pos, negsuc}
use rout_wire.Base.Text.{join}
use rout_wire.Mesh.Deriver.{
  Derivation, Deriver, Checked, valid, bad_name, bad_cidr, NameError, Cidr, normalize_name,
  validate_name, node_wg_key, overlay_ip,
}
use rout_wire.Mesh.Router.Masquerade.{Subnet}
use rout_wire.Mesh.Daemon.Cidrs.{parse_cidrs, texts}

-- type ExportConfInput; a network comes with its text
pub record ExportConfInput : Type 0 where
  pub deriver : Option Deriver
  pub cidr : Option (Cidr × Bytes)
  pub local_name : Bytes
  pub remote_name : Bytes
  pub endpoint : Bytes
  pub extra_routes : List Bytes
  pub mtu : ℤ

pub data ExportError : Type 0 where
  nothing_given same_name bad_endpoint not_derived : ExportError
  bad_remote : NameError → ExportError

pub data Exported : Type 0 where
  exported : Bytes → Exported
  not_exported : ExportError → Exported

-- The default of an MTU that is not positive.
abbrev pub mtu_or_default : ℤ → ℕ
mtu_or_default (pos zero) = 1420
mtu_or_default (pos (suc n)) = suc n
mtu_or_default (negsuc n) = 1420

-- What the text says.
pub record Conf : Type 0 where
  pub private_key : Bytes
  pub address : ℕ
  pub conf_mtu : ℕ
  pub peer_key : Bytes
  pub allowed : List Bytes

pub record Printer : Type 0 where
  pub quote : Bytes → Bytes
  pub key_string : Bytes → Bytes
  pub ip_string : ℕ → Bytes
  -- time.Now().UTC().Format(time.RFC3339)
  pub time_text : Bytes

abbrev pub end_line : Bytes
end_line = 10 ∷ []

-- The text that the Builder collects.
unfoldable pub render_conf : Printer → Bytes → Bytes → Bytes → Conf → Bytes
render_conf pr remote local endpoint c =
    bytes "# routewire/meshd exported config for "
    ++ pr.quote remote
    ++ end_line
    ++ bytes "# generated "
    ++ pr.time_text
    ++ bytes " by node "
    ++ pr.quote local
    ++ bytes " from its live routing knowledge."
    ++ end_line
    ++ bytes "# regenerate to refresh endpoints/routes; keep this file secret (0600)."
    ++ end_line
    ++ end_line
    ++ bytes "[Interface]"
    ++ end_line
    ++ bytes "PrivateKey = "
    ++ pr.key_string c.private_key
    ++ end_line
    ++ bytes "Address = "
    ++ pr.ip_string c.address
    ++ bytes "/32"
    ++ end_line
    ++ bytes "MTU = "
    ++ format_uint c.conf_mtu
    ++ end_line
    ++ end_line
    ++ bytes "[Peer]"
    ++ end_line
    ++ bytes "# routewire hub "
    ++ pr.quote local
    ++ bytes " (regenerate there after topology changes)"
    ++ end_line
    ++ bytes "PublicKey = "
    ++ pr.key_string c.peer_key
    ++ end_line
    ++ bytes "Endpoint = "
    ++ endpoint
    ++ end_line
    ++ bytes "AllowedIPs = "
    ++ join (bytes ", ") c.allowed
    ++ end_line
    ++ bytes "PersistentKeepalive = 25"
    ++ end_line

-- net.SplitHostPort by whether it succeeds.
module _ (x : Derivation) (pr : Printer) (parse_cidr : Bytes → Option Subnet)
    (splits : Bytes → Bool) where
  derived : ExportConfInput → Bytes → Checked Bytes → Checked ℕ → Checked Bytes → Option Conf
  derived inp net (valid priv) (valid ip) (valid hub) = some (record {
    private_key = priv;
    address = ip;
    conf_mtu = mtu_or_default inp.mtu;
    peer_key = x.wg_public hub;
    allowed = net ∷ texts parse_cidr (parse_cidrs parse_cidr inp.extra_routes);
  })
  derived inp net (valid priv) (valid ip) (bad_name e) = none
  derived inp net (valid priv) (valid ip) bad_cidr = none
  derived inp net (valid priv) (bad_name e) hub = none
  derived inp net (valid priv) bad_cidr hub = none
  derived inp net (bad_name e) ip hub = none
  derived inp net bad_cidr ip hub = none

  -- What is derived of both nodes' names: the keys and the address.
  unfoldable pub conf_of : ExportConfInput → Deriver → Cidr → Bytes → Option Conf
  unfolding derived
  conf_of inp d cidr net =
      let remote = normalize_name inp.remote_name in
      derived inp net (node_wg_key x d remote) (overlay_ip x d remote cidr)
        (node_wg_key x d (normalize_name inp.local_name))

  printed : ExportConfInput → Option Conf → Exported
  printed inp none = not_exported not_derived
  printed inp (some c) = exported (
      render_conf pr (normalize_name inp.remote_name) (normalize_name inp.local_name) inp.endpoint
        c)

  named_conf : ExportConfInput → Deriver → Cidr → Bytes → Option NameError → Exported
  unfolding conf_of printed
  named_conf inp d cidr net (some e) = not_exported (bad_remote e)
  named_conf inp d cidr net none =
      if bytes_eq (normalize_name inp.remote_name) (normalize_name inp.local_name)
      then not_exported same_name
      else if not (splits inp.endpoint)
      then not_exported bad_endpoint
      else printed inp (conf_of inp d cidr net)

  given : ExportConfInput → Option Deriver → Option (Cidr × Bytes) → Exported
  unfolding named_conf
  given inp none cidr = not_exported nothing_given
  given inp (some d) none = not_exported nothing_given
  given inp (some d) (some (cidr, net)) =
      named_conf inp d cidr net (validate_name (normalize_name inp.remote_name))

  -- func ExportConf
  unfoldable pub export_conf : ExportConfInput → Exported
  unfolding given
  export_conf inp = given inp inp.deriver inp.cidr
