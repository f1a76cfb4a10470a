-- ===== src/Cmd/Init.antt =====
-- runInit and renderConfigYAML of cmd/meshd/main.go, and setupHint. The user, the file system and the
-- random source are arguments; so is strconv.Quote.
pub mod Lines
use rout_wire.Base.{ℕ, zero, suc, Bool, true, false, ◌||◌, List, [], ◌∷◌, ◌++◌, if◌then◌else◌}
use rout_wire.Base.Bytes.{Bytes, bytes}
use rout_wire.Base.Decimal.{format_int}
use rout_wire.Base.Text.{contains, trim_space, is_empty, to_lower}
use rout_wire.Config.{MeshConfig, default_proxies}

-- var defaultStunServers
abbrev pub default_stun_servers : List Bytes
default_stun_servers =
    bytes "stun.l.google.com:19402"
    ∷ bytes "stun1.l.google.com:19402"
    ∷ bytes "stun.cloudflare.com:3478"
    ∷ []

abbrev pub line_end : Bytes
line_end = 10 ∷ []

abbrev or_default : List Bytes → List Bytes → List Bytes
or_default [] items = items
or_default (item ∷ given) items = item ∷ given

abbrev pub empty_mark : List Bytes → Bytes
empty_mark [] = bytes " []"
empty_mark (item ∷ items) = []

abbrev bool_text : Bool → Bytes
bool_text true = bytes "true"
bool_text false = bytes "false"

-- What runInit does, down to its report: the path, the text that it writes there with mode 0600, and
-- whether it made a new PSK.
pub data Initialised : Type 0 where
  file_exists not_written : Initialised
  config_written : Bytes → Bytes → Bool → Initialised

-- The path that runInit takes, for an effective user.
unfoldable pub init_path : Bytes → ℕ → Bytes
init_path [] zero = bytes "/etc/meshd.yaml"
init_path [] (suc uid) = bytes "meshd.yaml"
init_path (c ∷ path) uid = c ∷ path

abbrev pub with_psk : Bytes → MeshConfig → MeshConfig
with_psk fresh rc = if is_empty (trim_space rc.psk) then record rc { psk = fresh } else rc

module _ (quote : Bytes → Bytes) where
  unfoldable pub item_lines : List Bytes → Bytes
  item_lines [] = []
  item_lines (item ∷ items) = bytes "  - " ++ quote item ++ line_end ++ item_lines items

  -- writeList
  unfoldable pub list_text : Bytes → Bytes → List Bytes → Bytes
  unfolding item_lines
  list_text title comment items =
      line_end
      ++ bytes "# "
      ++ comment
      ++ line_end
      ++ title
      ++ bytes ":"
      ++ empty_mark items
      ++ line_end
      ++ item_lines items

  -- The text down to the cadence.
  head_text : MeshConfig → Bytes
  head_text rc =
      bytes "# routewire/meshd node configuration"
      ++ line_end
      ++ bytes
          "# layers: built-in defaults < this file < env (MESH_PSK, MESH_NAME) < explicit flags"
      ++ line_end
      ++ line_end
      ++ bytes "# shared mesh secret: every node of a mesh uses the same value"
      ++ line_end
      ++ bytes "psk: "
      ++ quote rc.psk
      ++ line_end
      ++ line_end
      ++ bytes "# node identity [a-z0-9-] (default: hostname)"
      ++ line_end
      ++ bytes "name: "
      ++ quote rc.name
      ++ line_end
      ++ bytes "# kernel wireguard interface created and managed by meshd"
      ++ line_end
      ++ bytes "iface: "
      ++ quote rc.iface
      ++ line_end
      ++ bytes "# overlay network from which every node IP derives"
      ++ line_end
      ++ bytes "cidr: "
      ++ rc.cidr
      ++ line_end
      ++ bytes "port: "
      ++ format_int rc.port
      ++ bytes " # wireguard UDP listen port"
      ++ line_end
      ++ bytes "mtu: "
      ++ format_int rc.mtu
      ++ line_end
      ++ line_end
      ++ bytes "# reconcile cadence / endpoint re-race threshold"
      ++ line_end
      ++ bytes "poll: "
      ++ rc.poll
      ++ line_end
      ++ bytes "stale: "
      ++ rc.stale
      ++ line_end

  tail_text : MeshConfig → Bytes
  tail_text rc =
      line_end
      ++ bytes "# simulate device control without touching the kernel"
      ++ line_end
      ++ bytes "dry_run: "
      ++ bool_text rc.dry_run
      ++ line_end
      ++ bytes "# insert accepts into host firewalls with drop policies (off = warn only)"
      ++ line_end
      ++ bytes "firewall_selfheal: "
      ++ bool_text rc.firewall_selfheal
      ++ line_end

  -- func renderConfigYAML
  unfoldable pub render_config_yaml : MeshConfig → Bytes
  unfolding head_text tail_text
  render_config_yaml rc =
      head_text rc
      ++ list_text (bytes "stun") (bytes "STUN servers for NAT discovery (set to [] to disable)")
          (or_default rc.stun default_stun_servers)
      ++ list_text (bytes "proxies") (bytes "OpenDHT roster proxies")
          (or_default rc.proxies default_proxies)
      ++ line_end
      ++ bytes "# roster backend: opendht | mock"
      ++ line_end
      ++ bytes "backend: "
      ++ rc.backend
      ++ line_end
      ++ list_text (bytes "announce") (bytes "extra subnets THIS node serves to the mesh")
          rc.announce
      ++ tail_text rc

  -- func runInit, with what os.Stat and os.WriteFile return and with the text of genPSK
  unfoldable pub run_init : MeshConfig → Bytes → ℕ → (Bytes → Bool) → Bool → Bytes → Initialised
  unfolding render_config_yaml
  run_init rc out uid there writes fresh =
      let path = init_path out uid in
      if there path
      then file_exists
      else if writes
      then config_written path (render_config_yaml (with_psk fresh rc))
          (is_empty (trim_space rc.psk))
      else not_written

-- What setupHint looks at: errors.Is for three errors, and the text of the error.
pub record SetupError : Type 0 where
  pub not_supported : Bool
  pub not_permitted : Bool
  pub already_there : Bool
  pub text : Bytes

-- func setupHint
unfoldable pub setup_hint : SetupError → Bytes
setup_hint e =
    if e.not_supported || contains (bytes "not supported") (to_lower e.text)
    then line_end
      ++ bytes "  the kernel has no WireGuard support: needs Linux >= 5.6, or the"
      ++ line_end
      ++ bytes "  wireguard module/dkms package for this kernel (try: modprobe wireguard)"
    else if e.not_permitted
    then line_end
      ++ bytes "  missing privileges: run as root, or in containers add --cap-add=NET_ADMIN"
    else if e.already_there
    then line_end ++ bytes "  leftover interface: sudo meshd stop (or: ip link del <iface>)"
    else []
