-- ===== src/Config.antt =====
-- internal/config/mesh_config.go and config.go: the settings of meshd and the layers that they come from.
-- Reading and parsing the file are not modelled: a file that was read is a MeshConfig. A nil layer
-- is `none`. An int has 64 bits.
pub mod Layers
use rout_wire.Base.{
  ℕ, ◌+◌, ◌-◌, ◌*◌, ◌%◌, ◌^◌, Bool, true, false, not, ◌&&◌, ◌||◌, List, [], ◌∷◌, ◌++◌, Option, none,
  some, ltb, leb, ◌==◌, if◌then◌else◌, is_some,
}
use rout_wire.Base.Bytes.{Bytes, bytes, bytes_eq}
use rout_wire.Base.Int.{ℤ, pos, negsuc, eqb_ℤ}
use rout_wire.Base.Map.{Map, lookup, has_key}
use rout_wire.Base.Text.{is_empty}

-- DefaultProxies
abbrev pub default_proxies : List Bytes
default_proxies = bytes "https://dhtproxy3.jami.net" ∷ bytes "https://dhtproxy2.jami.net" ∷ []

-- type MeshConfig
pub record MeshConfig : Type 0 where
  pub psk : Bytes
  pub name : Bytes
  pub iface : Bytes
  pub cidr : Bytes
  pub port : ℤ
  pub mtu : ℤ
  pub poll : Bytes
  pub stale : Bytes
  pub stun : List Bytes
  pub proxies : List Bytes
  pub backend : Bytes
  pub announce : List Bytes
  pub dry_run : Bool
  pub firewall_selfheal : Bool

-- &MeshConfig{}
abbrev pub zero_config : MeshConfig
zero_config = record {
  psk = [];
  name = [];
  iface = [];
  cidr = [];
  port = pos 0;
  mtu = pos 0;
  poll = [];
  stale = [];
  stun = [];
  proxies = [];
  backend = [];
  announce = [];
  dry_run = false;
  firewall_selfheal = false;
}

abbrev pub over_text : Bytes → Bytes → Bytes
over_text dst src = if is_empty src then dst else src

abbrev pub over_int : ℤ → ℤ → ℤ
over_int dst src = if eqb_ℤ src (pos 0) then dst else src

abbrev pub over_list : List Bytes → List Bytes → List Bytes
over_list dst [] = dst
over_list dst (x ∷ src) = x ∷ src

-- func mergeMeshInto
unfoldable pub merge_mesh_into : MeshConfig → MeshConfig → MeshConfig
merge_mesh_into dst src = record {
  psk = over_text dst.psk src.psk;
  name = over_text dst.name src.name;
  iface = over_text dst.iface src.iface;
  cidr = over_text dst.cidr src.cidr;
  port = over_int dst.port src.port;
  mtu = over_int dst.mtu src.mtu;
  poll = over_text dst.poll src.poll;
  stale = over_text dst.stale src.stale;
  stun = over_list dst.stun src.stun;
  proxies = over_list dst.proxies src.proxies;
  backend = over_text dst.backend src.backend;
  announce = over_list dst.announce src.announce;
  dry_run = if src.dry_run then true else dst.dry_run;
  firewall_selfheal = if src.firewall_selfheal then true else dst.firewall_selfheal;
}

-- the int that 64 bits stand for
abbrev pub to_int : ℕ → ℤ
to_int n = if ltb n (2 ^ 63) then pos n else negsuc (2 ^ 64 - 1 - n)

-- The loop of atoiOrZero. A byte that is no ASCII digit is, or belongs to, a rune that is none.
atoi_from : ℕ → Bytes → ℤ
atoi_from n [] = to_int n
atoi_from n (c ∷ s) =
    let rest = atoi_from ((n * 10 + (c - b'0')) % 2 ^ 64) s in
    if ltb c b'0' || ltb b'9' c then pos 0 else rest

-- func atoiOrZero
unfoldable pub atoi_or_zero : Bytes → ℤ
unfolding atoi_from
atoi_or_zero s = atoi_from 0 s

-- if part != "" { out = append(out, part) }
abbrev pub append_part : Bytes → List Bytes → List Bytes
append_part part out = if is_empty part then out else part ∷ out

-- The loop of splitComma, where `part` is s[start:i].
unfoldable pub split_comma_from : Bytes → Bytes → List Bytes
split_comma_from part [] = append_part part []
split_comma_from part (c ∷ s) =
    let ended = split_comma_from [] s in
    let longer = split_comma_from (part ++ (c ∷ [])) s in
    if c == b',' then append_part part ended else longer

-- func splitComma
unfoldable pub split_comma : Bytes → List Bytes
unfolding split_comma_from
split_comma s = split_comma_from [] s

-- func truthy
unfoldable pub truthy : Bytes → Bool
truthy s =
    bytes_eq s (bytes "1")
    || bytes_eq s (bytes "true")
    || bytes_eq s (bytes "TRUE")
    || bytes_eq s (bytes "True")
    || bytes_eq s (bytes "yes")

abbrev pub text_flag : Option Bytes → Bytes
text_flag none = []
text_flag (some v) = v

abbrev pub int_flag : Option Bytes → ℤ
int_flag none = pos 0
int_flag (some v) = atoi_or_zero v

abbrev pub list_flag : Option Bytes → List Bytes
list_flag none = []
list_flag (some v) = split_comma v

abbrev pub bool_flag : Option Bytes → Bool
bool_flag none = false
bool_flag (some v) = truthy v

-- func flagsToMesh
unfoldable pub flags_to_mesh : Map Bytes → MeshConfig
flags_to_mesh flags = record {
  psk = text_flag (lookup (bytes "psk") flags);
  name = text_flag (lookup (bytes "name") flags);
  iface = text_flag (lookup (bytes "iface") flags);
  cidr = text_flag (lookup (bytes "cidr") flags);
  port = int_flag (lookup (bytes "port") flags);
  mtu = int_flag (lookup (bytes "mtu") flags);
  poll = text_flag (lookup (bytes "poll") flags);
  stale = text_flag (lookup (bytes "stale") flags);
  stun = list_flag (lookup (bytes "stun") flags);
  proxies = list_flag (lookup (bytes "proxies") flags);
  backend = text_flag (lookup (bytes "backend") flags);
  announce = list_flag (lookup (bytes "announce") flags);
  dry_run = bool_flag (lookup (bytes "dry-run") flags);
  firewall_selfheal = false;
}

-- func flagsSet, where a nil map has no key
abbrev pub flags_set : Option (Map Bytes) → Bytes → Bool
flags_set none name = false
flags_set (some flags) name = has_key name flags

abbrev pub or_config : Option MeshConfig → MeshConfig
or_config none = zero_config
or_config (some defs) = defs

merge_layer : MeshConfig → Option MeshConfig → MeshConfig
merge_layer out none = out
merge_layer out (some src) = merge_mesh_into out src

env_text : Bool → Option Bytes → Bytes → Bytes
env_text flagged none out = out
env_text flagged (some v) out = if not flagged then v else out

merge_flags : MeshConfig → Option (Map Bytes) → MeshConfig
merge_flags out none = out
merge_flags out (some flags) = merge_mesh_into out (flags_to_mesh flags)

-- func ResolveMesh
unfoldable pub resolve_mesh :
    Option MeshConfig → Option MeshConfig → Map Bytes → Option (Map Bytes) → MeshConfig
unfolding merge_layer env_text merge_flags
resolve_mesh defs file env flags =
    let base = merge_layer (or_config defs) file in
    let with_psk = record base {
      psk = env_text (flags_set flags (bytes "psk")) (lookup (bytes "MESH_PSK") env) base.psk;
    } in
    let with_name = record with_psk {
      name =
          env_text (flags_set flags (bytes "name")) (lookup (bytes "MESH_NAME") env) with_psk.name;
    } in
    merge_flags with_name flags
