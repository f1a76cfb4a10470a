-- ===== src/Cmd/Args.antt =====
-- The arguments of cmd/meshd/main.go: expandSubcommand, defaultName and newStore's choice of
-- endpoints.
pub mod Moved
pub mod Names
use rout_wire.Base.{
  ℕ, Bool, true, false, not, ◌&&◌, ◌||◌, List, [], ◌∷◌, ◌++◌, Option, none, some, if◌then◌else◌,
  any, ltb, leb, ◌==◌, map,
}
use rout_wire.Base.Bytes.{Bytes, bytes, bytes_eq, has_prefix}
use rout_wire.Base.Decimal.{format_uint}
use rout_wire.Base.Map.{Map, lookup}
use rout_wire.Base.Text.{contains, trim_left, trim_space, split, is_empty, lower}
use rout_wire.Config.{default_proxies}

abbrev pub dash : Bytes
dash = b'-' ∷ []

-- var subcommandFlags
abbrev pub subcommand_flags : Map Bytes
subcommand_flags =
    (bytes "init", bytes "-init")
    ∷ (bytes "export", bytes "-export")
    ∷ (bytes "stop", bytes "-stop")
    ∷ (bytes "peek", bytes "-peek")
    ∷ (bytes "remove", bytes "-remove")
    ∷ (bytes "service", bytes "-service")
    ∷ []

-- var valueFlags
abbrev pub value_flags : List Bytes
value_flags =
    bytes "psk"
    ∷ bytes "name"
    ∷ bytes "iface"
    ∷ bytes "cidr"
    ∷ bytes "port"
    ∷ bytes "mtu"
    ∷ bytes "poll"
    ∷ bytes "stale"
    ∷ bytes "stun"
    ∷ bytes "proxies"
    ∷ bytes "backend"
    ∷ bytes "announce"
    ∷ bytes "config"
    ∷ bytes "remote"
    ∷ bytes "out"
    ∷ bytes "endpoint"
    ∷ bytes "routes"
    ∷ bytes "system"
    ∷ []

-- Does an argument take the next one as its value?
unfoldable pub takes_value : Bytes → Bool
takes_value prev =
    has_prefix dash prev
    && not (contains (b'=' ∷ []) prev)
    && any (λ f. bytes_eq f (trim_left (λ c. c == b'-') prev)) value_flags

abbrev pub value_of_last : Option Bytes → Bool
value_of_last none = false
value_of_last (some prev) = takes_value prev

-- The flag of an argument that is a subcommand, given the argument before it.
unfoldable pub subcommand_at : Option Bytes → Bytes → Option Bytes
subcommand_at prev a =
    if has_prefix dash a
    then none
    else if value_of_last prev
    then none
    else lookup a subcommand_flags

moved : List Bytes → List Bytes → Option Bytes → List Bytes → List Bytes
moved before after none rest = rest
moved before after (some flag) rest = flag ∷ before ++ after

-- The loop of expandSubcommand, after the arguments `before`, of which `prev` is the last.
unfoldable pub expand_from : List Bytes → Option Bytes → List Bytes → List Bytes
unfolding moved
expand_from before prev [] = before
expand_from before prev (a ∷ args) =
    moved before args (subcommand_at prev a) (expand_from (before ++ (a ∷ [])) (some a) args)

-- func expandSubcommand
unfoldable pub expand_subcommand : List Bytes → List Bytes
unfolding expand_from
expand_subcommand args = expand_from [] none args

-- The bytes that defaultName keeps of a lower case host name.
abbrev pub is_kept : ℕ → Bool
is_kept c = (leb b'a' c && leb c b'z') || (leb b'0' c && leb c b'9') || (c == b'-')

unfoldable pub kept_bytes : Bytes → Bytes
kept_bytes [] = []
kept_bytes (c ∷ cs) = let rest = kept_bytes cs in if is_kept c then c ∷ rest else rest

-- func defaultName, of what os.Hostname returns and a process id
unfoldable pub default_name : Option Bytes → ℕ → Bytes
unfolding kept_bytes
default_name none pid = bytes "node-" ++ format_uint pid
default_name (some host) pid =
    let n = kept_bytes (map lower host) in if is_empty n then bytes "node" else n

nonempty_parts : List Bytes → List Bytes
nonempty_parts [] = []
nonempty_parts (e ∷ es) =
    let rest = nonempty_parts es in if is_empty (trim_space e) then rest else trim_space e ∷ rest

-- The store that newStore chooses.
pub data Backend : Type 0 where
  mock_store unknown_backend : Backend
  open_dht_store : List Bytes → Backend

-- func newStore
unfoldable pub new_store : Bytes → Bytes → Backend
unfolding nonempty_parts
new_store backend override =
    if bytes_eq backend (bytes "mock")
    then mock_store
    else if bytes_eq backend (bytes "opendht")
    then open_dht_store
        (if is_empty override then default_proxies else nonempty_parts (split b',' override))
    else unknown_backend
