-- ===== src/Mesh/Router/Host.antt =====
-- What internal/mesh/router.go uses of the host: commands, files under /proc and the nftables
-- package, as functions over the state of the host. Of a command its output is kept if it
-- succeeds and nothing if it fails.
use rout_wire.Base.{ℕ, Bool, List, ◌∷◌, Option, is_some}
use rout_wire.Base.Bytes.{Bytes, bytes}
use rout_wire.Base.Map.{Map}

-- a hook number and a policy of a base chain
pub data Hook : Type 0 where
  input_hook forward_hook other_hook : Hook

pub data Policy : Type 0 where
  drop_policy other_policy : Policy

-- nftables.Chain: a table, a hook or a policy that is nil is none
pub record Chain : Type 0 where
  pub table : Option Bytes
  pub chain_name : Bytes
  pub hook : Option Hook
  pub policy : Option Policy

-- the expressions that the program makes or looks at
pub data Expr : Type 0 where
  meta_l4proto meta_iifname meta_oifname accept other_expr : Expr
  payload_transport : ℕ → ℕ → Expr
  cmp_eq : Bytes → Expr

-- nftables.Rule
pub record Rule : Type 0 where
  pub handle : ℕ
  pub user_data : Bytes
  pub exprs : List Expr

-- a rule that is added at the handle of another rule, or appended
pub record NewRule : Type 0 where
  pub chain : Chain
  pub exprs : List Expr
  pub user_data : Bytes
  pub position : Option ℕ

pub record Host : Type 1 where
  pub State : Type 0
  -- exec.Command(bin, args...).CombinedOutput and exec.LookPath
  pub exec : Bytes → List Bytes → State → Option Bytes × State
  pub look_path : Bytes → State → Bool
  -- os.ReadFile and os.WriteFile
  pub read_file : Bytes → State → Option Bytes
  pub write_file : Bytes → Bytes → State → Bool × State
  -- nftables.New and the methods of the connection
  pub nft_new : State → Bool
  pub list_chains : State → Option (List Chain)
  pub get_rules : Chain → State → Option (List Rule)
  pub add_rule : NewRule → State → State
  pub del_rule : Rule → State → Bool × State
  pub flush : State → Bool × State

abbrev pub iptables_bin : Bytes
iptables_bin = bytes "iptables"

abbrev pub ip6tables_bin : Bytes
ip6tables_bin = bytes "ip6tables"

abbrev pub nft_comment : Bytes
nft_comment = bytes "routewire-meshd"

abbrev pub ipt_comment : Bytes
ipt_comment = bytes "routewire-meshd"

abbrev pub ip_forward_path : Bytes
ip_forward_path = bytes "/proc/sys/net/ipv4/ip_forward"

-- type linuxRouter, without its lock and log
pub record LinuxRouter : Type 0 where
  pub iface : Bytes
  pub port : ℕ
  pub added : Map Bool
  pub announce_nat : Map Bytes
  pub fwd_set : Bool
  pub fwd_fixed : Bool
  pub prior_fwd : Bytes
  pub has_ip6 : Bool
  pub selfheal : Bool
  pub tagged_chains : List Chain

-- The errors that the methods return.
pub data RouterError : Type 0 where
  empty_iface invalid_port no_ip_forward no_iptables not_ip4 command_failed write_failed :
      RouterError
  nft_failed : RouterError

module _ (h : Host) where
  open h use {State, exec}

  -- func (r *linuxRouter) run and run6, by whether the command succeeded
  unfoldable pub run_bin : Bytes → Bytes → List Bytes → State → Bool × State
  run_bin bin table args s =
      let (out, s') = exec bin (bytes "-t" ∷ table ∷ args) s in (is_some out, s')

  abbrev pub run : Bytes → List Bytes → State → Bool × State
  run = run_bin iptables_bin

  abbrev pub run6 : Bytes → List Bytes → State → Bool × State
  run6 = run_bin ip6tables_bin
