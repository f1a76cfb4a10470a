-- ===== src/Mesh/Router/Nft.antt =====
-- The foreign nftables chains of internal/mesh/router.go: accepts are inserted into chains whose
-- policy drops, or such chains are reported. A report is the list of the chains that the log names.
pub mod Kept
use rout_wire.Base.{
  ℕ, zero, suc, ◌-◌, ◌/◌, ◌%◌, Bool, true, false, not, ◌&&◌, List, [], ◌∷◌, ◌++◌, Option, none,
  some, any, take, if◌then◌else◌, length,
}
use rout_wire.Base.Bytes.{Bytes, bytes, bytes_eq}
use rout_wire.Mesh.Router.Host.{
  Hook, input_hook, forward_hook, other_hook, Policy, drop_policy, other_policy, Chain, Expr,
  meta_l4proto, meta_iifname, meta_oifname, accept, cmp_eq, payload_transport, Rule, NewRule, Host,
  nft_comment,
}

abbrev pub is_input : Hook → Bool
is_input input_hook = true
is_input forward_hook = false
is_input other_hook = false

abbrev pub is_forward : Hook → Bool
is_forward forward_hook = true
is_forward input_hook = false
is_forward other_hook = false

-- The tests before GetRules: a base chain of the hook with a drop policy.
unfoldable pub drops_at : (Hook → Bool) → Chain → Bool
drops_at at c = elim c.table [
  | none ↦ false
  | some t ↦ elim c.hook [
    | none ↦ false
    | some k ↦ elim c.policy [ none ↦ false | some drop_policy ↦ at k | some other_policy ↦ false ]
  ]
]

-- the two bytes of uint16(port)
abbrev pub port_be : ℕ → Bytes
port_be port = (port / 256) % 256 ∷ port % 256 ∷ []

-- func ifnameBytes: 16 bytes, padded with NUL
zeros : ℕ → Bytes
zeros zero = []
zeros (suc n) = 0 ∷ zeros n

unfoldable pub ifname_bytes : Bytes → Bytes
unfolding zeros
ifname_bytes name = take 16 name ++ zeros (16 - length name)

unfoldable pub is_tagged : List Rule → Bool
is_tagged rules = any (λ (r : Rule). bytes_eq r.user_data nft_comment) rules

-- nr.Position: the handle of the first rule
abbrev pub first_handle : List Rule → Option ℕ
first_handle [] = none
first_handle (r ∷ rules) = some r.handle

abbrev pub tagged_rule : Chain → List Rule → List Expr → NewRule
tagged_rule c rules exprs = record {
  chain = c;
  exprs = exprs;
  user_data = nft_comment;
  position = first_handle rules;
}

-- meta l4proto udp, udp dport port, accept; 17 is IPPROTO_UDP
abbrev pub port_exprs : ℕ → List Expr
port_exprs port =
    meta_l4proto ∷ cmp_eq (17 ∷ []) ∷ payload_transport 2 2 ∷ cmp_eq (port_be port) ∷ accept ∷ []

abbrev pub iface_exprs : Expr → Bytes → List Expr
iface_exprs meta iface = meta ∷ cmp_eq (ifname_bytes iface) ∷ accept ∷ []

-- Does an expression of a rule compare with the data?
abbrev pub compares_with : Bytes → Expr → Bool
compares_with d (cmp_eq e) = bytes_eq e d
compares_with d meta_l4proto = false
compares_with d meta_iifname = false
compares_with d meta_oifname = false
compares_with d accept = false
compares_with d Expr.other_expr = false
compares_with d (payload_transport o n) = false

unfoldable pub mentions_data : Bytes → List Rule → Bool
mentions_data d rules = any (λ (r : Rule). any (compares_with d) r.exprs) rules

module _ (h : Host) where
  open h use {State, nft_new, list_chains, get_rules, add_rule, flush}

  add_rules : List NewRule → State → State
  add_rules [] s = s
  add_rules (r ∷ rules) s = add_rules rules (add_rule r s)

  after_flush : Chain → List Chain → Bool × State → List Chain × State
  after_flush c chains (true, s) = (chains ++ (c ∷ []), s)
  after_flush c chains (false, s) = (chains, s)

  heal_rules :
      (List Rule → List NewRule)
      → Chain
      → Option (List Rule)
      → List Chain × State
      → List Chain × State
  unfolding add_rules after_flush is_tagged
  heal_rules make c none v = v
  heal_rules make c (some rules) (chains, s) =
      if is_tagged rules
      then (chains, s)
      else after_flush c chains (flush (add_rules (make rules) s))

  -- The loop body of applyInputSelfHeal and of applyForwardSelfHeal, with the tagged chains.
  unfoldable pub heal_chain :
      (Hook → Bool)
      → (Chain → List Rule → List NewRule)
      → Chain
      → List Chain × State
      → List Chain × State
  unfolding heal_rules
  heal_chain at make c v = if drops_at at c then heal_rules (make c) c (get_rules c v.1) v else v

  unfoldable pub heal_chains :
      (Hook → Bool)
      → (Chain → List Rule → List NewRule)
      → List Chain
      → List Chain × State
      → List Chain × State
  unfolding heal_chain
  heal_chains at make [] v = v
  heal_chains at make (c ∷ chains) v = heal_chains at make chains (heal_chain at make c v)

  healed :
      (Hook → Bool)
      → (Chain → List Rule → List NewRule)
      → Option (List Chain)
      → List Chain × State
      → List Chain × State
  unfolding heal_chains
  healed at make none v = v
  healed at make (some chains) v = heal_chains at make chains v

  abbrev pub input_rules : ℕ → Chain → List Rule → List NewRule
  input_rules port c rules = tagged_rule c rules (port_exprs port) ∷ []

  abbrev pub forward_rules : Bytes → Chain → List Rule → List NewRule
  forward_rules iface c rules =
      tagged_rule c rules (iface_exprs meta_iifname iface)
      ∷ tagged_rule c rules (iface_exprs meta_oifname iface)
      ∷ []

  -- func (r *linuxRouter) applyInputSelfHeal, on the tagged chains
  unfoldable pub apply_input_self_heal : ℕ → List Chain × State → List Chain × State
  unfolding healed
  apply_input_self_heal port v =
      if nft_new v.1 then healed is_input (input_rules port) (list_chains v.1) v else v

  -- func (r *linuxRouter) applyForwardSelfHeal, after its guard
  unfoldable pub apply_forward_self_heal : Bytes → List Chain × State → List Chain × State
  unfolding healed
  apply_forward_self_heal iface v =
      if nft_new v.1 then healed is_forward (forward_rules iface) (list_chains v.1) v else v

  -- The chains of the hook that drop and whose rules never compare with the data; a chain whose
  -- rules cannot be read is one of them.
  blocked_rules : Bytes → Option (List Rule) → Bool
  unfolding mentions_data
  blocked_rules d none = true
  blocked_rules d (some rules) = not (mentions_data d rules)

  unfoldable pub blocked_chains : (Hook → Bool) → Bytes → List Chain → State → List Chain
  unfolding blocked_rules
  blocked_chains at d [] s = []
  blocked_chains at d (c ∷ chains) s =
      let rest = blocked_chains at d chains s in
      if drops_at at c && blocked_rules d (get_rules c s) then c ∷ rest else rest

  all_blocked : (Hook → Bool) → Bytes → Option (List Chain) → State → List Chain
  unfolding blocked_chains
  all_blocked at d none s = []
  all_blocked at d (some chains) s = blocked_chains at d chains s

  -- func (r *linuxRouter) warnBlockedInputNft
  unfoldable pub warn_blocked_input_nft : ℕ → State → List Chain
  unfolding all_blocked
  warn_blocked_input_nft port s =
      if nft_new s then all_blocked is_input (port_be port) (list_chains s) s else []

  readable_blocked : Bytes → Option (List Rule) → Bool
  unfolding mentions_data
  readable_blocked d none = false
  readable_blocked d (some rules) = not (mentions_data d rules)

  unfoldable pub unlisted_chains : Bytes → List Chain → State → List Chain
  unfolding readable_blocked
  unlisted_chains d [] s = []
  unlisted_chains d (c ∷ chains) s =
      let rest = unlisted_chains d chains s in
      if drops_at is_forward c && readable_blocked d (get_rules c s) then c ∷ rest else rest

  all_unlisted : Bytes → Option (List Chain) → State → List Chain
  unfolding unlisted_chains
  all_unlisted d none s = []
  all_unlisted d (some chains) s = unlisted_chains d chains s

  -- func (r *linuxRouter) warnForwardNft; a chain whose rules cannot be read is passed over
  unfoldable pub warn_forward_nft : Bytes → State → List Chain
  unfolding all_unlisted
  warn_forward_nft iface s =
      if nft_new s then all_unlisted (ifname_bytes iface) (list_chains s) s else []
