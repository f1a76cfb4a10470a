-- ===== src/Mesh/Router/Cleanup.antt =====
-- CleanupFirewall of internal/mesh/router.go, which knows what to remove from the configuration
-- and from the tags of the rules.
use rout_wire.Base.{
  ℕ, Bool, true, false, ◌&&◌, ◌||◌, List, [], ◌∷◌, ◌++◌, Option, none, some, if◌then◌else◌, drop,
  map,
}
use rout_wire.Base.Bytes.{Bytes, bytes, bytes_eq, has_prefix}
use rout_wire.Base.Text.{trim_space, split, fields, contains}
use rout_wire.Mesh.Router.Host.{
  Host, Chain, Rule, iptables_bin, ip6tables_bin, ipt_comment, nft_comment,
}
use rout_wire.Mesh.Router.Ports.{del_ipt_rule, delete_args}
use rout_wire.Mesh.Router.Masquerade.{Subnet, spoke_rule, announce_rule, nat_delete}

-- the arguments that name the nat table and delete a rule from it
abbrev pub delete_from_nat : List Bytes → List Bytes
delete_from_nat rule = bytes "-t" ∷ bytes "nat" ∷ nat_delete rule

-- A line of the dump, trimmed: does it append one of our rules?
abbrev pub is_ours : Bytes → Bool
is_ours line = has_prefix (bytes "-A POSTROUTING") line && contains ipt_comment line

-- strings.Fields(strings.Replace(line, "-A POSTROUTING", "-D POSTROUTING", 1)), of a line that
-- begins with it
abbrev pub deletion_of : Bytes → List Bytes
deletion_of line = bytes "-t" ∷ bytes "nat" ∷ fields (bytes "-D POSTROUTING" ++ drop 14 line)

module _ (h : Host) where
  open h use {State, exec, nft_new, list_chains, get_rules, del_rule, flush}

  -- The masquerades of the spokes whose address is an IPv4 address.
  unfoldable pub clean_spokes : Bytes → List (Option Bytes) → State → State
  clean_spokes iface [] s = s
  clean_spokes iface (none ∷ ips) s = clean_spokes iface ips s
  clean_spokes iface (some ip4 ∷ ips) s =
      clean_spokes iface ips
        (del_ipt_rule h iptables_bin (delete_from_nat (spoke_rule iface (ip4 ++ bytes "/32"))) s)

  -- The masquerades of the announced subnets; an overlay that is nil has none.
  unfoldable pub clean_announced : Option Bytes → List Subnet → State → State
  clean_announced none subnets s = s
  clean_announced (some overlay) [] s = s
  clean_announced (some overlay) (sub ∷ subnets) s = clean_announced (some overlay) subnets (
      if sub.is_ip4
      then del_ipt_rule h iptables_bin (delete_from_nat (announce_rule overlay sub.text)) s
      else s)

  clean_lines : List Bytes → State → State
  clean_lines [] s = s
  clean_lines (line ∷ lines) s =
      clean_lines lines
        (if is_ours line then del_ipt_rule h iptables_bin (deletion_of line) s else s)

  clean_dump : Option Bytes × State → State
  unfolding clean_lines
  clean_dump (none, s) = s
  clean_dump (some out, s) = clean_lines (map trim_space (split 10 out)) s

  -- The sweep over the dumps of both tools, whose rules are all deleted by iptables.
  unfoldable pub clean_dumps : State → State
  unfolding clean_dump
  clean_dumps s =
      let nat = bytes "-t" ∷ bytes "nat" ∷ [] in
      let four = clean_dump (exec (bytes "iptables-save") nat s) in
      clean_dump (exec (bytes "ip6tables-save") nat four)

  -- The tagged rules of a chain, with the mark that something was deleted.
  clean_rules : List Rule → Bool × State → Bool × State
  clean_rules [] v = v
  clean_rules (rule ∷ rules) (marked, s) = clean_rules rules (
      if bytes_eq rule.user_data nft_comment
      then (let (ok, s') = del_rule rule s in (marked || ok, s'))
      else (marked, s))

  clean_chain : Option (List Rule) → Bool × State → Bool × State
  unfolding clean_rules
  clean_chain none v = v
  clean_chain (some rules) v = clean_rules rules v

  clean_chains : List Chain → Bool × State → Bool × State
  unfolding clean_chain
  clean_chains [] v = v
  clean_chains (c ∷ chains) v = clean_chains chains (clean_chain (get_rules c v.1) v)

  flush_marked : Bool × State → State
  flush_marked (true, s) = (flush s).1
  flush_marked (false, s) = s

  clean_listed : Option (List Chain) → State → State
  unfolding clean_chains flush_marked
  clean_listed none s = s
  clean_listed (some chains) s = flush_marked (clean_chains chains (false, s))

  -- The part for the tagged rules of all chains.
  unfoldable pub clean_tagged : State → State
  unfolding clean_listed
  clean_tagged s = if nft_new s then clean_listed (list_chains s) s else s

  -- func CleanupFirewall
  unfoldable pub cleanup_firewall :
      Bytes → ℕ → Option Bytes → List Subnet → List (Option Bytes) → State → State
  unfolding clean_spokes clean_announced clean_dumps clean_tagged
  cleanup_firewall iface port overlay announce spoke_ips s =
      let four = del_ipt_rule h iptables_bin (delete_args port) s in
      let six = del_ipt_rule h ip6tables_bin (delete_args port) four in
      clean_tagged
        (clean_dumps (clean_announced overlay announce (clean_spokes iface spoke_ips six)))
