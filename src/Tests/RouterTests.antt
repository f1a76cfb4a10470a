-- ===== src/Tests/RouterTests.antt =====
-- Runs of the theorems on the router, at a host whose state is the POSTROUTING chain.
use rout_wire.Base.{
  ℕ, suc, ◌+◌, ◌≡◌, refl, ap, ◌∙◌, ◌⊎◌, inl, inr, Bool, true, false, ◌&&◌, List, [], ◌∷◌, Option,
  none, some, arith, if◌then◌else◌, Bool-cases, any, is_some, not, drop,
}
use rout_wire.Base.Bytes.{Bytes, bytes, bytes_eq, bytes_eq_iff, bytes_eq_refl}
use rout_wire.Base.Map.{has_key}
use rout_wire.Mesh.Daemon.Spokes.Tracked.{RouterLaws}
use rout_wire.Mesh.Daemon.Tick.{TickInput}
use rout_wire.Mesh.Daemon.Tick.Restored.{lifetime, lifetime-restores}
use rout_wire.Tests.Toy.{toy_derivation, thirty_two}
use rout_wire.Tests.DaemonTests.{toy_world, toy_daemon, toy_board, toy_tools, toy_io, toy_disk}
use rout_wire.Mesh.Router.Host.{Host, run_bin, LinuxRouter, iptables_bin, ip6tables_bin}
use rout_wire.Mesh.Router.Ports.{probe_of, ensure_port, ensure_family, insert_args}
use rout_wire.Mesh.Router.Ports.Open.{PortLaws, ensure_port-opens}
use rout_wire.Mesh.Router.Masquerade.{
  Subnet, spoke_rule, announce_rule, before_bar, announce_nat_rules, wanted,
}
use rout_wire.Mesh.Router.Masquerade.Owned.{NatLaws, rules_eq, once, IsTracked}
use rout_wire.Mesh.Router.Masquerade.Reconciled.{announce_nat_rules-reconciled}
use rout_wire.Mesh.Router.Lifetime.{close}
use rout_wire.Mesh.Router.Lifetime.Restored.{ClosingKeeps, close-restores}

abbrev Table : Type 0
Table = List (List Bytes)

abbrev copies_in : List Bytes → Table → ℕ
copies_in t [] = 0
copies_in t (rule ∷ s) = once (rules_eq rule t) + copies_in t s

abbrev take_one : List Bytes → Table → Bool × Table
take_one rule [] = (false, [])
take_one rule (r ∷ s) =
    let (ok, s') = take_one rule s in if rules_eq r rule then (true, s) else (ok, r ∷ s')

abbrev outcome : Bool × Table → Option Bytes × Table
outcome (true, s) = (some [], s)
outcome (false, s) = (none, s)

-- A command that inserts or deletes in POSTROUTING; any other changes nothing.
abbrev nat_command : Bytes → List Bytes → Table → Option Bytes × Table
nat_command op [] s = (none, s)
nat_command op (chain ∷ rule) s =
    if bytes_eq op (bytes "-I")
    then (some [], drop 1 rule ∷ s)
    else if bytes_eq op (bytes "-D")
    then outcome (take_one rule s)
    else (none, s)

abbrev toy_exec : Bytes → List Bytes → Table → Option Bytes × Table
toy_exec bin [] s = (some [], s)
toy_exec bin (a ∷ []) s = (none, s)
toy_exec bin (a ∷ b ∷ []) s = (none, s)
toy_exec bin (a ∷ b ∷ op ∷ args) s = nat_command op args s

abbrev toy_host : Host
toy_host = record {
  State = Table;
  exec = toy_exec;
  look_path = λ bin s. true;
  read_file = λ path s. some (bytes "0");
  write_file = λ path text s. (true, s);
  nft_new = λ s. false;
  list_chains = λ s. none;
  get_rules = λ c s. none;
  add_rule = λ r s. s;
  del_rule = λ r s. (true, s);
  flush = λ s. (true, s);
}

rules_equal : (a b : List Bytes) → rules_eq a b ≡ true → a ≡ b
rules_equal [] [] e = refl
rules_equal [] (b ∷ bs) e = cc
rules_equal (a ∷ left) [] e = cc
rules_equal (a ∷ left) (b ∷ bs) e =
    let head : a ≡ b = (bytes_eq_iff a b).0 (ground arith) in
    let tail : left ≡ bs = rules_equal left bs (ground arith) in cc

taken :
    (rule t : List Bytes) (s : Table)
    → copies_in t (take_one rule s).1 + once ((take_one rule s).0 && rules_eq rule t)
      ≡ copies_in t s
taken rule t [] = omega arith
taken rule t (r ∷ s) = elim (Bool-cases (rules_eq r rule)) [
  | inl e ↦ rw e (omega (arith, ap (λ q. once (rules_eq q t)) (rules_equal r rule e)))
  | inr e ↦ rw e (omega (arith, taken rule t s))
]

takes :
    (rule : List Bytes) (s : Table) (n : ℕ) → copies_in rule s ≡ suc n → (take_one rule s).0 ≡ true
takes rule [] n e = absurd (omega arith)
takes rule (r ∷ s) n e = elim (Bool-cases (rules_eq r rule)) [
  | inl f ↦ rw f refl
  | inr f ↦ rw f (takes rule s n (omega (arith, ap once f)))
]

outcome_lem : (v : Bool × Table) → (is_some (outcome v).0 ≡ v.0) × ((outcome v).1 ≡ v.1)
outcome_lem (true, s) = (refl, refl)
outcome_lem (false, s) = (refl, refl)

toy_laws : NatLaws toy_host
unfolding run_bin bytes_eq
toy_laws = record {
  copies = copies_in;
  insert_adds = λ rule t s. omega arith;
  delete_takes =
      λ rule t s. let same = outcome_lem (take_one rule s) in rw (same.0, same.1) (taken rule t s);
  delete_works = λ rule s n e. (outcome_lem (take_one rule s)).0 ∙ takes rule s n e;
  others_keep = λ f. record {
    add_keeps = λ r s p. p;
    flush_keeps = λ s p. p;
    write_keeps = λ path text s p. p;
    save_keeps = λ s p. p;
    save6_keeps = λ s p. p;
  };
}

abbrev one_subnet : List Subnet
one_subnet = record { text = bytes "192.168.1.0/24"; is_ip4 = true } ∷ []

-- A router that tracks a spoke and a subnet that is no longer announced, beside a rule of somebody
-- else.
abbrev toy_router : LinuxRouter
toy_router = record {
  iface = bytes "wgmesh0";
  port = 51820;
  added = (bytes "10.99.0.5/32", true) ∷ [];
  announce_nat = (bytes "10.99.0.0/16|172.16.0.0/12", bytes "172.16.0.0/12") ∷ [];
  fwd_set = false;
  fwd_fixed = false;
  prior_fwd = bytes "0";
  has_ip6 = true;
  selfheal = false;
  tagged_chains = [];
}

abbrev other_rule : Table
other_rule = (bytes "-j" ∷ bytes "SNAT" ∷ []) ∷ []

abbrev before : List Bytes → ℕ
before t = copies_in t other_rule

abbrev full_table : Table
full_table =
    spoke_rule (bytes "wgmesh0") (bytes "10.99.0.5/32")
    ∷ announce_rule (bytes "10.99.0.0/16") (bytes "172.16.0.0/12")
    ∷ other_rule

tracked_lem : IsTracked toy_host toy_laws before toy_router full_table
unfolding toy_laws before_bar
tracked_lem = record {
  unique_added = (tt, tt);
  unique_announced = (tt, tt);
  holds = λ t. omega arith;
}

announce_nat_rules-reconciled_example :
    let (r, s) =
      announce_nat_rules toy_host (bytes "10.99.0.0/16") one_subnet toy_router full_table in
    IsTracked toy_host toy_laws before r s
    × ((k : Bytes)
        → (has_key k r.announce_nat
            && not (has_key k (wanted (bytes "10.99.0.0/16") one_subnet [])))
          ≡ false)
announce_nat_rules-reconciled_example =
    announce_nat_rules-reconciled toy_host toy_laws before (bytes "10.99.0.0/16") one_subnet
      toy_router full_table tracked_lem

closing_lem : ClosingKeeps toy_host 51820 (λ u. (t : List Bytes) → copies_in t u ≡ before t)
unfolding probe_of bytes_eq toy_laws
closing_lem = record {
  forwarding_keeps = toy_laws.others_keep before;
  del_rule_keeps = λ r s p. p;
  probe_keeps = λ fam s p. p;
  delete_keeps = λ fam s p. p;
}

abbrev served_rule : List Bytes
served_rule = spoke_rule (bytes "wgmesh0") (bytes "10.99.0.5/32")

close-restores_example :
    copies_in served_rule (close toy_host toy_router full_table).2 ≡ before served_rule
unfolding toy_laws
close-restores_example =
    close-restores toy_host toy_laws before toy_router full_table closing_lem tracked_lem
      served_rule

-- A host whose state is the list of the families that accept the port.
abbrev door_exec : Bytes → List Bytes → List Bytes → Option Bytes × List Bytes
door_exec fam [] s = (none, s)
door_exec fam (op ∷ args) s =
    if bytes_eq op (bytes "-I")
    then (some [], fam ∷ s)
    else (if any (λ f. bytes_eq f fam) s then some [] else none, s)

abbrev door_host : Host
door_host = record {
  State = List Bytes;
  exec = door_exec;
  look_path = λ bin s. true;
  read_file = λ path s. none;
  write_file = λ path text s. (true, s);
  nft_new = λ s. false;
  list_chains = λ s. none;
  get_rules = λ c s. none;
  add_rule = λ r s. s;
  del_rule = λ r s. (true, s);
  flush = λ s. (true, s);
}

probed_lem : (b : Bool) → is_some (if◌then◌else◌ {A = Option Bytes} b (some []) none) ≡ b
probed_lem true = refl
probed_lem false = refl

door_laws : PortLaws door_host 51820
unfolding bytes_eq
door_laws = record {
  opens = λ fam s. any (λ f. bytes_eq f fam) s;
  probe_tells = λ fam s. probed_lem (any (λ f. bytes_eq f fam) s);
  probe_keeps = λ fam s. refl;
  insert_opens = λ fam s e. rw (bytes_eq_refl fam) refl;
  insert_keeps = λ fam other s e. rw e refl;
}

ensure_port-opens_example :
    ((any (λ f. bytes_eq f iptables_bin) (ensure_port door_host toy_router []) ≡ true)
      ⊎ ((door_exec iptables_bin (insert_args 51820) []).0 ≡ none))
    × ((any (λ f. bytes_eq f ip6tables_bin) (ensure_port door_host toy_router []) ≡ true)
        ⊎ ((door_exec ip6tables_bin
              (insert_args 51820)
              (ensure_family door_host iptables_bin 51820 [])).0
            ≡ none))
unfolding door_laws
ensure_port-opens_example = ensure_port-opens door_host toy_router door_laws []

router_laws : RouterLaws toy_world toy_host (λ ip. bytes "10.99.0.7") (λ c. bytes "10.99.0.0/16")
unfolding bytes_eq
router_laws = record {
  nat_laws = toy_laws;
  probe_keeps = λ port fam t s. refl;
  insert_keeps = λ port fam t s. refl;
}

closings_lem :
    (port : ℕ) (f : List Bytes → ℕ)
    → ClosingKeeps toy_host port (λ u. (t : List Bytes) → copies_in t u ≡ f t)
unfolding probe_of bytes_eq toy_laws
closings_lem port f = record {
  forwarding_keeps = toy_laws.others_keep f;
  del_rule_keeps = λ r s p. p;
  probe_keeps = λ fam s p. p;
  delete_keeps = λ fam s p. p;
}

abbrev fresh_router : LinuxRouter
fresh_router = record toy_router { added = []; announce_nat = [] }

abbrev toy_input : TickInput
toy_input = record { io = toy_io; salt = some thirty_two; unix = 1000; mine = [] }

lifetime-restores_example :
    copies_in served_rule (
      lifetime toy_world toy_host
        (λ ip. bytes "10.99.0.7")
        (λ c. bytes "10.99.0.0/16")
        toy_board
        toy_derivation
        toy_tools
        toy_input
        (toy_input ∷ toy_input ∷ [])
        toy_disk
        toy_daemon
        (3, fresh_router, other_rule))
    ≡ copies_in served_rule other_rule
unfolding router_laws toy_laws
lifetime-restores_example =
    lifetime-restores toy_world toy_host (λ ip. bytes "10.99.0.7") (λ c. bytes "10.99.0.0/16")
      router_laws toy_board toy_derivation toy_tools toy_input (toy_input ∷ toy_input ∷ []) toy_disk
      toy_daemon 3 fresh_router other_rule closings_lem refl refl served_rule
