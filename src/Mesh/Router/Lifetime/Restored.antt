-- ===== src/Mesh/Router/Lifetime/Restored.antt =====
-- What Close leaves of the nat table.
use rout_wire.Base.{
  ℕ, ◌+◌, ◌≡◌, refl, sym, ap, ◌∙◌, inl, inr, Bool, true, false, ◌&&◌, not, List, [], ◌∷◌, ◌++◌,
  Option, none, some, arith, if◌then◌else◌, Bool-cases,
}
use rout_wire.Base.Bytes.{Bytes, bytes, bytes_eq}
use rout_wire.Base.Map.{Map}
use rout_wire.Base.Text.{is_empty}
use rout_wire.Mesh.Router.Host.{
  Host, Chain, Rule, LinuxRouter, RouterError, iptables_bin, ip6tables_bin, ip_forward_path,
  nft_comment, nft_failed, run,
}
use rout_wire.Mesh.Router.Ports.{del_ipt_rule, delete_args, probe_of}
use rout_wire.Mesh.Router.Ports.Open.{del_ipt_rule-keeps}
use rout_wire.Mesh.Router.Masquerade.{nat_delete}
use rout_wire.Mesh.Router.Masquerade.Owned.{
  NatLaws, rules_eq, rules_eq_refl, once, spoke_copies, announce_copies, IsTracked, deleted_lem,
}
use rout_wire.Mesh.Router.Forwarding.Kept.{Keeps}
use rout_wire.Mesh.Router.Lifetime.{
  or_first, failure, delete_rules, announce_rules, spoke_rules, delete_tagged, sweep_chain,
  sweep_chains, flushed, remove_tagged, close_ports, restore_forwarding, close,
}

-- What is kept by the calls that Close makes outside the nat table.
pub record ClosingKeeps (h : Host) (port : ℕ) (P : h.State → Type 0) : Type 0 where
  pub forwarding_keeps : Keeps h P
  pub del_rule_keeps : (r : Rule) (s : h.State) → P s → P (h.del_rule r s).1
  pub probe_keeps :
      (fam : Bytes) (s : h.State) → P s → P (h.exec fam (probe_of (delete_args port)) s).1
  pub delete_keeps : (fam : Bytes) (s : h.State) → P s → P (h.exec fam (delete_args port) s).1

-- The copies of a rule in a list of rules.
abbrev pub count : List Bytes → List (List Bytes) → ℕ
count t [] = 0
count t (rule ∷ rules) = once (rules_eq rule t) + count t rules

count-append :
    (t : List Bytes) (rules others : List (List Bytes))
    → count t (rules ++ others) ≡ count t rules + count t others
count-append t [] others = omega arith
count-append t (rule ∷ rules) others = omega (arith, count-append t rules others)

count-announce_rules :
    (t : List Bytes) (m : Map Bytes) → count t (announce_rules m) ≡ announce_copies t m
count-announce_rules t [] = refl
count-announce_rules t ((key, dst) ∷ m) = omega (arith, count-announce_rules t m)

count-spoke_rules :
    (iface : Bytes) (t : List Bytes) (m : Map Bool)
    → count t (spoke_rules iface m) ≡ spoke_copies iface t m
count-spoke_rules iface t [] = refl
count-spoke_rules iface t ((src, v) ∷ m) = omega (arith, count-spoke_rules iface t m)

module _ (h : Host) (laws : NatLaws h) (base : List Bytes → ℕ) where
  open h use {State}
  open laws use {copies}

  -- Rules that are there, beside those of `base`, are all deleted.
  delete_rules-all :
      (rules : List (List Bytes)) (v : Option RouterError × State)
      → ((t : List Bytes) → copies t v.1 ≡ base t + count t rules)
      → (t : List Bytes) → copies t (delete_rules h rules v).1 ≡ base t
  unfolding delete_rules
  delete_rules-all [] (first, s) k = λ t. omega (arith, k t)
  delete_rules-all (rule ∷ rules) (first, s) k =
      let ok : (run h (bytes "nat") (nat_delete rule) s).0 ≡ true =
        laws.delete_works rule s (base rule + count rule rules)
          (omega (arith, k rule, ap once (rules_eq_refl rule))) in
      delete_rules-all rules _ (λ t. omega (
        arith,
        k t,
        ap (λ b. copies t (run h (bytes "nat") (nat_delete rule) s).1 + once (b && rules_eq rule t))
              (sym ok)
            ∙ deleted_lem h laws base rule t s _ refl,
      ))

module _ (h : Host) (r : LinuxRouter) (P : h.State → Type 0) (k : ClosingKeeps h r.port P) where
  open h use {State}

  closed_keeps : (fam : Bytes) (s : State) → P s → P (del_ipt_rule h fam (delete_args r.port) s)
  closed_keeps fam =
      del_ipt_rule-keeps h P fam (delete_args r.port) (k.probe_keeps fam) (k.delete_keeps fam)

  close_ports-keeps : (s : State) → P s → P (close_ports h r s)
  unfolding close_ports
  close_ports-keeps s p = elim (Bool-cases r.has_ip6) [
    | inl e ↦ rw e (closed_keeps ip6tables_bin _ (closed_keeps iptables_bin s p))
    | inr e ↦ rw e (closed_keeps iptables_bin s p)
  ]

  delete_tagged-keeps :
      (rules : List Rule) (v : Option RouterError × State) → P v.1 → P (delete_tagged h rules v).1
  unfolding delete_tagged
  delete_tagged-keeps [] v p = p
  delete_tagged-keeps (rule ∷ rules) (first, s) p =
      delete_tagged-keeps rules _ (go (bytes_eq rule.user_data nft_comment))
    where
      go :
          (tagged : Bool)
          → P
              (if◌then◌else◌ {A = Option RouterError × State} tagged
                (or_first first (failure (h.del_rule rule s).0 nft_failed), (h.del_rule rule s).1)
                (first, s)).1
      go true = k.del_rule_keeps rule s p
      go false = p

  sweep_chain-keeps :
      (rules : Option (List Rule)) (v : Option RouterError × State)
      → P v.1
      → P (sweep_chain h rules v).1
  unfolding sweep_chain
  sweep_chain-keeps none v p = p
  sweep_chain-keeps (some rules) v p = delete_tagged-keeps rules v p

  sweep_chains-keeps :
      (chains : List Chain) (v : Option RouterError × State) → P v.1 → P (sweep_chains h chains v).1
  unfolding sweep_chains
  sweep_chains-keeps [] v p = p
  sweep_chains-keeps (c ∷ chains) v p =
      sweep_chains-keeps chains _ (sweep_chain-keeps (h.get_rules c v.1) v p)

  remove_tagged-keeps :
      (chains : List Chain) (v : Option RouterError × State)
      → P v.1
      → P (remove_tagged h chains v).1
  unfolding remove_tagged flushed
  remove_tagged-keeps [] v p = p
  remove_tagged-keeps (c ∷ chains) v p = elim (Bool-cases (h.nft_new v.1)) [
    | inl e ↦ rw e (k.forwarding_keeps.flush_keeps _ (sweep_chains-keeps (c ∷ chains) v p))
    | inr e ↦ rw e p
  ]

  restore_forwarding-keeps :
      (v : Option RouterError × State) → P v.1 → P (restore_forwarding h r v).1
  unfolding restore_forwarding
  restore_forwarding-keeps (first, s) p =
      elim (Bool-cases (r.fwd_set && not (is_empty r.prior_fwd))) [
        | inl e ↦ rw e (k.forwarding_keeps.write_keeps ip_forward_path r.prior_fwd s p)
        | inr e ↦ rw e p
      ]

-- If the deletion of a rule that is there never fails, then Close of a router that tracks its
-- masquerades leaves of every rule in the nat table as many copies as there were without the router.
pub close-restores :
    (h : Host) (laws : NatLaws h) (base : List Bytes → ℕ) (r : LinuxRouter) (s : h.State)
    → ClosingKeeps h r.port (λ u. (t : List Bytes) → laws.copies t u ≡ base t)
    → IsTracked h laws base r s
    → (t : List Bytes) → laws.copies t (close h r s).2 ≡ base t
unfolding close
close-restores h laws base r s others k = restore_forwarding-keeps h r _ others _ (
    remove_tagged-keeps h r _ others r.tagged_chains _ (
      close_ports-keeps h r _ others _ (
        delete_rules-all h laws base (announce_rules r.announce_nat ++ spoke_rules r.iface r.added)
          (none, s)
          (λ t. omega (
            arith,
            k.holds t,
            count-append t (announce_rules r.announce_nat) (spoke_rules r.iface r.added),
            count-announce_rules t r.announce_nat,
            count-spoke_rules r.iface t r.added,
          )))))
