-- ===== src/Mesh/Router/Nft/Kept.antt =====
-- What inserting accepts into foreign chains leaves alone.
use rout_wire.Base.{Bool, true, false, List, [], ◌∷◌, Option, none, some, Bool-cases, inl, inr}
use rout_wire.Base.Bytes.{Bytes}
use rout_wire.Mesh.Router.Host.{Hook, Chain, Rule, NewRule, Host}
use rout_wire.Mesh.Router.Nft.{
  add_rules, after_flush, heal_rules, heal_chain, heal_chains, healed, apply_forward_self_heal,
  drops_at, is_forward, forward_rules, is_tagged,
}

-- What is kept by AddRule and by Flush.
module _ (h : Host) (P : h.State → Type 0)
    (add_keeps : (r : NewRule) (s : h.State) → P s → P (h.add_rule r s))
    (flush_keeps : (s : h.State) → P s → P (h.flush s).1) where
  open h use {State}

  add_rules-keeps : (rules : List NewRule) (s : State) → P s → P (add_rules h rules s)
  unfolding add_rules
  add_rules-keeps [] s p = p
  add_rules-keeps (r ∷ rules) s p = add_rules-keeps rules (h.add_rule r s) (add_keeps r s p)

  after_flush-keeps :
      (c : Chain) (chains : List Chain) (v : Bool × State) → P v.1 → P (after_flush h c chains v).1
  unfolding after_flush
  after_flush-keeps c chains (true, s) p = p
  after_flush-keeps c chains (false, s) p = p

  heal_rules-keeps :
      (make : List Rule → List NewRule) (c : Chain) (rules : Option (List Rule))
      (v : List Chain × State)
      → P v.1
      → P (heal_rules h make c rules v).1
  unfolding heal_rules
  heal_rules-keeps make c none v p = p
  heal_rules-keeps make c (some rules) (chains, s) p = elim (Bool-cases (is_tagged rules)) [
    | inl e ↦ rw e p
    | inr e ↦ rw e (after_flush-keeps c chains _ (flush_keeps _ (add_rules-keeps (make rules) s p)))
  ]

  heal_chains-keeps :
      (at : Hook → Bool) (make : Chain → List Rule → List NewRule) (chains : List Chain)
      (v : List Chain × State)
      → P v.1
      → P (heal_chains h at make chains v).1
  unfolding heal_chains heal_chain
  heal_chains-keeps at make [] v p = p
  heal_chains-keeps at make (c ∷ chains) v p = heal_chains-keeps at make chains _ kept
    where
      kept : P (heal_chain h at make c v).1
      kept = elim (Bool-cases (drops_at at c)) [
        | inl e ↦ rw e (heal_rules-keeps (make c) c (h.get_rules c v.1) v p)
        | inr e ↦ rw e p
      ]

  healed-keeps :
      (at : Hook → Bool) (make : Chain → List Rule → List NewRule) (chains : Option (List Chain))
      (v : List Chain × State)
      → P v.1
      → P (healed h at make chains v).1
  unfolding healed
  healed-keeps at make none v p = p
  healed-keeps at make (some chains) v p = heal_chains-keeps at make chains v p

  pub apply_forward_self_heal-keeps :
      (iface : Bytes) (v : List Chain × State) → P v.1 → P (apply_forward_self_heal h iface v).1
  unfolding apply_forward_self_heal
  apply_forward_self_heal-keeps iface v p = elim (Bool-cases (h.nft_new v.1)) [
    | inl e ↦ rw e (healed-keeps is_forward (forward_rules h iface) (h.list_chains v.1) v p)
    | inr e ↦ rw e p
  ]
