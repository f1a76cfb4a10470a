-- ===== src/Mesh/Router/Ports/Open.antt =====
-- What EnsurePort leaves behind, and what a probed deletion leaves alone.
use rout_wire.Base.{
  ℕ, ◌≡◌, refl, sym, ap, ◌∙◌, ◌⊎◌, inl, inr, Bool, true, false, List, Option, none, some, is_some,
  Option-cases,
}
use rout_wire.Base.Bytes.{Bytes, bytes_eq}
use rout_wire.Mesh.Router.Host.{Host, LinuxRouter, iptables_bin, ip6tables_bin}
use rout_wire.Mesh.Router.Ports.{
  probe_args, insert_args, ensure_family, ensure_port, reinsert, probe_of, del_ipt_rule,
  delete_found,
}

-- What iptables promises of the accept for a port: `opens` tells whether a family's INPUT chain has
-- it, -C tells the same and changes nothing, an -I that succeeds puts it there, and a command of
-- one family leaves the other alone.
pub record PortLaws (h : Host) (port : ℕ) : Type 0 where
  pub opens : Bytes → h.State → Bool
  pub probe_tells :
      (fam : Bytes) (s : h.State) → is_some (h.exec fam (probe_args port) s).0 ≡ opens fam s
  pub probe_keeps : (fam : Bytes) (s : h.State) → (h.exec fam (probe_args port) s).1 ≡ s
  pub insert_opens :
      (fam : Bytes) (s : h.State)
      → is_some (h.exec fam (insert_args port) s).0 ≡ true
      → opens fam (h.exec fam (insert_args port) s).1 ≡ true
  pub insert_keeps :
      (fam other : Bytes) (s : h.State)
      → bytes_eq fam other ≡ false
      → opens other (h.exec fam (insert_args port) s).1 ≡ opens other s

module _ (h : Host) (r : LinuxRouter) (laws : PortLaws h r.port) where
  open h use {State, exec}
  open laws use {opens}

  family_lem :
      (fam : Bytes) (s : State)
      → ((opens fam s ≡ true) × (ensure_family h fam r.port s ≡ s))
        ⊎ ((opens fam s ≡ false)
            × (ensure_family h fam r.port s ≡ (exec fam (insert_args r.port) s).1))
  unfolding ensure_family
  family_lem fam s =
      go (exec fam (probe_args r.port) s) (laws.probe_tells fam s) (laws.probe_keeps fam s)
    where
      go :
          (probed : Option Bytes × State)
          → is_some probed.0 ≡ opens fam s
          → probed.1 ≡ s
          → ((opens fam s ≡ true) × (reinsert h fam r.port probed ≡ s))
            ⊎ ((opens fam s ≡ false)
                × (reinsert h fam r.port probed ≡ (exec fam (insert_args r.port) s).1))
      go (some out, t) told kept = inl (sym told, kept)
      go (none, t) told kept =
          inr (sym told, ap (λ (u : State). (exec fam (insert_args r.port) u).1) kept)

  -- After one family's turn its port is open, or its insertion has failed.
  family_opens :
      (fam : Bytes) (s : State)
      → (opens fam (ensure_family h fam r.port s) ≡ true)
        ⊎ ((exec fam (insert_args r.port) s).0 ≡ none)
  family_opens fam s = elim (family_lem fam s) [
    | inl (is_open, same) ↦ inl (rw same is_open)
    | inr (closed, done) ↦ elim (Option-cases (exec fam (insert_args r.port) s).0) [
      | inl failed ↦ inr failed
      | inr (out, worked) ↦ inl (rw done (laws.insert_opens fam s (ap is_some worked)))
    ]
  ]

  -- One family's turn does not close the other's port.
  family_keeps :
      (fam other : Bytes) (s : State)
      → bytes_eq fam other ≡ false
      → opens other (ensure_family h fam r.port s) ≡ opens other s
  family_keeps fam other s e = elim (family_lem fam s) [
    | inl (is_open, same) ↦ ap (opens other) same
    | inr (closed, done) ↦ ap (opens other) done ∙ laws.insert_keeps fam other s e
  ]

  -- After EnsurePort each family's firewall accepts the port, unless the insertion of that accept
  -- failed: iptables in the state that EnsurePort found, ip6tables in the one after iptables.
  pub ensure_port-opens :
      (s : State)
      → ((opens iptables_bin (ensure_port h r s) ≡ true)
          ⊎ ((exec iptables_bin (insert_args r.port) s).0 ≡ none))
        × ((opens ip6tables_bin (ensure_port h r s) ≡ true)
            ⊎ ((exec ip6tables_bin (insert_args r.port) (ensure_family h iptables_bin r.port s)).0
                ≡ none))
  unfolding ensure_port bytes_eq
  ensure_port-opens s =
      let mid = ensure_family h iptables_bin r.port s in
      (
        elim (family_opens iptables_bin s) [
          | inl is_open ↦ inl (family_keeps ip6tables_bin iptables_bin mid refl ∙ is_open)
          | inr failed ↦ inr failed
        ],
        family_opens ip6tables_bin mid,
      )

  -- When both families accept the port, EnsurePort changes nothing.
  pub ensure_port-keeps :
      (s : State)
      → opens iptables_bin s ≡ true
      → opens ip6tables_bin s ≡ true
      → ensure_port h r s ≡ s
  unfolding ensure_port
  ensure_port-keeps s four six =
      family_same ip6tables_bin _ (ap (opens ip6tables_bin) same ∙ six) ∙ same
    where
      family_same :
          (fam : Bytes) (u : State) → opens fam u ≡ true → ensure_family h fam r.port u ≡ u
      family_same fam u e = elim (family_lem fam u) [ inl p ↦ p.1 | inr p ↦ cc ]

      same : ensure_family h iptables_bin r.port s ≡ s
      same = family_same iptables_bin s four

-- A probed deletion keeps what its two commands keep.
pub del_ipt_rule-keeps :
    (h : Host) (P : h.State → Type 0) (bin : Bytes) (args : List Bytes)
    → ((s : h.State) → P s → P (h.exec bin (probe_of args) s).1)
    → ((s : h.State) → P s → P (h.exec bin args s).1)
    → (s : h.State) → P s
    → P (del_ipt_rule h bin args s)
unfolding del_ipt_rule delete_found
del_ipt_rule-keeps h P bin args probe_keeps keeps s p =
    go (h.exec bin (probe_of args) s) (probe_keeps s p)
  where
    go : (v : Option Bytes × h.State) → P v.1 → P (delete_found h bin args v)
    go (none, u) q = q
    go (some out, u) q = keeps u q

-- EnsurePort keeps what its commands keep.
pub ensure_port-keeps_all :
    (h : Host) (r : LinuxRouter) (P : h.State → Type 0)
    → ((fam : Bytes) (s : h.State) → P s → P (h.exec fam (probe_args r.port) s).1)
    → ((fam : Bytes) (s : h.State) → P s → P (h.exec fam (insert_args r.port) s).1)
    → (s : h.State) → P s
    → P (ensure_port h r s)
unfolding ensure_port ensure_family reinsert
ensure_port-keeps_all h r P probe_keeps insert_keeps s p =
    go ip6tables_bin _
      (probe_keeps ip6tables_bin _ (go iptables_bin _ (probe_keeps iptables_bin s p)))
  where
    go : (fam : Bytes) (v : Option Bytes × h.State) → P v.1 → P (reinsert h fam r.port v)
    go fam (some out, u) q = q
    go fam (none, u) q = insert_keeps fam u q
