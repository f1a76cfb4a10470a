-- ===== src/Mesh/Router/Forwarding/Kept.antt =====
-- What Forwarding leaves alone.
use rout_wire.Base.{Bool, true, false, List, [], ◌≡◌, refl, Bool-cases, inl, inr, length, ◌==◌}
use rout_wire.Base.Bytes.{Bytes, bytes}
use rout_wire.Mesh.Router.Host.{Host, Chain, NewRule, LinuxRouter, ip_forward_path}
use rout_wire.Mesh.Router.Nft.Kept.{apply_forward_self_heal-keeps}
use rout_wire.Mesh.Router.Scan.Sections.{warn_legacy_forward-keeps}
use rout_wire.Mesh.Router.Scan.{warn_legacy_forward}
use rout_wire.Mesh.Router.Forwarding.{
  heal_forward, after_forwarding, after_write, forwarding, says_one,
}

-- What is kept by the calls that Forwarding makes.
pub record Keeps (h : Host) (P : h.State → Type 0) : Type 0 where
  pub add_keeps : (r : NewRule) (s : h.State) → P s → P (h.add_rule r s)
  pub flush_keeps : (s : h.State) → P s → P (h.flush s).1
  pub write_keeps : (path text : Bytes) (s : h.State) → P s → P (h.write_file path text s).1
  pub save_keeps : (s : h.State) → P s → P (h.exec (bytes "iptables-save") [] s).1
  pub save6_keeps : (s : h.State) → P s → P (h.exec (bytes "ip6tables-save") [] s).1

-- The fields that say which masquerades there are.
abbrev pub SameRules : LinuxRouter → LinuxRouter → Type 0
SameRules r r' = (r'.iface ≡ r.iface) × (r'.added ≡ r.added) × (r'.announce_nat ≡ r.announce_nat)

module _ (h : Host) (P : h.State → Type 0) (k : Keeps h P) where
  open h use {State}
  open k use {add_keeps, flush_keeps, write_keeps, save_keeps, save6_keeps}

  legacy_keeps : (iface : Bytes) (s : State) → P s → P (warn_legacy_forward h iface s).1
  legacy_keeps = warn_legacy_forward-keeps h P save_keeps save6_keeps

  Kept : LinuxRouter → LinuxRouter × State → Type 0
  Kept r v = SameRules r v.0 × P v.1

  heal_forward-keeps :
      (r : LinuxRouter) (v : List Chain × State) → P v.1 → Kept r (heal_forward h r v)
  unfolding heal_forward Kept
  heal_forward-keeps r (chains, s) p = elim (Bool-cases (length chains == length r.tagged_chains)) [
    | inl e ↦ ((refl, refl, refl), rw e (legacy_keeps r.iface s p))
    | inr e ↦ ((refl, refl, refl), rw e p)
  ]

  after_forwarding-keeps : (r : LinuxRouter) (s : State) → P s → Kept r (after_forwarding h r s)
  unfolding after_forwarding Kept
  after_forwarding-keeps r s p = elim (Bool-cases r.selfheal) [
    | inr e ↦ rw e ((refl, refl, refl), legacy_keeps r.iface s p)
    | inl e ↦ elim (Bool-cases r.fwd_fixed) [
      | inl f ↦ rw (e, f) ((refl, refl, refl), p)
      | inr f ↦
          rw (e, f)
            (heal_forward-keeps r _ (
              apply_forward_self_heal-keeps h P add_keeps flush_keeps r.iface (r.tagged_chains, s)
                p))
    ]
  ]

  after_write-keeps :
      (r : LinuxRouter) (v : Bool × State)
      → P v.1
      → Kept r ((after_write h r v).1, (after_write h r v).2)
  unfolding after_write Kept
  after_write-keeps r (false, s) p = ((refl, refl, refl), p)
  after_write-keeps r (true, s) p = after_forwarding-keeps (record r { fwd_set = true }) s p

  pub forwarding-keeps :
      (r : LinuxRouter) (s : State)
      → P s
      → SameRules r (forwarding h r s).1 × P (forwarding h r s).2
  unfolding forwarding Kept
  forwarding-keeps r s p = elim (Bool-cases r.fwd_set) [
    | inl e ↦ rw e ((refl, refl, refl), p)
    | inr e ↦ elim (Bool-cases (says_one h (h.read_file ip_forward_path s))) [
      | inl f ↦ rw (e, f) (after_forwarding-keeps (record r { fwd_set = true }) s p)
      | inr f ↦ simp (e, f) (after_write-keeps r _ (write_keeps ip_forward_path (bytes "1") s p))
    ]
  ]
