-- ===== src/Mesh/Router/Masquerade/Owned.antt =====
-- Every masquerade of ours is tracked: what the nat table holds beside what it held before.
use rout_wire.Base.{
  ℕ, suc, ◌+◌, ◌≡◌, refl, ap, ◌∙◌, inl, inr, Bool, true, false, ◌&&◌, List, [], ◌∷◌, ◌++◌, Option,
  none, some, arith, Bool-cases, All, subst,
}
use rout_wire.Base.Bytes.{Bytes, bytes, bytes_eq, bytes_eq_iff, bytes_eq_refl}
use rout_wire.Base.Map.{
  Map, lookup, insert, delete, has_key, keys, HasUniqueKeys, insert-HasUniqueKeys,
  delete-HasUniqueKeys,
}
use rout_wire.Mesh.Router.Host.{Host, LinuxRouter, RouterError, run}
use rout_wire.Mesh.Router.Forwarding.{forwarding}
use rout_wire.Mesh.Router.Forwarding.Kept.{Keeps, forwarding-keeps}
use rout_wire.Mesh.Router.Masquerade.{
  spoke_rule, announce_rule, nat_insert, nat_delete, before_bar, add_masquerade, remove_masquerade,
  add_source, remove_source, after_insert, after_delete,
}

abbrev pub rules_eq : List Bytes → List Bytes → Bool
rules_eq [] [] = true
rules_eq [] (b ∷ bs) = false
rules_eq (a ∷ left) [] = false
rules_eq (a ∷ left) (b ∷ bs) = bytes_eq a b && rules_eq left bs

pub rules_eq_refl : (rule : List Bytes) → rules_eq rule rule ≡ true
rules_eq_refl [] = refl
rules_eq_refl (a ∷ rule) = rw (bytes_eq_refl a, rules_eq_refl rule) refl

abbrev pub once : Bool → ℕ
once true = 1
once false = 0

-- What iptables promises of POSTROUTING in the nat table, where `copies` counts the copies of a
-- rule: an -I that succeeds adds one copy of its rule, a -D that succeeds takes one away, and one
-- that fails changes nothing.
pub record NatLaws (h : Host) : Type 0 where
  pub copies : List Bytes → h.State → ℕ
  pub insert_adds :
      (rule t : List Bytes) (s : h.State)
      → let (ok, s') = run h (bytes "nat") (nat_insert rule) s in
        copies t s' ≡ copies t s + once (ok && rules_eq rule t)
  pub delete_takes :
      (rule t : List Bytes) (s : h.State)
      → let (ok, s') = run h (bytes "nat") (nat_delete rule) s in
        copies t s' + once (ok && rules_eq rule t) ≡ copies t s
  -- a -D of a rule that is there succeeds
  pub delete_works :
      (rule : List Bytes) (s : h.State) (n : ℕ)
      → copies rule s ≡ suc n
      → (run h (bytes "nat") (nat_delete rule) s).0 ≡ true
  -- what Forwarding does is not in that chain
  pub others_keep : (f : List Bytes → ℕ) → Keeps h (λ s. (t : List Bytes) → copies t s ≡ f t)

-- The copies of a rule that a router has put there, by what it tracks.
abbrev pub spoke_copies : Bytes → List Bytes → Map Bool → ℕ
spoke_copies iface t [] = 0
spoke_copies iface t ((src, v) ∷ m) =
    once (rules_eq (spoke_rule iface src) t) + spoke_copies iface t m

abbrev pub announce_copies : List Bytes → Map Bytes → ℕ
announce_copies t [] = 0
announce_copies t ((key, dst) ∷ m) =
    once (rules_eq (announce_rule (before_bar key) dst) t) + announce_copies t m

delete-absent {ℓ} : {V : Type ℓ} (k : Bytes) (m : Map V) → has_key k m ≡ false → delete k m ≡ m
unfolding lookup delete
delete-absent k [] e = refl
delete-absent k ((j, v) ∷ m) e = elim (Bool-cases (bytes_eq j k)) [
  | inl same ↦ ground arith
  | inr other ↦ rw other (ap (λ n. (j, v) ∷ n) (delete-absent k m (ground arith)))
]

absent-keys {ℓ} :
    {V : Type ℓ} (k : Bytes) (m : Map V)
    → All (λ j. bytes_eq k j ≡ false) (keys m)
    → has_key k m ≡ false
unfolding lookup
absent-keys k [] h = refl
absent-keys k ((j, v) ∷ m) h =
    ground (arith, absent-keys k m h.1, bytes_eq_iff j k, bytes_eq_iff k j)

spoke_copies-insert :
    (iface src : Bytes) (t : List Bytes) (m : Map Bool)
    → has_key src m ≡ false
    → spoke_copies iface t (insert src true m)
      ≡ once (rules_eq (spoke_rule iface src) t) + spoke_copies iface t m
unfolding insert
spoke_copies-insert iface src t m e = rw (delete-absent src m e) refl

spoke_copies-delete :
    (iface src : Bytes) (t : List Bytes) (m : Map Bool)
    → HasUniqueKeys m
    → has_key src m ≡ true
    → spoke_copies iface t m
      ≡ once (rules_eq (spoke_rule iface src) t) + spoke_copies iface t (delete src m)
unfolding lookup delete
spoke_copies-delete iface src t [] u e = cc
spoke_copies-delete iface src t ((j, v) ∷ m) u e = elim (Bool-cases (bytes_eq j src)) [
  | inl same ↦
      let eq = (bytes_eq_iff j src).0 same in
      rw same (
        rw
          (delete-absent src m
            (absent-keys src m (subst (λ k. All (λ i. bytes_eq k i ≡ false) (keys m)) eq u.0)))
          (ap (λ (k : Bytes). once (rules_eq (spoke_rule iface k) t) + spoke_copies iface t m) eq))
  | inr other ↦ rw other (omega (arith, spoke_copies-delete iface src t m u.1 (ground arith)))
]

pub announce_copies-insert :
    (key dst : Bytes) (t : List Bytes) (m : Map Bytes)
    → has_key key m ≡ false
    → announce_copies t (insert key dst m)
      ≡ once (rules_eq (announce_rule (before_bar key) dst) t) + announce_copies t m
unfolding insert
announce_copies-insert key dst t m e = rw (delete-absent key m e) refl

pub announce_copies-delete :
    (key dst : Bytes) (t : List Bytes) (m : Map Bytes)
    → HasUniqueKeys m
    → lookup key m ≡ some dst
    → announce_copies t m
      ≡ once (rules_eq (announce_rule (before_bar key) dst) t) + announce_copies t (delete key m)
unfolding lookup delete
announce_copies-delete key dst t [] u e = cc
announce_copies-delete key dst t ((j, v) ∷ m) u e = elim (Bool-cases (bytes_eq j key)) [
  | inl same ↦
      let eq = (bytes_eq_iff j key).0 same in
      let value : v ≡ dst = ground arith in
      rw same (
        rw
          (delete-absent key m
            (absent-keys key m (subst (λ k. All (λ i. bytes_eq k i ≡ false) (keys m)) eq u.0)))
          (ap
              (λ (k : Bytes).
                once (rules_eq (announce_rule (before_bar k) v) t) + announce_copies t m)
              eq
            ∙ ap
                (λ (d : Bytes).
                  once (rules_eq (announce_rule (before_bar key) d) t) + announce_copies t m)
                value))
  | inr other ↦ rw other (omega (arith, announce_copies-delete key dst t m u.1 (ground arith)))
]

module _ (h : Host) (laws : NatLaws h) (base : List Bytes → ℕ) where
  open h use {State}
  open laws use {copies}

  -- Of every rule the table holds the copies that it held before and those that the maps track.
  abbrev pub Holds : Bytes → Map Bool → Map Bytes → State → Type 0
  Holds iface added announced s =
      (t : List Bytes)
      → copies t s ≡ base t + spoke_copies iface t added + announce_copies t announced

  -- The same, with maps that have each key once.
  pub record IsTracked (r : LinuxRouter) (s : State) : Type 0 where
    pub unique_added : HasUniqueKeys r.added
    pub unique_announced : HasUniqueKeys r.announce_nat
    pub holds : Holds r.iface r.added r.announce_nat s

  pub inserted_lem :
      (rule t : List Bytes) (s : State) (result : Bool × State)
      → run h (bytes "nat") (nat_insert rule) s ≡ result
      → copies t result.1 ≡ copies t s + once (result.0 && rules_eq rule t)
  inserted_lem rule t s result e =
      subst (λ (w : Bool × State). copies t w.1 ≡ copies t s + once (w.0 && rules_eq rule t)) e
        (laws.insert_adds rule t s)

  pub deleted_lem :
      (rule t : List Bytes) (s : State) (result : Bool × State)
      → run h (bytes "nat") (nat_delete rule) s ≡ result
      → copies t result.1 + once (result.0 && rules_eq rule t) ≡ copies t s
  deleted_lem rule t s result e =
      subst (λ (w : Bool × State). copies t w.1 + once (w.0 && rules_eq rule t) ≡ copies t s) e
        (laws.delete_takes rule t s)

  after_insert-IsTracked :
      (src : Bytes) (r : LinuxRouter) (s : State) (result : Bool × State)
      → run h (bytes "nat") (nat_insert (spoke_rule r.iface src)) s ≡ result
      → has_key src r.added ≡ false
      → IsTracked r s
      → IsTracked (after_insert h src r result).1 (after_insert h src r result).2
  unfolding after_insert
  after_insert-IsTracked src r s (false, s') e new k = record {
    unique_added = k.unique_added;
    unique_announced = k.unique_announced;
    holds = λ t. omega (arith, inserted_lem (spoke_rule r.iface src) t s (false, s') e, k.holds t);
  }
  after_insert-IsTracked src r s (true, s') e new k = record {
    unique_added = insert-HasUniqueKeys src true r.added k.unique_added;
    unique_announced = k.unique_announced;
    holds = λ t. omega (
      arith,
      inserted_lem (spoke_rule r.iface src) t s (true, s') e,
      k.holds t,
      spoke_copies-insert r.iface src t r.added new,
    );
  }

  after_delete-IsTracked :
      (src : Bytes) (r : LinuxRouter) (s : State) (result : Bool × State)
      → run h (bytes "nat") (nat_delete (spoke_rule r.iface src)) s ≡ result
      → has_key src r.added ≡ true
      → IsTracked r s
      → IsTracked (after_delete h src r result).1 (after_delete h src r result).2
  unfolding after_delete
  after_delete-IsTracked src r s (false, s') e there k = record {
    unique_added = k.unique_added;
    unique_announced = k.unique_announced;
    holds = λ t. omega (arith, deleted_lem (spoke_rule r.iface src) t s (false, s') e, k.holds t);
  }
  after_delete-IsTracked src r s (true, s') e there k = record {
    unique_added = delete-HasUniqueKeys src r.added k.unique_added;
    unique_announced = k.unique_announced;
    holds = λ t. omega (
      arith,
      deleted_lem (spoke_rule r.iface src) t s (true, s') e,
      k.holds t,
      spoke_copies-delete r.iface src t r.added k.unique_added there,
    );
  }

  add_masquerade-IsTracked :
      (src : Bytes) (ignored : Option RouterError) (r : LinuxRouter) (s : State)
      → IsTracked r s
      → IsTracked (add_masquerade h src (ignored, r, s)).1 (add_masquerade h src (ignored, r, s)).2
  unfolding add_masquerade
  add_masquerade-IsTracked src ignored r s k = elim (Bool-cases (has_key src r.added)) [
    | inl e ↦ rw e k
    | inr e ↦ rw e (after_insert-IsTracked src r s _ refl e k)
  ]

  pub forwarding-IsTracked :
      (r : LinuxRouter) (s : State)
      → IsTracked r s
      → IsTracked (forwarding h r s).1 (forwarding h r s).2
  forwarding-IsTracked r s k =
      let kept =
        forwarding-keeps h (λ u. (t : List Bytes) → copies t u ≡ copies t s)
          (laws.others_keep (λ t. copies t s)) r s (λ t. refl) in
      let same = kept.0 in
      record {
        unique_added = rw same.1 k.unique_added;
        unique_announced = rw same.2 k.unique_announced;
        holds = λ t. rw (same.0, same.1, same.2) (kept.1 t ∙ k.holds t);
      }

  -- AddSource keeps every masquerade tracked, whether its command succeeds or fails.
  pub add_source-IsTracked :
      (ip : Option Bytes) (r : LinuxRouter) (s : State)
      → IsTracked r s
      → IsTracked (add_source h ip r s).1 (add_source h ip r s).2
  unfolding add_source
  add_source-IsTracked none r s k = k
  add_source-IsTracked (some ip4) r s k =
      add_masquerade-IsTracked _ (forwarding h r s).0 _ _ (forwarding-IsTracked r s k)

  -- RemoveSource keeps every masquerade tracked, whether its command succeeds or fails.
  pub remove_source-IsTracked :
      (ip : Option Bytes) (r : LinuxRouter) (s : State)
      → IsTracked r s
      → IsTracked (remove_source h ip r s).1 (remove_source h ip r s).2
  unfolding remove_source remove_masquerade
  remove_source-IsTracked none r s k = k
  remove_source-IsTracked (some ip4) r s k =
      elim (Bool-cases (has_key (ip4 ++ bytes "/32") r.added)) [
        | inl e ↦ rw e (after_delete-IsTracked _ r s _ refl e k)
        | inr e ↦ rw e k
      ]
