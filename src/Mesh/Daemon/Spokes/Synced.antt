-- ===== src/Mesh/Daemon/Spokes/Synced.antt =====
-- Which sources syncNat leaves tracked.
use rout_wire.Base.{
  ℕ, ◌≡◌, ap, inl, inr, Bool, true, false, not, ◌&&◌, ◌||◌, List, [], ◌∷◌, Option, arith,
  Bool-cases,
}
use rout_wire.Base.Bytes.{Bytes, bytes_eq, bytes_eq_iff}
use rout_wire.Base.Map.{Map, lookup, has_key, keys, lookup-delete, lookup-insert}
use rout_wire.Mesh.Deriver.{Derivation, Checked, valid, bad_name, bad_cidr, overlay_ip}
use rout_wire.Mesh.Router.Masquerade.{Subnet}
use rout_wire.Mesh.Daemon.World.{World}
use rout_wire.Mesh.Daemon.Node.{Daemon}
use rout_wire.Mesh.Daemon.Spokes.{
  with_address, wanted_sources, drop_source, drop_sources, after_add, add_new_source, add_sources,
  assert_rules, sync_nat,
}
use rout_wire.Mesh.Daemon.Spokes.Evicted.{named, named-keys}

abbrev pub is_valid {ℓ} : {A : Type ℓ} → Checked A → Bool
is_valid (valid a) = true
is_valid (bad_name e) = false
is_valid bad_cidr = false

module _ (w : World) (x : Derivation) where
  open w use {State}

  -- Has a spoke an overlay address?
  abbrev pub has_address : Daemon → Bytes → Bool
  has_address dm name = is_valid (overlay_ip x dm.deriver name dm.cfg.cidr)

  has_key-with_address :
      (k name : Bytes) (ip : Checked ℕ) (want : Map ℕ)
      → has_key k (with_address w x name ip want)
        ≡ ((bytes_eq name k && is_valid ip) || has_key k want)
  unfolding with_address
  has_key-with_address k name (valid ip) want = ground (arith, lookup-insert name k ip want)
  has_key-with_address k name (bad_name e) want = ground arith
  has_key-with_address k name bad_cidr want = ground arith

  has_key-wanted_sources :
      (dm : Daemon) (k : Bytes) (names : List Bytes) (want : Map ℕ)
      → has_key k (wanted_sources w x dm names want)
        ≡ ((named k names && has_address dm k) || has_key k want)
  unfolding wanted_sources
  has_key-wanted_sources dm k [] want = ground arith
  has_key-wanted_sources dm k (n ∷ names) want = ground (
    arith,
    bytes_eq_iff n k,
    has_key-wanted_sources dm k names
        (with_address w x n (overlay_ip x dm.deriver n dm.cfg.cidr) want),
    has_key-with_address k n (overlay_ip x dm.deriver n dm.cfg.cidr) want,
    λ (e : n ≡ k). ap (has_address dm) e,
  )

  drop_source-has :
      (want : Map ℕ) (n k : Bytes) (ip : ℕ) (v : Map ℕ × State)
      → has_key k (drop_source w x want n ip v).0
        ≡ (has_key k v.0 && (not (bytes_eq n k) || has_key k want))
  unfolding drop_source
  drop_source-has want n k ip (src, s) = elim (Bool-cases (has_key n want)) [
    | inl e ↦ rw e (ground (arith, bytes_eq_iff n k))
    | inr e ↦ rw e (ground (arith, bytes_eq_iff n k, lookup-delete n k src))
  ]

  drop_sources-has :
      (want src : Map ℕ) (k : Bytes) (v : Map ℕ × State)
      → has_key k (drop_sources w x want src v).0
        ≡ (has_key k v.0 && (not (has_key k src) || has_key k want))
  unfolding drop_sources lookup
  drop_sources-has want [] k v = ground arith
  drop_sources-has want ((n, ip) ∷ src) k v = ground (
    arith,
    drop_sources-has want src k (drop_source w x want n ip v),
    drop_source-has want n k ip v,
  )

  after_add-only :
      (n k : Bytes) (ip : ℕ) (src : Map ℕ) (v : Bool × State)
      → has_key k (after_add w x n ip src v).0 ≡ ((bytes_eq n k && v.0) || has_key k src)
  unfolding after_add
  after_add-only n k ip src (false, s) = ground arith
  after_add-only n k ip src (true, s) = ground (arith, lookup-insert n k ip src)

  add_new_source-has :
      (n k : Bytes) (ip : ℕ) (v : Map ℕ × State)
      → let after = has_key k (add_new_source w x n ip v).0 in
        after ≡ (has_key k v.0 || (bytes_eq n k && (w.add_source ip v.1).0))
  unfolding add_new_source
  add_new_source-has n k ip (src, s) = elim (Bool-cases (has_key n src)) [
    | inl e ↦ rw e (ground (arith, bytes_eq_iff n k))
    | inr e ↦ rw e (ground (arith, after_add-only n k ip src (w.add_source ip s)))
  ]

  add_sources-only :
      (want : Map ℕ) (k : Bytes) (v : Map ℕ × State)
      → (has_key k (add_sources w x want v).0 && not (has_key k v.0 || has_key k want)) ≡ false
  unfolding add_sources lookup
  add_sources-only [] k v = ground arith
  add_sources-only ((n, ip) ∷ want) k v =
      ground
        (arith, add_sources-only want k (add_new_source w x n ip v), add_new_source-has n k ip v)

  -- syncNat tracks no source but those of spokes that have an overlay address.
  pub sync_nat-only :
      (parse_cidr : Bytes → Option Subnet) (dm : Daemon) (s : State) (k : Bytes)
      → (has_key k (sync_nat w x parse_cidr dm s).0.spoke_src
          && not (has_key k dm.spokes && has_address dm k))
        ≡ false
  unfolding sync_nat lookup
  sync_nat-only parse_cidr dm s k =
      let want = wanted_sources w x dm (keys dm.spokes) [] in
      let v : Map ℕ × State = (dm.spoke_src, assert_rules w x parse_cidr dm s) in
      ground (
        arith,
        add_sources-only want k (drop_sources w x want dm.spoke_src v),
        drop_sources-has want dm.spoke_src k v,
        has_key-wanted_sources dm k (keys dm.spokes) [],
        named-keys k dm.spokes,
      )

  module _ (adds : (ip : ℕ) (s : State) → (w.add_source ip s).0 ≡ true) where
    add_sources-all :
        (want : Map ℕ) (k : Bytes) (v : Map ℕ × State)
        → has_key k (add_sources w x want v).0 ≡ (has_key k v.0 || has_key k want)
    unfolding add_sources lookup
    add_sources-all [] k v = ground arith
    add_sources-all ((n, ip) ∷ want) k v = ground (
      arith,
      add_sources-all want k (add_new_source w x n ip v),
      add_new_source-has n k ip v,
      adds ip v.1,
    )

    -- If AddSource never fails, then after syncNat the tracked sources are exactly the spokes that
    -- have an overlay address.
    pub sync_nat-tracks :
        (parse_cidr : Bytes → Option Subnet) (dm : Daemon) (s : State) (k : Bytes)
        → has_key k (sync_nat w x parse_cidr dm s).0.spoke_src
          ≡ (has_key k dm.spokes && has_address dm k)
    unfolding sync_nat lookup
    sync_nat-tracks parse_cidr dm s k =
        let want = wanted_sources w x dm (keys dm.spokes) [] in
        let v : Map ℕ × State = (dm.spoke_src, assert_rules w x parse_cidr dm s) in
        ground (
          arith,
          add_sources-all want k (drop_sources w x want dm.spoke_src v),
          drop_sources-has want dm.spoke_src k v,
          has_key-wanted_sources dm k (keys dm.spokes) [],
          named-keys k dm.spokes,
        )
