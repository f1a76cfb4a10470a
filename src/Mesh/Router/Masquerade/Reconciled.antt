-- ===== src/Mesh/Router/Masquerade/Reconciled.antt =====
-- What AnnounceNAT leaves in the table and in its map.
use rout_wire.Base.{
  ℕ, ◌+◌, ◌≡◌, refl, sym, ap, ◌∙◌, inl, inr, Bool, true, false, ◌&&◌, ◌||◌, not, List, [], ◌∷◌,
  none, some, arith, if◌then◌else◌, Bool-cases, All,
}
use rout_wire.Base.Bytes.{Bytes, bytes, bytes_eq, bytes_eq_iff, bytes_eq_refl}
use rout_wire.Base.Map.{
  Map, lookup, delete, has_key, keys, HasUniqueKeys, lookup-delete, lookup-insert,
  insert-HasUniqueKeys, delete-HasUniqueKeys,
}
use rout_wire.Mesh.Router.Host.{Host, LinuxRouter, run}
use rout_wire.Mesh.Router.Masquerade.{
  announce_rule, nat_insert, nat_delete, Subnet, before_bar, wanted, drop_entry, drop_unwanted,
  add_entry, add_wanted, announce_nat_rules, after_announce,
}
use rout_wire.Mesh.Router.Masquerade.Owned.{
  NatLaws, rules_eq, rules_eq_refl, once, spoke_copies, announce_copies, announce_copies-insert,
  announce_copies-delete, Holds, IsTracked, inserted_lem, deleted_lem,
}

-- Each entry of the loop is in the map.
Listed : Map Bytes → Map Bytes → Type 0
Listed entries m = All (λ (e : Bytes × Bytes). lookup e.0 m ≡ some e.1) entries

Listed-push :
    (key dst : Bytes) (entries m : Map Bytes)
    → All (λ k. bytes_eq key k ≡ false) (keys entries)
    → Listed entries m
    → Listed entries ((key, dst) ∷ m)
unfolding Listed lookup
Listed-push key dst [] m fresh l = l
Listed-push key dst ((k, d) ∷ entries) m fresh l =
    (rw fresh.0 l.0, Listed-push key dst entries m fresh.1 l.1)

Listed-self : (m : Map Bytes) → HasUniqueKeys m → Listed m m
unfolding Listed lookup
Listed-self [] u = tt
Listed-self ((key, dst) ∷ m) u =
    (rw (bytes_eq_refl key) refl, Listed-push key dst m m u.0 (Listed-self m u.1))

module _ (h : Host) (laws : NatLaws h) (base : List Bytes → ℕ) (iface : Bytes)
    (added : Map Bool) where
  open h use {State}
  open laws use {copies}

  -- What is tracked, halfway through AnnounceNAT.
  Midway : Map Bytes × State → Type 0
  Midway v = HasUniqueKeys v.0 × Holds h laws base iface added v.0 v.1

  -- The rule of an entry is there, so its deletion works.
  entry_deletes :
      (key dst : Bytes) (m : Map Bytes) (s : State)
      → Midway (m, s)
      → lookup key m ≡ some dst
      → (run h (bytes "nat") (nat_delete (announce_rule (before_bar key) dst)) s).0 ≡ true
  unfolding Midway
  entry_deletes key dst m s k e =
      let rule = announce_rule (before_bar key) dst in
      laws.delete_works rule s
        (base rule + spoke_copies iface rule added + announce_copies rule (delete key m))
        (omega (
          arith,
          k.1 rule,
          announce_copies-delete key dst rule m k.0 e,
          ap once (rules_eq_refl rule),
        ))

  drop_entry-Midway :
      (want : Map Bytes) (key dst : Bytes) (m : Map Bytes) (s : State)
      → Midway (m, s)
      → lookup key m ≡ some dst
      → Midway (drop_entry h want key dst (m, s))
  unfolding Midway drop_entry
  drop_entry-Midway want key dst m s k e = elim (Bool-cases (has_key key want)) [
    | inl w ↦ rw w k
    | inr w ↦ rw w (
      delete-HasUniqueKeys key m k.0,
      λ t.
          let rule = announce_rule (before_bar key) dst in
          let gone = deleted_lem h laws base rule t s _ refl in
          omega (
            arith,
            ap
                  (λ ok.
                    copies t (run h (bytes "nat") (nat_delete rule) s).1
                    + once (ok && rules_eq rule t))
                  (sym (entry_deletes key dst m s k e))
                ∙ gone,
            k.1 t,
            announce_copies-delete key dst t m k.0 e,
          ),
    )
  ]

  drop_entry-lookup :
      (want : Map Bytes) (key dst k : Bytes) (v : Map Bytes × State)
      → lookup k (drop_entry h want key dst v).0
        ≡ (if bytes_eq key k && not (has_key k want) then none else lookup k v.0)
  unfolding drop_entry
  drop_entry-lookup want key dst k (m, s) = elim (Bool-cases (bytes_eq key k)) [
    | inl e ↦ ground (arith, lookup-delete key k m, (bytes_eq_iff key k).0 e)
    | inr e ↦ ground (arith, lookup-delete key k m)
  ]

  Listed-delete :
      (want : Map Bytes) (key dst : Bytes) (entries : Map Bytes) (v : Map Bytes × State)
      → All (λ k. bytes_eq key k ≡ false) (keys entries)
      → Listed entries v.0
      → Listed entries (drop_entry h want key dst v).0
  unfolding Listed
  Listed-delete want key dst [] v fresh l = l
  Listed-delete want key dst ((k, d) ∷ entries) v fresh l = (
    drop_entry-lookup want key dst k v ∙ rw fresh.0 l.0,
    Listed-delete want key dst entries v fresh.1 l.1,
  )

  drop_unwanted-Midway :
      (want entries : Map Bytes) (v : Map Bytes × State)
      → HasUniqueKeys entries
      → Listed entries v.0
      → Midway v
      → Midway (drop_unwanted h want entries v)
  unfolding drop_unwanted Listed
  drop_unwanted-Midway want [] v u l k = k
  drop_unwanted-Midway want ((key, dst) ∷ entries) v u l k =
      drop_unwanted-Midway want entries _ u.1 (Listed-delete want key dst entries v u.0 l.1)
        (drop_entry-Midway want key dst v.0 v.1 k l.0)

  drop_unwanted-lookup :
      (want entries : Map Bytes) (k : Bytes) (v : Map Bytes × State)
      → lookup k (drop_unwanted h want entries v).0
        ≡ (if has_key k entries && not (has_key k want) then none else lookup k v.0)
  unfolding drop_unwanted lookup
  drop_unwanted-lookup want [] k v = refl
  drop_unwanted-lookup want ((key, dst) ∷ entries) k v = ground (
    arith,
    drop_unwanted-lookup want entries k (drop_entry h want key dst v),
    drop_entry-lookup want key dst k v,
  )

  after_announce-Midway :
      (key dst : Bytes) (m : Map Bytes) (s : State) (result : Bool × State)
      → run h (bytes "nat") (nat_insert (announce_rule (before_bar key) dst)) s ≡ result
      → has_key key m ≡ false
      → Midway (m, s)
      → Midway (after_announce h key dst m result)
  unfolding Midway after_announce
  after_announce-Midway key dst m s (false, s') e new k =
      (k.0, λ t. omega (arith, inserted_lem h laws base _ t s (false, s') e, k.1 t))
  after_announce-Midway key dst m s (true, s') e new k = (
    insert-HasUniqueKeys key dst m k.0,
    λ t. omega (
      arith,
      inserted_lem h laws base _ t s (true, s') e,
      k.1 t,
      announce_copies-insert key dst t m new,
    ),
  )

  add_entry-Midway :
      (key dst : Bytes) (v : Map Bytes × State) → Midway v → Midway (add_entry h key dst v)
  unfolding add_entry
  add_entry-Midway key dst (m, s) k = elim (Bool-cases (has_key key m)) [
    | inl e ↦ rw e k
    | inr e ↦ rw e (after_announce-Midway key dst m s _ refl e k)
  ]

  add_wanted-Midway :
      (want : Map Bytes) (v : Map Bytes × State) → Midway v → Midway (add_wanted h want v)
  unfolding add_wanted
  add_wanted-Midway [] v k = k
  add_wanted-Midway ((key, dst) ∷ want) v k =
      add_wanted-Midway want (add_entry h key dst v) (add_entry-Midway key dst v k)

  after_announce-only :
      (key dst k : Bytes) (m : Map Bytes) (result : Bool × State)
      → has_key k (after_announce h key dst m result).0 ≡ true
      → (bytes_eq key k || has_key k m) ≡ true
  unfolding after_announce
  after_announce-only key dst k m (false, s) e = ground arith
  after_announce-only key dst k m (true, s) e = ground (arith, lookup-insert key k dst m)

  add_entry-only :
      (key dst k : Bytes) (v : Map Bytes × State)
      → has_key k (add_entry h key dst v).0 ≡ true
      → (bytes_eq key k || has_key k v.0) ≡ true
  unfolding add_entry
  add_entry-only key dst k (m, s) e = elim (Bool-cases (has_key key m)) [
    | inl f ↦ ground (arith)
    | inr f ↦ after_announce-only key dst k m _ (rw f at e)
  ]

  add_wanted-only :
      (want : Map Bytes) (k : Bytes) (v : Map Bytes × State)
      → has_key k (add_wanted h want v).0 ≡ true
      → (has_key k want || has_key k v.0) ≡ true
  unfolding add_wanted lookup
  add_wanted-only [] k v e = e
  add_wanted-only ((key, dst) ∷ want) k v e =
      ground (arith, add_wanted-only want k (add_entry h key dst v) e, add_entry-only key dst k v)

-- If the deletion of a rule that is there never fails, AnnounceNAT keeps every masquerade tracked,
-- whichever of its insertions fail, and afterwards it tracks no rule for an announced subnet but the
-- wanted ones.
pub announce_nat_rules-reconciled :
    (h : Host) (laws : NatLaws h) (base : List Bytes → ℕ) (overlay : Bytes) (subnets : List Subnet)
    (r : LinuxRouter) (s : h.State)
    → IsTracked h laws base r s
    → let (r', s') = announce_nat_rules h overlay subnets r s in
      IsTracked h laws base r' s'
      × ((k : Bytes)
          → (has_key k r'.announce_nat && not (has_key k (wanted overlay subnets []))) ≡ false)
unfolding announce_nat_rules Midway
announce_nat_rules-reconciled h laws base overlay subnets r s k =
    let want = wanted overlay subnets [] in
    let entries = r.announce_nat in
    let dropped = drop_unwanted h want entries (entries, s) in
    let midway = add_wanted-Midway h laws base r.iface r.added want dropped (
      drop_unwanted-Midway h laws base r.iface r.added want entries (entries, s) k.unique_announced
        (Listed-self entries k.unique_announced) (k.unique_announced, k.holds)) in
    (
      record { unique_added = k.unique_added; unique_announced = midway.0; holds = midway.1 },
      λ key. elim (Bool-cases (has_key key (add_wanted h want dropped).0)) [
        | inl there ↦ ground (
          arith,
          add_wanted-only h laws base r.iface r.added want key dropped there,
          drop_unwanted-lookup h laws base r.iface r.added want entries key (entries, s),
        )
        | inr absent ↦ rw absent refl
      ],
    )
