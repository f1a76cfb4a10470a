-- ===== src/Mesh/Roster/Newest.antt =====
-- Which record of a name Fetch keeps.
use rout_wire.Base.{
  ℕ, ◌≤◌, ◌≡◌, refl, sym, inl, inr, true, false, List, [], ◌∷◌, Option, none, some, leb, arith, All,
  Memᴰ, Bool-cases, if◌then◌else◌, All-mono, subst,
}
use rout_wire.Base.Bytes.{Bytes, bytes_eq, bytes_eq_iff}
use rout_wire.Base.Map.{Map, lookup, lookup-insert}
use rout_wire.Mesh.Record.{Record}
use rout_wire.Base.Int.{ℤ}
use rout_wire.Engine.Envelope.{Json}
use rout_wire.Mesh.Deriver.{Derivation}
use rout_wire.Mesh.Roster.{Roster, absorb_record, keep_newer, usable, fold_values}

-- What is kept of the records of a name: nothing if it has none, else one of its records whose Seq
-- is the highest.
abbrev pub NewestOf : Bytes → List Record → Option Record → Type 0
NewestOf n recs none = All (λ r. bytes_eq r.name n ≡ false) recs
NewestOf n recs (some w) =
    Memᴰ w recs × (w.name ≡ n) × All (λ r. bytes_eq r.name n ≡ true → r.seq ≤ w.seq) recs

better : Option Record → Record → Option Record
better none rec = some rec
better (some cur) rec = if leb rec.seq cur.seq then some cur else some rec

lookup-keep_newer :
    (n : Bytes) (rec : Record) (cur : Option Record) (out : Map Record)
    → lookup rec.name out ≡ cur
    → lookup n (keep_newer cur rec out)
      ≡ (if bytes_eq rec.name n then better cur rec else lookup n out)
unfolding keep_newer better
lookup-keep_newer n rec none out e = lookup-insert rec.name n rec out
lookup-keep_newer n rec (some cur) out e = elim (Bool-cases (leb rec.seq cur.seq)) [
  | inl old ↦ rw old (elim (Bool-cases (bytes_eq rec.name n)) [
    | inl same ↦ rw same (subst (λ k. lookup k out ≡ some cur) ((bytes_eq_iff rec.name n).0 same) e)
    | inr other ↦ rw other refl
  ])
  | inr new ↦ rw new (lookup-insert rec.name n rec out)
]

NewestOf-other :
    (n : Bytes) (rec : Record) (seen : List Record) (w : Option Record)
    → bytes_eq rec.name n ≡ false
    → NewestOf n seen w
    → NewestOf n (rec ∷ seen) w
NewestOf-other n rec seen none e h = (e, h)
NewestOf-other n rec seen (some w) e (m, named, top) = (Memᴰ.tail m, named, (λ y. cc, top))

NewestOf-better :
    (n : Bytes) (rec : Record) (seen : List Record) (w : Option Record)
    → bytes_eq rec.name n ≡ true
    → NewestOf n seen w
    → NewestOf n (rec ∷ seen) (better w rec)
unfolding better
NewestOf-better n rec seen none e h = (
  Memᴰ.head refl,
  ground (arith, bytes_eq_iff rec.name n),
  (λ y. ground arith, All-mono (λ r k y. cc) seen h),
)
NewestOf-better n rec seen (some w) e (m, named, top) = elim (Bool-cases (leb rec.seq w.seq)) [
  | inl old ↦ rw old (Memᴰ.tail m, named, (λ y. ground arith, top))
  | inr new ↦ rw new (
    Memᴰ.head refl,
    ground (arith, bytes_eq_iff rec.name n),
    (λ y. ground arith, All-mono (λ r k y. let b = k y in ground arith) seen top),
  )
]

absorb_record-NewestOf :
    (n : Bytes) (rec : Record) (seen : List Record) (out : Map Record)
    → NewestOf n seen (lookup n out)
    → NewestOf n (rec ∷ seen) (lookup n (absorb_record (some rec) out))
unfolding absorb_record
absorb_record-NewestOf n rec seen out h =
    rw (lookup-keep_newer n rec (lookup rec.name out) out refl)
      (elim (Bool-cases (bytes_eq rec.name n)) [
        | inl same ↦
            let e = sym ((bytes_eq_iff rec.name n).0 same) in
            rw same (
              NewestOf-better n rec seen (lookup rec.name out) same
                (subst (λ k. NewestOf n seen (lookup k out)) e h))
        | inr other ↦ rw other (NewestOf-other n rec seen (lookup n out) other h)
      ])

module _ (x : Derivation) (ip_string : ℕ → Bytes) (json : Json Record) (ro : Roster)
    (before : ℤ) where
  abbrev pub with_usable : Option Record → List Record → List Record
  with_usable none seen = seen
  with_usable (some rec) seen = rec ∷ seen

  -- The usable records of the values, the latest first, before those of `seen`.
  unfoldable pub usable_records : List Bytes → List Record → List Record
  usable_records [] seen = seen
  usable_records (v ∷ vals) seen =
      usable_records vals (with_usable (usable x ip_string json ro before v) seen)

  step-NewestOf :
      (n : Bytes) (rec : Option Record) (seen : List Record) (out : Map Record)
      → NewestOf n seen (lookup n out)
      → NewestOf n (with_usable rec seen) (lookup n (absorb_record rec out))
  step-NewestOf n none seen out h = unfold absorb_record in h
  step-NewestOf n (some rec) seen out h = absorb_record-NewestOf n rec seen out h

  fold_values-NewestOf_seen :
      (n : Bytes) (vals : List Bytes) (seen : List Record) (out : Map Record)
      → NewestOf n seen (lookup n out)
      → NewestOf n
          (usable_records vals seen)
          (lookup n (fold_values x ip_string json ro before vals out))
  unfolding usable_records fold_values
  fold_values-NewestOf_seen n [] seen out h = h
  fold_values-NewestOf_seen n (v ∷ vals) seen out h =
      fold_values-NewestOf_seen n vals _ _
        (step-NewestOf n (usable x ip_string json ro before v) seen out h)

  -- For each name, what the loop of Fetch has of it in the end is nothing if no usable record
  -- bears the name, and else a usable record of that name whose Seq none of them exceeds.
  pub fold_values-NewestOf :
      (n : Bytes) (vals : List Bytes)
      → NewestOf n
          (usable_records vals [])
          (lookup n (fold_values x ip_string json ro before vals []))
  fold_values-NewestOf n vals = fold_values-NewestOf_seen n vals [] [] (unfold lookup in tt)
