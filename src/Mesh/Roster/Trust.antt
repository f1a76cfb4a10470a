-- ===== src/Mesh/Roster/Trust.antt =====
-- Which records Fetch accepts.
use rout_wire.Base.{
  ℕ, ◌≡◌, refl, inl, inr, true, false, List, [], ◌∷◌, Option, none, some, arith, length, All, Memᴰ,
  Bool-cases, mem_of_All, subst, ap,
}
use rout_wire.Base.Bytes.{Bytes, bytes_eq, bytes_eq_iff}
use rout_wire.Base.Int.{ℤ, ltb_ℤ}
use rout_wire.Base.Map.{lookup}
use rout_wire.Engine.Crypto.{CryptoLaws, Outcome, good, bad, nonce_len, unseal_room}
use rout_wire.Engine.Crypto.Boxes.{unseal_room-seal_room, IsSealed, unseal_room-IsSealed}
use rout_wire.Engine.Envelope.{Json, Identity}
use rout_wire.Mesh.Deriver.{Derivation, valid, node_identity, overlay_ip, roster_box_key}
use rout_wire.Mesh.Deriver.Identities.{node_identity-IsMade}
use rout_wire.Mesh.Record.{Record, unsigned, sign, decode_record, verify_binding}
use rout_wire.Mesh.Record.Signed.{IsSigned, IsBound, decode_record-IsSigned, verify_binding-IsBound}
use rout_wire.Mesh.Record.Binding.{decode_record-sign, verify_binding-sign}
use rout_wire.Mesh.Roster.{
  Roster, usable, fold_values, is_trusted, only_trusted, opened, seal_record,
}
use rout_wire.Mesh.Roster.Newest.{NewestOf, usable_records, with_usable, fold_values-NewestOf}

module _ (x : Derivation) (ip_string : ℕ → Bytes) (json : Json Record) (ro : Roster)
    (before : ℤ) where
  open_value : Bytes → Option Record
  unfolding opened
  open_value v = opened x ip_string json (unseal_room x.crypto (roster_box_key x ro.deriver) v)

  -- One of the values holds the record, sealed for the roster and signed; the record is not too old,
  -- not our own, and bound to its name.
  pub record IsTrustedOf (vals : List Bytes) (rec : Record) : Type 0 where
    pub value : Bytes
    pub plain : Bytes
    pub is_read : Memᴰ value vals
    pub is_sealed : IsSealed x.crypto (roster_box_key x ro.deriver) plain value
    pub is_signed : IsSigned x.crypto json plain rec
    pub is_bound : IsBound x ip_string ro.deriver ro.cidr rec
    pub is_fresh : ltb_ℤ rec.ts before ≡ false
    pub is_other : ¬ (rec.name ≡ ro.me)

  only_trusted-some :
      (o : Option Record) (rec : Record)
      → only_trusted x ip_string json ro before o ≡ some rec
      → (o ≡ some rec) × (is_trusted x ip_string json ro before rec ≡ true)
  unfolding only_trusted
  only_trusted-some none rec h = cc
  only_trusted-some (some r) rec h = elim (Bool-cases (is_trusted x ip_string json ro before r)) [
    | inl e ↦
        let same : r ≡ rec = ground arith in
        (ap (λ q. some q) same, subst (λ q. is_trusted x ip_string json ro before q ≡ true) same e)
    | inr e ↦ ground arith
  ]

  opened-good :
      (out : Outcome Bytes) (rec : Record)
      → opened x ip_string json out ≡ some rec
      → (plain : Bytes) × (out ≡ good plain) × (decode_record x.crypto json plain ≡ some rec)
  unfolding opened
  opened-good (bad e) rec h = cc
  opened-good (good plain) rec h = (plain, refl, h)

  usable-IsTrustedOf :
      (v : Bytes) (vals : List Bytes) (rec : Record)
      → Memᴰ v vals
      → usable x ip_string json ro before v ≡ some rec
      → IsTrustedOf vals rec
  unfolding usable is_trusted
  usable-IsTrustedOf v vals rec m h =
      let (is_open, t) = only_trusted-some _ rec h in
      let (plain, unsealed, decoded) = opened-good _ rec is_open in
      record {
        value = v;
        plain = plain;
        is_read = m;
        is_sealed = unseal_room-IsSealed x.crypto (roster_box_key x ro.deriver) plain v unsealed;
        is_signed = decode_record-IsSigned x.crypto json plain rec decoded;
        is_bound = verify_binding-IsBound x ip_string ro.deriver ro.cidr rec (ground arith);
        is_fresh = ground arith;
        is_other = λ same. (let e = (bytes_eq_iff rec.name ro.me).1 same in ground arith);
      }

  usable_records-All :
      (P : Record → Type 0) (vals : List Bytes) (seen : List Record)
      → ((v : Bytes) (rec : Record)
          → Memᴰ v vals
          → usable x ip_string json ro before v ≡ some rec
          → P rec)
      → All P seen
      → All P (usable_records x ip_string json ro before vals seen)
  unfolding usable_records
  usable_records-All P [] seen f h = h
  usable_records-All P (v ∷ vals) seen f h =
      usable_records-All P vals
        (with_usable x ip_string json ro before (usable x ip_string json ro before v) seen)
        (λ w rec m. f w rec (Memᴰ.tail m)) (step (usable x ip_string json ro before v) refl)
    where
      step :
          (o : Option Record)
          → usable x ip_string json ro before v ≡ o
          → All P (with_usable x ip_string json ro before o seen)
      step none e = h
      step (some rec) e = (f v rec (Memᴰ.head refl) e, h)

  -- What the loop of Fetch has under a name is a record of that name which one of the values holds,
  -- sealed with the key of the roster. It is signed with its own public key, which is that of the
  -- PSK and the name, its address is that of the name in the network, and it is not older than the given
  -- time and not our own.
  pub fold_values-IsTrustedOf :
      (n : Bytes) (vals : List Bytes) (rec : Record)
      → lookup n (fold_values x ip_string json ro before vals []) ≡ some rec
      → (rec.name ≡ n) × IsTrustedOf vals rec
  fold_values-IsTrustedOf n vals rec e =
      let (m, named, top) =
        subst (NewestOf n (usable_records x ip_string json ro before vals [])) e
          (fold_values-NewestOf x ip_string json ro before n vals) in
      (
        named,
        mem_of_All (IsTrustedOf vals) rec _
            (usable_records-All (IsTrustedOf vals) vals [] (λ v r. usable-IsTrustedOf v vals r) tt)
            m,
      )

  is_trusted-sign :
      (me : Identity) (rec : Record)
      → bytes_eq rec.name ro.me ≡ false
      → ltb_ℤ rec.ts before ≡ false
      → verify_binding x ip_string ro.deriver ro.cidr (unsigned (sign x.crypto json me rec)) ≡ true
      → is_trusted x ip_string json ro before (unsigned (sign x.crypto json me rec)) ≡ true
  unfolding is_trusted sign
  is_trusted-sign me rec other fresh bound = rw (fresh, other) bound

  -- A record that a node signed with its derived identity, with the overlay address of its name,
  -- and sealed for the roster is usable, with its signature cleared, for every other node of the
  -- PSK and the network, if it is fresh enough and JSON reads back this record.
  pub usable-seal_record :
      (laws : CryptoLaws x.crypto) (me : Identity) (rec : Record) (salt sealed : Bytes) (ip : ℕ)
      → length salt ≡ nonce_len
      → node_identity x ro.deriver rec.name ≡ valid me
      → overlay_ip x ro.deriver rec.name ro.cidr ≡ valid ip
      → rec.ip ≡ ip_string ip
      → bytes_eq rec.name ro.me ≡ false
      → ltb_ℤ rec.ts before ≡ false
      → json.unmarshal (json.marshal (sign x.crypto json me rec)) ≡ some (sign x.crypto json me rec)
      → seal_record x ip_string json ro.deriver (some salt) (sign x.crypto json me rec)
        ≡ good sealed
      → usable x ip_string json ro before sealed ≡ some (unsigned (sign x.crypto json me rec))
  unfolding usable seal_record opened only_trusted
  usable-seal_record laws me rec salt sealed ip long mine at here other fresh reads seals =
      let o =
        unseal_room-seal_room x.crypto laws (roster_box_key x ro.deriver)
          (json.marshal (sign x.crypto json me rec)) salt sealed long seals in
      let made = node_identity-IsMade x ro.deriver rec.name me mine in
      let b = verify_binding-sign x laws ip_string json ro.deriver ro.cidr me rec ip mine at here in
      let d : decode_record x.crypto json (json.marshal (sign x.crypto json me rec))
          ≡ some (unsigned (sign x.crypto json me rec)) =
        subst
          (λ (i : Identity).
            json.unmarshal (json.marshal (sign x.crypto json i rec))
              ≡ some (sign x.crypto json i rec)
            → decode_record x.crypto json (json.marshal (sign x.crypto json i rec))
              ≡ some (unsigned (sign x.crypto json i rec)))
          made (λ h. decode_record-sign x laws ip_string json _ _ rec h) reads in
      rw (o, d) (rw (is_trusted-sign me rec other fresh b) refl)
