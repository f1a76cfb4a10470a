-- ===== src/Mesh/Record/Signed.antt =====
-- What DecodeRecord and VerifyBinding have tested of a record that they accept.
use rout_wire.Base.{
  ℕ, ◌≡◌, refl, sym, ap, ◌∙◌, inl, inr, true, [], Option, none, some, Option-cases, Bool-cases,
  ◌==◌, length, arith,
}
use rout_wire.Base.Bytes.{Bytes, bytes_eq_iff}
use rout_wire.Engine.Crypto.{Crypto}
use rout_wire.Engine.Envelope.{Json}
use rout_wire.Mesh.Deriver.{
  Derivation, Deriver, Checked, valid, bad_name, bad_cidr, Cidr, public_key_of, overlay_ip,
}
use rout_wire.Mesh.Record.{
  Record, unsigned, sized_to, decode_pub_key, check_signature, check_decoded, decode_record,
  same_key, same_ip, verify_binding,
}

-- The text holds a record whose signature, of 64 bytes, is one of its own public key, of 32 bytes,
-- on the record without its signature.
pub record IsSigned (c : Crypto) (json : Json Record) (text : Bytes) (rec : Record) : Type 0 where
  pub signed : Record
  pub signature : Bytes
  pub key : Bytes
  pub reads : json.unmarshal text ≡ some signed
  pub cleared : rec ≡ record signed { sig = [] }
  pub signature_decodes : c.b64dec signed.sig ≡ some signature
  pub signature_length : length signature ≡ 64
  pub key_decodes : c.b64dec rec.pk ≡ some key
  pub key_length : length key ≡ 32
  pub verifies : c.ed_verify key (json.marshal rec) signature ≡ true

sized_to-some :
    (c : Crypto) (n : ℕ) (o : Option Bytes) (raw : Bytes)
    → sized_to c n o ≡ some raw
    → (o ≡ some raw) × (length raw ≡ n)
unfolding sized_to
sized_to-some c n none raw e = cc
sized_to-some c n (some b) raw e = elim (Bool-cases (length b == n)) [
  | inl fits ↦
      let same : b ≡ raw = ground arith in
      (ap (λ r. some r) same, ap (λ (r : Bytes). length r) (sym same) ∙ ground arith)
  | inr other ↦ ground arith
]

check_signature-some :
    (c : Crypto) (r rec : Record) (b : Bytes) (sig pk : Option Bytes)
    → check_signature c r b sig pk ≡ some rec
    → (s : Bytes) × (k : Bytes) × (sig ≡ some s)
      × (pk ≡ some k)
      × (c.ed_verify k b s ≡ true)
      × (rec ≡ r)
unfolding check_signature
check_signature-some c r rec b none pk e = cc
check_signature-some c r rec b (some s) none e = cc
check_signature-some c r rec b (some s) (some k) e = elim (Bool-cases (c.ed_verify k b s)) [
  | inl fine ↦ (s, k, refl, refl, fine, ground arith)
  | inr fails ↦ ground arith
]

pub decode_record-IsSigned :
    (c : Crypto) (json : Json Record) (text : Bytes) (rec : Record)
    → decode_record c json text ≡ some rec
    → IsSigned c json text rec
unfolding decode_record check_decoded decode_pub_key
decode_record-IsSigned c json text rec e = elim (Option-cases (json.unmarshal text)) [
  | inl missing ↦ (let h = rw missing at e in absurd (ground arith))
  | inr (r, reads) ↦
      let (s, k, has_sig, has_key, verified, same) =
        check_signature-some c (unsigned r) rec (json.marshal (unsigned r))
          (sized_to c 64 (c.b64dec r.sig)) (decode_pub_key c r.pk) (rw reads at e) in
      let (sig_text, sig_size) = sized_to-some c 64 (c.b64dec r.sig) s has_sig in
      let (key_text, key_size) = sized_to-some c 32 (c.b64dec r.pk) k has_key in
      record {
        signed = r;
        signature = s;
        key = k;
        reads = reads;
        cleared = same;
        signature_decodes = sig_text;
        signature_length = sig_size;
        key_decodes = ap (λ (q : Record). c.b64dec q.pk) same ∙ key_text;
        key_length = key_size;
        verifies = ap (λ (q : Record). c.ed_verify k (json.marshal q) s) same ∙ verified;
      }
]

-- The public key is the one that the PSK and the name give, and the address is that of the name in
-- the network.
pub record IsBound (x : Derivation) (ip_string : ℕ → Bytes) (d : Deriver) (cidr : Cidr)
    (rec : Record) : Type 0 where
  pub address : ℕ
  pub own_key : x.crypto.b64dec rec.pk ≡ some (public_key_of x d rec.name)
  pub has_address : overlay_ip x d rec.name cidr ≡ valid address
  pub own_address : rec.ip ≡ ip_string address

module _ (x : Derivation) (ip_string : ℕ → Bytes) where
  same_key-true :
      (want : Bytes) (o : Option Bytes) → same_key x ip_string want o ≡ true → o ≡ some want
  unfolding same_key
  same_key-true want none e = cc
  same_key-true want (some got) e = ap (λ k. some k) ((bytes_eq_iff got want).0 e)

  same_ip-true :
      (ip : Bytes) (c : Checked ℕ)
      → same_ip x ip_string ip c ≡ true
      → (n : ℕ) × (c ≡ valid n) × (ip ≡ ip_string n)
  unfolding same_ip
  same_ip-true ip (valid n) e = (n, refl, (bytes_eq_iff ip (ip_string n)).0 e)
  same_ip-true ip (bad_name e') e = cc
  same_ip-true ip bad_cidr e = cc

  pub verify_binding-IsBound :
      (d : Deriver) (cidr : Cidr) (rec : Record)
      → verify_binding x ip_string d cidr rec ≡ true
      → IsBound x ip_string d cidr rec
  unfolding verify_binding decode_pub_key
  verify_binding-IsBound d cidr rec e =
      elim (Bool-cases
        (same_key x ip_string (public_key_of x d rec.name) (decode_pub_key x.crypto rec.pk))) [
          | inl key ↦
              let found = same_key-true _ _ key in
              let (n, has, own) =
                same_ip-true rec.ip (overlay_ip x d rec.name cidr) (rw key at e) in
              record {
                address = n;
                own_key = (sized_to-some x.crypto 32 (x.crypto.b64dec rec.pk) _ found).0;
                has_address = has;
                own_address = own;
              }
          | inr other ↦ (let h = rw other at e in absurd (ground arith))
        ]
