-- ===== src/Mesh/Record/Binding.antt =====
-- A record that its node signed is decoded and bound to the name.
use rout_wire.Base.{ℕ, ◌≡◌, refl, some, true, length, subst}
use rout_wire.Base.Bytes.{Bytes, bytes_eq_refl}
use rout_wire.Engine.Crypto.{CryptoLaws}
use rout_wire.Engine.Envelope.{Json, Identity, new_identity_from_seed, public_string}
use rout_wire.Mesh.Deriver.{Derivation, Deriver, valid, Cidr, overlay_ip, node_identity}
use rout_wire.Mesh.Deriver.Identities.{public_key_of-node_identity, node_identity-IsMade}
use rout_wire.Mesh.Record.{
  Record, unsigned, sign, decode_record, verify_binding, decode_pub_key, sized_to, check_decoded,
  check_signature, same_ip,
}

module _ (x : Derivation) (laws : CryptoLaws x.crypto) (ip_string : ℕ → Bytes) where
  public_string-decodes :
      (me : Identity)
      → length me.public_key ≡ 32
      → decode_pub_key x.crypto (public_string x.crypto me) ≡ some me.public_key
  unfolding decode_pub_key public_string
  public_string-decodes me h = rw (laws.b64dec_b64 me.public_key) (rw (h, sized_to) refl)

  node_identity-length :
      (d : Deriver) (name : Bytes) (me : Identity)
      → node_identity x d name ≡ valid me
      → length me.public_key ≡ 32
  unfolding new_identity_from_seed
  node_identity-length d name me e =
      subst (λ (i : Identity). length i.public_key ≡ 32) (node_identity-IsMade x d name me e)
        (laws.public_length _)

  -- A record that Sign signed with an identity made from a seed is what DecodeRecord returns,
  -- with its signature cleared, for a text from which JSON reads the signed record.
  pub decode_record-sign :
      (json : Json Record) (seed v : Bytes) (r : Record)
      → json.unmarshal v ≡ some (sign x.crypto json (new_identity_from_seed x.crypto seed) r)
      → decode_record x.crypto json v
        ≡ some (unsigned (sign x.crypto json (new_identity_from_seed x.crypto seed) r))
  unfolding decode_record sign check_decoded new_identity_from_seed
  decode_record-sign json seed v r h = rw h (
      rw
        (
          laws.b64dec_b64,
          public_string-decodes (new_identity_from_seed x.crypto seed) (laws.public_length seed),
        )
        (rw (laws.sign_length, sized_to) (rw (laws.verify_sign, check_signature) refl)))

  -- A record that a node of the PSK signed, with the overlay address of its name, is bound to
  -- that name for every holder of the PSK.
  pub verify_binding-sign :
      (json : Json Record) (d : Deriver) (cidr : Cidr) (me : Identity) (r : Record) (ip : ℕ)
      → node_identity x d r.name ≡ valid me
      → overlay_ip x d r.name cidr ≡ valid ip
      → r.ip ≡ ip_string ip
      → verify_binding x ip_string d cidr (unsigned (sign x.crypto json me r)) ≡ true
  unfolding verify_binding sign same_ip
  verify_binding-sign json d cidr me r ip i o h =
      rw
        (
          public_key_of-node_identity x d r.name me i,
          public_string-decodes me (node_identity-length d r.name me i),
          o,
        )
        (rw (bytes_eq_refl me.public_key) (rw h (bytes_eq_refl (ip_string ip))))
