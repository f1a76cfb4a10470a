-- ===== src/Engine/Envelope/Delivery.antt =====
-- A message that was built and stored is read back, verified and decrypted.
use rout_wire.Base.{ℕ, ◌≡◌, refl, ap, some, true, length, subst}
use rout_wire.Base.Bytes.{Bytes}
use rout_wire.Base.Int.{ℤ}
use rout_wire.Engine.Crypto.{Crypto, CryptoLaws, good, nonce_len, seal_room, unseal_room}
use rout_wire.Engine.Crypto.Boxes.{unseal_room-seal_room, unseal_room-seal_deterministic}
use rout_wire.Engine.Envelope.{
  WireEnvelope, Json, new_identity_from_seed, new_envelope, decode_envelope, sender_pk, verify,
  open_text, marshal_envelope, signing_bytes, sign_sealed, open_sealed,
}

module _ (c : Crypto) (laws : CryptoLaws c) where
  abbrev Delivered : Json WireEnvelope → Bytes → Bytes → WireEnvelope → Type 0
  Delivered json key text w =
      json.unmarshal (json.marshal w) ≡ some w
      → (verify c w ≡ some true)
        × (open_text c key w ≡ some text)
        × (decode_envelope c json key (marshal_envelope c json key w) ≡ some w)

  sign_sealed-Delivered :
      (json : Json WireEnvelope) (seed name token key sealed : Bytes) (seq : ℕ) (ts : ℤ)
      (text : Bytes)
      → unseal_room c key sealed ≡ good text
      → Delivered json key text
          (sign_sealed c (new_identity_from_seed c seed) name token seq ts sealed)
  unfolding sign_sealed new_identity_from_seed verify sender_pk open_text decode_envelope
      marshal_envelope signing_bytes
  sign_sealed-Delivered json seed name token key sealed seq ts text u j = (
    rw (laws.b64dec_b64 (c.ed_public seed), laws.public_length seed)
        (rw (laws.b64dec_b64) (ap some (laws.verify_sign seed _))),
    rw (laws.b64dec_b64 sealed) (rw (u, open_sealed)),
    rw (unseal_room-seal_deterministic c laws key) j,
  )

  -- What NewEnvelope builds for an identity made from a seed carries a signature that Verify
  -- accepts and a box that Open opens to the text, and DecodeEnvelope reads back what Marshal
  -- stored, if JSON reads back this one envelope.
  pub new_envelope_delivers :
      (json : Json WireEnvelope) (seed name token key nonce : Bytes) (seq : ℕ) (ts : ℤ)
      (text : Bytes) (w : WireEnvelope)
      → length nonce ≡ nonce_len
      → new_envelope c (new_identity_from_seed c seed) name token key (some nonce) seq ts text
        ≡ good w
      → json.unmarshal (json.marshal w) ≡ some w
      → (verify c w ≡ some true)
        × (open_text c key w ≡ some text)
        × (decode_envelope c json key (marshal_envelope c json key w) ≡ some w)
  unfolding new_envelope seal_room
  new_envelope_delivers json seed name token key nonce seq ts text w n e =
      subst (Delivered json key text) (cc e) (
        sign_sealed-Delivered json seed name token key _ seq ts text
          (unseal_room-seal_room c laws key text nonce _ n refl))
