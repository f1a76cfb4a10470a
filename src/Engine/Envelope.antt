-- ===== src/Engine/Envelope.antt =====
-- internal/engine/envelope.go. encoding/json is the pair of functions `Json`; that it reads back
-- what it wrote is a hypothesis of the theorems that need it.
pub mod Signing
pub mod Delivery
use rout_wire.Base.{
  ℕ, ◌+◌, ◌≡◌, Bool, true, false, List, [], ◌∷◌, ◌++◌, Option, none, some, ◌==◌, if◌then◌else◌,
  length,
}
use rout_wire.Base.Bytes.{Bytes, bytes}
use rout_wire.Base.Int.{ℤ, pos, negsuc}
use rout_wire.Base.Decimal.{format_uint, format_int}
use rout_wire.Engine.Crypto.{Crypto, Outcome, good, bad, seal_room, unseal_room, seal_deterministic}

-- type wireEnvelope; `seq` is a uint64 and `ts` an int64
pub record WireEnvelope : Type 0 where
  pub v : ℤ
  pub kind : Bytes
  pub pk : Bytes
  pub name : Bytes
  pub seq : ℕ
  pub ts : ℤ
  pub room : Bytes
  pub box : Bytes
  pub sig : Bytes

-- json.Marshal and json.Unmarshal at a type
pub record Json {ℓ} (A : Type ℓ) : Type ℓ where
  pub marshal : A → Bytes
  pub unmarshal : Bytes → Option A

-- type Identity: the seed of the private key, and the public key
pub record Identity : Type 0 where
  pub seed : Bytes
  pub public_key : Bytes

-- func (w *wireEnvelope) SigningBytes
unfoldable pub signing_bytes : WireEnvelope → Bytes
signing_bytes w =
    w.kind
    ++ (0
        ∷ (w.pk
            ++ (0
                ∷ (w.name
                    ++ (0
                        ∷ (format_uint w.seq
                            ++ (0 ∷ (format_int w.ts ++ (0 ∷ (w.room ++ (0 ∷ w.box)))))))))))

-- func (e *Envelope) ID
unfoldable pub id : WireEnvelope → Bytes
id w = w.pk ++ (b'#' ∷ format_uint w.seq)

module _ (c : Crypto) where
  open c use {ed_public, ed_sign, ed_verify, b64, b64dec}

  -- func NewIdentityFromSeed
  unfoldable pub new_identity_from_seed : Bytes → Identity
  new_identity_from_seed seed = record { seed = seed; public_key = ed_public seed }

  -- func (i *Identity) PublicString
  unfoldable pub public_string : Identity → Bytes
  public_string me = b64 me.public_key

  with_signature : Identity → WireEnvelope → WireEnvelope
  with_signature me w = record w { sig = b64 (ed_sign me.seed (signing_bytes w)) }

  -- The envelope of NewEnvelope around a box that was sealed.
  unfoldable pub sign_sealed : Identity → Bytes → Bytes → ℕ → ℤ → Bytes → WireEnvelope
  unfolding with_signature public_string
  sign_sealed me name room seq ts sealed = with_signature me (record {
    v = pos 1;
    kind = bytes "chat";
    pk = public_string me;
    name = name;
    seq = seq;
    ts = ts;
    room = room;
    box = b64 sealed;
    sig = [];
  })

  -- func NewEnvelope
  unfoldable pub new_envelope :
      Identity → Bytes → Bytes → Bytes → Option Bytes → ℕ → ℤ → Bytes → Outcome WireEnvelope
  new_envelope me name room_token room_key nonce seq ts text =
      elim (seal_room c room_key nonce text) [
        | bad e ↦ bad e
        | good sealed ↦ good (sign_sealed me name room_token seq ts sealed)
      ]

  parse_plain : Json WireEnvelope → Outcome Bytes → Option WireEnvelope
  parse_plain json (bad e) = none
  parse_plain json (good plain) = json.unmarshal plain

  -- func DecodeEnvelope, where every error is `none`
  unfoldable pub decode_envelope : Json WireEnvelope → Bytes → Bytes → Option WireEnvelope
  unfolding parse_plain
  decode_envelope json room_key raw = parse_plain json (unseal_room c room_key raw)

  sized_key : Option Bytes → Option Bytes
  sized_key none = none
  sized_key (some b) = if length b == 32 then some b else none

  -- func (e *Envelope) SenderPK
  unfoldable pub sender_pk : WireEnvelope → Option Bytes
  unfolding sized_key
  sender_pk w = sized_key (b64dec w.pk)

  verify_with : WireEnvelope → Option Bytes → Option Bytes → Option Bool
  verify_with w none sig = none
  verify_with w (some pk) none = none
  verify_with w (some pk) (some sig) = some (ed_verify pk (signing_bytes w) sig)

  -- func (e *Envelope) Verify, where every error is `none`
  unfoldable pub verify : WireEnvelope → Option Bool
  unfolding verify_with
  verify w = verify_with w (sender_pk w) (b64dec w.sig)

  open_sealed : Bytes → Option Bytes → Option Bytes
  open_sealed room_key none = none
  open_sealed room_key (some sealed) = elim (unseal_room c room_key sealed) [
    | good plain ↦ some plain
    | bad e ↦ none
  ]

  -- func (e *Envelope) Open, where every error is `none`
  unfoldable pub open_text : Bytes → WireEnvelope → Option Bytes
  unfolding open_sealed
  open_text room_key w = open_sealed room_key (b64dec w.box)

  -- func (e *Envelope) Marshal
  unfoldable pub marshal_envelope : Json WireEnvelope → Bytes → WireEnvelope → Bytes
  marshal_envelope json room_key w = seal_deterministic c room_key (json.marshal w)
