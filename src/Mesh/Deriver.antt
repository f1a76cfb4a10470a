-- ===== src/Mesh/Deriver.antt =====
-- internal/mesh/crypto.go: everything is derived from the PSK and a name. HKDF, the WireGuard key
-- arithmetic and the hash are `Derivation`; of an address the four bytes are one number below
-- 2 ^ 32, and of a mask its `ones` and `bits`.
pub mod Normal
pub mod Overlay
pub mod Identities
use Prim.Native.Nat.{bit_and, bit_or}
use rout_wire.Base.{
  ℕ, suc, ◌+◌, ◌-◌, ◌*◌, ◌%◌, ◌^◌, ◌≡◌, Bool, true, false, not, ◌&&◌, ◌||◌, List, [], ◌∷◌, ◌++◌,
  Option, none, some, ltb, leb, ◌==◌, if◌then◌else◌, length,
}
use rout_wire.Base.Bytes.{Bytes, bytes}
use rout_wire.Base.Text.{to_lower, trim_space}
use rout_wire.Engine.Crypto.{Crypto, cut40}
use rout_wire.Engine.Envelope.{Identity, new_identity_from_seed}

-- hkdf.New with a salt and an info, read to n bytes; wgtypes.NewKey and PublicKey of 32 bytes
pub record Derivation : Type 0 where
  pub crypto : Crypto
  pub hkdf : Bytes → Bytes → Bytes → ℕ → Bytes
  pub clamp : Bytes → Bytes
  pub wg_public : Bytes → Bytes

-- type Deriver
pub record Deriver : Type 0 where
  pub psk : Bytes

pub data NameError : Type 0 where
  bad_length bad_character : NameError

pub data Checked {ℓ} (A : Type ℓ) : Type ℓ where
  valid : A → Checked A
  bad_name : NameError → Checked A
  bad_cidr : Checked A

abbrev pub is_name_byte : ℕ → Bool
is_name_byte c = leb b'a' c && leb c b'z' || (leb b'0' c && leb c b'9' || c == b'-')

all_name_bytes : Bytes → Bool
all_name_bytes [] = true
all_name_bytes (c ∷ s) = if is_name_byte c then all_name_bytes s else false

-- func ValidateName: nothing if the name is valid
unfoldable pub validate_name : Bytes → Option NameError
unfolding all_name_bytes
validate_name name =
    if ltb (length name) 1 || ltb 32 (length name)
    then some bad_length
    else if all_name_bytes name
    then none
    else some bad_character

-- func NormalizeName
unfoldable pub normalize_name : Bytes → Bytes
normalize_name name = to_lower (trim_space name)

-- The overlay network: *net.IPNet. `base` is none where IP.To4 is nil.
pub record Cidr : Type 0 where
  pub base : Option ℕ
  pub ones : ℕ
  pub bits : ℕ

-- binary.BigEndian.Uint32 of the first four bytes
unfoldable pub be32 : Bytes → ℕ
be32 (a ∷ b ∷ c ∷ d ∷ rest) = a * 2 ^ 24 + b * 2 ^ 16 + c * 2 ^ 8 + d
be32 _ = 0

-- uint32(1)<<(32-ones) - 1, on 32 bits
abbrev pub host_mask : ℕ → ℕ
host_mask ones = (2 ^ (32 - ones) % 2 ^ 32 + 2 ^ 32 - 1) % 2 ^ 32

overlay_at : Bytes → Cidr → Option ℕ → Checked ℕ
overlay_at sum cidr none = bad_cidr
overlay_at sum cidr (some base) =
    if not (cidr.bits == 32) || ltb 30 cidr.ones
    then bad_cidr
    else valid (bit_or base (bit_and (be32 sum) (host_mask cidr.ones)))

module _ (x : Derivation) where
  abbrev domain : Bytes
  domain = bytes "routewire/v1"

  -- func (d *Deriver) derive
  unfoldable pub derive : Deriver → Bytes → ℕ → Bytes
  derive d info n = x.hkdf d.psk (domain ++ bytes "/salt") info n

  checked {ℓ} : {A : Type ℓ} → Option NameError → A → Checked A
  checked none a = valid a
  checked (some e) a = bad_name e

  -- func (d *Deriver) NodeWGKey
  unfoldable pub node_wg_key : Deriver → Bytes → Checked Bytes
  unfolding checked derive
  node_wg_key d name =
      let name = normalize_name name in
      checked (validate_name name) (x.clamp (derive d (bytes "wg/" ++ name) 32))

  map_checked : (Bytes → Bytes) → Checked Bytes → Checked Bytes
  map_checked f (valid a) = valid (f a)
  map_checked f (bad_name e) = bad_name e
  map_checked f bad_cidr = bad_cidr

  -- func (d *Deriver) NodeWGPubKey
  unfoldable pub node_wg_pub_key : Deriver → Bytes → Checked Bytes
  unfolding map_checked node_wg_key
  node_wg_pub_key d name = map_checked x.wg_public (node_wg_key d name)

  -- func (d *Deriver) NodeIdentity
  unfoldable pub node_identity : Deriver → Bytes → Checked Identity
  unfolding checked derive
  node_identity d name =
      let name = normalize_name name in
      checked (validate_name name)
        (new_identity_from_seed x.crypto (derive d (bytes "id/" ++ name) 32))

  abbrev zero_key : Bytes
  zero_key =
      0 ∷ 0 ∷ 0 ∷ 0 ∷ 0 ∷ 0 ∷ 0 ∷ 0 ∷ 0 ∷ 0 ∷ 0 ∷ 0 ∷ 0 ∷ 0 ∷ 0 ∷ 0 ∷ 0 ∷ 0 ∷ 0 ∷ 0 ∷ 0 ∷ 0 ∷ 0 ∷ 0
      ∷ 0 ∷ 0 ∷ 0 ∷ 0 ∷ 0 ∷ 0 ∷ 0 ∷ 0 ∷ []

  or_zero : Checked Identity → Bytes
  or_zero (valid i) = i.public_key
  or_zero (bad_name e) = zero_key
  or_zero bad_cidr = zero_key

  -- func (d *Deriver) PublicKeyOf
  unfoldable pub public_key_of : Deriver → Bytes → Bytes
  unfolding or_zero node_identity
  public_key_of d name = or_zero (node_identity d name)

  -- func (d *Deriver) keyID, whose cutHex40 is the cut40 of the engine
  key_id : Deriver → Bytes → Bytes → Bytes
  unfolding cut40
  key_id d kind arg = cut40 (x.crypto.sha256 (domain ++ (b'/' ∷ kind ++ (0 ∷ d.psk ++ (0 ∷ arg)))))

  -- func (d *Deriver) RosterKey
  unfoldable pub roster_key : Deriver → Bytes
  unfolding key_id
  roster_key d = key_id d (bytes "roster") []

  -- func (d *Deriver) RosterBoxKey
  pub roster_box_key : Deriver → Bytes
  roster_box_key d = derive d (bytes "mesh/box") 32

  overlay_of_key : Cidr → Checked Bytes → Checked ℕ
  unfolding overlay_at
  overlay_of_key cidr (valid key) = overlay_at (x.crypto.sha256 key) cidr cidr.base
  overlay_of_key cidr (bad_name e) = bad_name e
  overlay_of_key cidr bad_cidr = bad_cidr

  -- func (d *Deriver) OverlayIP
  unfoldable pub overlay_ip : Deriver → Bytes → Cidr → Checked ℕ
  unfolding overlay_of_key node_wg_key
  overlay_ip d name cidr = overlay_of_key cidr (node_wg_key d name)
