-- ===== src/Engine/Crypto.antt =====
-- internal/engine/crypto.go and identity.go. The cipher, the hash, the signature scheme and
-- base64 belong to other packages and are fields of `Crypto`; `CryptoLaws` is what their
-- documentation promises of them. A random source that fails is a missing nonce.
pub mod Boxes
use rout_wire.Base.{
  ℕ, zero, suc, ◌+◌, ◌/◌, ◌%◌, ◌<◌, ◌≡◌, Bool, true, List, [], ◌∷◌, ◌++◌, Option, none, some, ltb,
  ◌==◌, if◌then◌else◌, length, take, drop, All,
}
use rout_wire.Base.Bytes.{Bytes, bytes}

pub record Crypto : Type 0 where
  pub sha256 : Bytes → Bytes
  -- secretbox.Seal and Open: key, nonce, text
  pub box_seal : Bytes → Bytes → Bytes → Bytes
  pub box_open : Bytes → Bytes → Bytes → Option Bytes
  -- ed25519: the public key of a seed, Sign by a seed, Verify by a public key
  pub ed_public : Bytes → Bytes
  pub ed_sign : Bytes → Bytes → Bytes
  pub ed_verify : Bytes → Bytes → Bytes → Bool
  -- base64.StdEncoding
  pub b64 : Bytes → Bytes
  pub b64dec : Bytes → Option Bytes
  -- hex.DecodeString
  pub hex_decode : Bytes → Option Bytes

pub record CryptoLaws (c : Crypto) : Type 0 where
  pub sha256_length : (m : Bytes) → length (c.sha256 m) ≡ 32
  pub sha256_bytes : (m : Bytes) → All (λ b. b < 256) (c.sha256 m)
  pub open_seal : (k n m : Bytes) → c.box_open k n (c.box_seal k n m) ≡ some m
  pub seal_length : (k n m : Bytes) → length (c.box_seal k n m) ≡ length m + 16
  pub public_length : (seed : Bytes) → length (c.ed_public seed) ≡ 32
  pub sign_length : (seed m : Bytes) → length (c.ed_sign seed m) ≡ 64
  pub verify_sign : (seed m : Bytes) → c.ed_verify (c.ed_public seed) m (c.ed_sign seed m) ≡ true
  pub b64dec_b64 : (m : Bytes) → c.b64dec (c.b64 m) ≡ some m

pub data CryptoError : Type 0 where
  seal_failed unseal_failed bad_seed : CryptoError

pub data Outcome {ℓ} (A : Type ℓ) : Type ℓ where
  good : A → Outcome A
  bad : CryptoError → Outcome A

abbrev pub nonce_len : ℕ
nonce_len = 24

abbrev pub overhead_len : ℕ
overhead_len = 16

-- one digit of cut40
abbrev pub hex_digit : ℕ → ℕ
hex_digit d = if ltb d 10 then 48 + d else 87 + d

-- func cut40: the first 20 bytes in hexadecimal. The source indexes b[i]; every caller passes the
-- 32 bytes of a hash.
unfoldable pub cut40_loop : ℕ → Bytes → Bytes
cut40_loop zero b = []
cut40_loop (suc n) [] = []
cut40_loop (suc n) (x ∷ b) = hex_digit (x / 16) ∷ hex_digit (x % 16) ∷ cut40_loop n b

unfoldable pub cut40 : Bytes → Bytes
unfolding cut40_loop
cut40 b = cut40_loop 20 b

module _ (c : Crypto) where
  open c use {sha256, box_seal, box_open, hex_decode}

  -- func sealRoom, with the nonce that the random source gave
  unfoldable pub seal_room : Bytes → Option Bytes → Bytes → Outcome Bytes
  seal_room key none plaintext = bad seal_failed
  seal_room key (some nonce) plaintext = good (nonce ++ box_seal key nonce plaintext)

  or_unseal : Option Bytes → Outcome Bytes
  or_unseal none = bad unseal_failed
  or_unseal (some m) = good m

  -- func unsealRoom
  unfoldable pub unseal_room : Bytes → Bytes → Outcome Bytes
  unfolding or_unseal
  unseal_room key sealed =
      if ltb (length sealed) (nonce_len + overhead_len)
      then bad unseal_failed
      else or_unseal (box_open key (take nonce_len sealed) (drop nonce_len sealed))

  -- func SealDeterministic
  unfoldable pub seal_deterministic : Bytes → Bytes → Bytes
  seal_deterministic key plaintext =
      let nonce = take nonce_len (sha256 plaintext) in nonce ++ box_seal key nonce plaintext

  -- func DeriveRoomKey
  pub derive_room_key : Bytes → Bytes
  derive_room_key token = sha256 (bytes "stunmeshchat/v1/room" ++ 0 ∷ token)

  -- func roomKeyID
  unfoldable pub room_key_id : Bytes → Bytes
  unfolding cut40
  room_key_id token = cut40 (sha256 (bytes "stunmeshchat/v1/roomkey" ++ 0 ∷ token))

  or_bad_seed : Option Bytes → Outcome Bytes
  or_bad_seed none = bad bad_seed
  or_bad_seed (some b) = if length b == 32 then good b else bad bad_seed

  -- func ParseHexSeed, of a text that strings.TrimSpace has trimmed
  pub parse_hex_seed : Bytes → Outcome Bytes
  unfolding or_bad_seed
  parse_hex_seed trimmed = or_bad_seed (hex_decode trimmed)
