-- ===== src/Engine/Crypto/Boxes.antt =====
-- Sealed boxes open to what was sealed, and room keys are keys that the proxies accept.
use rout_wire.Base.{
  ℕ, zero, suc, ◌+◌, Bool-cases, Option, none, ltb, inl, inr, length-take_of_le, ◌≤◌, ◌<◌, ◌≡◌,
  refl, ap, List, [], ◌∷◌, ◌++◌, some, arith, length, take, drop, length-append, All, ◌*◌, ◌/◌, ◌%◌,
  ◌⊎◌,
}
use rout_wire.Base.Bytes.{Bytes}
use rout_wire.Engine.Crypto.{
  Crypto, CryptoLaws, good, or_unseal, overhead_len, nonce_len, cut40_loop, cut40, seal_room,
  unseal_room, seal_deterministic, hex_digit,
}

take-append {ℓ} : {A : Type ℓ} (n : ℕ) (xs ys : List A) → length xs ≡ n → take n (xs ++ ys) ≡ xs
take-append zero [] ys h = refl
take-append (suc n) [] ys h = absurd (omega arith)
take-append zero (x ∷ xs) ys h = absurd (omega arith)
take-append (suc n) (x ∷ xs) ys h = ap (◌∷◌ x) (take-append n xs ys (omega arith))

drop-append {ℓ} : {A : Type ℓ} (n : ℕ) (xs ys : List A) → length xs ≡ n → drop n (xs ++ ys) ≡ ys
drop-append zero [] ys h = refl
drop-append (suc n) [] ys h = absurd (omega arith)
drop-append zero (x ∷ xs) ys h = absurd (omega arith)
drop-append (suc n) (x ∷ xs) ys h = drop-append n xs ys (omega arith)

module _ (c : Crypto) (laws : CryptoLaws c) (key plain : Bytes) where
  unseal-box :
      (nonce : Bytes)
      → length nonce ≡ nonce_len
      → unseal_room c key (nonce ++ c.box_seal key nonce plain) ≡ good plain
  unfolding unseal_room
  unseal-box nonce h =
      rw
        (
          take-append 24 nonce (c.box_seal key nonce plain) h,
          drop-append 24 nonce (c.box_seal key nonce plain) h,
          laws.open_seal key nonce plain,
        )
        (ground (
          arith,
          length-append nonce (c.box_seal key nonce plain),
          laws.seal_length key nonce plain,
        ))

  -- What sealRoom seals under any 24-byte nonce, unsealRoom opens with the same key.
  pub unseal_room-seal_room :
      (nonce sealed : Bytes)
      → length nonce ≡ nonce_len
      → seal_room c key (some nonce) plain ≡ good sealed
      → unseal_room c key sealed ≡ good plain
  unfolding seal_room
  unseal_room-seal_room nonce sealed h e = cc (unseal-box nonce h)

  -- What SealDeterministic seals, unsealRoom opens with the same key.
  pub unseal_room-seal_deterministic :
      unseal_room c key (seal_deterministic c key plain) ≡ good plain
  unfolding seal_deterministic
  unseal_room-seal_deterministic =
      unseal-box (take nonce_len (c.sha256 plain))
        (length-take_of_le nonce_len (c.sha256 plain) (omega (arith, laws.sha256_length plain)))

-- The digits that a lower-case hexadecimal text consists of.
abbrev pub IsHexDigit : ℕ → Type 0
IsHexDigit d = ((48 ≤ d) × (d ≤ 57)) ⊎ ((97 ≤ d) × (d ≤ 102))

hex_digit-IsHexDigit : (d : ℕ) → d < 16 → IsHexDigit (hex_digit d)
hex_digit-IsHexDigit d h = ground arith

cut40_loop-IsHexDigit : (n : ℕ) (b : Bytes) → All (λ x. x < 256) b → All IsHexDigit (cut40_loop n b)
unfolding cut40_loop
cut40_loop-IsHexDigit zero b h = tt
cut40_loop-IsHexDigit (suc n) [] h = tt
cut40_loop-IsHexDigit (suc n) (x ∷ b) h = (
  hex_digit-IsHexDigit (x / 16) (omega arith),
  (hex_digit-IsHexDigit (x % 16) (omega arith), cut40_loop-IsHexDigit n b h.1),
)

length-cut40_loop : (n : ℕ) (b : Bytes) → n ≤ length b → length (cut40_loop n b) ≡ 2 * n
unfolding cut40_loop
length-cut40_loop zero b h = refl
length-cut40_loop (suc n) [] h = absurd (omega arith)
length-cut40_loop (suc n) (x ∷ b) h = omega (arith, length-cut40_loop n b (omega arith))

-- cut40 of a 32-byte hash is 40 lower-case hexadecimal digits.
pub cut40_shape :
    (b : Bytes)
    → length b ≡ 32
    → All (λ x. x < 256) b
    → (length (cut40 b) ≡ 40) × All IsHexDigit (cut40 b)
unfolding cut40
cut40_shape b h bs = (length-cut40_loop 20 b (omega arith), cut40_loop-IsHexDigit 20 b bs)

-- The value is a nonce and, behind it, a box that the key opens to the text.
abbrev pub IsSealed : Crypto → Bytes → Bytes → Bytes → Type 0
IsSealed c key plain v =
    (nonce_len + overhead_len ≤ length v)
    × (c.box_open key (take nonce_len v) (drop nonce_len v) ≡ some plain)

or_unseal-good :
    (c : Crypto) (o : Option Bytes) (plain : Bytes) → or_unseal c o ≡ good plain → o ≡ some plain
unfolding or_unseal
or_unseal-good c none plain h = cc
or_unseal-good c (some m) plain h = cc

pub unseal_room-IsSealed :
    (c : Crypto) (key plain v : Bytes) → unseal_room c key v ≡ good plain → IsSealed c key plain v
unfolding unseal_room
unseal_room-IsSealed c key plain v h =
    elim (Bool-cases (ltb (length v) (nonce_len + overhead_len))) [
      | inl short ↦ (let e = rw short at h in absurd (cc))
      | inr long ↦ (ground arith, or_unseal-good c _ plain (rw long at h))
    ]
