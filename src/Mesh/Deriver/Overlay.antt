-- ===== src/Mesh/Deriver/Overlay.antt =====
-- Overlay addresses lie in the overlay network, and the roster's key is one the proxies accept.
use Prim.Native.Nat.{bit_and, bit_or}
use native.Mathlib.Nat.{
  pow-le-pow_right, one-le-pow, pow-suc, add-suc, div-add-mod', add-mul-div_right, mul-div_cancel,
  add_comm, div-eq_of_lt,
}
use native.Mathlib.Numerals.{unary_clauses}
use native.Mathlib.Decide.{dec_lt}
use rout_wire.Base.{
  ℕ, zero, suc, ◌+◌, ◌-◌, ◌*◌, ◌/◌, ◌%◌, ◌^◌, ◌≤◌, ◌<◌, ◌≡◌, ap, sym, subst, ◌∙◌, some, arith,
  length, All,
}
use rout_wire.Base.Bytes.{Bytes}
use rout_wire.Base.Bits.{bit_or-fields, bit_and-mask}
use rout_wire.Engine.Crypto.{CryptoLaws}
use rout_wire.Engine.Crypto.Boxes.{IsHexDigit, cut40_shape}
use rout_wire.Mesh.Deriver.{
  Derivation, Deriver, Cidr, Checked, valid, bad_name, bad_cidr, be32, host_mask, overlay_at,
  overlay_of_key, node_wg_key, overlay_ip, roster_key,
}

-- For a prefix of at most 30 bits the mask holds the host bits.
host_mask_lem : (ones : ℕ) → host_mask ones ≡ 2 ^ (32 - ones) - 1
host_mask_lem ones = omega (
  arith,
  pow-le-pow_right {n = 2} (omega arith) {i = 32 - ones} {j = 32} (omega arith),
  one-le-pow (32 - ones) 2,
)

-- A network address: four bytes with no host bit set.
abbrev pub IsNetwork : ℕ → ℕ → Type 0
IsNetwork base ones = (base < 2 ^ 32) × (base % 2 ^ (32 - ones) ≡ 0)

two_pow_add : (a k : ℕ) → 2 ^ a * 2 ^ k ≡ 2 ^ (a + k)
two_pow_add a zero = simp unary_clauses (omega arith)
two_pow_add a (suc k) = omega (
  arith,
  pow-suc 2 k,
  pow-suc 2 (a + k),
  two_pow_add a k,
  ap (λ (t : ℕ). 2 ^ a * t) (pow-suc 2 k),
  ap (λ (t : ℕ). 2 ^ t) (add-suc a k),
)

div_field : (P q r : ℕ) → r < P → (q * P + r) / P ≡ q
div_field P q r h =
    rw (add_comm (q * P) r)
      (rw (add-mul-div_right r q {z = P} (omega arith)) (omega (arith, div-eq_of_lt h)))

below_whole : (A P q r : ℕ) → q * P < A * P → r < P → q * P + r < A * P
below_whole A P q r h k = elim (dec_lt q A) [ yes lt ↦ grind arith | no ge ↦ absurd (grind arith) ]

-- Host bits put under a network address.
abbrev Placed : ℕ → ℕ → ℕ → Type 0
Placed base k ip = (ip / 2 ^ k ≡ base / 2 ^ k) × (base ≤ ip) × (ip < 2 ^ 32)

place_host :
    (base k host : ℕ)
    → k ≤ 32
    → base < 2 ^ 32
    → base % 2 ^ k ≡ 0
    → host < 2 ^ k
    → Placed base k (bit_or base host)
place_host base k host le n z h =
    let q = base / 2 ^ k in
    let e : base ≡ q * 2 ^ k = omega (arith, div-add-mod' base (2 ^ k)) in
    let w : 2 ^ (32 - k) * 2 ^ k ≡ 2 ^ 32 =
      two_pow_add (32 - k) k ∙ ap (λ (t : ℕ). 2 ^ t) {y = 32} (omega arith) in
    rw (e, bit_or-fields k q host h)
      (
        div_field (2 ^ k) q host h ∙ sym (mul-div_cancel q (omega (arith, one-le-pow k 2))),
        omega arith,
        omega (arith, w, below_whole (2 ^ (32 - k)) (2 ^ k) q host (omega (arith, w)) h),
      )

module _ (sum : Bytes) (cidr : Cidr) (base ip : ℕ) where
  overlay_at-checks :
      overlay_at sum cidr (some base) ≡ valid ip
      → (cidr.ones ≤ 30)
        × (cidr.bits ≡ 32)
        × (ip ≡ bit_or base (bit_and (be32 sum) (host_mask cidr.ones)))
  unfolding overlay_at
  overlay_at-checks h = (ground arith, ground arith, ground arith)

module _ (x : Derivation) (d : Deriver) (name : Bytes) (cidr : Cidr) (base ip : ℕ) where
  overlay_of_key-at :
      (k : Checked Bytes)
      → cidr.base ≡ some base
      → overlay_of_key x cidr k ≡ valid ip
      → (sum : Bytes) × (overlay_at sum cidr (some base) ≡ valid ip)
  unfolding overlay_of_key
  overlay_of_key-at (valid key) e h = (x.crypto.sha256 key, rw e at h)
  overlay_of_key-at (bad_name c) e h = cc
  overlay_of_key-at bad_cidr e h = cc

  -- In a network whose address has no host bit set, as net.ParseCIDR returns it, OverlayIP gives
  -- an address of four bytes whose network bits are the network's: the address plus a number of
  -- the host bits' size. The prefix has at most 30 bits and the network is IPv4.
  pub overlay_ip-in_network :
      cidr.base ≡ some base
      → IsNetwork base cidr.ones
      → overlay_ip x d name cidr ≡ valid ip
      → (ip / 2 ^ (32 - cidr.ones) ≡ base / 2 ^ (32 - cidr.ones))
        × (base ≤ ip)
        × (ip < 2 ^ 32)
        × (cidr.ones ≤ 30)
        × (cidr.bits ≡ 32)
  unfolding overlay_ip
  overlay_ip-in_network e n h =
      let (sum, at) = overlay_of_key-at (node_wg_key x d name) e h in
      let checks = overlay_at-checks sum cidr base ip at in
      let mask =
        ap (bit_and (be32 sum)) (host_mask_lem cidr.ones)
        ∙ bit_and-mask (32 - cidr.ones) (be32 sum) in
      let placed =
        place_host base (32 - cidr.ones) (be32 sum % 2 ^ (32 - cidr.ones)) (omega arith) n.0 n.1
          (omega (arith, one-le-pow (32 - cidr.ones) 2)) in
      let here =
        subst (Placed base (32 - cidr.ones)) (sym (checks.2 ∙ ap (bit_or base) mask)) placed in
      (here.0, here.1, here.2, checks.0, checks.1)

-- The roster's key is 40 hexadecimal digits, whatever the PSK.
pub roster_key_shape :
    (x : Derivation) (d : Deriver)
    → CryptoLaws x.crypto
    → (length (roster_key x d) ≡ 40) × All IsHexDigit (roster_key x d)
unfolding roster_key
roster_key_shape x d laws = cut40_shape _ (laws.sha256_length _) (laws.sha256_bytes _)
