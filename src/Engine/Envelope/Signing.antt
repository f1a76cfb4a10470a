-- ===== src/Engine/Envelope/Signing.antt =====
-- What the signature of an envelope binds.
use rout_wire.Base.{ℕ, ◌≡◌, refl, sym, ◌≢◌, [], ◌∷◌, ◌++◌, arith, All, ◌≤◌, All-mono}
use mathlib.Core.List.{append_assoc, tail-eq_of_cons-eq, head-eq_of_cons-eq}
use rout_wire.Base.Bytes.{Bytes}
use rout_wire.Base.Int.{pos}
use rout_wire.Base.Decimal.{
  format_uint, format_int, format_uint-injective, format_int-injective, format_int-IsMark,
  format_uint-IsMark,
}
use rout_wire.Engine.Envelope.{WireEnvelope, signing_bytes, id}

abbrev pub Avoids : ℕ → Bytes → Type 0
Avoids sep = All (λ b. b ≢ sep)

-- No byte is NUL.
abbrev pub IsNulFree : Bytes → Type 0
IsNulFree = Avoids 0

-- A text up to a separator is determined by the whole.
split_at :
    (sep : ℕ) (a b x y : Bytes)
    → Avoids sep a
    → Avoids sep b
    → a ++ (sep ∷ x) ≡ b ++ (sep ∷ y)
    → (a ≡ b) × (x ≡ y)
split_at sep [] [] x y h k e = (refl, tail-eq_of_cons-eq e)
split_at sep [] (c ∷ b) x y h k e = absurd (k.0 (sym (head-eq_of_cons-eq e)))
split_at sep (c ∷ a) [] x y h k e = absurd (h.0 (head-eq_of_cons-eq e))
split_at sep (c ∷ a) (d ∷ b) x y h k e =
    let rest = split_at sep a b x y h.1 k.1 (tail-eq_of_cons-eq e) in
    (cc (head-eq_of_cons-eq e, rest.0), rest.1)

split_at_nul :
    (a b x y : Bytes) → IsNulFree a → IsNulFree b → a ++ (0 ∷ x) ≡ b ++ (0 ∷ y) → (a ≡ b) × (x ≡ y)
split_at_nul = split_at 0

abbrev pub HasNulFreeTexts : WireEnvelope → Type 0
HasNulFreeTexts w = IsNulFree w.kind × IsNulFree w.pk × IsNulFree w.name × IsNulFree w.room

marks-IsNulFree : (s : Bytes) → All (λ c. 45 ≤ c) s → IsNulFree s
marks-IsNulFree s = All-mono (λ c k. omega arith) s

-- The signed bytes of two envelopes are equal only if all the signed fields are, provided that
-- kind, key, name and room hold no NUL byte. (The box may hold any.)
pub signing_bytes-injective :
    (w u : WireEnvelope)
    → HasNulFreeTexts w
    → HasNulFreeTexts u
    → signing_bytes w ≡ signing_bytes u
    → (w.kind ≡ u.kind)
      × (w.pk ≡ u.pk)
      × (w.name ≡ u.name)
      × (w.seq ≡ u.seq)
      × (w.ts ≡ u.ts)
      × (w.room ≡ u.room)
      × (w.box ≡ u.box)
unfolding signing_bytes
signing_bytes-injective w u h k e =
    let s1 = split_at_nul w.kind u.kind _ _ h.0 k.0 e in
    let s2 = split_at_nul w.pk u.pk _ _ h.1 k.1 s1.1 in
    let s3 = split_at_nul w.name u.name _ _ h.2 k.2 s2.1 in
    let s4 =
      split_at_nul (format_uint w.seq) (format_uint u.seq) _ _
        (marks-IsNulFree (format_uint w.seq) (format_uint-IsMark w.seq))
        (marks-IsNulFree (format_uint u.seq) (format_uint-IsMark u.seq)) s3.1 in
    let s5 =
      split_at_nul (format_int w.ts) (format_int u.ts) _ _
        (marks-IsNulFree (format_int w.ts) (format_int-IsMark w.ts))
        (marks-IsNulFree (format_int u.ts) (format_int-IsMark u.ts)) s4.1 in
    let s6 = split_at_nul w.room u.room _ _ h.3 k.3 s5.1 in
    (
      s1.0,
      s2.0,
      s3.0,
      format_uint-injective w.seq u.seq s4.0,
      format_int-injective w.ts u.ts s5.0,
      s6.0,
      s6.1,
    )

-- Without that proviso the split between name, sequence number, time and room is not signed: for
-- every name a that is followed by NUL and a printed number q, the same bytes are signed for the
-- name a with the sequence number q, the old number as time, and the time moved into the room.
pub signing_bytes_shift :
    (w : WireEnvelope) (a : Bytes) (q : ℕ)
    → w.name ≡ a ++ (0 ∷ format_uint q)
    → signing_bytes
        (record w { name = a; seq = q; ts = pos w.seq; room = format_int w.ts ++ (0 ∷ w.room) })
      ≡ signing_bytes w
unfolding signing_bytes format_int
signing_bytes_shift w a q e = rw e (simp append_assoc)

-- The id of an envelope determines the sender's key and the sequence number, if no key holds '#'.
pub id-injective :
    (w u : WireEnvelope)
    → All (λ b. b ≢ 35) w.pk
    → All (λ b. b ≢ 35) u.pk
    → id w ≡ id u
    → (w.pk ≡ u.pk) × (w.seq ≡ u.seq)
unfolding id
id-injective w u h k e =
    let s = split_at 35 w.pk u.pk _ _ h k e in (s.0, format_uint-injective w.seq u.seq s.1)
