-- ===== src/Mesh/Deriver/Normal.antt =====
-- Which names ValidateName accepts.
use rout_wire.Base.{ℕ, ◌≤◌, ◌≡◌, refl, ◌⊎◌, ◌↔◌, [], ◌∷◌, none, some, arith, length, All, true}
use rout_wire.Base.Bytes.{Bytes}
use rout_wire.Mesh.Deriver.{bad_length, all_name_bytes, validate_name}

-- A digit, a lower-case letter or a dash.
abbrev pub IsNameByte : ℕ → Type 0
IsNameByte c = ((48 ≤ c) × (c ≤ 57)) ⊎ ((97 ≤ c) × (c ≤ 122)) ⊎ (c ≡ 45)

IsNameByte-of_test : (s : Bytes) → all_name_bytes s ≡ true → All IsNameByte s
unfolding all_name_bytes
IsNameByte-of_test [] h = tt
IsNameByte-of_test (c ∷ s) h = (ground arith, IsNameByte-of_test s (ground arith))

test_of_IsNameByte : (s : Bytes) → All IsNameByte s → all_name_bytes s ≡ true
unfolding all_name_bytes
test_of_IsNameByte [] h = refl
test_of_IsNameByte (c ∷ s) h = ground (arith, test_of_IsNameByte s h.1)

-- ValidateName accepts exactly the names of 1 to 32 bytes that are digits, lower-case letters and
-- dashes, and of the others it tells a bad length first.
pub validate_name_iff :
    (name : Bytes)
    → ((validate_name name ≡ none) ↔ ((1 ≤ length name) × (length name ≤ 32) × All IsNameByte name))
      × ((validate_name name ≡ some bad_length) ↔ ((length name ≡ 0) ⊎ (33 ≤ length name)))
unfolding validate_name
validate_name_iff name = (
  (
    λ h. (ground arith, ground arith, IsNameByte-of_test name (ground arith)),
    λ h. ground (arith, test_of_IsNameByte name h.2),
  ),
  (λ h. ground arith, λ h. ground arith),
)
