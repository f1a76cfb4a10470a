-- ===== src/Cmd/Args/Names.antt =====
-- The name of a node that is given none.
use rout_wire.Base.{
  ℕ, ◌≡◌, refl, inl, inr, true, false, [], ◌∷◌, some, if◌then◌else◌, Bool-cases, All, map,
}
use rout_wire.Base.Bytes.{Bytes, bytes}
use rout_wire.Base.Text.{is_empty, lower}
use rout_wire.Cmd.Args.{is_kept, kept_bytes, default_name}

kept_bytes-kept : (cs : Bytes) → All (λ c. is_kept c ≡ true) (kept_bytes cs)
unfolding kept_bytes
kept_bytes-kept [] = tt
kept_bytes-kept (c ∷ cs) = elim (Bool-cases (is_kept c)) [
  | inl e ↦ rw e (e, kept_bytes-kept cs)
  | inr e ↦ rw e (kept_bytes-kept cs)
]

-- The default name of a node with a host name has only bytes that a node's name may have, and at
-- least one.
pub default_name-kept :
    (host : Bytes) (pid : ℕ)
    → All (λ c. is_kept c ≡ true) (default_name (some host) pid)
      × (is_empty (default_name (some host) pid) ≡ false)
unfolding default_name
default_name-kept host pid = go (kept_bytes (map lower host)) (kept_bytes-kept (map lower host))
  where
    go :
        (n : Bytes)
        → All (λ c. is_kept c ≡ true) n
        → All (λ c. is_kept c ≡ true) (if is_empty n then bytes "node" else n)
          × (is_empty (if is_empty n then bytes "node" else n) ≡ false)
    go [] kept = ((refl, (refl, (refl, (refl, tt)))), refl)
    go (c ∷ n) kept = (kept, refl)
