-- ===== src/Engine/Window/Newest.antt =====
-- The rolling window holds the newest messages, oldest first.
use rout_wire.Base.{
  ℕ, ◌<◌, ◌⊎◌, inl, inr, ap, ◌≤◌, ◌≡◌, true, false, List, [], ◌++◌, Permᴰ, arith, All, length, drop,
  length-take-le, length-take_of_le, take-append-drop, Ordered-split, drop_all, length-perm,
}
use rout_wire.Base.Sort.{stable_sort, IsSorted, stable_sort-perm, stable_sort-IsSorted}
use rout_wire.Base.Int.{ltb_ℤ, pos_part, neg_part}
use rout_wire.Engine.Envelope.{WireEnvelope}
use rout_wire.Engine.Window.{older, newer, sort_window, keep_top, sort_ascending}

newer_asym : (a b : WireEnvelope) → newer a b ≡ true → newer b a ≡ false
unfolding newer
newer_asym a b h = ground arith

newer_trans : (a b c : WireEnvelope) → newer b a ≡ false → newer c b ≡ false → newer c a ≡ false
unfolding newer
newer_trans a b c h k = ground arith

older_asym : (a b : WireEnvelope) → older a b ≡ true → older b a ≡ false
unfolding older
older_asym a b h = ground arith

older_trans : (a b c : WireEnvelope) → older b a ≡ false → older c b ≡ false → older c a ≡ false
unfolding older
older_trans a b c h k = ground arith

-- keepTop keeps n envelopes, or all of them if there are no more than n; those kept and those
-- dropped make up the given ones, and none that was dropped is newer than one that was kept.
pub keep_top-newest :
    (envs : List WireEnvelope) (n : ℕ)
    → (dropped : List WireEnvelope) × Permᴰ envs (keep_top envs n ++ dropped)
      × (length (keep_top envs n) ≤ n)
      × (length envs ≤ n → dropped ≡ [])
      × (n ≤ length envs → length (keep_top envs n) ≡ n)
      × All (λ a. All (λ b. newer b a ≡ false) dropped) (keep_top envs n)
unfolding keep_top sort_window
keep_top-newest envs n = (
  drop n (stable_sort newer envs),
  rw (take-append-drop n (stable_sort newer envs)) (stable_sort-perm newer envs),
  length-take-le n (stable_sort newer envs),
  λ h.
      drop_all n (stable_sort newer envs)
        (omega (arith, length-perm (stable_sort-perm newer envs))),
  λ h.
      length-take_of_le n (stable_sort newer envs)
        (omega (arith, length-perm (stable_sort-perm newer envs))),
  Ordered-split _ n (stable_sort newer envs)
      (stable_sort-IsSorted newer newer_asym newer_trans envs),
)

-- sortAscending permutes, and leaves no later envelope older than an earlier one.
pub sort_ascending-IsSorted :
    (envs : List WireEnvelope)
    → Permᴰ envs (sort_ascending envs) × IsSorted older (sort_ascending envs)
unfolding sort_ascending
sort_ascending-IsSorted envs =
    (stable_sort-perm older envs, stable_sort-IsSorted older older_asym older_trans envs)

-- By the time of the sender, and by the sequence number at the same time.
abbrev pub IsEarlier : WireEnvelope → WireEnvelope → Type 0
IsEarlier a b = (ltb_ℤ a.ts b.ts ≡ true) ⊎ ((a.ts ≡ b.ts) × (a.seq < b.seq))

pub older-IsEarlier : (a b : WireEnvelope) → older a b ≡ false → ¬ IsEarlier a b
unfolding older
older-IsEarlier a b h (inl less) = ground arith
older-IsEarlier a b h (inr (same, less)) = ground (arith, ap pos_part same, ap neg_part same)

pub newer-IsEarlier : (a b : WireEnvelope) → newer a b ≡ false → ¬ IsEarlier b a
unfolding newer
newer-IsEarlier a b h (inl less) = ground arith
newer-IsEarlier a b h (inr (same, less)) = ground (arith, ap pos_part same, ap neg_part same)
