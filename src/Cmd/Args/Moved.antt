-- ===== src/Cmd/Args/Moved.antt =====
-- What expandSubcommand does to the arguments.
use rout_wire.Base.{
  ◌≡◌, refl, sym, ap, ◌∙◌, ◌⊎◌, ◌↔◌, inl, inr, true, false, ◌==◌, arith, List, [], ◌∷◌, ◌++◌, Memᴰ,
  Option, none, some, Option-cases, Bool-cases,
}
use mathlib.Core.List.{append_assoc, append-nil}
use rout_wire.Base.Bytes.{Bytes, bytes_eq, has_prefix}
use rout_wire.Base.Map.{HasUniqueKeys, mem_of_any, any_of_mem, mem_of_lookup, lookup_of_mem}
use rout_wire.Base.Text.{contains, trim_left}
use rout_wire.Cmd.Args.{
  dash, subcommand_flags, value_flags, takes_value, value_of_last, subcommand_at, moved,
  expand_from, expand_subcommand,
}

-- The last of some arguments, or `prev` if there are none.
abbrev pub last_of : Option Bytes → List Bytes → Option Bytes
last_of prev [] = prev
last_of prev (a ∷ args) = last_of (some a) args

-- A flag that takes the argument after it: dashes and one of the value flags, without a value of its
-- own.
abbrev pub IsValueFlag : Option Bytes → Type 0
IsValueFlag none = ⊥
IsValueFlag (some prev) =
    (has_prefix dash prev ≡ true)
    × (contains (b'=' ∷ []) prev ≡ false)
    × Memᴰ (trim_left (λ c. c == b'-') prev) value_flags

-- An argument is no subcommand after the one before it: it starts with a dash, or it is the value of
-- a flag, or it is no word of the table.
abbrev pub IsPlain : Option Bytes → Bytes → Type 0
IsPlain prev a =
    (has_prefix dash a ≡ true)
    ⊎ (IsValueFlag prev ⊎ ((flag : Bytes) → ¬ Memᴰ (a, flag) subcommand_flags))

-- The word stands for that flag: no dash, no value of a flag, and in the table.
abbrev pub IsSubcommand : Option Bytes → Bytes → Bytes → Type 0
IsSubcommand prev a flag =
    (has_prefix dash a ≡ false) × ¬ IsValueFlag prev × Memᴰ (a, flag) subcommand_flags

-- Is none of the arguments a subcommand, each seen after the one before it?
abbrev pub NoSubcommand : Option Bytes → List Bytes → Type 0
NoSubcommand prev [] = Unit
NoSubcommand prev (a ∷ args) = IsPlain prev a × NoSubcommand (some a) args

-- The first subcommand of some arguments goes to the front, as a flag.
pub record Moves (prev : Option Bytes) (before args result : List Bytes) : Type 0 where
  pub ahead : List Bytes
  pub word : Bytes
  pub after : List Bytes
  pub flag : Bytes
  pub splits : args ≡ ahead ++ (word ∷ after)
  pub none_ahead : NoSubcommand prev ahead
  pub is_subcommand : IsSubcommand (last_of prev ahead) word flag
  pub goes_first : result ≡ flag ∷ ((before ++ ahead) ++ after)

-- The test of the code on the argument before.
value_of_last-IsValueFlag : (prev : Option Bytes) → (value_of_last prev ≡ true) ↔ IsValueFlag prev
unfolding takes_value
value_of_last-IsValueFlag none = (λ e. cc, λ h. elim h [ ])
value_of_last-IsValueFlag (some prev) = (
  λ e. (ground arith, ground arith, mem_of_any _ value_flags (ground arith)),
  λ h. ground (arith, any_of_mem (trim_left (λ c. c == b'-') prev) value_flags h.2),
)

subcommand_at-some :
    (prev : Option Bytes) (a flag : Bytes)
    → subcommand_at prev a ≡ some flag
    → IsSubcommand prev a flag
unfolding subcommand_at
subcommand_at-some prev a flag e = elim (Bool-cases (has_prefix dash a)) [
  | inl dashed ↦ ground arith
  | inr bare ↦ elim (Bool-cases (value_of_last prev)) [
    | inl v ↦ ground arith
    | inr free ↦ (
      bare,
      λ h. (let v = (value_of_last-IsValueFlag prev).1 h in ground arith),
      mem_of_lookup a flag subcommand_flags (ground arith),
    )
  ]
]

flags_unique : HasUniqueKeys subcommand_flags
unfolding bytes_eq
flags_unique = (
  (refl, (refl, (refl, (refl, (refl, tt))))),
  (
    (refl, (refl, (refl, (refl, tt)))),
    ((refl, (refl, (refl, tt))), ((refl, (refl, tt)), ((refl, tt), (tt, tt)))),
  ),
)

subcommand_at-none :
    (prev : Option Bytes) (a : Bytes) → subcommand_at prev a ≡ none → IsPlain prev a
unfolding subcommand_at
subcommand_at-none prev a e = elim (Bool-cases (has_prefix dash a)) [
  | inl dashed ↦ inl dashed
  | inr bare ↦ elim (Bool-cases (value_of_last prev)) [
    | inl v ↦ inr (inl ((value_of_last-IsValueFlag prev).0 v))
    | inr free ↦ inr (
        inr (λ flag m.
          let found = lookup_of_mem a flag subcommand_flags flags_unique m in ground arith))
  ]
]

expand_from-Moves :
    (before : List Bytes) (prev : Option Bytes) (args : List Bytes)
    → (NoSubcommand prev args × (expand_from before prev args ≡ before ++ args))
      ⊎ Moves prev before args (expand_from before prev args)
unfolding expand_from moved
expand_from-Moves before prev [] = inl (tt, sym (append-nil before))
expand_from-Moves before prev (a ∷ args) = elim (Option-cases (subcommand_at prev a)) [
  | inr (flag, e) ↦ inr (record {
    ahead = [];
    word = a;
    after = args;
    flag = flag;
    splits = refl;
    none_ahead = tt;
    is_subcommand = subcommand_at-some prev a flag e;
    goes_first = rw e (ap (λ b. flag ∷ (b ++ args)) (sym (append-nil before)));
  })
  | inl e ↦ elim (expand_from-Moves (before ++ (a ∷ [])) (some a) args) [
    | inl (no_more, same) ↦
        inl
          ((subcommand_at-none prev a e, no_more), rw e (same ∙ append_assoc before (a ∷ []) args))
    | inr m ↦ inr (record {
      ahead = a ∷ m.ahead;
      word = m.word;
      after = m.after;
      flag = m.flag;
      splits = ap (λ r. a ∷ r) m.splits;
      none_ahead = (subcommand_at-none prev a e, m.none_ahead);
      is_subcommand = m.is_subcommand;
      goes_first =
          rw e (
            m.goes_first
            ∙ ap (λ b. m.flag ∷ (b ++ m.after)) (append_assoc before (a ∷ []) m.ahead));
    })
  ]
]

-- Without a subcommand the arguments stay as they are; otherwise the first subcommand is taken out
-- and its flag goes to the front. A subcommand is a word of the table that is not the value of a flag
-- before it; every other argument starts with a dash, is the value of a flag, or is no such word.
pub expand_subcommand-Moves :
    (args : List Bytes)
    → (NoSubcommand none args × (expand_subcommand args ≡ args))
      ⊎ Moves none [] args (expand_subcommand args)
unfolding expand_subcommand
expand_subcommand-Moves args = expand_from-Moves [] none args
