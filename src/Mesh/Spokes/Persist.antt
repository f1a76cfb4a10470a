-- ===== src/Mesh/Spokes/Persist.antt =====
-- Saving and loading the spokes.
use rout_wire.Base.{
  ◌≡◌, refl, sym, ap, ◌∙◌, ◌⊎◌, inl, inr, Bool, true, false, not, List, [], ◌∷◌, ◌++◌, Option, some,
  arith, All, Bool-cases, if◌then◌else◌, All-perm, ◌||◌, Permᴰ, ◌&&◌, ◌≢◌, subst, All-mono,
}
use rout_wire.Base.Bytes.{Bytes, bytes_lt, bytes_eq, bytes_eq_iff}
use rout_wire.Base.Map.{
  lookup, insert, delete, keys, has_key, lookup-insert, lookup-delete, All-delete,
}
use rout_wire.Base.Sort.{stable_sort, stable_sort-perm}
use rout_wire.Base.Text.{is_space, to_lower, trim, trim_space, split, join, is_empty}
use rout_wire.Base.Text.Trim.{trim_space_idem, trim_space-to_lower, to_lower_idem, All-trim}
use rout_wire.Base.Text.Split.{Lacks, split-join, split-Lacks}
use rout_wire.Mesh.Deriver.{normalize_name}
use rout_wire.Mesh.Spokes.{
  SpokeSet, File, Disk, Io, saved, content, missing, unreadable, add_lines, parse_spokes,
  render_spokes, load_spokes, save_spokes, add_spoke, remove_spoke, add_to, remove_from, load_file,
  end_line,
}

-- A name as the loader stores it: a line of its own that its normal form leaves as it is.
abbrev pub IsSpokeName : Bytes → Type 0
IsSpokeName n = (normalize_name (trim_space n) ≡ n) × (is_empty n ≡ false) × Lacks 10 n

abbrev pub IsSpokeSet : SpokeSet → Type 0
IsSpokeSet set = All IsSpokeName (keys set)

-- Is the name one of the list?
abbrev listed : Bytes → List Bytes → Bool
listed k [] = false
listed k (x ∷ xs) = bytes_eq x k || listed k xs

listed-keys : (k : Bytes) (set : SpokeSet) → has_key k set ≡ listed k (keys set)
unfolding lookup
listed-keys k [] = refl
listed-keys k ((j, v) ∷ set) = ground (arith, listed-keys k set)

listed-perm : (k : Bytes) {xs ys : List Bytes} → Permᴰ xs ys → listed k xs ≡ listed k ys
listed-perm k Permᴰ.nil = refl
listed-perm k (Permᴰ.cons e p) = rw e (rw (listed-perm k p))
listed-perm k (Permᴰ.swap {a = a} {b = b} e f) = rw (← e, ← f) (ground arith)
listed-perm k (Permᴰ.trans p q) = listed-perm k p ∙ listed-perm k q

empty_line : normalize_name (trim_space []) ≡ []
unfolding normalize_name trim_space
empty_line = refl

add_lines-empty :
    (set : SpokeSet) (x : Bytes) (lines : List Bytes)
    → is_empty (normalize_name (trim_space x)) ≡ true
    → add_lines set (x ∷ lines) ≡ add_lines set lines
unfolding add_lines
add_lines-empty set x lines e =
    ap
      (λ (b : Bool).
        add_lines (if b then set else insert (normalize_name (trim_space x)) true set) lines)
      e

add_lines-name :
    (set : SpokeSet) (x : Bytes) (lines : List Bytes)
    → is_empty (normalize_name (trim_space x)) ≡ false
    → add_lines set (x ∷ lines) ≡ add_lines (insert (normalize_name (trim_space x)) true set) lines
unfolding add_lines
add_lines-name set x lines e =
    ap
      (λ (b : Bool).
        add_lines (if b then set else insert (normalize_name (trim_space x)) true set) lines)
      e

add_lines-IsSpokeName :
    (set : SpokeSet) (x : Bytes) (lines : List Bytes)
    → IsSpokeName x
    → add_lines set (x ∷ lines) ≡ add_lines (insert x true set) lines
add_lines-IsSpokeName set x lines (normal, filled, one) =
    add_lines-name set x lines (ap is_empty normal ∙ filled)
    ∙ ap (λ (n : Bytes). add_lines (insert n true set) lines) normal

add_lines-names :
    (k : Bytes) (names : List Bytes) (set : SpokeSet)
    → All IsSpokeName names
    → has_key k (add_lines set (names ++ ([] ∷ []))) ≡ (has_key k set || listed k names)
add_lines-names k [] set h =
    rw (add_lines-empty set [] [] (ap is_empty empty_line)) (unfold add_lines in ground arith)
add_lines-names k (x ∷ names) set h =
    rw (add_lines-IsSpokeName set x (names ++ ([] ∷ [])) h.0)
      (add_lines-names k names (insert x true set) h.1 ∙ ground (arith, lookup-insert x k true set))

lines_of :
    (names : List Bytes)
    → All IsSpokeName names
    → split 10 (join (10 ∷ []) names ++ end_line names) ≡ names ++ ([] ∷ [])
unfolding join split end_line
lines_of [] h = refl
lines_of (x ∷ xs) h = split-join 10 x xs (All-mono (λ n k. k.2) (x ∷ xs) h)

-- Loading what was rendered gives the same set.
pub parse_spokes-render_spokes :
    (k : Bytes) (set : SpokeSet)
    → IsSpokeSet set
    → has_key k (parse_spokes (render_spokes set)) ≡ has_key k set
unfolding parse_spokes render_spokes
parse_spokes-render_spokes k set h =
    let p = stable_sort-perm bytes_lt (keys set) in
    let names = All-perm IsSpokeName p h in
    rw (lines_of (stable_sort bytes_lt (keys set)) names) (
      add_lines-names k (stable_sort bytes_lt (keys set)) [] names
      ∙ unfold lookup in sym (listed-keys k set ∙ listed-perm k p))

-- What a normal form is trimmed and normalised to.
normal_line :
    (name : Bytes) → normalize_name (trim_space (normalize_name name)) ≡ normalize_name name
unfolding normalize_name
normal_line name =
    ap (λ (t : Bytes). to_lower (trim_space t)) (trim_space-to_lower (trim_space name))
    ∙ ap (λ (t : Bytes). to_lower (trim_space (to_lower t))) (trim_space_idem name)
    ∙ ap to_lower (trim_space-to_lower (trim_space name))
    ∙ to_lower_idem (trim_space (trim_space name))
    ∙ ap to_lower (trim_space_idem name)

lower-Lacks : (s : Bytes) → Lacks 10 s → Lacks 10 (to_lower s)
lower-Lacks [] h = tt
lower-Lacks (c ∷ s) h = (ground arith, lower-Lacks s h.1)

normal-Lacks : (s : Bytes) → Lacks 10 s → Lacks 10 (normalize_name s)
unfolding normalize_name trim_space
normal-Lacks s h = lower-Lacks (trim is_space s) (All-trim _ is_space s h)

line-Lacks : (s : Bytes) → Lacks 10 s → Lacks 10 (normalize_name (trim_space s))
unfolding trim_space
line-Lacks s h = normal-Lacks (trim is_space s) (All-trim _ is_space s h)

insert-IsSpokeSet :
    (n : Bytes) (set : SpokeSet) → IsSpokeName n → IsSpokeSet set → IsSpokeSet (insert n true set)
unfolding insert
insert-IsSpokeSet n set h k = (h, All-delete IsSpokeName n set k)

add_lines-IsSpokeSet :
    (lines : List Bytes) (set : SpokeSet)
    → All (Lacks 10) lines
    → IsSpokeSet set
    → IsSpokeSet (add_lines set lines)
add_lines-IsSpokeSet [] set l h = unfold add_lines in h
add_lines-IsSpokeSet (x ∷ lines) set l h =
    elim (Bool-cases (is_empty (normalize_name (trim_space x)))) [
      | inl e ↦ rw (add_lines-empty set x lines e) (add_lines-IsSpokeSet lines set l.1 h)
      | inr e ↦ rw (add_lines-name set x lines e) (
          add_lines-IsSpokeSet lines (insert (normalize_name (trim_space x)) true set) l.1
            (insert-IsSpokeSet _ set (normal_line (trim_space x), e, line-Lacks x l.0) h))
    ]

load-IsSpokeSet : (f : File) (set : SpokeSet) → load_file f ≡ some set → IsSpokeSet set
unfolding load_file parse_spokes
load-IsSpokeSet missing set h = let e : [] ≡ set = cc in subst IsSpokeSet e tt
load-IsSpokeSet unreadable set h = cc
load-IsSpokeSet (content b) set h =
    let e : add_lines [] (split 10 b) ≡ set = cc in
    subst IsSpokeSet e (add_lines-IsSpokeSet (split 10 b) [] (split-Lacks 10 b) tt)

-- Whichever of the system's calls fail, SaveSpokes leaves the list as it was or holding the whole
-- new set, and it reports success only in the second case.
pub save_spokes_atomic :
    (io : Io) (set : SpokeSet) (disk : Disk)
    → let (result, after) = save_spokes io true set disk in
      ((result ≢ saved) × (after.list ≡ disk.list))
      ⊎ ((result ≡ saved) × (after.list ≡ content (render_spokes set)))
unfolding save_spokes
save_spokes_atomic io set disk = ground arith

-- A disk from which exactly the names that satisfy a test are loaded.
abbrev pub Loads : Disk → (Bytes → Bool) → Type 0
Loads disk test =
    (set : SpokeSet) × (load_spokes true disk ≡ some set) × ((k : Bytes) → has_key k set ≡ test k)

save_spokes-Loads :
    (io : Io) (set : SpokeSet) (disk after : Disk)
    → IsSpokeSet set
    → save_spokes io true set disk ≡ (saved, after)
    → Loads after (λ k. has_key k set)
save_spokes-Loads io set disk after h e = (
  parse_spokes (render_spokes set),
  unfold save_spokes load_spokes load_file in ground arith,
  λ k. parse_spokes-render_spokes k set h,
)

after_add :
    (io : Io) (n : Bytes) (set : SpokeSet) (disk after : Disk)
    → load_spokes true disk ≡ some set
    → IsSpokeName n
    → IsSpokeSet set
    → (if has_key n set then (saved, disk) else save_spokes io true (insert n true set) disk)
      ≡ (saved, after)
    → Loads after (λ k. bytes_eq n k || has_key k set)
after_add io n set disk after l named h e = elim (Bool-cases (has_key n set)) [
  | inl old ↦
      let same : disk ≡ after = ground arith in
      (
        set,
        subst (λ d. load_spokes true d ≡ some set) same l,
        λ k. ground (arith, bytes_eq_iff n k),
      )
  | inr new ↦
      let (found, loaded, test) =
        save_spokes-Loads io (insert n true set) disk after (insert-IsSpokeSet n set named h)
          (ground arith) in
      (found, loaded, λ k. test k ∙ ground (arith, lookup-insert n k true set))
]

delete-IsSpokeSet : (n : Bytes) (set : SpokeSet) → IsSpokeSet set → IsSpokeSet (delete n set)
delete-IsSpokeSet n set h = All-delete IsSpokeName n set h

after_remove :
    (io : Io) (n : Bytes) (set : SpokeSet) (disk after : Disk)
    → load_spokes true disk ≡ some set
    → IsSpokeSet set
    → (if not (has_key n set) then (saved, disk) else save_spokes io true (delete n set) disk)
      ≡ (saved, after)
    → Loads after (λ k. not (bytes_eq n k) && has_key k set)
after_remove io n set disk after l h e = elim (Bool-cases (has_key n set)) [
  | inr absent ↦
      let same : disk ≡ after = ground arith in
      (
        set,
        subst (λ d. load_spokes true d ≡ some set) same l,
        λ k. ground (arith, bytes_eq_iff n k),
      )
  | inl old ↦
      let (found, loaded, test) =
        save_spokes-Loads io (delete n set) disk after (delete-IsSpokeSet n set h) (ground arith) in
      (found, loaded, λ k. test k ∙ ground (arith, lookup-delete n k set))
]

load_spokes-IsSpokeSet :
    (disk : Disk) (set : SpokeSet) → load_spokes true disk ≡ some set → IsSpokeSet set
unfolding load_spokes
load_spokes-IsSpokeSet disk set l = load-IsSpokeSet disk.list set l

-- When AddSpoke reports success on a list that loads, for a name that is neither blank nor of
-- several lines, the next LoadSpokes finds the old spokes and the name, normalised, and no other,
-- whether or not a file was written.
pub add_spoke-Loads :
    (io : Io) (name : Bytes) (set : SpokeSet) (disk after : Disk)
    → load_spokes true disk ≡ some set
    → is_empty (normalize_name name) ≡ false
    → Lacks 10 name
    → add_spoke io true name disk ≡ (saved, after)
    → Loads after (λ k. bytes_eq (normalize_name name) k || has_key k set)
unfolding add_spoke add_to
add_spoke-Loads io name set disk after l filled one e =
    after_add io (normalize_name name) set disk after l
      (normal_line name, filled, normal-Lacks name one) (load_spokes-IsSpokeSet disk set l)
      (subst
        (λ (r : Bool × Option SpokeSet).
          (if r.0 then (saved, disk) else add_to io true (normalize_name name) r.1 disk)
          ≡ (saved, after))
        (λ i. (filled i, l i)) e)

-- When RemoveSpoke reports success on a list that loads, the next LoadSpokes finds the old spokes
-- but the name, normalised, and no other.
pub remove_spoke-Loads :
    (io : Io) (name : Bytes) (set : SpokeSet) (disk after : Disk)
    → load_spokes true disk ≡ some set
    → remove_spoke io true name disk ≡ (saved, after)
    → Loads after (λ k. not (bytes_eq (normalize_name name) k) && has_key k set)
unfolding remove_spoke remove_from
remove_spoke-Loads io name set disk after l e =
    after_remove io (normalize_name name) set disk after l (load_spokes-IsSpokeSet disk set l) (
      subst
        (λ (r : Option SpokeSet). remove_from io true (normalize_name name) r disk ≡ (saved, after))
        l e)
