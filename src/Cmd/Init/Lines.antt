-- ===== src/Cmd/Init/Lines.antt =====
-- The lists of the configuration file that runInit writes, line by line.
use rout_wire.Base.{◌≡◌, refl, ap, ◌∙◌, List, [], ◌∷◌, ◌++◌, All, All-append, map, false, ◌==◌}
use mathlib.Core.List.{append_assoc}
use rout_wire.Base.Bytes.{Bytes, bytes}
use rout_wire.Base.Text.{split}
use rout_wire.Base.Text.Split.{Lacks, split-piece}
use rout_wire.Cmd.Init.{empty_mark, item_lines, list_text}

abbrev item_line : (Bytes → Bytes) → Bytes → Bytes
item_line quote item = bytes "  - " ++ quote item

split-item_lines :
    (quote : Bytes → Bytes) (items : List Bytes) (rest : Bytes)
    → All (λ item. Lacks 10 (quote item)) items
    → split 10 (item_lines quote items ++ rest) ≡ map (item_line quote) items ++ split 10 rest
unfolding item_lines
split-item_lines quote [] rest h = refl
split-item_lines quote (item ∷ items) rest h = simp append_assoc (
    split-piece 10 (item_line quote item) (item_lines quote items ++ rest)
      (refl, (refl, (refl, (refl, h.0))))
    ∙ ap (λ lines. item_line quote item ∷ lines) (split-item_lines quote items rest h.1))

mark_Lacks : (items : List Bytes) → Lacks 10 (empty_mark items)
mark_Lacks [] = (refl, (refl, (refl, tt)))
mark_Lacks (item ∷ items) = tt

-- If neither the title nor the comment nor a quoted item holds a line feed, then the list is in the
-- file a line for its comment, one for its title and one for each item, in their order, and what
-- follows it begins on a line of its own.
pub split-list_text :
    (quote : Bytes → Bytes) (title comment : Bytes) (items : List Bytes) (rest : Bytes)
    → Lacks 10 title
    → Lacks 10 comment
    → All (λ item. Lacks 10 (quote item)) items
    → split 10 (list_text quote title comment items ++ rest)
      ≡ []
        ∷ (bytes "# " ++ comment)
        ∷ (title ++ bytes ":" ++ empty_mark items)
        ∷ (map (item_line quote) items ++ split 10 rest)
unfolding list_text
split-list_text quote title comment items rest ht hc hi =
    let lines = item_lines quote items ++ rest in
    let head = title ++ bytes ":" ++ empty_mark items in
    let marked : Lacks 10 head =
      All-append (λ c. (c == 10) ≡ false) (title ++ bytes ":") (empty_mark items)
        (All-append (λ c. (c == 10) ≡ false) title (bytes ":") ht (refl, tt)) (mark_Lacks items) in
    let last : split 10 (head ++ (10 ∷ lines))
        ≡ head ∷ (map (item_line quote) items ++ split 10 rest) =
      split-piece 10 head lines marked
      ∙ ap (λ more. head ∷ more) (split-item_lines quote items rest hi) in
    let comment_line = bytes "# " ++ comment in
    let whole : split 10 (10 ∷ (comment_line ++ (10 ∷ (head ++ (10 ∷ lines)))))
        ≡ [] ∷ comment_line ∷ head ∷ (map (item_line quote) items ++ split 10 rest) =
      split-piece 10 [] (comment_line ++ (10 ∷ (head ++ (10 ∷ lines)))) tt
      ∙ ap (λ more. [] ∷ more)
          (split-piece 10 comment_line (head ++ (10 ∷ lines)) (refl, (refl, hc))
            ∙ ap (λ more. comment_line ∷ more) last) in
    let same : list_text quote title comment items ++ rest
        ≡ 10 ∷ (comment_line ++ (10 ∷ (head ++ (10 ∷ lines)))) =
      simp append_assoc refl in
    ap (split 10) same ∙ whole
