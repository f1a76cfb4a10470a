-- ===== src/Mesh/Router/Scan/Sections.antt =====
-- What the scan of a dump reports.
use rout_wire.Base.{
  ◌≡◌, refl, ap, ◌∙◌, Bool, false, not, ◌&&◌, List, [], ◌∷◌, ◌++◌, Option, none, some, arith, any,
  drop, All, if◌then◌else◌, ◌⊎◌, inl, inr,
}
use mathlib.Core.List.{append_assoc, append-nil}
use rout_wire.Base.Bytes.{Bytes, bytes, bytes_eq, bytes_eq_refl}
use rout_wire.Base.Text.{fields, is_empty}
use rout_wire.Mesh.Router.Host.{Host}
use rout_wire.Mesh.Router.Scan.{
  both_tools, reported, warn_legacy_forward, header, rule, commit, skipped, line_kind, Section,
  no_section, open_section, found, scan,
}

module _ (at : Bytes) (covers : Bytes → Bool) where
  -- The lines of a section after its header: rules of the hook, or other lines that the scan passes.
  abbrev pub IsBodyLine : Bytes → Type 0
  IsBodyLine line = (line_kind at line ≡ rule) ⊎ (line_kind at line ≡ skipped)

  abbrev pub rule_lines : List Bytes → List Bytes
  rule_lines [] = []
  rule_lines (line ∷ lines) = elim (line_kind at line) [
    | rule ↦ line ∷ rule_lines lines
    | _ ↦ rule_lines lines
  ]

  scan_rule :
      (sec : Section) (line : Bytes) (lines : List Bytes)
      → line_kind at line ≡ rule
      → scan at covers sec (line ∷ lines)
        ≡ scan at covers (record sec { body = sec.body ++ (line ∷ []) }) lines
  unfolding scan
  scan_rule sec line lines e = rw (e, scan) refl

  scan-skipped :
      (sec : Section) (line : Bytes) (lines : List Bytes)
      → line_kind at line ≡ skipped
      → scan at covers sec (line ∷ lines) ≡ scan at covers sec lines
  unfolding scan
  scan-skipped sec line lines e = rw (e, scan) refl

  -- The section with more lines in its body.
  abbrev with_lines : Section → List Bytes → Section
  with_lines sec lines = record sec { body = sec.body ++ lines }

  scan-body :
      (body rest : List Bytes) (sec : Section)
      → All IsBodyLine body
      → scan at covers sec (body ++ rest) ≡ scan at covers (with_lines sec (rule_lines body)) rest
  scan-body [] rest sec h = rw (append-nil sec.body) refl
  scan-body (line ∷ body) rest sec (inl e, h) =
      scan_rule sec line (body ++ rest) e
      ∙ scan-body body rest (with_lines sec (line ∷ [])) h
      ∙ rw (e, rule_lines)
          (ap (λ (ls : List Bytes). scan at covers (record sec { body = ls }) rest)
            (append_assoc sec.body (line ∷ []) (rule_lines body)))
  scan-body (line ∷ body) rest sec (inr e, h) =
      scan-skipped sec line (body ++ rest) e ∙ scan-body body rest sec h ∙ rw (e, rule_lines) refl

  scan-commit :
      (sec : Section) (line : Bytes) (lines : List Bytes)
      → line_kind at line ≡ commit
      → scan at covers sec (line ∷ lines) ≡ found at covers sec ++ scan at covers no_section lines
  unfolding scan
  scan-commit sec line lines e = rw (e, scan) refl

  scan_header :
      (sec : Section) (line policy : Bytes) (extra lines : List Bytes)
      → line_kind at line ≡ header
      → fields (drop 1 line) ≡ at ∷ policy ∷ extra
      → scan at covers sec (line ∷ lines)
        ≡ found at covers sec
          ++ scan at covers (record { chain = at; policy = policy; body = [] }) lines
  unfolding scan open_section
  scan_header sec line policy extra lines e f = rw (e, scan) (rw f (rw (bytes_eq_refl at) refl))

  -- What a section of the hook reports: the chain if its policy is DROP and none of its rules covers
  -- us.
  abbrev pub report_of : Bytes → List Bytes → List Bytes
  report_of policy rules =
      if bytes_eq policy (bytes "DROP") && not (any covers rules) then at ∷ [] else []

  found-report_of :
      (policy : Bytes) (rules : List Bytes)
      → is_empty at ≡ false
      → found at covers (record { chain = at; policy = policy; body = rules })
        ≡ report_of policy rules
  unfolding found
  found-report_of policy rules h = ground arith

  -- A section of a dump, from the header that names the hook to its COMMIT, adds the chain to the
  -- report exactly if its policy is DROP and none of the rules of the hook covers us, whatever
  -- other lines stand between; what was open before is reported first, and the scan of what
  -- follows starts afresh.
  pub scan-section :
      (sec : Section) (head policy end : Bytes) (extra body rest : List Bytes)
      → is_empty at ≡ false
      → line_kind at head ≡ header
      → fields (drop 1 head) ≡ at ∷ policy ∷ extra
      → All IsBodyLine body
      → line_kind at end ≡ commit
      → scan at covers sec (head ∷ (body ++ (end ∷ rest)))
        ≡ found at covers sec
          ++ (report_of policy (rule_lines body) ++ scan at covers no_section rest)
  scan-section sec head policy end extra body rest named h f b e =
      scan_header sec head policy extra (body ++ (end ∷ rest)) h f
      ∙ ap (λ (r : List Bytes). found at covers sec ++ r)
          (scan-body body (end ∷ rest) (record { chain = at; policy = policy; body = [] }) b
            ∙ scan-commit (record { chain = at; policy = policy; body = rule_lines body }) end rest
                e
            ∙ ap (λ (r : List Bytes). r ++ scan at covers no_section rest)
                (found-report_of policy (rule_lines body) named))

-- Reading the dumps keeps what the two tools keep.
module _ (h : Host) (P : h.State → Type 0)
    (save_keeps : (s : h.State) → P s → P (h.exec (bytes "iptables-save") [] s).1)
    (save6_keeps : (s : h.State) → P s → P (h.exec (bytes "ip6tables-save") [] s).1) where
  open h use {State}

  reported-keeps :
      (report : Bytes → List Bytes) (v : Option Bytes × State) → P v.1 → P (reported h report v).1
  unfolding reported
  reported-keeps report (none, s) p = p
  reported-keeps report (some out, s) p = p

  pub warn_legacy_forward-keeps :
      (iface : Bytes) (s : State) → P s → P (warn_legacy_forward h iface s).1
  unfolding warn_legacy_forward both_tools
  warn_legacy_forward-keeps iface s p =
      reported-keeps _ _ (save6_keeps _ (reported-keeps _ _ (save_keeps s p)))
