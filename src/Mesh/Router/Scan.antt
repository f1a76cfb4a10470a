-- ===== src/Mesh/Router/Scan.antt =====
-- The scans of iptables-save dumps in internal/mesh/router.go: which chains drop and have no rule
-- for our port or interface. The report is the list of the chains that the log names.
pub mod Sections
use rout_wire.Base.{
  ℕ, Bool, true, false, not, ◌&&◌, ◌||◌, List, [], ◌∷◌, ◌++◌, Option, none, some, any, drop, ◌==◌,
  if◌then◌else◌, map,
}
use rout_wire.Base.Bytes.{Bytes, bytes, bytes_eq, has_prefix}
use rout_wire.Base.Decimal.{format_uint}
use rout_wire.Base.Text.{trim, trim_space, split, fields, is_empty, contains}
use rout_wire.Mesh.Router.Host.{Host}

-- func mentionsPort
unfoldable pub mentions_port : Bytes → Bytes → Bool
mentions_port line port =
    any (λ f. bytes_eq (trim (λ c. c == b',') f) port)
      (fields (trim (λ c. c == b'{' || c == b'}') line))

-- the second of strings.Fields
abbrev pub second_field : List Bytes → Bytes
second_field [] = []
second_field (f ∷ []) = []
second_field (f ∷ g ∷ rest) = g

pub data LineKind : Type 0 where
  header rule commit skipped : LineKind

-- The cases of the switch on a trimmed line, for one hook.
unfoldable pub line_kind : Bytes → Bytes → LineKind
line_kind at line =
    if has_prefix (bytes ":") line
    then header
    else if has_prefix (bytes "-A ") line && bytes_eq (second_field (fields line)) at
    then rule
    else if has_prefix (bytes "COMMIT") line
    then commit
    else skipped

-- The variables chain, policy and body.
pub record Section : Type 0 where
  pub chain : Bytes
  pub policy : Bytes
  pub body : List Bytes

abbrev pub no_section : Section
no_section = record { chain = []; policy = []; body = [] }

-- What a header line sets them to.
unfoldable pub open_section : Bytes → List Bytes → Section
open_section at [] = no_section
open_section at (f ∷ []) = no_section
open_section at (f ∷ g ∷ rest) =
    if bytes_eq f at then record { chain = f; policy = g; body = [] } else no_section

module _ (at : Bytes) (covers : Bytes → Bool) where
  -- the closure found: the chain, if it is reported
  unfoldable pub found : Section → List Bytes
  found sec =
      if is_empty sec.chain || not (bytes_eq sec.policy (bytes "DROP"))
      then []
      else if any covers sec.body
      then []
      else sec.chain ∷ []

  -- The loop over the trimmed lines, and the last found().
  unfoldable pub scan : Section → List Bytes → List Bytes
  unfolding found open_section
  scan sec [] = found sec
  scan sec (line ∷ lines) = elim (line_kind at line) [
    | header ↦ found sec ++ scan (open_section at (fields (drop 1 line))) lines
    | rule ↦ scan (record sec { body = sec.body ++ (line ∷ []) }) lines
    | commit ↦ found sec ++ scan no_section lines
    | skipped ↦ scan sec lines
  ]

  unfoldable pub scan_dump : Bytes → List Bytes
  unfolding scan
  scan_dump dump = scan no_section (map trim_space (split 10 dump))

-- func warnBlockedFromSave
unfoldable pub warn_blocked_from_save : Bytes → Bytes → List Bytes
warn_blocked_from_save port dump = scan_dump (bytes "INPUT") (λ line. mentions_port line port) dump

-- The loop body of warnLegacyForward, on the output of a tool.
unfoldable pub warn_forward_from_save : Bytes → Bytes → List Bytes
warn_forward_from_save iface dump =
    scan_dump (bytes "FORWARD")
      (λ line. contains (bytes "-i " ++ iface) line || contains (bytes "-o " ++ iface) line) dump

module _ (h : Host) where
  open h use {State, exec}

  reported : (Bytes → List Bytes) → Option Bytes × State → List Bytes × State
  reported report (none, s) = ([], s)
  reported report (some out, s) = (report out, s)

  both_tools : (Bytes → List Bytes) → State → List Bytes × State
  unfolding reported
  both_tools report s =
      let (four, s4) = reported report (exec (bytes "iptables-save") [] s) in
      let (six, s6) = reported report (exec (bytes "ip6tables-save") [] s4) in (four ++ six, s6)

  -- func warnBlockedPort
  pub warn_blocked_port : ℕ → State → List Bytes × State
  unfolding both_tools
  warn_blocked_port port s = both_tools (warn_blocked_from_save (format_uint port)) s

  -- func (r *linuxRouter) warnLegacyForward
  unfoldable pub warn_legacy_forward : Bytes → State → List Bytes × State
  unfolding both_tools
  warn_legacy_forward iface s = both_tools (warn_forward_from_save iface) s
