-- ===== src/Config/Layers.antt =====
-- What the layers of the settings come to.
use mathlib.Core.List.{append-nil}
use rout_wire.Base.{
  ◌≡◌, refl, ap, ◌∙◌, inl, inr, false, not, List, [], ◌∷◌, ◌++◌, Option, none, some, arith, ◌==◌,
  if◌then◌else◌, Bool-cases, select, is_some,
}
use rout_wire.Base.Bytes.{Bytes, bytes}
use rout_wire.Base.Map.{Map, lookup}
use rout_wire.Base.Text.{is_empty, split, split_by}
use rout_wire.Base.Text.Split.{prepend, prepend-empty, prepend-split, split-separator}
use rout_wire.Config.{
  MeshConfig, over_text, append_part, split_comma_from, split_comma, resolve_mesh, or_config,
  merge_layer, env_text, text_flag, merge_flags, merge_mesh_into, flags_to_mesh,
}

nonempty-append_part :
    (part : Bytes) (out : List Bytes)
    → append_part part out ≡ (if not (is_empty part) then part ∷ out else out)
nonempty-append_part part out = ground arith

split_comma_from-split :
    (part s : Bytes)
    → split_comma_from part s ≡ select (λ p. not (is_empty p)) (prepend part (split 44 s))
unfolding split_comma_from
split_comma_from-split part [] =
    unfold split split_by in rw (append-nil part) (nonempty-append_part part [])
split_comma_from-split part (c ∷ s) = elim (Bool-cases (c == 44)) [
  | inl e ↦ rw (split-separator 44 c s e) (
      rw (append-nil part, e)
        (nonempty-append_part part _
          ∙ ap (λ (out : List Bytes). if not (is_empty part) then part ∷ out else out)
              (split_comma_from-split [] s
                ∙ ap (select (λ p. not (is_empty p))) (prepend-empty 44 s))))
  | inr e ↦ rw (prepend-split 44 c part s e) (rw e (split_comma_from-split (part ++ (c ∷ [])) s))
]

-- splitComma is the pieces of strings.Split at commas without the empty ones.
pub split_comma-split : (s : Bytes) → split_comma s ≡ select (λ p. not (is_empty p)) (split 44 s)
unfolding split_comma
split_comma-split s =
    split_comma_from-split [] s ∙ ap (select (λ p. not (is_empty p))) (prepend-empty 44 s)

abbrev pub flag_of : Option (Map Bytes) → Bytes → Option Bytes
flag_of none name = none
flag_of (some flags) name = lookup name flags

-- A setting that has a flag and a variable: the flag if it is given and not empty, else, if no flag
-- is given, the variable if it is set, else the file's text if it is not empty, else the default.
abbrev pub chosen : Option Bytes → Option Bytes → Bytes → Bytes → Bytes
chosen (some v) env file default = if is_empty v then over_text default file else v
chosen none (some v) file default = v
chosen none none file default = over_text default file

text_layers :
    (flag env : Option Bytes) (file default : Bytes)
    → over_text (env_text (is_some flag) env (over_text default file)) (text_flag flag)
      ≡ chosen flag env file default
unfolding env_text
text_layers none none file default = refl
text_layers none (some v) file default = refl
text_layers (some w) none file default = refl
text_layers (some w) (some v) file default = refl

no_flags :
    (env : Option Bytes) (file default : Bytes)
    → env_text false env (over_text default file) ≡ chosen none env file default
unfolding env_text
no_flags none file default = refl
no_flags (some v) file default = refl

-- ResolveMesh takes the PSK and the name each from the flag if it is given and not empty, else, if
-- that flag is not given at all, from the variable if it is set, even to an empty text, else from
-- the file if its text is not empty, else from the defaults.
pub resolve_mesh-chosen :
    (defs file : Option MeshConfig) (env : Map Bytes) (flags : Option (Map Bytes))
    → ((resolve_mesh defs file env flags).psk
        ≡ chosen
            (flag_of flags (bytes "psk"))
            (lookup (bytes "MESH_PSK") env)
            (or_config file).psk
            (or_config defs).psk)
      × ((resolve_mesh defs file env flags).name
          ≡ chosen
              (flag_of flags (bytes "name"))
              (lookup (bytes "MESH_NAME") env)
              (or_config file).name
              (or_config defs).name)
unfolding resolve_mesh merge_layer env_text merge_flags merge_mesh_into flags_to_mesh
resolve_mesh-chosen defs none env none = (
  no_flags (lookup (bytes "MESH_PSK") env) [] (or_config defs).psk,
  no_flags (lookup (bytes "MESH_NAME") env) [] (or_config defs).name,
)
resolve_mesh-chosen defs (some file) env none = (
  no_flags (lookup (bytes "MESH_PSK") env) file.psk (or_config defs).psk,
  no_flags (lookup (bytes "MESH_NAME") env) file.name (or_config defs).name,
)
resolve_mesh-chosen defs none env (some flags) = (
  text_layers (lookup (bytes "psk") flags) (lookup (bytes "MESH_PSK") env) [] (or_config defs).psk,
  text_layers (lookup (bytes "name") flags) (lookup (bytes "MESH_NAME") env) []
      (or_config defs).name,
)
resolve_mesh-chosen defs (some file) env (some flags) = (
  text_layers (lookup (bytes "psk") flags) (lookup (bytes "MESH_PSK") env) file.psk
      (or_config defs).psk,
  text_layers (lookup (bytes "name") flags) (lookup (bytes "MESH_NAME") env) file.name
      (or_config defs).name,
)
