-- ===== src/Mesh/Spokes.antt =====
-- internal/mesh/spokes.go: the persisted set of spokes. The disk is the two files that are
-- touched, the list and its temporary copy; which of the system's calls succeed is `Io`.
pub mod Persist
use rout_wire.Base.{
  ℕ, Bool, true, false, not, List, [], ◌∷◌, ◌++◌, map, Option, none, some, if◌then◌else◌,
}
use rout_wire.Base.Bytes.{Bytes, bytes_lt}
use rout_wire.Base.Map.{Map, lookup, insert, delete, keys, has_key}
use rout_wire.Base.Sort.{stable_sort}
use rout_wire.Base.Text.{trim_space, split, join, is_empty}
use rout_wire.Mesh.Deriver.{normalize_name}

-- map[string]bool, whose values are all true
abbrev pub SpokeSet : Type 0
SpokeSet = Map Bool

pub data File : Type 0 where
  missing unreadable : File
  content : Bytes → File

-- path and path + ".tmp"
pub record Disk : Type 0 where
  pub list : File
  pub temp : File

-- Whether MkdirAll, WriteFile and Rename succeed. A WriteFile that fails leaves anything behind.
pub record Io : Type 0 where
  pub mkdir_works : Bool
  pub write_works : Bool
  pub partial : File
  pub rename_works : Bool

pub data Saved : Type 0 where
  saved read_failed mkdir_failed write_failed rename_failed : Saved

-- The loop of LoadSpokes over the lines.
unfoldable pub add_lines : SpokeSet → List Bytes → SpokeSet
unfolding insert
add_lines set [] = set
add_lines set (line ∷ lines) =
    let n = normalize_name (trim_space line) in
    add_lines (if is_empty n then set else insert n true set) lines

unfoldable pub parse_spokes : Bytes → SpokeSet
unfolding add_lines
parse_spokes b = add_lines [] (split 10 b)

-- func LoadSpokes, where a path "" is no path; nothing is returned for an error
unfoldable pub load_file : File → Option SpokeSet
unfolding parse_spokes
load_file missing = some []
load_file unreadable = none
load_file (content b) = some (parse_spokes b)

unfoldable pub load_spokes : Bool → Disk → Option SpokeSet
unfolding load_file
load_spokes has_path disk = if has_path then load_file disk.list else some []

end_line : List Bytes → Bytes
end_line [] = []
end_line (x ∷ xs) = 10 ∷ []

unfoldable pub render_spokes : SpokeSet → Bytes
unfolding end_line
render_spokes spokes =
    let names = stable_sort bytes_lt (keys spokes) in join (10 ∷ []) names ++ end_line names

-- func SaveSpokes
unfoldable pub save_spokes : Io → Bool → SpokeSet → Disk → Saved × Disk
save_spokes io has_path spokes disk =
    if not has_path
    then (saved, disk)
    else if not io.mkdir_works
    then (mkdir_failed, disk)
    else if not io.write_works
    then (write_failed, record disk { temp = io.partial })
    else if not io.rename_works
    then (rename_failed, record disk { temp = content (render_spokes spokes) })
    else (saved, record { list = content (render_spokes spokes); temp = missing })

add_to : Io → Bool → Bytes → Option SpokeSet → Disk → Saved × Disk
add_to io has_path n none disk = (read_failed, disk)
add_to io has_path n (some set) disk =
    if has_key n set then (saved, disk) else save_spokes io has_path (insert n true set) disk

-- func AddSpoke
unfoldable pub add_spoke : Io → Bool → Bytes → Disk → Saved × Disk
unfolding add_to
add_spoke io has_path name disk =
    let n = normalize_name name in
    if is_empty n then (saved, disk) else add_to io has_path n (load_spokes has_path disk) disk

remove_from : Io → Bool → Bytes → Option SpokeSet → Disk → Saved × Disk
remove_from io has_path n none disk = (read_failed, disk)
remove_from io has_path n (some set) disk =
    if not (has_key n set) then (saved, disk) else save_spokes io has_path (delete n set) disk

-- func RemoveSpoke
unfoldable pub remove_spoke : Io → Bool → Bytes → Disk → Saved × Disk
unfolding remove_from
remove_spoke io has_path name disk =
    remove_from io has_path (normalize_name name) (load_spokes has_path disk) disk
