-- ===== src/Files.antt =====
-- Files and directories (FileSystem/File), with the file system's answers as parameters.
pub mod Disk
pub mod Text
use h1z1_server.Base.{
  ℕ, Bool, true, false, not, ◌||◌, ◌&&◌, Option, none, some, List, [], ◌∷◌, ◌++◌, length, drop, leb,
  ◌==◌, if◌then◌else◌, codes, same_bytes, find_last_of, minus_one,
}
use Prim.Native.Nat.{bit_and}
use h1z1_server.LuaManager.{is_period}

-- `directory_exists`, from the attributes of a file, -1 where there is none.
unfoldable pub directory_exists : ℕ → Bool
directory_exists attributes =
    if attributes == minus_one
    then false
    else if not (bit_and attributes 0x10 == 0)
    then true
    else false

-- An entry that `FindFirstFile` or `FindNextFile` gives.
pub record FindData : Type 0 where
  pub file_name : List ℕ
  pub attributes : ℕ

-- `substr` from the last period; without one it is that of a position past the end, and throws.
unfoldable pub extension_of : List ℕ → Option (List ℕ)
unfolding find_last_of
extension_of name = elim (find_last_of is_period name) [ none ↦ none | some i ↦ some (drop i name) ]

-- The loop of `get_files`; `none` when the extension of a name throws.
unfoldable pub matching_files : List ℕ → List FindData → Option (List (List ℕ))
unfolding extension_of same_bytes
matching_files extension [] = some []
matching_files extension (fd ∷ fds) =
    let rest = matching_files extension fds in
    elim (extension_of fd.file_name) [
      | none ↦ none
      | some e ↦ elim rest [
        | none ↦ none
        | some names ↦ some (if same_bytes e extension then fd.file_name ∷ names else names)
      ]
    ]

-- `get_files`; `found` is what the search gives, `none` where it fails.
unfoldable pub get_files : Bool → Option (List FindData) → List ℕ → Option (List (List ℕ))
unfolding matching_files
get_files exists found extension =
    if exists
    then elim found [ none ↦ some [] | some fds ↦ matching_files extension fds ]
    else some []

-- The directories that stand for themselves and for the parent.
unfoldable pub is_dots : List ℕ → Bool
unfolding same_bytes
is_dots name = (same_bytes name (codes ".") || same_bytes name (codes "..")) && leb (length name) 2

-- The loop of `get_directories`: an entry with any further attribute is passed over.
unfoldable pub directory_names : List ℕ → Bool → List FindData → List (List ℕ)
unfolding is_dots
directory_names dir name_only [] = []
directory_names dir name_only (fd ∷ fds) =
    let rest = directory_names dir name_only fds in
    if fd.attributes == 0x10 && not (is_dots fd.file_name)
    then (if name_only then fd.file_name else dir ++ codes "\\" ++ fd.file_name) ∷ rest
    else rest

-- `get_directories`. A search that fails is not noticed, and the entry is then what the memory
-- holds; here the search gives at least its first entry.
unfoldable pub get_directories : Bool → List FindData → List ℕ → Bool → List (List ℕ)
unfolding directory_names
get_directories exists found dir name_only =
    if exists then directory_names dir name_only found else []
