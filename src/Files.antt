-- ===== src/Files.antt =====
-- A file tree as the tools read it, and `files` of scripts/prepare-benchmark-publication.py.
pub mod Paths
pub mod Keys
use mathlib.Core.Option.{Option, none, some}
use swift_cidr_admission.Base.{
  Bool, true, false, ◌||◌, ◌&&◌, List, [], ◌∷◌, ◌++◌, Text, codes, text_eq, Result, ok, raise,
  value_error, os_error, if◌then◌else◌, any,
}
use swift_cidr_admission.Base.Strings.{text_lt}
use swift_cidr_admission.Base.Dict.{Dict, insert}
use swift_cidr_admission.Runtime.{Bytes}

-- The parts of an absolute path, or of one relative to a folder.
abbrev pub FilePath : Type 0
FilePath = List Text

-- A link tells whether what it points to exists. Reading an unreadable file raises `OSError`.
pub data Node : Type 0 where
  folder : Node
  file : Bytes → Node
  unreadable : Node
  link : Bool → Node

abbrev pub FileSystem : Type 0
FileSystem = List (FilePath × Node)

unfoldable pub path_eq : FilePath → FilePath → Bool
path_eq [] [] = true
path_eq [] (q ∷ b) = false
path_eq (p ∷ a) [] = false
path_eq (p ∷ a) (q ∷ b) = text_eq p q && path_eq a b

-- p < q, part by part
unfoldable pub path_lt : FilePath → FilePath → Bool
path_lt [] [] = false
path_lt [] (q ∷ b) = true
path_lt (p ∷ a) [] = false
path_lt (p ∷ a) (q ∷ b) = text_lt p q || (text_eq p q && path_lt a b)

-- p.relative_to(root), if it lies there.
unfoldable pub relative_to : FilePath → FilePath → Option FilePath
relative_to [] p = some p
relative_to (r ∷ root) [] = none
relative_to (r ∷ root) (p ∷ path) = elim (text_eq r p) [
  | true ↦ relative_to root path
  | false ↦ none
]

unfoldable pub node_at : FilePath → FileSystem → Option Node
node_at p [] = none
node_at p ((q, n) ∷ fs) = if path_eq q p then some n else node_at p fs

-- root.rglob("*"): all that lies strictly below.
below : FilePath → FileSystem → FileSystem
below root [] = []
below root ((p, n) ∷ fs) =
    let rest = below root fs in
    elim (relative_to root p) [
      | none ↦ rest
      | some [] ↦ rest
      | some (part ∷ parts) ↦ (part ∷ parts, n) ∷ rest
    ]

insert_path : FilePath → Node → FileSystem → FileSystem
insert_path p n [] = (p, n) ∷ []
insert_path p n ((q, m) ∷ fs) =
    if path_lt q p then (q, m) ∷ insert_path p n fs else (p, n) ∷ (q, m) ∷ fs

sorted_paths : FileSystem → FileSystem
sorted_paths [] = []
sorted_paths ((p, n) ∷ fs) = insert_path p n (sorted_paths fs)

unfoldable pub is_link : Node → Bool
is_link (link alive) = true
is_link _ = false

is_link_at : Option Node → Bool
unfolding is_link
is_link_at none = false
is_link_at (some n) = is_link n

-- p.as_posix()
unfoldable pub as_posix : FilePath → Text
as_posix [] = codes "."
as_posix (p ∷ []) = p
as_posix (p ∷ q ∷ path) = p ++ (codes "/" ++ as_posix (q ∷ path))

-- The comprehension over the sorted paths; the first argument is the `dict` so far.
read_files : Dict Bytes → FileSystem → Result (Dict Bytes)
unfolding as_posix
read_files d [] = ok d
read_files d ((p, folder) ∷ fs) = read_files d fs
read_files d ((p, file bytes) ∷ fs) = read_files (insert (as_posix p) bytes d) fs
read_files d ((p, unreadable) ∷ fs) = raise os_error (codes "read_bytes")
read_files d ((p, link alive) ∷ fs) = read_files d fs

unfoldable pub files : FileSystem → FilePath → Result (Dict Bytes)
unfolding below sorted_paths insert_path is_link_at read_files relative_to path_eq path_lt node_at
files fs root =
    let paths = sorted_paths (below root fs) in
    if any (λ (e : FilePath × Node). is_link e.1) paths || is_link_at (node_at root fs)
    then raise value_error (codes "Symlinks are not supported in capture bundles")
    else read_files [] paths
