-- ===== src/Capture/Shell.antt =====
-- The functions of Python's standard library on texts and paths that rerun.py calls.
use mathlib.Core.List.{reverse}
use swift_cidr_admission.Base.{
  ℕ, ◌==◌, leb, Bool, ◌||◌, ◌&&◌, List, [], ◌∷◌, ◌++◌, map, Text, codes, text_eq, if◌then◌else◌,
  any, all,
}
use swift_cidr_admission.Base.Strings.{text_lt, starts_with}
use swift_cidr_admission.Files.{FilePath}
use swift_cidr_admission.Publication.Lines.{components}

-- separator.join(parts)
unfoldable pub join : Text → List Text → Text
join separator [] = []
join separator (part ∷ []) = part
join separator (part ∷ more ∷ parts) = part ++ (separator ++ join separator (more ∷ parts))

-- sorted(names)
insert_name : Text → List Text → List Text
insert_name name [] = name ∷ []
insert_name name (other ∷ names) =
    if text_lt name other then name ∷ other ∷ names else other ∷ insert_name name names

unfoldable pub sort : List Text → List Text
unfolding insert_name
sort [] = []
sort (name ∷ names) = insert_name name (sort names)

-- The characters that re.escape escapes.
special : Text
special = codes "()[]{}?*+-|^$\\.&~# \t\n\r" ++ (11 ∷ 12 ∷ [])

-- re.escape(text)
unfoldable pub re_escape : Text → Text
unfolding special
re_escape [] = []
re_escape (c ∷ text) =
    let rest = re_escape text in if any (λ d. c == d) special then b'\\' ∷ c ∷ rest else c ∷ rest

-- A character that shlex.quote leaves alone: `[\w@%+=:,./-]` in ASCII.
is_safe : ℕ → Bool
is_safe c =
    (leb b'0' c && leb c b'9')
    || (leb b'A' c && leb c b'Z')
    || (leb b'a' c && leb c b'z')
    || any (λ d. c == d) (codes "_@%+=:,./-")

quote_marks : Text → Text
quote_marks [] = []
quote_marks (c ∷ text) =
    let rest = quote_marks text in if c == 39 then codes "'\"'\"'" ++ rest else c ∷ rest

-- shlex.quote(text)
unfoldable pub quote : Text → Text
unfolding is_safe quote_marks
quote [] = codes "''"
quote (c ∷ text) =
    if all is_safe (c ∷ text) then c ∷ text else codes "'" ++ (quote_marks (c ∷ text) ++ codes "'")

-- shlex.join(command)
unfoldable pub shlex_join : List Text → Text
shlex_join command = join (codes " ") (map quote command)

-- part in text
unfoldable pub occurs_in : Text → Text → Bool
occurs_in part [] = starts_with [] part
occurs_in part (c ∷ text) = starts_with (c ∷ text) part || occurs_in part text

-- The parts of a path, less the empty ones and those that name the folder itself.
path_parts : List Text → FilePath
path_parts [] = []
path_parts (part ∷ parts) =
    let rest = path_parts parts in
    if text_eq part [] || text_eq part (codes ".") then rest else part ∷ rest

-- folder / path
unfoldable pub under : FilePath → Text → FilePath
unfolding path_parts
under folder path =
    let parts = path_parts (components [] path) in
    if starts_with path (codes "/") then parts else folder ++ parts

-- A name up to its last dot, if a dot stands inside of it; the second argument is what the text
-- before the first holds.
cut : Text → Text → Text
cut whole [] = whole
cut whole (c ∷ back) =
    if c == b'.' then (elim back [ [] ↦ whole | d ∷ more ↦ reverse (d ∷ more) ]) else cut whole back

unfoldable pub without_suffix : Text → Text
unfolding cut
without_suffix name = elim (reverse name) [
  | [] ↦ []
  | c ∷ back ↦ if c == b'.' then name else cut name (c ∷ back)
]

-- path.with_suffix(suffix)
unfoldable pub with_suffix : FilePath → Text → FilePath
with_suffix [] suffix = []
with_suffix (name ∷ []) suffix = (without_suffix name ++ suffix) ∷ []
with_suffix (part ∷ name ∷ path) suffix = part ∷ with_suffix (name ∷ path) suffix
