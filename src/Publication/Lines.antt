-- ===== src/Publication/Lines.antt =====
-- How `check_manifest` takes a manifest apart: str.splitlines, str.split and PurePosixPath.
pub mod RoundTrip
use swift_cidr_admission.Base.{
  ℕ, Bool, true, false, ◌&&◌, ◌||◌, not, List, [], ◌∷◌, ◌++◌, Text, codes, text_eq, Result, ok,
  raise, value_error, leb, ◌==◌, any,
}
use swift_cidr_admission.Base.Strings.{starts_with}
use swift_cidr_admission.Publication.Patterns.{is_space}

-- The characters at which str.splitlines ends a line.
unfoldable pub is_break : ℕ → Bool
is_break c =
    (leb 10 c && leb c 13) || (leb 28 c && leb c 30) || c == 0x85 || c == 0x2028 || c == 0x2029

-- The line so far is the second argument; a line feed behind a carriage return ends no line.
unfoldable pub lines_from : Bool → Text → Text → List Text
lines_from cr [] [] = []
lines_from cr (d ∷ line) [] = (d ∷ line) ∷ []
lines_from cr line (c ∷ s) = elim (cr && c == 10) [
  | true ↦ lines_from false line s
  | false ↦ elim (is_break c) [
    | true ↦ line ∷ lines_from (c == 13) [] s
    | false ↦ lines_from false (line ++ (c ∷ [])) s
  ]
]

-- text.splitlines()
unfoldable pub split_lines : Text → List Text
unfolding lines_from is_break
split_lines s = lines_from false [] s

-- s.lstrip()
unfoldable pub strip_left : Text → Text
unfolding is_space
strip_left [] = []
strip_left (c ∷ s) = elim (is_space c) [ true ↦ strip_left s | false ↦ c ∷ s ]

-- The text up to the first white space.
unfoldable pub word : Text → Text
unfolding is_space
word [] = []
word (c ∷ s) = elim (is_space c) [ true ↦ [] | false ↦ c ∷ word s ]

unfoldable pub after_word : Text → Text
unfolding is_space
after_word [] = []
after_word (c ∷ s) = elim (is_space c) [ true ↦ c ∷ s | false ↦ after_word s ]

pair_of : Text → Text → Result (Text × Text)
pair_of w [] = raise value_error (codes "not enough values to unpack")
pair_of w (c ∷ s) = ok (w, c ∷ s)

-- digest, path = line.split(maxsplit=1)
unfoldable pub split_fields : Text → Result (Text × Text)
unfolding pair_of
split_fields line = let s = strip_left line in pair_of (word s) (strip_left (after_word s))

-- The components between slashes, the last one so far as the first argument.
unfoldable pub components : Text → Text → List Text
components part [] = part ∷ []
components part (c ∷ s) = elim (c == b'/') [
  | true ↦ part ∷ components [] s
  | false ↦ components (part ++ (c ∷ [])) s
]

-- PurePosixPath(path).is_absolute()
unfoldable pub is_absolute : Text → Bool
is_absolute path = starts_with path (codes "/")

-- ".." in PurePosixPath(path).parts. (Empty and `.` components are dropped from the parts.)
unfoldable pub climbs : Text → Bool
climbs path = any (λ part. text_eq part (codes "..")) (components [] path)
