-- ===== src/Publication/Manifest.antt =====
-- `checksum_manifest` and `check_manifest`.
mod Sorted
pub mod Detection
pub mod Acceptance
use mathlib.Core.Option.{Option, none, some}
use swift_cidr_admission.Base.{
  Bool, true, false, ◌||◌, not, List, [], ◌∷◌, ◌++◌, Text, codes, text_eq, Result, ok, err, raise,
  check, value_error, key_error, ◌>>=◌, ◌>>◌, if◌then◌else◌,
}
use swift_cidr_admission.Base.Strings.{text_lt, remove_prefix}
use swift_cidr_admission.Base.Dict.{Dict, lookup, contains, insert, same}
use swift_cidr_admission.Runtime.{Runtime, Bytes}
use swift_cidr_admission.Publication.Lines.{split_lines, split_fields, is_absolute, climbs}

-- sorted(contents.items()): the names of a `dict` differ, so they alone decide.
module _ {ℓ} {V : Type ℓ} where
  unfoldable pub insert_sorted : Text → V → Dict V → Dict V
  insert_sorted k v [] = (k, v) ∷ []
  insert_sorted k v ((j, w) ∷ d) =
      if text_lt j k then (j, w) ∷ insert_sorted k v d else (k, v) ∷ (j, w) ∷ d

  unfoldable pub sorted : Dict V → Dict V
  unfolding insert_sorted
  sorted [] = []
  sorted ((k, v) ∷ d) = insert_sorted k v (sorted d)

-- f"{digest}  {name}\n"
abbrev pub manifest_line : Text → Text → Text
manifest_line digest name = digest ++ (32 ∷ 32 ∷ (name ++ (10 ∷ [])))

-- The digests of all files but the manifest itself.
unfoldable pub digests_except : Runtime → Text → Dict Bytes → Dict Text
digests_except rt name [] = []
digests_except rt name ((p, bytes) ∷ c) =
    let rest = digests_except rt name c in
    if text_eq p name then rest else (p, rt.sha256 bytes) ∷ rest

unfoldable pub manifest_text : Runtime → Dict Bytes → Text
manifest_text rt [] = []
manifest_text rt ((name, bytes) ∷ c) = manifest_line (rt.sha256 bytes) name ++ manifest_text rt c

unfoldable pub checksum_manifest : Runtime → Dict Bytes → Result Bytes
checksum_manifest rt c = rt.encode (manifest_text rt (sorted c))

-- contents[name]
unfoldable pub get_item {ℓ} : {V : Type ℓ} → Text → Dict V → Result V
get_item k d = elim (lookup k d) [ some v ↦ ok v | none ↦ raise key_error k ]

-- One turn of the loop over the lines.
unfoldable pub read_entry : Dict Text → Text → Result (Dict Text)
read_entry expected line = split_fields line >>= λ (digest, field).
    let path = remove_prefix field (codes "*") in
    check (not (is_absolute path || climbs path || contains path expected)) value_error
      (codes "Invalid or duplicate checksum path")
    >> ok (insert path digest expected)

unfoldable pub read_entries : Dict Text → List Text → Result (Dict Text)
read_entries expected [] = ok expected
read_entries expected (line ∷ lines) =
    read_entry expected line >>= λ expected'. read_entries expected' lines

unfoldable pub expected_digests : Runtime → Bytes → Result (Dict Text)
expected_digests rt bytes = rt.decode bytes >>= λ text. read_entries [] (split_lines text)

unfoldable pub check_manifest : Runtime → Dict Bytes → Text → Result (Unit {0})
check_manifest rt contents name = get_item name contents >>= λ bytes.
    expected_digests rt bytes >>= λ expected.
    check (same expected (digests_except rt name contents)) value_error
      (codes "Checksum mismatch or incomplete manifest")
