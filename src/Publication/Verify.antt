-- ===== src/Publication/Verify.antt =====
-- `verify_published`.
pub mod Soundness
use mathlib.Core.Option.{Option, none, some}
use swift_cidr_admission.Base.{
  ℕ, Bool, false, ◌&&◌, ◌||◌, not, List, [], ◌∷◌, ◌++◌, map, Text, codes, text_eq, Result, ok,
  raise, check, value_error, key_error, ErrorClass, ◌>>=◌, ◌>>◌, length, all, try_map, try_all,
}
use swift_cidr_admission.Base.Dict.{Dict, contains}
use swift_cidr_admission.Json.{Json, string, array, object, Members, end, member, get_key, of_items}
use swift_cidr_admission.Json.{field, iterate}
use swift_cidr_admission.Runtime.{Runtime, Bytes}
use swift_cidr_admission.Files.{FileSystem, FilePath, files}
use swift_cidr_admission.Publication.Manifest.{check_manifest, get_item}
use swift_cidr_admission.Publication.Privacy.{check_privacy}
use swift_cidr_admission.Publication.Transform.{payload_of}
use swift_cidr_admission.Publication.Bundle.{bundles, sums, mapping_name}

-- A value in a set of names: none if it equals no text.
unfoldable pub as_name : Json → Result (Option Text)
as_name (string t) = ok (some t)
as_name (array vs) = raise ErrorClass.type_error (codes "unhashable type: 'list'")
as_name (object m) = raise ErrorClass.type_error (codes "unhashable type: 'dict'")
as_name _ = ok none

listed : Text → List (Option Text) → Bool
listed t [] = false
listed t (none ∷ names) = listed t names
listed t (some s ∷ names) = text_eq s t || listed t names

is_published : Dict Bytes → Option Text → Bool
is_published bundle none = false
is_published bundle (some t) =
    contains t bundle && not (text_eq t sums) && not (text_eq t mapping_name)

-- {row["published"] for row in mapping} == set(bundle) - {"SHA256SUMS", "publication.json"}
unfoldable pub is_complete : Dict Bytes → List (Option Text) → Bool
unfolding listed is_published
is_complete bundle names =
    all (is_published bundle) names
    && all (λ (e : Text × Bytes). text_eq e.0 sums || text_eq e.0 mapping_name || listed e.0 names)
        bundle

-- bundle[key], for a key that need be no text.
unfoldable pub file_named : Dict Bytes → Json → Result Bytes
file_named bundle (string t) = get_item t bundle
file_named bundle v = as_name v >>= λ _. raise key_error (codes "")

-- sha(...) != row["published_sha256"]
is_digest : Text → Json → Bool
is_digest digest (string t) = text_eq digest t
is_digest digest _ = false

unfoldable pub check_row : Runtime → Dict Bytes → Json → Result (Unit {0})
unfolding is_digest
check_row rt bundle row = field (codes "published") row >>= λ name.
    file_named bundle name >>= λ bytes. field (codes "published_sha256") row >>= λ digest.
    check (is_digest (rt.sha256 bytes) digest) value_error
      (codes "Publication mapping hash mismatch")

unfoldable pub row_name : Json → Result (Option Text)
row_name row = field (codes "published") row >>= as_name

-- The rows of `json.loads(bundle["publication.json"])["files"]`.
unfoldable pub rows_of : Runtime → Dict Bytes → Result (List Json)
rows_of rt bundle = get_item mapping_name bundle >>= λ bytes. rt.decode bytes >>= λ text.
    rt.json_loads text >>= λ value. field (codes "files") value >>= iterate

unfoldable pub verify_bundle : Runtime → Dict Bytes → Result (Unit {0})
verify_bundle rt bundle = check_manifest rt bundle sums >>= λ _. rows_of rt bundle >>= λ rows.
    try_map row_name rows >>= λ names.
    check (is_complete bundle names) value_error (codes "Publication mapping is incomplete")
    >> try_all (check_row rt bundle) rows

-- The loop over all published files.
unfoldable pub check_file : Runtime → Text × Bytes → Result (Unit {0})
check_file rt (name, bytes) = payload_of rt name bytes >>= check_privacy rt

unfoldable pub verify_folder : Runtime → FileSystem → FilePath → Text → Result (Unit {0})
verify_folder rt fs destination name = files fs (destination ++ (name ∷ [])) >>= verify_bundle rt

unfoldable pub verify_published : Runtime → FileSystem → FilePath → Result ℕ
verify_published rt fs destination = files fs destination >>= λ content.
    check_manifest rt content sums >>= λ _. try_all (check_file rt) content >>= λ _.
    try_all (verify_folder rt fs destination) bundles >>= λ _. ok (length content)
