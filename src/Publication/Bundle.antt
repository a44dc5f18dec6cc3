-- ===== src/Publication/Bundle.antt =====
-- `publication_bundle` and `expected_publication`.
pub mod Names
pub mod Manifests
pub mod Contents
use swift_cidr_admission.Base.{
  Bool, true, false, not, List, [], ◌∷◌, ◌++◌, Text, codes, text_eq, Result, ok, err, raise,
  value_error, ErrorClass, ◌>>=◌, if◌then◌else◌, map,
}
use swift_cidr_admission.Base.Dict.{Dict, insert}
use swift_cidr_admission.Json.{Json, boolean, number, string, array, object, end, member, to_items}
use swift_cidr_admission.Runtime.{Runtime, Bytes, indented_ascii}
use swift_cidr_admission.Files.{FileSystem, FilePath, files}
use swift_cidr_admission.Publication.Manifest.{checksum_manifest, check_manifest}
use swift_cidr_admission.Publication.Transform.{transform}

abbrev pub sums : Text
sums = codes "SHA256SUMS"

abbrev pub mapping_name : Text
mapping_name = codes "publication.json"

-- BUNDLES
unfoldable pub bundles : List Text
bundles =
    map (λ name. codes "2026-10-30-" ++ (name ++ codes "-benchmark-1.38.1"))
      (codes "main-5d01867"
        ∷ codes "sampling-followup"
        ∷ codes "patched-cidr-detailed-decision"
        ∷ codes "peer-projection"
        ∷ codes "lazy-peer-projection"
        ∷ codes "two-phase-peer-projection"
        ∷ [])

unfoldable pub target_of : Text → Text
target_of name = if text_eq name sums then codes "ORIGINAL-SHA256SUMS" else name

-- The `except` clause of the loop.
caught : ErrorClass → Bool
caught ErrorClass.value_error = true
caught ErrorClass.os_error = true
caught ErrorClass.eof_error = true
caught _ = false

unfoldable pub located {ℓ} : {A : Type ℓ} → Text → Text → Result A → Result A
unfolding caught
located source name (ok a) = ok a
located source name (err e) =
    if caught e.class
    then raise value_error (source ++ (codes "/" ++ (name ++ (codes ": " ++ e.message))))
    else err e

-- A row of the mapping.
unfoldable pub row_json : Runtime → Text → Bytes → Bytes → Json
row_json rt name original published = object (
    member (codes "original") (string name) (
      member (codes "published") (string (target_of name)) (
        member (codes "original_sha256") (string (rt.sha256 original)) (
          member (codes "published_sha256") (string (rt.sha256 published))
            (member (codes "changed") (boolean (not (text_eq original published))) end)))))

unfoldable pub published_bytes : Runtime → Text → Text → Bytes → Result Bytes
published_bytes rt source name bytes =
    located source name (if text_eq name sums then ok bytes else transform rt name bytes)

-- The loop over the original files, from the output and the mapping so far.
unfoldable pub publish_files :
    Runtime → Text → Dict Bytes → Dict Bytes → List Json → Result (Dict Bytes × List Json)
publish_files rt source [] output rows = ok (output, rows)
publish_files rt source ((name, bytes) ∷ original) output rows =
    published_bytes rt source name bytes >>= λ published.
    publish_files rt source original (insert (target_of name) published output)
      (rows ++ (row_json rt name bytes published ∷ []))

unfoldable pub mapping_json : Text → List Json → Json
mapping_json source rows = object (
    member (codes "schema_version") (number (codes "1")) (
      member (codes "source_bundle") (string source) (
        member (codes "scope")
          (string
            (codes "Sanitized derivative; embedded historical hashes describe original artifacts."))
          (member (codes "files") (array (to_items rows)) end))))

-- `publication_bundle` from the files that it has read; `source` is the folder's name.
unfoldable pub bundle_of : Runtime → Text → Dict Bytes → Result (Dict Bytes)
bundle_of rt source original = check_manifest rt original sums >>= λ _.
    publish_files rt source original [] [] >>= λ (output, rows).
    rt.encode (rt.json_dumps indented_ascii (mapping_json source rows) ++ (10 ∷ [])) >>= λ mapping.
    let output = insert mapping_name mapping output in
    checksum_manifest rt output >>= λ manifest. ok (insert sums manifest output)

-- `publication_bundle(source / name)`
unfoldable pub publication_bundle : Runtime → FileSystem → FilePath → Text → Result (Dict Bytes)
publication_bundle rt fs source name = files fs (source ++ (name ∷ [])) >>= bundle_of rt name

-- output[f"{name}/{path}"] = data, for every file of a bundle.
unfoldable pub add_bundle : Text → Dict Bytes → Dict Bytes → Dict Bytes
add_bundle name [] output = output
add_bundle name ((path, bytes) ∷ bundle) output =
    add_bundle name bundle (insert (name ++ (codes "/" ++ path)) bytes output)

unfoldable pub add_bundles :
    Runtime → FileSystem → FilePath → List Text → Dict Bytes → Result (Dict Bytes)
add_bundles rt fs source [] output = ok output
add_bundles rt fs source (name ∷ names) output = publication_bundle rt fs source name >>= λ bundle.
    add_bundles rt fs source names (add_bundle name bundle output)

-- `readme` is the constant README.
unfoldable pub expected_publication : Runtime → Text → FileSystem → FilePath → Result (Dict Bytes)
expected_publication rt readme fs source = rt.encode readme >>= λ bytes.
    add_bundles rt fs source bundles ((codes "README.md", bytes) ∷ []) >>= λ output.
    checksum_manifest rt output >>= λ manifest. ok (insert sums manifest output)
