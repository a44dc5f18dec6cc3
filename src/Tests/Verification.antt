-- ===== src/Tests/Verification.antt =====
-- `verify_published` on a small tree, over a runtime whose mapping has no rows.
use mathlib.Core.Option.{some}
use swift_cidr_admission.Base.{
  ◌≡◌, refl, ◌≢◌, List, [], ◌∷◌, ◌++◌, Text, codes, ok, text_eq, All, Some, length,
}
use swift_cidr_admission.Base.Strings.{starts_with, ends_with, remove_prefix, text_lt}
use swift_cidr_admission.Base.Dict.{Dict, lookup, contains, insert, same}
use swift_cidr_admission.Regex.{search}
use swift_cidr_admission.Json.{Json, get_key, of_items}
use swift_cidr_admission.Runtime.{Bytes}
use swift_cidr_admission.Files.{FileSystem, FilePath, file, folder, files}
use swift_cidr_admission.Publication.Patterns.{temp, host, linux_host, secrets, private_path}
use swift_cidr_admission.Publication.Privacy.{check_privacy, identifies}
use swift_cidr_admission.Publication.Transform.{payload_of, is_zipped}
use swift_cidr_admission.Publication.Lines.{
  split_lines, split_fields, strip_left, word, after_word, climbs, components, is_absolute,
}
use swift_cidr_admission.Publication.Manifest.{
  check_manifest, digests_except, manifest_text, sorted, get_item, read_entry, read_entries,
  expected_digests,
}
use swift_cidr_admission.Publication.Bundle.{bundles, sums, mapping_name}
use swift_cidr_admission.Publication.Verify.{
  is_complete, rows_of, verify_bundle, check_file, verify_folder, verify_published,
}
use swift_cidr_admission.Json.{field, iterate}
use swift_cidr_admission.Publication.Verify.Soundness.{
  Certifies, IsListed, IsClean, IsVerified, verify_bundle-Certifies, verify_published_sound,
}
use swift_cidr_admission.Tests.Toy.{toy}

abbrev mapping_bytes : Bytes
mapping_bytes = codes "{}"

abbrev mapping_files : Dict Bytes
mapping_files = (mapping_name, mapping_bytes) ∷ []

abbrev one_bundle : Dict Bytes
one_bundle = mapping_files ++ ((sums, manifest_text toy mapping_files) ∷ [])

accepted : verify_bundle toy one_bundle ≡ ok tt
unfolding verify_bundle rows_of field iterate get_key of_items is_complete check_manifest get_item
    expected_digests split_lines split_fields strip_left word after_word climbs components
    is_absolute read_entry read_entries remove_prefix starts_with lookup contains insert same
    digests_except manifest_text text_eq
accepted = refl

verify_bundle-Certifies_example :
    (rows : List Json) × (rows_of toy one_bundle ≡ ok rows)
    × ((p : Text) (b : Bytes)
        → lookup p one_bundle ≡ some b
        → p ≢ sums
        → p ≢ mapping_name
        → Some (Certifies toy p b) rows)
verify_bundle-Certifies_example = verify_bundle-Certifies toy one_bundle accepted

abbrev root : FilePath
root = codes "Published" ∷ []

abbrev bundle_nodes : Text → FileSystem
bundle_nodes name =
    (root ++ (name ∷ []), folder)
    ∷ (root ++ (name ∷ mapping_name ∷ []), file mapping_bytes)
    ∷ (root ++ (name ∷ sums ∷ []), file (manifest_text toy mapping_files))
    ∷ []

abbrev all_nodes : List Text → FileSystem
all_nodes [] = []
all_nodes (name ∷ names) = bundle_nodes name ++ all_nodes names

abbrev all_files : List Text → Dict Bytes
all_files [] = []
all_files (name ∷ names) =
    (name ++ (codes "/" ++ mapping_name), mapping_bytes)
    ∷ (name ++ (codes "/" ++ sums), manifest_text toy mapping_files)
    ∷ all_files names

abbrev tree : FileSystem
tree =
    (root, folder)
    ∷ (root ++ (sums ∷ []), file (manifest_text toy (sorted (all_files bundles))))
    ∷ all_nodes bundles

verified : verify_published toy tree root ≡ ok 13
unfolding verify_published verify_folder verify_bundle check_file check_privacy payload_of is_zipped
    ends_with bundles files rows_of field iterate get_key of_items is_complete check_manifest
    get_item expected_digests split_lines split_fields strip_left word after_word climbs components
    is_absolute read_entry read_entries remove_prefix starts_with lookup contains insert same
    digests_except manifest_text sorted text_eq text_lt identifies search private_path temp host
    linux_host secrets
verified = refl

verify_published_sound_example :
    (content : Dict Bytes) × (files tree root ≡ ok content)
    × (length content ≡ 13)
    × IsListed toy content
    × All (IsClean toy) content
    × All (IsVerified toy tree root) bundles
verify_published_sound_example = verify_published_sound toy tree root verified
