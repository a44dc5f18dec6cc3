-- ===== src/Tests/Prepare.antt =====
-- Six captures with nothing but an empty manifest, prepared for publication.
use swift_cidr_admission.Base.{
  none, Bool, true, not, ◌&&◌, &&_split, arith, Result, err, ℕ, ◌≡◌, refl, false, some, List, [],
  ◌∷◌, ◌++◌, Text, codes, ok, All,
}
use swift_cidr_admission.Base.Dict.{Dict, lookup, contains, insert, same}
use swift_cidr_admission.Json.{
  Json, object, member, end, array, nil, cons, string, count, has_key, set_key, get_key, to_items,
  of_items, field, iterate,
}
use swift_cidr_admission.Runtime.{Runtime, Bytes}
use swift_cidr_admission.Files.{
  FilePath, FileSystem, file, folder, path_eq, path_lt, relative_to, node_at, is_link, as_posix,
  files,
}
use swift_cidr_admission.Publication.Bundle.{
  bundles, sums, expected_publication, target_of, located, row_json, published_bytes, publish_files,
  mapping_json, bundle_of, publication_bundle, add_bundle, add_bundles,
}
use swift_cidr_admission.Publication.Verify.{
  verify_published, as_name, is_complete, file_named, check_row, row_name, rows_of, verify_bundle,
  check_file, verify_folder,
}
use swift_cidr_admission.Publication.Prepare.{
  exists, is_relative_to, remove_tree, rename, temporary, staging, prepare, guard, stage, within,
  moved, expected_output,
}
use swift_cidr_admission.Files.Paths.{IsApart}
use swift_cidr_admission.Publication.Prepare.Originals.{prepare-Keeps}
use swift_cidr_admission.Publication.Prepare.Staging.{prepare_sound}
use swift_cidr_admission.Publication.Prepare.Guards.{IsFree}
use swift_cidr_admission.Publication.Prepare.Writing.{HaveDistinctPaths, AreThere}
use swift_cidr_admission.Capture.World.{
  World, ◌>=>◌, ◌>->◌, for_each, put_node, file_bytes, read_bytes, is_folder, is_file, parent,
  write_bytes, make_folders, make_new_folder, read_text, read_json, write_text, write_json, sha,
  path_text, decimal,
}
use swift_cidr_admission.Tests.Toy.{toy}
use swift_cidr_admission.Tests.Capture.{start}
use swift_cidr_admission.Capture.Shell.{
  join, sort, re_escape, quote, shlex_join, occurs_in, under, without_suffix, with_suffix,
}
use swift_cidr_admission.Publication.Manifest.{
  insert_sorted, sorted, digests_except, manifest_text, checksum_manifest, get_item, read_entry,
  read_entries, expected_digests, check_manifest,
}
use swift_cidr_admission.Publication.Transform.{
  is_zipped, logical_name, is_json, is_csv, split_line, with_notice, redact_document, redact_table,
  rewrite, seal, payload_of, transform,
}
use swift_cidr_admission.Publication.Redaction.{redact}
use swift_cidr_admission.Publication.Privacy.{identifies, check_text, check_privacy}
use swift_cidr_admission.Publication.Lines.{
  is_break, lines_from, split_lines, strip_left, word, after_word, split_fields, components,
  is_absolute, climbs,
}
use swift_cidr_admission.Publication.Patterns.{
  is_space, home, temp, private_path, host, linux_host, secrets,
}
use swift_cidr_admission.Base.Strings.{text_eq, text_lt, starts_with, ends_with, remove_prefix}
use swift_cidr_admission.Regex.{
  at_boundary, at_end, run_star, run, match_at, search, sub, lit, opt, plus, times, at_least,
  one_of,
}

-- The mapping of each capture has the row of its manifest.
abbrev mapping : Json
mapping = object (
    member (codes "files")
      (array (
        cons
          (object (
            member (codes "published") (string (codes "ORIGINAL-SHA256SUMS"))
              (member (codes "published_sha256") (string (toy.sha256 [])) end)))
          nil))
      end)

abbrev mapped : Runtime
mapped = record toy { json_loads = λ t. ok mapping }

abbrev captures : FilePath
captures = codes "r" ∷ []

abbrev destination : FilePath
destination = codes "p" ∷ codes "out" ∷ []

abbrev capture_files : List Text → FileSystem
capture_files [] = []
capture_files (name ∷ names) =
    (captures ++ (name ∷ []), folder)
    ∷ (captures ++ (name ∷ sums ∷ []), file [])
    ∷ capture_files names

abbrev notes : Text
notes = codes "x"

abbrev before : World
before = record start { fs = (captures, folder) ∷ capture_files bundles }

-- A file system without links.
abbrev unlinked : FileSystem → FilePath → FilePath
unlinked fs path = path

abbrev after : World
after = (prepare mapped notes unlinked captures destination (codes "t") before).1

abbrev value_of : Result (Dict Bytes) → Dict Bytes
value_of (ok output) = output
value_of (err e) = []

abbrev published : Dict Bytes
published = value_of (expected_publication mapped notes before.fs captures)

abbrev differ : Text → Dict Bytes → Bool
differ name [] = true
differ name ((other, bytes) ∷ output) =
    not (path_eq (under [] other) (under [] name)) && differ name output

abbrev are_distinct : Dict Bytes → Bool
are_distinct [] = true
are_distinct ((name, bytes) ∷ output) = differ name output && are_distinct output

differ-All :
    (name : Text) (output : Dict Bytes)
    → differ name output ≡ true
    → All (λ other. path_eq (under [] other.0) (under [] name) ≡ false) output
differ-All name [] h = tt
differ-All name ((other, bytes) ∷ output) h =
    (ground (arith, h), differ-All name output (ground (arith, h)))

are_distinct_sound : (output : Dict Bytes) → are_distinct output ≡ true → HaveDistinctPaths output
are_distinct_sound [] h = tt
are_distinct_sound ((name, bytes) ∷ output) h =
    let (one, rest) = &&_split (differ name output) (are_distinct output) h in
    (differ-All name output one, are_distinct_sound output rest)

published_distinct : are_distinct published ≡ true
unfolding ◌>=>◌ ◌>->◌ for_each put_node file_bytes read_bytes is_folder is_file parent write_bytes
    make_folders make_new_folder read_text read_json write_text write_json sha path_text decimal
    join sort re_escape quote shlex_join occurs_in under without_suffix with_suffix exists
    is_relative_to remove_tree moved rename guard stage within expected_output prepare bundles
    target_of located row_json published_bytes publish_files mapping_json bundle_of
    publication_bundle add_bundle add_bundles expected_publication as_name is_complete file_named
    check_row row_name rows_of verify_bundle check_file verify_folder verify_published insert_sorted
    sorted digests_except manifest_text checksum_manifest get_item read_entry read_entries
    expected_digests check_manifest is_zipped logical_name is_json is_csv split_line with_notice
    redact_document redact_table rewrite seal payload_of transform redact identifies check_text
    check_privacy is_break lines_from split_lines strip_left word after_word split_fields components
    is_absolute climbs is_space home temp private_path host linux_host secrets text_eq text_lt
    starts_with ends_with remove_prefix lookup contains insert same path_eq path_lt relative_to
    node_at is_link as_posix files count has_key set_key get_key to_items of_items field iterate
    at_boundary at_end run_star run match_at search sub lit opt plus times at_least one_of
published_distinct = refl

published_expected : expected_publication mapped notes before.fs captures ≡ ok published
unfolding ◌>=>◌ ◌>->◌ for_each put_node file_bytes read_bytes is_folder is_file parent write_bytes
    make_folders make_new_folder read_text read_json write_text write_json sha path_text decimal
    join sort re_escape quote shlex_join occurs_in under without_suffix with_suffix exists
    is_relative_to remove_tree moved rename guard stage within expected_output prepare bundles
    target_of located row_json published_bytes publish_files mapping_json bundle_of
    publication_bundle add_bundle add_bundles expected_publication as_name is_complete file_named
    check_row row_name rows_of verify_bundle check_file verify_folder verify_published insert_sorted
    sorted digests_except manifest_text checksum_manifest get_item read_entry read_entries
    expected_digests check_manifest is_zipped logical_name is_json is_csv split_line with_notice
    redact_document redact_table rewrite seal payload_of transform redact identifies check_text
    check_privacy is_break lines_from split_lines strip_left word after_word split_fields components
    is_absolute climbs is_space home temp private_path host linux_host secrets text_eq text_lt
    starts_with ends_with remove_prefix lookup contains insert same path_eq path_lt relative_to
    node_at is_link as_posix files count has_key set_key get_key to_items of_items field iterate
    at_boundary at_end run_star run match_at search sub lit opt plus times at_least one_of
published_expected = refl

prepared : prepare mapped notes unlinked captures destination (codes "t") before ≡ (ok tt, after)
unfolding ◌>=>◌ ◌>->◌ for_each put_node file_bytes read_bytes is_folder is_file parent write_bytes
    make_folders make_new_folder read_text read_json write_text write_json sha path_text decimal
    join sort re_escape quote shlex_join occurs_in under without_suffix with_suffix exists
    is_relative_to remove_tree moved rename guard stage within expected_output prepare bundles
    target_of located row_json published_bytes publish_files mapping_json bundle_of
    publication_bundle add_bundle add_bundles expected_publication as_name is_complete file_named
    check_row row_name rows_of verify_bundle check_file verify_folder verify_published insert_sorted
    sorted digests_except manifest_text checksum_manifest get_item read_entry read_entries
    expected_digests check_manifest is_zipped logical_name is_json is_csv split_line with_notice
    redact_document redact_table rewrite seal payload_of transform redact identifies check_text
    check_privacy is_break lines_from split_lines strip_left word after_word split_fields components
    is_absolute climbs is_space home temp private_path host linux_host secrets text_eq text_lt
    starts_with ends_with remove_prefix lookup contains insert same path_eq path_lt relative_to
    node_at is_link as_posix files count has_key set_key get_key to_items of_items field iterate
    at_boundary at_end run_star run match_at search sub lit opt plus times at_least one_of
prepared = refl

destination_is_beside :
    (rest : FilePath)
    → IsApart
        (temporary mapped notes unlinked captures destination (codes "t"))
        (destination ++ rest)
unfolding relative_to text_eq parent
destination_is_beside rest = refl

prepare_sound_example :
    AreThere destination after.fs published
    × IsFree destination before.fs
    × All (λ name. IsApart (captures ++ (name ∷ [])) destination) bundles
    × ((fs : FileSystem) × (n : ℕ) × (verify_published mapped fs
            (staging mapped notes unlinked captures destination (codes "t"))
          ≡ ok n)
        × AreThere (staging mapped notes unlinked captures destination (codes "t")) fs published)
    × ((rest : FilePath)
        → node_at
            (temporary mapped notes unlinked captures destination (codes "t") ++ rest)
            after.fs
          ≡ none)
prepare_sound_example =
    prepare_sound mapped notes unlinked captures destination (codes "t") published before
      {w' = after} published_expected (are_distinct_sound published published_distinct)
      destination_is_beside prepared

abbrev original : FilePath
original = captures ++ (codes "2026-10-30-main-5d01867-benchmark-1.38.1" ∷ sums ∷ [])

original_is_outside :
    IsApart (temporary mapped notes unlinked captures destination (codes "t")) original
    × IsApart destination original
unfolding relative_to text_eq parent
original_is_outside = (refl, refl)

original_stands : node_at original before.fs ≡ some (file [])
unfolding node_at path_eq text_eq bundles
original_stands = refl

prepare-Keeps_example :
    node_at original ((prepare mapped notes unlinked captures destination (codes "t") before).1).fs
    ≡ some (file [])
prepare-Keeps_example =
    prepare-Keeps mapped notes unlinked captures destination (codes "t") original (file [])
      (original_is_outside.0) (original_is_outside.1) before original_stands
