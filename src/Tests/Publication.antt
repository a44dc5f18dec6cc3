-- ===== src/Tests/Publication.antt =====
-- Runs of the publication tool over the toy runtime, and its theorems at concrete files.
use mathlib.Core.Option.{some}
use swift_cidr_admission.Base.{
  ◌≡◌, refl, ◌≢◌, false, [], ◌∷◌, ◌++◌, Text, codes, ok, ◌>>=◌, text_eq, arith, length,
}
use swift_cidr_admission.Base.Strings.{starts_with, ends_with, remove_prefix, text_lt}
use swift_cidr_admission.Base.Dict.{Dict, lookup, contains, insert, NodupKeys, same}
use swift_cidr_admission.Publication.Readme.{readme, text_of_lines}
use swift_cidr_admission.Regex.{search, sub}
use swift_cidr_admission.Json.{
  Json, object, array, member, end, string, number, cons, nil, count, set_key,
}
use swift_cidr_admission.Runtime.{Bytes}
use swift_cidr_admission.Publication.Patterns.{
  home, temp, host, linux_host, secrets, private_path, is_space,
}
use swift_cidr_admission.Publication.Redaction.{redact, redact_json}
use swift_cidr_admission.Publication.Redaction.Shape.{shape, shape-redact_json}
use swift_cidr_admission.Publication.Privacy.{check_privacy, identifies}
use swift_cidr_admission.Publication.Transform.{
  transform, payload_of, is_zipped, is_json, is_csv, logical_name, rewrite, seal,
}
use swift_cidr_admission.Publication.Transform.Safety.{transform-IsPrivate, transform_of_clean}
use swift_cidr_admission.Publication.Lines.{
  split_lines, split_fields, strip_left, word, after_word, climbs, components, is_absolute,
  is_break,
}
use swift_cidr_admission.Publication.Manifest.{
  check_manifest, checksum_manifest, digests_except, manifest_text, sorted, get_item, read_entry,
  read_entries, expected_digests,
}
use swift_cidr_admission.Publication.Manifest.Detection.{digest_of, check_manifest_detects}
use swift_cidr_admission.Publication.Manifest.Acceptance.{
  listable, Listable, check_manifest-checksum_manifest,
}
use swift_cidr_admission.Publication.Bundle.{
  sums, mapping_name, target_of, located, published_bytes, publish_files, bundle_of,
}
use swift_cidr_admission.Publication.Bundle.Manifests.{check_manifest-bundle_of}
use swift_cidr_admission.Publication.Bundle.Contents.{
  original_sums, IsPublished, bundle_of-publishes,
}
use swift_cidr_admission.Tests.Toy.{toy, toy-IsLawful}

abbrev log : Text
log = codes "run.log"

abbrev log_bytes : Bytes
log_bytes = codes "at /Users/bob/x"

redacted_log : transform toy log log_bytes ≡ ok (codes "at REDACTED_HOME/x")
unfolding transform payload_of is_zipped logical_name rewrite seal ends_with starts_with text_eq
    redact sub home temp host linux_host check_privacy identifies search private_path secrets
redacted_log = refl

transform-IsPrivate_example :
    (payload_of toy log (codes "at REDACTED_HOME/x") >>= check_privacy toy) ≡ ok tt
transform-IsPrivate_example = transform-IsPrivate toy toy-IsLawful log log_bytes redacted_log

transform_of_clean_example : transform toy log (codes "plain") ≡ ok (codes "plain")
unfolding payload_of is_zipped logical_name is_json is_csv ends_with starts_with text_eq identifies
    search home private_path temp host linux_host secrets
transform_of_clean_example =
    transform_of_clean toy toy-IsLawful log (codes "plain") (codes "plain") (codes "plain")
      (record { not_readme = refl; not_json = refl; not_csv = refl }) refl refl
      (record { no_home = refl; no_identity = refl; no_secret = refl })

abbrev report : Json
report = object (
    member (codes "host") (string (codes "x"))
      (member (codes "n") (array (cons (number (codes "7")) nil)) end))

abbrev redacted_report : Json
redacted_report = object (
    member (codes "host!") (string (codes "x!"))
      (member (codes "n!") (array (cons (number (codes "7")) nil)) end))

shape-redact_json_example : shape redacted_report ≡ shape report
unfolding redact_json count set_key text_eq
shape-redact_json_example = shape-redact_json (λ t. t ++ codes "!") report refl

abbrev digest : Bytes → Text
digest b = toy.sha256 b

abbrev listing : Bytes
listing = digest (codes "x") ++ (codes "  a\n" ++ (digest (codes "yz") ++ codes "  b/c\n"))

abbrev two_files : Dict Bytes
two_files = (codes "b/c", codes "yz") ∷ (codes "a", codes "x") ∷ []

abbrev checked_files : Dict Bytes
checked_files = two_files ++ ((sums, listing) ∷ [])

checked : check_manifest toy checked_files sums ≡ ok tt
unfolding check_manifest get_item expected_digests split_lines split_fields strip_left word
    after_word climbs components is_absolute read_entry read_entries remove_prefix starts_with
    lookup contains insert same digests_except text_eq
checked = refl

checked_files-NodupKeys : NodupKeys checked_files
unfolding contains text_eq
checked_files-NodupKeys = (refl, (refl, (refl, tt)))

-- The same files in another order.
abbrev reordered : Dict Bytes
reordered = (codes "a", codes "x") ∷ (sums, listing) ∷ (codes "b/c", codes "yz") ∷ []

reordered-checked : check_manifest toy reordered sums ≡ ok tt
unfolding check_manifest get_item expected_digests split_lines split_fields strip_left word
    after_word climbs components is_absolute read_entry read_entries remove_prefix starts_with
    lookup contains insert same digests_except text_eq
reordered-checked = refl

reordered-NodupKeys : NodupKeys reordered
unfolding contains text_eq
reordered-NodupKeys = (refl, (refl, (refl, tt)))

same_listing : lookup sums checked_files ≡ lookup sums reordered
unfolding lookup text_eq
same_listing = refl

a-ne-sums : codes "a" ≢ sums
a-ne-sums = ground arith

check_manifest_detects_example :
    digest_of toy (lookup (codes "a") checked_files) ≡ digest_of toy (lookup (codes "a") reordered)
check_manifest_detects_example =
    check_manifest_detects toy sums checked_files reordered checked_files-NodupKeys
      reordered-NodupKeys same_listing checked reordered-checked (codes "a") a-ne-sums

two_files-Listable : Listable two_files
unfolding listable climbs components is_break is_space text_eq
two_files-Listable = (refl, (refl, tt))

two_files-NodupKeys : NodupKeys two_files
unfolding contains text_eq
two_files-NodupKeys = (refl, (refl, tt))

sums-new : contains sums two_files ≡ false
unfolding contains text_eq
sums-new = refl

listed : checksum_manifest toy two_files ≡ ok listing
unfolding checksum_manifest manifest_text sorted text_lt
listed = refl

check_manifest-checksum_manifest_example :
    check_manifest toy (insert sums listing two_files) sums ≡ ok tt
check_manifest-checksum_manifest_example =
    check_manifest-checksum_manifest toy toy-IsLawful sums two_files listing two_files-NodupKeys
      two_files-Listable sums-new listed

abbrev mapping : Bytes
mapping = codes "{}\n"

abbrev bundled : Dict Bytes
bundled =
    (codes "b/c", codes "yz")
    ∷ (codes "a", codes "x")
    ∷ (original_sums, listing)
    ∷ (mapping_name, mapping)
    ∷ []

abbrev bundle_listing : Bytes
bundle_listing = manifest_text toy (sorted bundled)

abbrev bundle : Dict Bytes
bundle = bundled ++ ((sums, bundle_listing) ∷ [])

bundle_run : bundle_of toy (codes "run") checked_files ≡ ok bundle
unfolding bundle_of publish_files published_bytes target_of located transform payload_of is_zipped
    logical_name rewrite seal ends_with starts_with text_eq redact sub home temp host linux_host
    check_privacy identifies search private_path secrets check_manifest get_item expected_digests
    split_lines split_fields strip_left word after_word climbs components is_absolute read_entry
    read_entries remove_prefix lookup contains insert same digests_except checksum_manifest
bundle_run = refl

checked_files-Listable : Listable checked_files
unfolding listable climbs components is_break is_space text_eq
checked_files-Listable = (refl, (refl, (refl, tt)))

check_manifest-bundle_of_example : check_manifest toy bundle sums ≡ ok tt
check_manifest-bundle_of_example =
    check_manifest-bundle_of toy toy-IsLawful (codes "run") checked_files checked_files-Listable
      bundle_run

no_original_sums : contains original_sums checked_files ≡ false
unfolding contains text_eq
no_original_sums = refl

no_mapping : contains mapping_name checked_files ≡ false
unfolding contains text_eq
no_mapping = refl

listing_there : lookup sums checked_files ≡ some listing
unfolding lookup text_eq
listing_there = refl

bundle_of-publishes_example : IsPublished toy (codes "run") bundle sums listing
bundle_of-publishes_example =
    bundle_of-publishes toy (codes "run") checked_files sums checked_files-NodupKeys
      no_original_sums no_mapping listing_there bundle_run

readme-length : length readme ≡ 2795
unfolding readme text_of_lines
readme-length = refl
