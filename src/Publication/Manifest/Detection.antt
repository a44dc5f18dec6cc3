-- ===== src/Publication/Manifest/Detection.antt =====
-- What a passing `check_manifest` tells of the files.
use mathlib.Core.Option.{Option, none, some}
use swift_cidr_admission.Base.{
  ◌≡◌, refl, ◌∙◌, sym, ◌≢◌, false, not, ◌||◌, List, [], ◌∷◌, Text, codes, text_eq, text_eq_iff, ok,
  value_error, bind_inversion, ok-injective, check-eq-ok, arith, if◌then◌else◌,
}
use swift_cidr_admission.Base.Strings.{remove_prefix}
use swift_cidr_admission.Base.Dict.{Dict, lookup, contains, insert, NodupKeys, insert-NodupKeys}
use swift_cidr_admission.Base.Dict.Same.{lookup_of_same}
use swift_cidr_admission.Runtime.{Runtime, Bytes}
use swift_cidr_admission.Publication.Lines.{split_lines, split_fields, is_absolute, climbs}
use swift_cidr_admission.Publication.Manifest.{
  digests_except, get_item, read_entry, read_entries, expected_digests, check_manifest,
}

abbrev pub digest_of : Runtime → Option Bytes → Option Text
digest_of rt none = none
digest_of rt (some bytes) = some (rt.sha256 bytes)

pub lookup-digests_except :
    (rt : Runtime) (name p : Text) (c : Dict Bytes)
    → lookup p (digests_except rt name c)
      ≡ (if text_eq p name then none else digest_of rt (lookup p c))
unfolding lookup digests_except
lookup-digests_except rt name p [] = ground arith
lookup-digests_except rt name p ((j, b) ∷ c) = ground (
  arith,
  lookup-digests_except rt name p c,
  text_eq_iff p name,
  text_eq_iff j p,
  text_eq_iff j name,
)

contains-digests_except :
    (rt : Runtime) (name p : Text) (c : Dict Bytes)
    → contains p c ≡ false
    → contains p (digests_except rt name c) ≡ false
unfolding contains digests_except
contains-digests_except rt name p [] h = refl
contains-digests_except rt name p ((j, b) ∷ c) h =
    ground (arith, contains-digests_except rt name p c)

pub digests_except-NodupKeys :
    (rt : Runtime) (name : Text) (c : Dict Bytes)
    → NodupKeys c
    → NodupKeys (digests_except rt name c)
unfolding digests_except
digests_except-NodupKeys rt name [] n = tt
digests_except-NodupKeys rt name ((j, b) ∷ c) n =
    ground (arith, digests_except-NodupKeys rt name c, contains-digests_except rt name j c)

read_entry-NodupKeys :
    (d : Dict Text) (line : Text) {e : Dict Text}
    → NodupKeys d
    → read_entry d line ≡ ok e
    → NodupKeys e
unfolding read_entry
read_entry-NodupKeys d line {e} n h =
    let (f, p, q) = bind_inversion (split_fields line) _ h in
    let path = remove_prefix f.1 (codes "*") in
    let (g, r) =
      check-eq-ok (not (is_absolute path || climbs path || contains path d)) value_error _
        (ok (insert path f.0 d)) q in
    ground (arith, insert-NodupKeys path f.0 d n)

read_entries-NodupKeys :
    (lines : List Text) (d : Dict Text) {e : Dict Text}
    → NodupKeys d
    → read_entries d lines ≡ ok e
    → NodupKeys e
unfolding read_entries
read_entries-NodupKeys [] d n h = ground (arith, h)
read_entries-NodupKeys (line ∷ lines) d n h =
    let (d', p, q) = bind_inversion (read_entry d line) _ h in
    read_entries-NodupKeys lines d' (read_entry-NodupKeys d line n p) q

expected_digests-NodupKeys :
    (rt : Runtime) (bytes : Bytes) {e : Dict Text} → expected_digests rt bytes ≡ ok e → NodupKeys e
unfolding expected_digests
expected_digests-NodupKeys rt bytes h =
    let (text, p, q) = bind_inversion (rt.decode bytes) _ h in
    read_entries-NodupKeys (split_lines text) [] tt q

-- A passing check has read digests that are those of the files, name for name.
pub digests_of_check :
    (rt : Runtime) (c : Dict Bytes) (name : Text)
    → NodupKeys c
    → check_manifest rt c name ≡ ok tt
    → (bytes : Bytes) × (expected : Dict Text) × (get_item name c ≡ ok bytes)
      × (expected_digests rt bytes ≡ ok expected)
      × ((p : Text) → lookup p expected ≡ lookup p (digests_except rt name c))
unfolding check_manifest
digests_of_check rt c name n h =
    let (bytes, p, q) = bind_inversion (get_item name c) _ h in
    let (expected, r, s) = bind_inversion (expected_digests rt bytes) _ q in
    (
      bytes,
      expected,
      p,
      r,
      lookup_of_same expected (digests_except rt name c) (expected_digests-NodupKeys rt bytes r)
          (digests_except-NodupKeys rt name c n) (ground arith),
    )

-- Two sets of files with the same bytes under the manifest's name that both pass its check hold the
-- same other names, and under each of these files of the same digest: a file that is added,
-- removed, or changed to another digest makes the check fail.
pub check_manifest_detects :
    (rt : Runtime) (name : Text) (c d : Dict Bytes)
    → NodupKeys c
    → NodupKeys d
    → lookup name c ≡ lookup name d
    → check_manifest rt c name ≡ ok tt
    → check_manifest rt d name ≡ ok tt
    → (p : Text) → p ≢ name
    → digest_of rt (lookup p c) ≡ digest_of rt (lookup p d)
unfolding get_item
check_manifest_detects rt name c d n m e h k p ne =
    let (b, x, g, r, f) = digests_of_check rt c name n h in
    let (b', x', g', r', f') = digests_of_check rt d name m k in
    let same_bytes : b ≡ b' = ok-injective (sym g ∙ ground arith) in
    let same_expected : x ≡ x' = ok-injective (sym r ∙ ground arith) in
    ground (
      arith,
      f p,
      f' p,
      lookup-digests_except rt name p c,
      lookup-digests_except rt name p d,
      text_eq_iff p name,
    )
