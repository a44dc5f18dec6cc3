-- ===== src/Publication/Verify/Soundness.antt =====
-- What a passing `verify_published` tells of the published tree.
use mathlib.Core.Option.{Option, none, some}
use swift_cidr_admission.Base.{
  ℕ, ◌≡◌, ◌∙◌, sym, ap, ◌≢◌, ◌⊎◌, subst, true, ◌||◌, List, [], ◌∷◌, ◌++◌, Text, codes, text_eq,
  text_eq_iff, Result, ok, bind_inversion, ok-injective, check-eq-ok, value_error, arith,
  Bool-cases, Option-cases, false, not, text_eq_refl, inl, inr, All, Some, all, length, try_map,
  try_all, &&_split,
}
use swift_cidr_admission.Base.Dict.{Dict, lookup, NodupKeys}
use swift_cidr_admission.Files.Keys.{files-NodupKeys}
use swift_cidr_admission.Publication.Manifest.Detection.{
  digest_of, digests_of_check, lookup-digests_except,
}
use swift_cidr_admission.Publication.Privacy.{check_privacy, check_text, identifies}
use swift_cidr_admission.Publication.Patterns.{private_path, temp, host, linux_host, secrets}
use swift_cidr_admission.Publication.Transform.{payload_of}
use swift_cidr_admission.Regex.{Regex, search}
use swift_cidr_admission.Regex.Relation.{Occurs, search_iff}
use swift_cidr_admission.Json.{Json, null, boolean, number, string, array, object}
use swift_cidr_admission.Runtime.{Runtime, Bytes}
use swift_cidr_admission.Files.{FileSystem, FilePath, files}
use swift_cidr_admission.Publication.Manifest.{check_manifest, get_item, expected_digests}
use swift_cidr_admission.Publication.Bundle.{bundles, sums, mapping_name}
use swift_cidr_admission.Publication.Verify.{
  as_name, listed, is_published, is_complete, file_named, is_digest, check_row, row_name, rows_of,
  verify_bundle, check_file, verify_folder, verify_published,
}
use swift_cidr_admission.Json.{field}

-- The row names the file and has its digest.
abbrev pub Certifies : Runtime → Text → Bytes → Json → Type 0
Certifies rt p bytes row =
    (field (codes "published") row ≡ ok (string p))
    × (field (codes "published_sha256") row ≡ ok (string (rt.sha256 bytes)))

as_name-eq : (v : Json) (p : Text) → as_name v ≡ ok (some p) → v ≡ string p
unfolding as_name
as_name-eq null p h = absurd (ground arith)
as_name-eq (boolean b) p h = absurd (ground arith)
as_name-eq (number t) p h = absurd (ground arith)
as_name-eq (string t) p h = ground arith
as_name-eq (array vs) p h = absurd (ground arith)
as_name-eq (object m) p h = absurd (ground arith)

is_digest-eq : (d : Text) (v : Json) → is_digest d v ≡ true → v ≡ string d
unfolding is_digest
is_digest-eq d (string t) h = ground (arith, text_eq_iff d t)
is_digest-eq d null h = absurd (ground arith)
is_digest-eq d (boolean b) h = absurd (ground arith)
is_digest-eq d (number t) h = absurd (ground arith)
is_digest-eq d (array vs) h = absurd (ground arith)
is_digest-eq d (object m) h = absurd (ground arith)

get_item_of_lookup :
    (p : Text) (bundle : Dict Bytes) {b : Bytes}
    → lookup p bundle ≡ some b
    → get_item p bundle ≡ ok b
unfolding get_item
get_item_of_lookup p bundle h = ground arith

-- A row that names the file and passes its check certifies it.
check_row-Certifies :
    (rt : Runtime) (bundle : Dict Bytes) (p : Text) (b : Bytes) (row : Json)
    → lookup p bundle ≡ some b
    → row_name row ≡ ok (some p)
    → check_row rt bundle row ≡ ok tt
    → Certifies rt p b row
unfolding check_row row_name file_named
check_row-Certifies rt bundle p b row l n h =
    let (v, e, f) = bind_inversion (field (codes "published") row) _ n in
    let named : field (codes "published") row ≡ ok (string p) = e ∙ ap ok (as_name-eq v p f) in
    let (v', e', h) = bind_inversion (field (codes "published") row) _ h in
    let v'-eq : v' ≡ string p = ok-injective (sym e' ∙ named) in
    let (b', f', h) = bind_inversion (file_named bundle v') _ h in
    let b'-eq : b' ≡ b = ground (arith, f', v'-eq, get_item_of_lookup p bundle {b = b} l) in
    let (d, g, h) = bind_inversion (field (codes "published_sha256") row) _ h in
    let fits : is_digest (rt.sha256 b') d ≡ true = ground arith in
    (named, g ∙ ap ok (is_digest-eq (rt.sha256 b') d fits ∙ ap (λ x. string (rt.sha256 x)) b'-eq))

listed-cons :
    (p : Text) (o : Option Text) (names : List (Option Text))
    → listed p (o ∷ names) ≡ true
    → (o ≡ some p) ⊎ (listed p names ≡ true)
unfolding listed
listed-cons p none names h = inr h
listed-cons p (some s) names h = elim (Bool-cases (text_eq s p)) [
  | inl e ↦ inl (ap some ((text_eq_iff s p).0 e))
  | inr e ↦ inr (ground arith)
]

not-listed-nil : (p : Text) → listed p [] ≡ true → ⊥
unfolding listed
not-listed-nil p h = ground arith

rows-certify :
    (rt : Runtime) (bundle : Dict Bytes) (p : Text) (b : Bytes) (rows : List Json)
    {names : List (Option Text)}
    → lookup p bundle ≡ some b
    → try_map row_name rows ≡ ok names
    → listed p names ≡ true
    → try_all (check_row rt bundle) rows ≡ ok tt
    → Some (Certifies rt p b) rows
rows-certify rt bundle p b [] {names} l n g h =
    not-listed-nil p (subst (λ ns. listed p ns ≡ true) (sym (ok-injective n)) g)
rows-certify rt bundle p b (row ∷ rows) {names} l n g h =
    let (o, e, n) = bind_inversion (row_name row) _ n in
    let (names', e', n) = bind_inversion (try_map row_name rows) _ n in
    let (u, c, h) = bind_inversion (check_row rt bundle row) _ h in
    elim (listed-cons p o names' (subst (λ ns. listed p ns ≡ true) (sym (ok-injective n)) g)) [
      | inl found ↦ inl (check_row-Certifies rt bundle p b row l (e ∙ ap ok found) c)
      | inr found ↦ inr (rows-certify rt bundle p b rows {names = names'} l e' found h)
    ]

covered :
    (p : Text) (b : Bytes) (names : List (Option Text)) (bundle : Dict Bytes)
    → all
        (λ (e : Text × Bytes). text_eq e.0 sums || text_eq e.0 mapping_name || listed e.0 names)
        bundle
      ≡ true
    → lookup p bundle ≡ some b
    → p ≢ sums
    → p ≢ mapping_name
    → listed p names ≡ true
unfolding lookup
covered p b names [] h l n m = absurd (ground arith)
covered p b names ((q, c) ∷ bundle) h l n m = ground (
  arith,
  covered p b names bundle,
  text_eq_iff q p,
  text_eq_iff q sums,
  text_eq_iff q mapping_name,
)

-- In a bundle that `verify_bundle` accepts, the mapping has for every file but the two that the
-- tool adds a row with its name and its digest.
pub verify_bundle-Certifies :
    (rt : Runtime) (bundle : Dict Bytes)
    → verify_bundle rt bundle ≡ ok tt
    → (rows : List Json) × (rows_of rt bundle ≡ ok rows)
      × ((p : Text) (b : Bytes)
          → lookup p bundle ≡ some b
          → p ≢ sums
          → p ≢ mapping_name
          → Some (Certifies rt p b) rows)
unfolding verify_bundle is_complete
verify_bundle-Certifies rt bundle h =
    let (u, c, h) = bind_inversion (check_manifest rt bundle sums) _ h in
    let (rows, r, h) = bind_inversion (rows_of rt bundle) _ h in
    let (names, n, h) = bind_inversion (try_map row_name rows) _ h in
    let (g, h) =
      check-eq-ok (is_complete bundle names) value_error _ (try_all (check_row rt bundle) rows) h in
    let (x, y) = &&_split (all (is_published bundle) names) _ g in
    (
      rows,
      r,
      λ p b l ne me.
          rows-certify rt bundle p b rows {names = names} l n (covered p b names bundle y l ne me)
            h,
    )

try_all-All :
    {A : Type 0} (f : A → Result (Unit {0})) (xs : List A)
    → try_all f xs ≡ ok tt
    → All (λ x. f x ≡ ok tt) xs
try_all-All f [] h = tt
try_all-All f (x ∷ xs) h = let (u, c, h) = bind_inversion (f x) _ h in (c, try_all-All f xs h)

-- The manifest `sums` of the files can be read, and lists the digest of every other file, and nothing else.
abbrev pub IsListed : Runtime → Dict Bytes → Type 0
IsListed rt content =
    (manifest : Bytes) × (digests : Dict Text) × (lookup sums content ≡ some manifest)
    × (expected_digests rt manifest ≡ ok digests)
    × (lookup sums digests ≡ none)
    × ((p : Text) → p ≢ sums → lookup p digests ≡ digest_of rt (lookup p content))

get_item-lookup :
    (p : Text) (content : Dict Bytes) {b : Bytes}
    → get_item p content ≡ ok b
    → lookup p content ≡ some b
unfolding get_item
get_item-lookup p content h = elim (Option-cases (lookup p content)) [
  | inl e ↦ absurd (ground (arith, h, e))
  | inr (b, e) ↦ ground (arith, h, e)
]

check_manifest-IsListed :
    (rt : Runtime) (content : Dict Bytes)
    → NodupKeys content
    → check_manifest rt content sums ≡ ok tt
    → IsListed rt content
check_manifest-IsListed rt content n h =
    let (manifest, digests, read, parsed, same) = digests_of_check rt content sums n h in
    (
      manifest,
      digests,
      get_item-lookup sums content read,
      parsed,
      same sums ∙ ground (arith, lookup-digests_except rt sums sums content, text_eq_refl sums),
      λ p ne. same p ∙ ground (arith, lookup-digests_except rt sums p content, text_eq_iff p sums),
    )

-- The decoded payload of the file holds no private path, no temporary folder, no host and no credential.
abbrev pub IsClean : Runtime → Text × Bytes → Type 0
IsClean rt (name, bytes) =
    (payload : Bytes) × (text : Text) × (payload_of rt name bytes ≡ ok payload)
    × (rt.decode payload ≡ ok text)
    × (¬ Occurs private_path none text)
    × (¬ Occurs temp none text)
    × (¬ Occurs (host rt.is_word) none text)
    × (¬ Occurs linux_host none text)
    × (¬ Occurs secrets none text)

not-search : (r : Regex) (t : Text) → search r t ≡ false → ¬ Occurs r none t
not-search r t h o = absurd (ground (arith, h, (search_iff r t).1 o))

check_file-IsClean : (rt : Runtime) (e : Text × Bytes) → check_file rt e ≡ ok tt → IsClean rt e
unfolding check_file check_privacy check_text identifies
check_file-IsClean rt (name, bytes) h =
    let (payload, p, h1) = bind_inversion (payload_of rt name bytes) _ h in
    let (text, q, h2) = bind_inversion (rt.decode payload) _ h1 in
    let (one, h3) = check-eq-ok (not (identifies rt.is_word text)) value_error _ _ h2 in
    let other : search secrets text ≡ false = ground (arith, h3) in
    (
      payload,
      text,
      p,
      q,
      not-search private_path text (ground (arith, one)),
      not-search temp text (ground (arith, one)),
      not-search (host rt.is_word) text (ground (arith, one)),
      not-search linux_host text (ground (arith, one)),
      not-search secrets text other,
    )

checks-AreClean :
    (rt : Runtime) (content : Dict Bytes)
    → try_all (check_file rt) content ≡ ok tt
    → All (IsClean rt) content
checks-AreClean rt [] h = tt
checks-AreClean rt (e ∷ content) h =
    let (u, c, h) = bind_inversion (check_file rt e) _ h in
    (check_file-IsClean rt e c, checks-AreClean rt content h)

-- The folder of a bundle can be read, its manifest lists its files, and its mapping has, for every file but the two that the tool adds, a row with the name and the digest of the file.
abbrev pub IsVerified : Runtime → FileSystem → FilePath → Text → Type 0
IsVerified rt fs destination name =
    (bundle : Dict Bytes) × (rows : List Json) × (files fs (destination ++ (name ∷ [])) ≡ ok bundle)
    × IsListed rt bundle
    × (rows_of rt bundle ≡ ok rows)
    × ((p : Text) (b : Bytes)
        → lookup p bundle ≡ some b
        → p ≢ sums
        → p ≢ mapping_name
        → Some (Certifies rt p b) rows)

verify_folder-IsVerified :
    (rt : Runtime) (fs : FileSystem) (destination : FilePath) (name : Text)
    → verify_folder rt fs destination name ≡ ok tt
    → IsVerified rt fs destination name
unfolding verify_folder verify_bundle
verify_folder-IsVerified rt fs destination name h =
    let (bundle, r, v) = bind_inversion (files fs (destination ++ (name ∷ []))) _ h in
    let (u, m, _) = bind_inversion (check_manifest rt bundle sums) _ v in
    let (rows, q, certified) = verify_bundle-Certifies rt bundle v in
    (
      bundle,
      rows,
      r,
      check_manifest-IsListed rt bundle (files-NodupKeys fs (destination ++ (name ∷ [])) r) m,
      q,
      certified,
    )

folders-AreVerified :
    (rt : Runtime) (fs : FileSystem) (destination : FilePath) (names : List Text)
    → try_all (verify_folder rt fs destination) names ≡ ok tt
    → All (IsVerified rt fs destination) names
folders-AreVerified rt fs destination [] h = tt
folders-AreVerified rt fs destination (name ∷ names) h =
    let (u, c, h) = bind_inversion (verify_folder rt fs destination name) _ h in
    (
      verify_folder-IsVerified rt fs destination name c,
      folders-AreVerified rt fs destination names h,
    )

-- Where `verify_published` returns a number, it is that of the files below the destination. The root's manifest lists the digests of all other files and nothing else, in the payload of every file no private path, temporary folder, host or credential occurs, and the folder of each of the six bundles has a manifest that lists its files and a mapping that has a row with the name and the digest of every file but those two.
pub verify_published_sound :
    (rt : Runtime) (fs : FileSystem) (destination : FilePath) {n : ℕ}
    → verify_published rt fs destination ≡ ok n
    → (content : Dict Bytes) × (files fs destination ≡ ok content)
      × (length content ≡ n)
      × IsListed rt content
      × All (IsClean rt) content
      × All (IsVerified rt fs destination) bundles
unfolding verify_published
verify_published_sound rt fs destination h =
    let (content, r, h) = bind_inversion (files fs destination) _ h in
    let (u, c, h) = bind_inversion (check_manifest rt content sums) _ h in
    let (v, p, h) = bind_inversion (try_all (check_file rt) content) _ h in
    let (w, b, h) = bind_inversion (try_all (verify_folder rt fs destination) bundles) _ h in
    (
      content,
      r,
      ok-injective h,
      check_manifest-IsListed rt content (files-NodupKeys fs destination r) c,
      checks-AreClean rt content p,
      folders-AreVerified rt fs destination bundles b,
    )
