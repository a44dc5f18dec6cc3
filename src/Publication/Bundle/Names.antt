-- ===== src/Publication/Bundle/Names.antt =====
-- The names of the files that are published are relative.
use swift_cidr_admission.Base.{
  ◌==◌, ◌≡◌, refl, subst, Bool, true, false, List, [], ◌∷◌, ◌++◌, Text, codes, text_eq, ok,
  bind_inversion, ok-injective, All, arith, if◌then◌else◌,
}
use swift_cidr_admission.Base.Strings.{starts_with}
use swift_cidr_admission.Base.Dict.{Dict, insert}
use swift_cidr_admission.Files.{FileSystem, FilePath}
use swift_cidr_admission.Runtime.{Runtime, Bytes}
use swift_cidr_admission.Publication.Manifest.{checksum_manifest}
use swift_cidr_admission.Publication.Bundle.{
  sums, bundles, publication_bundle, add_bundle, add_bundles, expected_publication,
}

-- The name does not start at the root.
abbrev pub IsRelative : Text → Type 0
IsRelative name = starts_with name (codes "/") ≡ false

-- The name of a folder.
abbrev IsFolderName : Text → Type 0
IsFolderName [] = ⊥
IsFolderName (c ∷ name) = (c == b'/') ≡ false

abbrev pub AreRelative : Dict Bytes → Type 0
AreRelative output = All (λ e. IsRelative (e.0)) output

AreRelative-if :
    (c : Bool) (one other : Dict Bytes)
    → AreRelative one
    → AreRelative other
    → AreRelative (if c then one else other)
AreRelative-if true one other h k = h
AreRelative-if false one other h k = k

AreRelative-insert :
    (name : Text) (bytes : Bytes) (output : Dict Bytes)
    → IsRelative name
    → AreRelative output
    → AreRelative (insert name bytes output)
unfolding insert
AreRelative-insert name bytes [] h k = (h, tt)
AreRelative-insert name bytes ((other, b) ∷ output) h k =
    AreRelative-if (text_eq other name) ((other, bytes) ∷ output)
      ((other, b) ∷ insert name bytes output) (k.0, k.1)
      (k.0, AreRelative-insert name bytes output h (k.1))

inside_IsRelative : (name rest : Text) → IsFolderName name → IsRelative (name ++ rest)
unfolding starts_with
inside_IsRelative [] rest h = absurd h
inside_IsRelative (c ∷ name) rest h = ground (arith, h)

add_bundle-AreRelative :
    (name : Text) (bundle output : Dict Bytes)
    → IsFolderName name
    → AreRelative output
    → AreRelative (add_bundle name bundle output)
unfolding add_bundle
add_bundle-AreRelative name [] output h k = k
add_bundle-AreRelative name ((path, bytes) ∷ bundle) output h k =
    add_bundle-AreRelative name bundle (insert (name ++ (codes "/" ++ path)) bytes output) h (
      AreRelative-insert (name ++ (codes "/" ++ path)) bytes output
        (inside_IsRelative name (codes "/" ++ path) h) k)

module _ (rt : Runtime) (fs : FileSystem) (source : FilePath) where
  add_bundles-AreRelative :
      (names : List Text) (output result : Dict Bytes)
      → All IsFolderName names
      → AreRelative output
      → add_bundles rt fs source names output ≡ ok result
      → AreRelative result
  unfolding add_bundles
  add_bundles-AreRelative [] output result h k e = subst AreRelative (ok-injective e) k
  add_bundles-AreRelative (name ∷ names) output result h k e =
      let (bundle, published, rest) = bind_inversion (publication_bundle rt fs source name) _ e in
      add_bundles-AreRelative names (add_bundle name bundle output) result (h.1)
        (add_bundle-AreRelative name bundle output (h.0) k) rest

  bundles_are_folders : All IsFolderName bundles
  unfolding bundles
  bundles_are_folders = (refl, (refl, (refl, (refl, (refl, (refl, tt))))))

  pub expected_publication-AreRelative :
      (readme : Text) (output : Dict Bytes)
      → expected_publication rt readme fs source ≡ ok output
      → AreRelative output
  unfolding expected_publication starts_with
  expected_publication-AreRelative readme output e =
      let (bytes, encoded, e1) = bind_inversion (rt.encode readme) _ e in
      let (added, published, e2) =
        bind_inversion (add_bundles rt fs source bundles ((codes "README.md", bytes) ∷ [])) _ e1 in
      let (manifest, listed, e3) = bind_inversion (checksum_manifest rt added) _ e2 in
      subst AreRelative (ok-injective e3) (
        AreRelative-insert sums manifest added refl (
          add_bundles-AreRelative bundles ((codes "README.md", bytes) ∷ []) added
            bundles_are_folders (refl, tt) published))
