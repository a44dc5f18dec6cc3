-- ===== src/Capture/Workspace/Soundness.antt =====
-- What a passing `check_workspace` tells of a variant's files.
use swift_cidr_admission.Base.{
  ◌≡◌, sym, ◌∙◌, ap, subst, [], ◌∷◌, ◌++◌, Text, codes, Result, ok, ok-injective,
}
use swift_cidr_admission.Json.{Json, Members, object, string}
use swift_cidr_admission.Files.{FilePath}
use swift_cidr_admission.Runtime.{Runtime}
use swift_cidr_admission.Capture.World.{World, pure, read_json, sha}
use swift_cidr_admission.Capture.Reading.{json_at, read_json_lem, sha_lem, for_each_sound}
use swift_cidr_admission.Capture.Inversion.{
  affirm_end, step_inversion, then_inversion, lift_inversion,
}
use swift_cidr_admission.Capture.Shell.{under}
use swift_cidr_admission.Capture.Workspace.Account.{
  HasDigest, SourcesRecorded, IsEdited, check_sources_sound, check_edited_sound,
}
use swift_cidr_admission.Capture.Workspace.Equality.{string-json_eq}
use swift_cidr_admission.Capture.Workspace.Records.{AllMembers, entries_sound}
use swift_cidr_admission.Capture.Workspace.{
  json_eq, entries, check_sources, check_edited, check_binary, check_variant, check_package,
}

-- When check_workspace of prepare.py succeeds, every member of the variant's file of sources has the digest of its file, or names one of the two lock files, whose pins then are the recorded ones less those of swift-cidr. The first dependency of the package's state that is swift-cidr is the edited checkout, based on the base commit, the state is returned, and nothing has changed.
pub check_package_sound :
    (rt : Runtime) (work : FilePath) (variant folder : Text) (w : World) {state : Json} {w' : World}
    → check_package rt work variant folder w ≡ (ok state, w')
    → SourcesRecorded rt (work ++ (codes "evidence" ∷ [])) (work ++ (variant ∷ [])) w.fs variant
      × IsEdited rt (work ++ (variant ∷ [])) w.fs folder state
      × (w ≡ w')
unfolding check_package
check_package_sound rt work variant folder w h =
    let root = work ++ (variant ∷ []) in
    let out = work ++ (codes "evidence" ∷ []) in
    let (state, w1, p, h1) = step_inversion (check_edited rt out root folder) _ w h in
    let (_, w2, q, h2) = then_inversion (check_sources rt out root variant) (pure state) w1 h1 in
    let (edited, e) = check_edited_sound rt out root folder w p in
    let (sources, f) = check_sources_sound rt out root variant w1 q in
    (
      subst (λ v. SourcesRecorded rt out root v.fs variant) (sym e) sources,
      subst (λ s. IsEdited rt root w.fs folder s) (ok-injective (ap (λ r. r.0) h2)) edited,
      e ∙ (f ∙ ap (λ r. r.1) h2),
    )

check_binary_sound :
    (rt : Runtime) (entry : Text × Json) (w w' : World)
    → check_binary rt entry w ≡ (ok tt, w')
    → HasDigest rt w.fs (under [] entry.0) entry.1 × (w ≡ w')
unfolding check_binary
check_binary_sound rt (path, checksum) w w' h =
    let (digest, w1, p, k) = step_inversion (sha rt (under [] path)) _ w h in
    let (bytes, read, d, e) = sha_lem rt (under [] path) w p in
    let (same, f) = affirm_end (json_eq (string digest) checksum) path w1 k in
    ((bytes, read, string-json_eq digest checksum same ∙ ap string (sym d)), e ∙ f)

-- When check_workspace of rerun.py succeeds, the variant has a root. Every member of its file of sources has the digest of its file there, or names one of the two lock files, whose pins then are the recorded ones less those of swift-cidr, and the first dependency of the benchmark package's state that is swift-cidr is the edited checkout, based on the base commit. Every member of the file of binaries has the digest of its file, and nothing has changed.
pub check_variant_sound :
    (rt : Runtime) (out : FilePath) (root_of : Text → Result FilePath) (variant : Text) (w : World)
    {w' : World}
    → check_variant rt out root_of variant w ≡ (ok tt, w')
    → ((root : FilePath) × (state : Json) × (binaries : Members) × (root_of variant ≡ ok root)
        × SourcesRecorded rt out root w.fs variant
        × IsEdited rt root w.fs (codes "Benchmarks") state
        × (json_at rt (out ++ (codes "binaries.json" ∷ [])) w.fs ≡ ok (object binaries))
        × AllMembers (λ entry. HasDigest rt w.fs (under [] entry.0) entry.1) binaries)
      × (w ≡ w')
unfolding check_variant
check_variant_sound rt out root_of variant w h =
    let (root, r, h1) = lift_inversion (root_of variant) _ w h in
    let (_, w1, p, h2) = then_inversion (check_sources rt out root variant) _ w h1 in
    let (state, w2, q, h3) =
      step_inversion (check_edited rt out root (codes "Benchmarks")) _ w1 h2 in
    let (binaries, w3, b, h4) =
      step_inversion (read_json rt (out ++ (codes "binaries.json" ∷ []))) _ w2 h3 in
    let (paths, e, h5) = lift_inversion (entries binaries) _ w3 h4 in
    let (sources, f0) = check_sources_sound rt out root variant w p in
    let (edited, f1) = check_edited_sound rt out root (codes "Benchmarks") w1 q in
    let (read, f2) = read_json_lem rt (out ++ (codes "binaries.json" ∷ [])) w2 b in
    let (digests, f3) =
      for_each_sound (λ fs entry. HasDigest rt fs (under [] entry.0) entry.1) (check_binary rt)
        (check_binary_sound rt) paths w3 h5 in
    let (members, is_object, each) =
      entries_sound (λ entry. HasDigest rt w3.fs (under [] entry.0) entry.1) binaries e digests in
    let to1 = sym f0 in
    let to2 = sym (f0 ∙ f1) in
    let to3 = sym (f0 ∙ (f1 ∙ f2)) in
    (
      (
        root,
        state,
        members,
        r,
        sources,
        subst (λ v. IsEdited rt root v.fs (codes "Benchmarks") state) to1 edited,
        subst (λ v. json_at rt (out ++ (codes "binaries.json" ∷ [])) v.fs ≡ ok binaries) to2 read
            ∙ ap ok is_object,
        subst (λ v. AllMembers (λ entry. HasDigest rt v.fs (under [] entry.0) entry.1) members) to3
            each,
      ),
      f0 ∙ (f1 ∙ (f2 ∙ f3)),
    )
