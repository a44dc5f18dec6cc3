-- ===== src/Publication/Prepare/Staging.antt =====
-- What a `prepare` that succeeds has done.
use swift_cidr_admission.Base.{
  ℕ, ◌≡◌, sym, ◌∙◌, ap, subst, Option, none, some, codes, Result, raise, os_error, ok-injective, [],
  ◌∷◌, ◌++◌, Text, ok, All, arith,
}
use swift_cidr_admission.Base.Dict.{Dict}
use swift_cidr_admission.Files.{FilePath, FileSystem, Node, file, node_at}
use swift_cidr_admission.Files.Paths.{IsApart}
use swift_cidr_admission.Publication.Bundle.Names.{AreRelative, expected_publication-AreRelative}
use swift_cidr_admission.Publication.Prepare.Moving.{
  Holds-remove_tree, Holds-renamed, node_at-remove_tree,
}
use swift_cidr_admission.Publication.Prepare.Writing.{
  under_relative, HaveDistinctPaths, AreThere, for_each-AreThere,
}
use swift_cidr_admission.Publication.Prepare.Guards.{
  guard_sound, IsFree, exists-IsFree, bundle_guards_sound,
}
use swift_cidr_admission.Capture.Keeping.{Holds}
use swift_cidr_admission.Capture.Shell.{under}
use swift_cidr_admission.Runtime.{Runtime, Bytes}
use swift_cidr_admission.Publication.Bundle.{bundles, expected_publication}
use swift_cidr_admission.Publication.Verify.{verify_published}
use swift_cidr_admission.Publication.Prepare.{
  exists, remove_tree, rename, guard, temporary, staging, stage_file, verify_staging, move, stage,
  within, expected_output, prepare,
}
use swift_cidr_admission.Capture.World.{
  World, Action, for_each, make_folders, make_new_folder, parent,
}
use swift_cidr_admission.Capture.Inversion.{step_inversion, then_inversion}

module _ (rt : Runtime) (readme : Text) (resolve : FileSystem → FilePath → FilePath)
    (source destination : FilePath) where
  move_turn :
      (at : FilePath) (o : Option Node) (w : World) {w' : World}
      → ◌≡◌ {A = Result (Unit {0}) × World}
          (elim o [
            | none ↦ (ok tt, record w { fs = rename at destination w.fs })
            | some node ↦ (raise os_error (codes "Not a directory, or not empty"), w)
          ])
          (ok tt, w')
      → w'.fs ≡ rename at destination w.fs
  move_turn at none w h = sym (ap (λ r. (r.1).fs) h)
  move_turn at (some node) w h = absurd (ground (arith, h))

  -- What was staged, verified and renamed.
  abbrev HasStaged : Text → Dict Bytes → FileSystem → Type 0
  HasStaged token output renamed =
      (fs : FileSystem) × (n : ℕ) × (verify_published rt fs
          (staging rt readme resolve source destination token)
        ≡ ok n)
      × AreThere (staging rt readme resolve source destination token) fs output
      × (renamed ≡ rename (staging rt readme resolve source destination token) destination fs)

  stage_sound :
      (token : Text) (output : Dict Bytes) (w : World) {w' : World}
      → AreRelative output
      → HaveDistinctPaths output
      → stage rt readme resolve source destination token output w ≡ (ok tt, w')
      → HasStaged token output w'.fs
  unfolding stage verify_staging move
  stage_sound token output w relative distinct h =
      let at = staging rt readme resolve source destination token in
      let (_, w1, _, h1) = then_inversion (make_new_folder at) _ w h in
      let (_, w2, written, h2) =
        then_inversion (for_each output (stage_file rt readme resolve source destination at)) _ w1
          h1 in
      let (n, w3, v, h3) =
        step_inversion (verify_staging rt readme resolve source destination at)
          (λ n. move rt readme resolve source destination at) w2 h2 in
      (
        w2.fs,
        n,
        ap (λ r. r.0) v,
        for_each-AreThere rt readme resolve source destination at output w1 relative distinct
            written,
        move_turn at (node_at destination w3.fs) w3 h3
            ∙ ap (λ u. rename at destination (u.fs)) (sym (ap (λ r. r.1) v)),
      )

  within_sound :
      (token : Text) (body : Action (Unit {0})) (w : World) {w' : World}
      → within rt readme resolve source destination token body w ≡ (ok tt, w')
      → (body w ≡ (ok tt, (body w).1))
        × (w'.fs
            ≡ remove_tree (temporary rt readme resolve source destination token) (((body w).1).fs))
  unfolding within
  within_sound token body w h =
      (ap (λ r. (r, (body w).1)) (ap (λ r. r.0) h), sym (ap (λ r. (r.1).fs) h))

  -- The files that were staged are at the destination once the temporary folder is gone.
  renamed-AreThere :
      (at gone : FilePath) (fs : FileSystem) (output : Dict Bytes)
      → AreRelative output
      → ((rest : FilePath) → IsApart gone (destination ++ rest))
      → AreThere at fs output
      → AreThere destination (remove_tree gone (rename at destination fs)) output
  renamed-AreThere at gone fs [] relative apart there = tt
  renamed-AreThere at gone fs ((name, bytes) ∷ output) relative apart there =
      let rest = under [] name in
      let staged : Holds (at ++ rest) (file bytes) fs =
        subst (λ q. Holds q (file bytes) fs) (under_relative at name (relative.0)) (there.0) in
      (
        subst (λ q. Holds q (file bytes) (remove_tree gone (rename at destination fs)))
            (sym (under_relative destination name (relative.0)))
            (Holds-remove_tree (destination ++ rest) (file bytes) gone (rename at destination fs)
              (apart rest) (Holds-renamed at destination rest (file bytes) fs staged)),
        renamed-AreThere at gone fs output (relative.1) apart (there.1),
      )

  -- What the `with` statement leaves behind when its body succeeds.
  within-stage_sound :
      (token : Text) (output : Dict Bytes) (w : World) {w' : World}
      → AreRelative output
      → HaveDistinctPaths output
      → ((rest : FilePath)
          → IsApart (temporary rt readme resolve source destination token) (destination ++ rest))
      → within rt readme resolve source destination token
          (stage rt readme resolve source destination token output)
          w
        ≡ (ok tt, w')
      → AreThere destination w'.fs output
        × ((fs : FileSystem) × (n : ℕ) × (verify_published rt fs
                (staging rt readme resolve source destination token)
              ≡ ok n)
            × AreThere (staging rt readme resolve source destination token) fs output)
        × ((rest : FilePath)
            → node_at (temporary rt readme resolve source destination token ++ rest) w'.fs ≡ none)
  within-stage_sound token output w {w'} relative distinct apart h =
      let gone = temporary rt readme resolve source destination token in
      let at = staging rt readme resolve source destination token in
      let (done, left) =
        within_sound token (stage rt readme resolve source destination token output) w h in
      let (fs, n, v, there, renamed) = stage_sound token output w relative distinct done in
      let end : w'.fs ≡ remove_tree gone (rename at destination fs) =
        left ∙ ap (remove_tree gone) renamed in
      (
        subst (λ u. AreThere destination u output) (sym end)
            (renamed-AreThere at gone fs output relative apart there),
        (fs, n, v, there),
        λ rest.
            ap (node_at (gone ++ rest)) end
            ∙ node_at-remove_tree gone rest (rename at destination fs),
      )

  -- When prepare succeeds, what expected_publication gives for the files as they were is at the destination: every file of it stands there with its bytes. Nothing, or a link to nothing, stood at the destination, which resolves to no original capture and to no path in one. A folder of these same files had passed verify_published before it was renamed, and nothing is left of the temporary folder. The conditions: no two names of the publication are of the same path, and the destination is not in the temporary folder.
  pub prepare_sound :
      (token : Text) (output : Dict Bytes) (w : World) {w' : World}
      → expected_publication rt readme w.fs source ≡ ok output
      → HaveDistinctPaths output
      → ((rest : FilePath)
          → IsApart (temporary rt readme resolve source destination token) (destination ++ rest))
      → prepare rt readme resolve source destination token w ≡ (ok tt, w')
      → AreThere destination w'.fs output
        × IsFree destination w.fs
        × All
            (λ name. IsApart (resolve w.fs (source ++ (name ∷ []))) (resolve w.fs destination))
            bundles
        × ((fs : FileSystem) × (n : ℕ) × (verify_published rt fs
                (staging rt readme resolve source destination token)
              ≡ ok n)
            × AreThere (staging rt readme resolve source destination token) fs output)
        × ((rest : FilePath)
            → node_at (temporary rt readme resolve source destination token ++ rest) w'.fs ≡ none)
  unfolding prepare expected_output
  prepare_sound token output w publication distinct apart h =
      let gone = temporary rt readme resolve source destination token in
      let (_, w1, p, h1) =
        then_inversion (λ (v : World). guard (exists destination v.fs) _ v) _ w h in
      let (absent, e) = guard_sound (exists destination w.fs) _ w w1 p in
      let (_, w2, q, h2) = then_inversion (for_each bundles _) _ w1 h1 in
      let (outside, f) = bundle_guards_sound resolve source destination w1 q in
      let (output', w3, o, h3) =
        step_inversion (expected_output rt readme resolve source destination) _ w2 h2 in
      let given : expected_publication rt readme w.fs source ≡ ok output' =
        ap (λ u. expected_publication rt readme (u.fs) source) (e ∙ f) ∙ ap (λ r. r.0) o in
      let same : output' ≡ output = ok-injective (sym given ∙ publication) in
      let (_, w4, _, h4) = then_inversion (make_folders [] (parent destination)) _ w3 h3 in
      let (_, w5, _, h5) = then_inversion (make_new_folder gone) _ w4 h4 in
      let (there, staged, empty) =
        within-stage_sound token output w5
          (expected_publication-AreRelative rt w.fs source readme output publication) distinct apart
          (sym (
              ap
                (λ d.
                  within rt readme resolve source destination token
                    (stage rt readme resolve source destination token d) w5)
                same)
            ∙ h5) in
      (
        there,
        exists-IsFree destination w.fs absent,
        subst
            (λ u.
              All
                (λ name. IsApart (resolve u.fs (source ++ (name ∷ []))) (resolve u.fs destination))
                bundles)
            (sym e) outside,
        staged,
        empty,
      )
