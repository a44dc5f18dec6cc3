-- ===== src/Publication/Prepare/Originals.antt =====
-- `prepare` leaves what stands outside of the publication alone, whether it succeeds or fails.
use swift_cidr_admission.Base.{
  ◌≡◌, Bool, true, false, [], ◌∷◌, ◌++◌, Text, codes, some, none, Option, ok, raise, os_error,
}
use swift_cidr_admission.Base.Dict.{Dict}
use swift_cidr_admission.Files.{FilePath, FileSystem, Node, path_eq, node_at}
use swift_cidr_admission.Files.Paths.{IsApart, IsApart-path_eq, IsApart-append}
use swift_cidr_admission.Runtime.{Runtime, Bytes}
use swift_cidr_admission.Publication.Bundle.{bundles}
use swift_cidr_admission.Publication.Bundle.Names.{
  IsRelative, AreRelative, expected_publication-AreRelative,
}
use swift_cidr_admission.Publication.Prepare.{
  exists, is_relative_to, rename, guard, temporary, staging, stage_file, verify_staging, move,
  stage, within, expected_output, prepare,
}
use swift_cidr_admission.Publication.Prepare.Moving.{Holds-remove_tree, Holds-rename}
use swift_cidr_admission.Publication.Prepare.Writing.{Keeps-stage_file}
use swift_cidr_admission.Capture.World.{
  World, Action, for_each, parent, make_folders, make_new_folder,
}
use swift_cidr_admission.Capture.Shell.{under}
use swift_cidr_admission.Capture.Keeping.{
  Holds, Keeps, no_condition, Keeps-step, Keeps-then, Keeps-for_each, HoldsAfter,
  Keeps-make_folders, Keeps-make_new_folder,
}

module _ (rt : Runtime) (readme : Text) (resolve : FileSystem → FilePath → FilePath)
    (source destination : FilePath) (token : Text) (p : FilePath) (n : Node) where
  under-IsApart :
      (at : FilePath) (name : Text)
      → IsRelative name
      → IsApart at p
      → path_eq (under at name) p ≡ false
  unfolding under
  under-IsApart at name relative apart = rw (relative, under) (IsApart-path_eq at _ p apart)

  move_turn :
      (at : FilePath) (o : Option Node) (w : World)
      → IsApart at p
      → IsApart destination p
      → Holds p n w.fs
      → HoldsAfter p n (elim o [
        | none ↦ (ok tt, record w { fs = rename at destination w.fs })
        | some node ↦ (raise os_error (codes "Not a directory, or not empty"), w)
      ])
  move_turn at none w apart free held = Holds-rename p n at destination w.fs apart free held
  move_turn at (some node) w apart free held = held

  Keeps-stage :
      (output : Dict Bytes)
      → AreRelative output
      → IsApart (staging rt readme resolve source destination token) p
      → IsApart destination p
      → Keeps p n (stage rt readme resolve source destination token output)
  unfolding stage verify_staging move
  Keeps-stage output relative apart free =
      let at = staging rt readme resolve source destination token in
      Keeps-then p n (make_new_folder at) _ (Keeps-make_new_folder p n at) (
        Keeps-then p n (for_each output (stage_file rt readme resolve source destination at)) _
          (Keeps-for_each p n (λ e. IsRelative (e.0)) output
            (stage_file rt readme resolve source destination at) relative
            (λ item h.
              Keeps-stage_file rt readme resolve source destination p n at item
                (under-IsApart at (item.0) h apart)))
          (Keeps-step p n (λ k. Unit {0}) (verify_staging rt readme resolve source destination at) _
            (λ w k e. tt) (λ w held. held)
            (λ k t w held. move_turn at (node_at destination w.fs) w apart free held)))

  Keeps-within :
      (body : Action (Unit {0}))
      → IsApart (temporary rt readme resolve source destination token) p
      → Keeps p n body
      → Keeps p n (within rt readme resolve source destination token body)
  unfolding within
  Keeps-within body apart keeps w held =
      Holds-remove_tree p n (temporary rt readme resolve source destination token) (((body w).1).fs)
        apart (keeps w held)

  Keeps-guard : (c : Bool) (message : Text) → Keeps p n (guard c message)
  unfolding guard
  Keeps-guard true message w held = held
  Keeps-guard false message w held = held

  -- On every outcome, success or error, prepare leaves what stands at a path as it was, unless the path is the destination or the temporary folder beside it, or lies in one of them.
  pub prepare-Keeps :
      IsApart (temporary rt readme resolve source destination token) p
      → IsApart destination p
      → (w : World) → node_at p w.fs ≡ some n
      → node_at p ((prepare rt readme resolve source destination token w).1).fs ≡ some n
  unfolding prepare expected_output
  prepare-Keeps apart free =
      Keeps-then p n (λ (w : World). guard (exists destination w.fs) _ w) _
        (λ w held. Keeps-guard (exists destination w.fs) _ w held)
        (Keeps-then p n (for_each bundles _) _
          (Keeps-for_each p n (λ name. Unit {0}) bundles _ (no_condition bundles)
            (λ name t w held.
              Keeps-guard
                (is_relative_to (resolve w.fs (source ++ (name ∷ []))) (resolve w.fs destination)) _
                w held))
          (Keeps-step p n AreRelative (expected_output rt readme resolve source destination) _
            (λ w output e. expected_publication-AreRelative rt w.fs source readme output e)
            (λ w held. held)
            (λ output relative.
              Keeps-then p n (make_folders [] (parent destination)) _
                (Keeps-make_folders p n [] (parent destination))
                (Keeps-then p n
                  (make_new_folder (temporary rt readme resolve source destination token)) _
                  (Keeps-make_new_folder p n (temporary rt readme resolve source destination token))
                  (Keeps-within (stage rt readme resolve source destination token output) apart (
                    Keeps-stage output relative
                      (IsApart-append (temporary rt readme resolve source destination token)
                        (codes "Published" ∷ []) p apart)
                      free))))))
