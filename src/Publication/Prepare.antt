-- ===== src/Publication/Prepare.antt =====
-- `prepare` and `main` of scripts/prepare-benchmark-publication.py: a publication is staged in a
-- temporary folder beside its destination, verified there, and renamed.
pub mod Moving
pub mod Writing
pub mod Guards
pub mod Staging
pub mod Originals
use mathlib.Core.Option.{Option, none, some}
use swift_cidr_admission.Publication.Readme.{readme}
use swift_cidr_admission.Base.{
  ℕ, Bool, true, false, not, List, [], ◌∷◌, ◌++◌, Text, codes, Result, ok, err, raise, value_error,
  os_error, if◌then◌else◌, any, length,
}
use swift_cidr_admission.Base.Dict.{Dict, same}
use swift_cidr_admission.Files.{
  FilePath, FileSystem, Node, folder, link, node_at, relative_to, files,
}
use swift_cidr_admission.Runtime.{Runtime, Bytes}
use swift_cidr_admission.Publication.Bundle.{bundles, expected_publication}
use swift_cidr_admission.Publication.Verify.{verify_published}
use swift_cidr_admission.Capture.World.{
  World, Action, ◌>=>◌, ◌>->◌, pure, lift, print, for_each, parent, make_folders, make_new_folder,
  write_bytes, decimal,
}
use swift_cidr_admission.Capture.Shell.{under}

-- path.exists()
unfoldable pub exists : FilePath → FileSystem → Bool
exists path fs = elim (node_at path fs) [ none ↦ false | some (link alive) ↦ alive | some _ ↦ true ]

-- path.is_relative_to(root)
unfoldable pub is_relative_to : FilePath → FilePath → Bool
is_relative_to root path = elim (relative_to root path) [ none ↦ false | some rest ↦ true ]

-- What stands below a folder, and the folder, are gone.
unfoldable pub remove_tree : FilePath → FileSystem → FileSystem
remove_tree root [] = []
remove_tree root ((path, node) ∷ fs) =
    let rest = remove_tree root fs in if is_relative_to root path then rest else (path, node) ∷ rest

-- What stands at a folder and below it, at its new place.
unfoldable pub moved : FilePath → FilePath → FileSystem → FileSystem
moved staging destination [] = []
moved staging destination ((path, node) ∷ fs) =
    let others = moved staging destination fs in
    elim (relative_to staging path) [
      | some rest ↦ (destination ++ rest, node) ∷ others
      | none ↦ others
    ]

-- The files after staging.rename(destination), where nothing stands at the destination.
unfoldable pub rename : FilePath → FilePath → FileSystem → FileSystem
rename staging destination fs = moved staging destination fs ++ remove_tree staging fs

unfoldable pub guard : Bool → Text → Action (Unit {0})
guard true message w = (raise value_error message, w)
guard false message w = (ok tt, w)

-- The mode of the command line.
pub data Mode : Type 0 where
  preparing verifying verifying_published : Mode

-- `resolve` is path.resolve(), which follows the links of the file system.
module _ (rt : Runtime) (readme : Text) (resolve : FileSystem → FilePath → FilePath)
    (source destination : FilePath) where
  -- `token` is the end of the name that tempfile chooses, which no file has yet.
  abbrev pub temporary : Text → FilePath
  temporary token = parent destination ++ ((codes ".publication-" ++ token) ∷ [])

  abbrev pub staging : Text → FilePath
  staging token = temporary token ++ (codes "Published" ∷ [])

  -- One turn of the loop over the output.
  pub stage_file : FilePath → Text × Bytes → Action (Unit {0})
  stage_file at (name, bytes) =
      make_folders [] (parent (under at name)) >-> write_bytes (under at name) bytes

  verify_staging : FilePath → Action ℕ
  verify_staging at w = (verify_published rt w.fs at, w)

  -- staging.rename(destination); a folder does not replace a file, a link or a folder with files.
  move : FilePath → Action (Unit {0})
  move at w = elim (node_at destination w.fs) [
    | none ↦ (ok tt, record w { fs = rename at destination w.fs })
    | some node ↦ (raise os_error (codes "Not a directory, or not empty"), w)
  ]

  -- The body of the `with` statement.
  unfoldable pub stage : Text → Dict Bytes → Action (Unit {0})
  unfolding stage_file verify_staging move
  stage token output =
      make_new_folder (staging token)
      >-> (for_each output (stage_file (staging token))
          >-> (verify_staging (staging token) >=> λ n. move (staging token)))

  -- The temporary folder is removed whether the body succeeds or not.
  unfoldable pub within : Text → Action (Unit {0}) → Action (Unit {0})
  within token body w =
      let (result, w') = body w in (result, record w' { fs = remove_tree (temporary token) w'.fs })

  unfoldable pub expected_output : Action (Dict Bytes)
  expected_output w = (expected_publication rt readme w.fs source, w)

  unfoldable pub prepare : Text → Action (Unit {0})
  unfolding expected_output
  prepare token =
      (λ w.
        guard (exists destination w.fs)
          (codes "Destination already exists; use --verify or a new destination") w)
      >-> (for_each bundles (λ name w.
            guard (is_relative_to (resolve w.fs (source ++ (name ∷ []))) (resolve w.fs destination))
              (codes "Destination cannot be inside an original capture") w)
          >-> (expected_output >=> λ output.
              make_folders [] (parent destination)
              >-> (make_new_folder (temporary token) >-> within token (stage token output))))

  -- Whether the files are the expected ones.
  compare_originals : Action (Unit {0})
  compare_originals = (λ w. (files w.fs destination, w)) >=> λ content.
      expected_output >=> λ output.
      guard (not (same content output))
        (codes "Publication differs from expected sanitized originals")

  start : Text → Mode → Action (Unit {0})
  start token preparing = prepare token
  start token verifying = compare_originals
  start token verifying_published = pure tt

-- `main` of the tool, which publishes the constant README.
module _ (rt : Runtime) (resolve : FileSystem → FilePath → FilePath)
    (source destination : FilePath) where
  unfoldable pub main : Text → Mode → Action (Unit {0})
  unfolding start compare_originals verify_staging
  main token mode =
      start rt readme resolve source destination token mode
      >-> (verify_staging rt readme resolve source destination destination >=> λ n. print (
          codes "Verified "
          ++ (decimal n
              ++ (codes " publication files across "
                  ++ (decimal (length bundles) ++ codes " bundles")))))
