-- ===== src/Capture/PeerProjection.antt =====
-- rerun.py of the peer projection capture.
use swift_cidr_admission.Base.{true, List, [], ◌∷◌, ◌++◌, map, Text, codes, text_eq, ok}
use swift_cidr_admission.Json.{boolean}
use swift_cidr_admission.Files.{FilePath}
use swift_cidr_admission.Runtime.{Runtime}
use swift_cidr_admission.Capture.World.{Host, Action, ◌>=>◌, pure}
use swift_cidr_admission.Capture.Workspace.{check_package}
use swift_cidr_admission.Capture.Experiment.{
  Experiment, Run, projection_names, measured, package_update, package_export,
}
use swift_cidr_admission.Capture.Rerun.{rerun}
use swift_cidr_admission.Capture.Rerun

-- SEQUENCE
abbrev pub sequence : List Run
sequence =
    measured "baseline-full-1" "baseline" "full"
    ∷ measured "baseline-timing-1" "baseline" "timing"
    ∷ measured "patched-full-1" "patched" "full"
    ∷ measured "patched-timing-1" "patched" "timing"
    ∷ measured "patched-timing-2" "patched" "timing"
    ∷ measured "patched-full-2" "patched" "full"
    ∷ measured "baseline-timing-2" "baseline" "timing"
    ∷ measured "baseline-full-2" "baseline" "full"
    ∷ []

unfoldable pub experiment : Runtime → FilePath → Experiment
experiment rt work = record {
  work = work;
  variants = map codes ("baseline" ∷ "patched" ∷ []);
  sequence = sequence;
  root = λ variant. ok (work ++ (variant ∷ []));
  check_workspace =
      λ variant. check_package rt work variant (codes "Benchmarks") >=> λ state. pure tt;
  projections = projection_names;
  label_prefix = codes "peer-projection-";
  update = package_update;
  metric_option = codes "--metric";
  export = package_export;
  storage = λ root. root ++ (codes "Benchmarks" ∷ []);
  facts = λ variant.
      (codes "cidr_local_patch_applied", boolean true)
      ∷ (codes "admission_peer_projection_applied", boolean (text_eq variant (codes "patched")))
      ∷ [];
  peer_projection = true;
}

-- capture_run of this capture.
unfoldable pub capture_run : Runtime → Host → FilePath → Run → Action (Unit {0})
capture_run rt host work run = Rerun.capture_run rt host (experiment rt work) run

-- The main program of this capture.
unfoldable pub main : Runtime → Host → FilePath → List Text → Action (Unit {0})
main rt host work args = rerun rt host (experiment rt work) args
