-- ===== src/Capture/TwoPhase.antt =====
-- rerun.py of the two-phase peer projection capture.
use swift_cidr_admission.Base.{true, not, List, [], ◌∷◌, ◌++◌, map, Text, codes, text_eq}
use swift_cidr_admission.Base.Dict.{Dict}
use swift_cidr_admission.Files.{FilePath}
use swift_cidr_admission.Runtime.{Runtime}
use swift_cidr_admission.Capture.World.{Host, Action, parent}
use swift_cidr_admission.Capture.Shell.{under}
use swift_cidr_admission.Capture.Workspace.{check_variant}
use swift_cidr_admission.Capture.Experiment.{
  Experiment, Run, projection_names, measured, benchmark_tool_update, benchmark_tool_export,
  root_in, driver_facts,
}
use swift_cidr_admission.Capture.Rerun.{rerun}
use swift_cidr_admission.Capture.Rerun

-- ROOTS
roots : FilePath → Dict FilePath
roots work =
    let old = parent work ++ (codes "admission-peer-projection.3SFHIj" ∷ []) in
    (codes "baseline", old ++ (codes "baseline" ∷ []))
    ∷ (codes "eager", old ++ (codes "patched" ∷ []))
    ∷ (codes "deferred", under (parent work) (codes "admission-lazy-projection.vfTHye/deferred"))
    ∷ (codes "phased", work ++ (codes "phased" ∷ []))
    ∷ []

-- SEQUENCE
abbrev pub sequence : List Run
sequence =
    measured "baseline-full-1" "baseline" "full"
    ∷ measured "eager-full-1" "eager" "full"
    ∷ measured "deferred-full-1" "deferred" "full"
    ∷ measured "phased-full-1" "phased" "full"
    ∷ measured "phased-timing-1" "phased" "timing"
    ∷ measured "deferred-timing-1" "deferred" "timing"
    ∷ measured "eager-timing-1" "eager" "timing"
    ∷ measured "baseline-timing-1" "baseline" "timing"
    ∷ measured "baseline-timing-2" "baseline" "timing"
    ∷ measured "eager-timing-2" "eager" "timing"
    ∷ measured "deferred-timing-2" "deferred" "timing"
    ∷ measured "phased-timing-2" "phased" "timing"
    ∷ measured "phased-full-2" "phased" "full"
    ∷ measured "deferred-full-2" "deferred" "full"
    ∷ measured "eager-full-2" "eager" "full"
    ∷ measured "baseline-full-2" "baseline" "full"
    ∷ []

unfoldable pub experiment : Runtime → FilePath → Experiment
unfolding roots
experiment rt work =
    let root_of = λ (variant : Text). root_in variant (roots work) in
    let old = parent work ++ (codes "admission-peer-projection.3SFHIj" ∷ []) in
    record {
      work = work;
      variants = map codes ("baseline" ∷ "eager" ∷ "deferred" ∷ "phased" ∷ []);
      sequence = sequence;
      root = root_of;
      check_workspace = check_variant rt (work ++ (codes "evidence" ∷ [])) root_of;
      projections = projection_names;
      label_prefix = codes "two-phase-peer-projection-";
      update = benchmark_tool_update work old;
      metric_option = codes "--metrics";
      export = benchmark_tool_export work old;
      storage = λ root. work;
      facts = driver_facts (λ variant. not (text_eq variant (codes "phased")));
      peer_projection = true;
    }

-- capture_run of this capture.
unfoldable pub capture_run : Runtime → Host → FilePath → Run → Action (Unit {0})
capture_run rt host work run = Rerun.capture_run rt host (experiment rt work) run

-- The main program of this capture.
unfoldable pub main : Runtime → Host → FilePath → List Text → Action (Unit {0})
main rt host work args = rerun rt host (experiment rt work) args
