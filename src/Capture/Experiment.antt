-- ===== src/Capture/Experiment.antt =====
-- What the captures differ in, and the names, commands and environment that each run has.
pub mod Environment
use mathlib.Core.Option.{Option, none, some}
use swift_cidr_admission.Base.{
  ℕ, zero, suc, ◌+◌, Bool, true, false, not, List, [], ◌∷◌, ◌++◌, map, Text, codes, text_eq, Result,
  ok, err, raise, value_error, if◌then◌else◌, any, String, key_error,
}
use swift_cidr_admission.Base.Dict.{Dict, insert, lookup}
use swift_cidr_admission.Base.Strings.{starts_with}
use swift_cidr_admission.Json.{Json, boolean, string}
use swift_cidr_admission.Files.{FilePath}
use swift_cidr_admission.Capture.World.{Action, path_text}
use swift_cidr_admission.Capture.Shell.{under}

-- An entry of SEQUENCE.
pub record Run : Type 0 where
  pub name : Text
  pub variant : Text
  pub profile : Text
  pub diagnostics : Bool

pub record Experiment : Type 0 where
  -- WORK
  pub work : FilePath
  -- The variants whose binaries are built before the first run.
  pub variants : List Text
  pub sequence : List Run
  -- The folder of the sources of a variant.
  pub root : Text → Result FilePath
  pub check_workspace : Text → Action (Unit {0})
  -- The names that a run without diagnostics measures besides the policy decisions.
  pub projections : List Text
  pub label_prefix : Text
  -- The arguments up to the metrics, for a package folder, a label and a pattern.
  pub update : FilePath → Text → Text → List Text
  pub metric_option : Text
  -- The arguments for a label and a format.
  pub export : Text → Text → List Text
  -- The folder of .benchmarkBaselines.
  pub storage : FilePath → FilePath
  -- What the metadata say of a variant after the base commits.
  pub facts : Text → Dict Json
  -- environment() measures the peer projection.
  pub peer_projection : Bool

abbrev pub target : Text
target = codes "CIDRAdmissionBenchmarkTarget"

abbrev pub sizes : List Text
sizes = map codes ("1" ∷ "10" ∷ "50" ∷ "100" ∷ "250" ∷ "500" ∷ "1000" ∷ "10000" ∷ [])

abbrev pub families : List Text
families = codes "v4" ∷ codes "v6" ∷ []

-- [f(x, y) for x in xs for y in ys]
unfoldable pub pairs_of : (Text → Text → Text) → List Text → List Text → List Text
pairs_of f [] ys = []
pairs_of f (x ∷ xs) ys = map (f x) ys ++ pairs_of f xs ys

abbrev pub projection_names : List Text
projection_names =
    pairs_of (λ family scenario. codes "projection." ++ (family ++ (codes "." ++ scenario)))
      families
      (map codes (
        "empty.defaultDeny" ∷ "empty.defaultAllow" ∷ "network.denyFirst.10000"
        ∷ "network.allowFirst.10000" ∷ "address.denyFirst.1" ∷ "range.denyFirst.1"
        ∷ "mixed.denyMissAllowLast.1000" ∷ "mixed.defaultAllowMiss.1000" ∷ []))

diagnostic_names : List Text
unfolding pairs_of
diagnostic_names =
    pairs_of
      (λ family path.
        codes "diagnostic.decision." ++ (family ++ (codes "." ++ (path ++ codes ".10000"))))
      families (map codes ("projectPerRule" ∷ "projectOnce" ∷ "addressBits" ∷ "erasedHost" ∷ []))

policy_names : List Text
policy_names =
    pairs_of
      (λ family size.
        codes "policy.decision." ++ (family ++ (codes ".combined.denyMissAllowLast." ++ size)))
      families sizes

-- The benchmarks that a run measures.
unfoldable pub names_of : Experiment → Bool → List Text
unfolding diagnostic_names policy_names
names_of exp true = diagnostic_names
names_of exp false = policy_names ++ exp.projections

abbrev pub setting : Text → Text
setting name = codes "CIDR_ADMISSION_BENCHMARK_" ++ name

unfoldable pub unset : Experiment → List Text
unset exp =
    setting (codes "TARGET")
    ∷ codes "BENCHMARK_DISABLE_MALLOC_INTERPOSER"
    ∷ codes "BENCHMARK_DISABLE_JEMALLOC"
    ∷ codes "MALLOC_INTERPOSER_LOCAL_PATH"
    ∷ codes "RUNTIME_INTERPOSER_LOCAL_PATH"
    ∷ setting (codes "DIAGNOSTICS")
    ∷ setting (codes "SAMPLING")
    ∷ (if exp.peer_projection then setting (codes "PEER_PROJECTION") ∷ [] else [])

-- env.pop(k, None) for the names
unfoldable pub without : List Text → Dict Text → Dict Text
without names [] = []
without names ((k, v) ∷ env) =
    let rest = without names env in if any (text_eq k) names then rest else (k, v) ∷ rest

unfoldable pub set_if : Bool → Text → Text → Dict Text → Dict Text
set_if true k v env = insert k v env
set_if false k v env = env

-- environment(diagnostics), from os.environ
unfoldable pub environment : Experiment → Dict Text → Bool → Dict Text
unfolding set_if
environment exp environ diagnostics =
    let cleared = without (unset exp) environ in
    let sampled = insert (setting (codes "SAMPLING")) (codes "reference") cleared in
    let projected =
      set_if exp.peer_projection (setting (codes "PEER_PROJECTION")) (codes "1") sampled in
    set_if diagnostics (setting (codes "DIAGNOSTICS")) (codes "1") projected

-- {k: v for k, v in env.items() if k.startswith('CIDR_ADMISSION_BENCHMARK_')}
unfoldable pub settings_of : Dict Text → Dict Text
settings_of [] = []
settings_of ((k, v) ∷ env) =
    let rest = settings_of env in
    if starts_with k (codes "CIDR_ADMISSION_BENCHMARK_") then (k, v) ∷ rest else rest

-- [x[0] for x in SEQUENCE].index(name)
unfoldable pub index_of : Text → List Run → Result ℕ
index_of name [] = raise value_error (codes "is not in list")
index_of name (run ∷ runs) =
    let rest = index_of name runs in
    if text_eq run.name name then ok 0 else elim rest [ err e ↦ err e | ok n ↦ ok (n + 1) ]

abbrev pub measured : String → String → String → Run
measured name variant profile = record {
  name = codes name;
  variant = codes variant;
  profile = codes profile;
  diagnostics = false;
}

abbrev pub diagnostic_run : String → String → String → Run
diagnostic_run name variant profile = record (measured name variant profile) { diagnostics = true }

-- ROOTS[variant]
unfoldable pub root_in : Text → Dict FilePath → Result FilePath
root_in variant roots = elim (lookup variant roots) [
  | some root ↦ ok root
  | none ↦ raise key_error variant
]

release : Text
release = codes "Benchmarks/.build/arm64-apple-macosx/release"

-- The arguments of BenchmarkTool, which lies in the folder of an earlier capture.
tool_prefix : FilePath → FilePath → List Text
unfolding release
tool_prefix work old =
    path_text
      (under old (codes "patched/swift-cidr-admission/" ++ (release ++ codes "/BenchmarkTool")))
    ∷ (map codes ("--grouping" ∷ "benchmark" ∷ "--baseline-storage-path" ∷ [])
        ++ (path_text work
            ∷ codes "--targets"
            ∷ target
            ∷ map codes ("--no-progress" ∷ "--time-units" ∷ "nanoseconds" ∷ [])))

unfoldable pub benchmark_tool_update : FilePath → FilePath → FilePath → Text → Text → List Text
unfolding tool_prefix release
benchmark_tool_update work old package_root label pattern =
    tool_prefix work old
    ++ (map codes ("--command" ∷ "baseline" ∷ "--baseline-operation" ∷ "update" ∷ "--baseline" ∷ [])
        ++ (label
            ∷ (map codes ("--format" ∷ "text" ∷ "--benchmark-executable-paths" ∷ [])
                ++ (path_text (under package_root release ++ (target ∷ []))
                    ∷ codes "--filter"
                    ∷ pattern
                    ∷ []))))

unfoldable pub benchmark_tool_export : FilePath → FilePath → Text → Text → List Text
unfolding tool_prefix
benchmark_tool_export work old label format =
    tool_prefix work old
    ++ (map codes ("--command" ∷ "baseline" ∷ "--baseline-operation" ∷ "read" ∷ "--baseline" ∷ [])
        ++ (label ∷ codes "--format" ∷ format ∷ codes "--path" ∷ codes "stdout" ∷ []))

-- The arguments of the SwiftPM plugin.
package_prefix : List Text
package_prefix = map codes ("swift" ∷ "package" ∷ "--package-path" ∷ "Benchmarks" ∷ [])

unfoldable pub package_update : FilePath → Text → Text → List Text
unfolding package_prefix
package_update package_root label pattern =
    package_prefix
    ++ (map codes
          ("--allow-writing-to-package-directory" ∷ "benchmark" ∷ "baseline" ∷ "update" ∷ [])
        ++ (label
            ∷ codes "--target"
            ∷ target
            ∷ (map codes (
                  "--benchmark-build-configuration" ∷ "release" ∷ "--no-progress" ∷ "--time-units"
                  ∷ "nanoseconds" ∷ "--filter" ∷ [])
                ++ (pattern ∷ []))))

unfoldable pub package_export : Text → Text → List Text
unfolding package_prefix
package_export label format =
    package_prefix
    ++ (map codes ("benchmark" ∷ "baseline" ∷ "read" ∷ [])
        ++ (label
            ∷ codes "--target"
            ∷ target
            ∷ codes "--benchmark-build-configuration"
            ∷ codes "release"
            ∷ codes "--format"
            ∷ format
            ∷ map codes
                ("--path" ∷ "stdout" ∷ "--no-progress" ∷ "--time-units" ∷ "nanoseconds" ∷ [])))

-- The metadata of the captures that start BenchmarkTool themselves.
unfoldable pub driver_facts : (Text → Bool) → Text → Dict Json
driver_facts reused variant =
    (codes "cidr_local_patch_applied", boolean true)
    ∷ (codes "admission_peer_projection", string variant)
    ∷ (
      codes "launcher",
      string (
          codes
            "Direct official BenchmarkTool, identical driver for all variants; no SwiftPM rebuild during timing."),
    )
    ∷ (codes "control_binaries_reused_from_previous_experiment", boolean (reused variant))
    ∷ []
