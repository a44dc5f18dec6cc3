-- ===== src/Capture/Metadata.antt =====
-- The metadata that `capture_run` of rerun.py writes before the measurement.
use swift_cidr_admission.Base.{
  ℕ, ◌+◌, true, false, List, [], ◌∷◌, ◌++◌, map, Text, codes, text_eq, length,
}
use swift_cidr_admission.Base.Dict.{Dict}
use swift_cidr_admission.Json.{
  Json, Members, null, boolean, number, string, array, object, end, member, to_items,
}
use swift_cidr_admission.Files.{FilePath}
use swift_cidr_admission.Runtime.{Runtime}
use swift_cidr_admission.Capture.World.{Host, Action, ◌>=>◌, pure, lift, decimal, path_text}
use swift_cidr_admission.Capture.Compilers.{compiler_processes}
use swift_cidr_admission.Capture.Commands.{timestamp, output}
use swift_cidr_admission.Capture.Shell.{shlex_join}
use swift_cidr_admission.Capture.Experiment.{Experiment, Run, unset, settings_of, index_of}

unfoldable pub members_of : Dict Json → Members
members_of [] = end
members_of ((k, v) ∷ d) = member k v (members_of d)

abbrev pub strings : List Text → Json
strings texts = array (to_items (map string texts))

-- metrics or None
abbrev metrics_json : List Text → Json
metrics_json [] = null
metrics_json (m ∷ ms) = strings (m ∷ ms)

texts_of : Dict Text → Dict Json
texts_of [] = []
texts_of ((k, v) ∷ d) = (k, string v) ∷ texts_of d

-- What `capture_run` has computed when it builds the metadata.
pub record Plan : Type 0 where
  pub package_root : FilePath
  pub names : List Text
  pub label : Text
  pub command : List Text
  pub metrics : List Text
  pub env : Dict Text
  pub executable : FilePath
  pub binary : Text

-- What the commands that describe the machine print, in their order.
module _ (rt : Runtime) (host : Host) where
  describe : List (Text × List Text) → Action (Dict Json)
  describe [] = pure []
  describe ((key, argv) ∷ more) =
      output rt host (argv) >=> λ text. describe more >=> λ rest. pure ((key, string text) ∷ rest)

  machine : List (Text × List Text)
  machine =
      (codes "swift_version", map codes ("swift" ∷ "--version" ∷ []))
      ∷ (codes "macos", map codes ("sw_vers" ∷ []))
      ∷ (codes "kernel", map codes ("uname" ∷ "-a" ∷ []))
      ∷ (codes "xcode", map codes ("xcodebuild" ∷ "-version" ∷ []))
      ∷ (codes "developer_directory", map codes ("xcode-select" ∷ "-p" ∷ []))
      ∷ (
        codes "hardware",
        map codes ("sysctl" ∷ "machdep.cpu.brand_string" ∷ "hw.logicalcpu" ∷ "hw.memsize" ∷ []),
      )
      ∷ (codes "power_before", map codes ("pmset" ∷ "-g" ∷ "batt" ∷ []))
      ∷ (codes "load_before", map codes ("sysctl" ∷ "vm.loadavg" ∷ []))
      ∷ []

  module _ (exp : Experiment) (run : Run) (plan : Plan) where
    identity_facts : ℕ → Dict Json
    identity_facts index =
        (codes "schema_version", number (codes "3"))
        ∷ (codes "name", string run.name)
        ∷ (codes "variant", string run.variant)
        ∷ (codes "sequence_index", number (decimal (index + 1)))
        ∷ (codes "admission_base_commit", string (codes "5d01867915f257d9d2086a510efe1c20f697b69a"))
        ∷ (codes "cidr_base_commit", string (codes "cdc2e592beb9095875bc42fc4c269396b20d99e3"))
        ∷ exp.facts run.variant

    plan_facts : Dict Json
    plan_facts =
        (
          codes "source_inventory",
          string (codes "../../evidence/" ++ (run.variant ++ codes "-sources.json")),
        )
        ∷ (
          codes "effective_dependency_graph",
          string (codes "../../evidence/" ++ (run.variant ++ codes "-effective-graph.json")),
        )
        ∷ (codes "binary_sha256", string plan.binary)
        ∷ (codes "binary_path", string (path_text plan.executable))
        ∷ (codes "sampling_profile", string (codes "reference"))
        ∷ (codes "metric_profile", string run.profile)
        ∷ (codes "metrics_override", metrics_json plan.metrics)
        ∷ (codes "allocation_stacks", boolean false)
        ∷ (codes "allocation_and_arc_hooks_requested", boolean (text_eq run.profile (codes "full")))
        ∷ (codes "same_linked_instrumentation_for_both_metric_profiles", boolean true)
        ∷ (codes "diagnostics_enabled", boolean run.diagnostics)
        ∷ (codes "expected_cases", number (decimal (length plan.names)))
        ∷ (codes "baseline_name", string plan.label)
        ∷ (codes "command", string (shlex_join plan.command))
        ∷ (codes "cwd", string (path_text plan.package_root))
        ∷ (codes "environment_unset", strings (unset exp))
        ∷ (codes "environment_set", object (members_of (texts_of (settings_of plan.env))))
        ∷ []

    method_facts : List Text → Text → Dict Json
    method_facts busy started =
        (codes "compiler_processes_before", strings busy)
        ∷ (codes "background_workload_controlled", boolean false)
        ∷ (
          codes "percentile_definition",
          string (
              codes
                "Quantiles of measured closure duration divided by batch size; individual-operation quantiles only for batch_size == 1."),
        )
        ∷ (
          codes "throughput_definition",
          string (codes "Median rounded batches/s multiplied by batch size."),
        )
        ∷ (codes "invocation_started_at_utc", string started)
        ∷ []

    unfoldable pub start_metadata : Action Members
    unfolding machine describe identity_facts plan_facts method_facts texts_of
    start_metadata = lift (index_of run.name exp.sequence) >=> λ index.
        describe machine >=> λ texts. compiler_processes host >=> λ busy.
        timestamp host >=> λ started.
        pure (
          members_of (identity_facts index ++ (plan_facts ++ (texts ++ method_facts busy started))))
