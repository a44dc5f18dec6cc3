-- ===== src/Capture/Rerun.antt =====
-- `capture_run` and the main program of rerun.py.
pub mod Acceptance
use mathlib.Core.Option.{Option, none, some}
use swift_cidr_admission.Base.{
  ℕ, zero, suc, ◌+◌, ◌-◌, ◌*◌, ◌==◌, leb, Bool, true, false, not, ◌||◌, ◌&&◌, List, [], ◌∷◌, ◌++◌,
  map, Text, codes, text_eq, Result, ok, err, raise, type_error, ◌>>=◌, if◌then◌else◌, length, any,
}
use swift_cidr_admission.Base.Dict.{Dict}
use swift_cidr_admission.Base.Strings.{ends_with}
use swift_cidr_admission.Json.{Json, Members, number, string, object, end, member, set_key, field}
use swift_cidr_admission.Files.{FilePath, FileSystem, path_eq}
use swift_cidr_admission.Runtime.{Runtime}
use swift_cidr_admission.Capture.World.{
  Host, World, Action, ◌>=>◌, ◌>->◌, pure, lift, ask, print, affirm, for_each, make_new_folder,
  write_text, write_json, read_text, read_json, read_bytes, sha, is_file, parent, decimal,
  path_text,
}
use swift_cidr_admission.Capture.Compilers.{compiler_processes, wait_for_compilers, strip}
use swift_cidr_admission.Capture.Commands.{timestamp, output, run_checked, execute, compress, copy}
use swift_cidr_admission.Capture.Shell.{join, sort, re_escape, shlex_join, under}
use swift_cidr_admission.Capture.Experiment.{Experiment, Run, names_of, environment, target}
use swift_cidr_admission.Capture.Metadata.{Plan, start_metadata, strings}

-- int(text) of a literal of digits
natural_from : ℕ → Text → Option ℕ
natural_from n [] = some n
natural_from n (c ∷ text) =
    let rest = natural_from (n * 10 + (c - b'0')) text in
    if leb b'0' c && leb c b'9' then rest else none

-- A natural number of coverage.json. The model takes any other value for a TypeError.
unfoldable pub natural : Json → Result ℕ
unfolding natural_from
natural (number (c ∷ text)) = elim (natural_from 0 (c ∷ text)) [
  | some n ↦ ok n
  | none ↦ raise type_error []
]
natural _ = raise type_error []

unfoldable pub natural_field : Text → Json → Result ℕ
natural_field key value = field key value >>= natural

unfoldable pub last_name : FilePath → Text
last_name [] = []
last_name (name ∷ []) = name
last_name (part ∷ name ∷ path) = last_name (name ∷ path)

-- folder.glob('*.log')
unfoldable pub logs_in : FilePath → FileSystem → List FilePath
unfolding last_name
logs_in at [] = []
logs_in at ((path, node) ∷ fs) =
    let rest = logs_in at fs in
    if path_eq (parent path) at && ends_with (last_name path) (codes ".log")
    then path ∷ rest
    else rest

module _ (rt : Runtime) (host : Host) (exp : Experiment) where
  abbrev runs : FilePath
  runs = exp.work ++ (codes "runs" ∷ [])

  abbrev pub evidence : FilePath
  evidence = exp.work ++ (codes "evidence" ∷ [])

  module _ (run : Run) where
    abbrev pub destination : FilePath
    destination = runs ++ (run.name ∷ [])

    abbrev pub temporary : FilePath
    temporary = exp.work ++ (codes "raw" ∷ run.name ∷ [])

    -- The command with its metrics.
    unfoldable pub with_metrics : List Text → List Text → List Text
    with_metrics command [] = command
    with_metrics command (m ∷ ms) = with_metrics (command ++ (exp.metric_option ∷ m ∷ [])) ms

    unfoldable pub metrics_of : List Text
    metrics_of =
        if text_eq run.profile (codes "timing")
        then codes "wallClock" ∷ codes "throughput" ∷ []
        else []

    -- From the checks up to the digest of the executable.
    unfoldable pub prepare_run : Action Plan
    unfolding with_metrics metrics_of
    prepare_run = lift (exp.root run.variant) >=> λ base.
        let package_root = base ++ (codes "swift-cidr-admission" ∷ []) in
        let names = names_of exp run.diagnostics in
        let label = exp.label_prefix ++ run.name in
        let pattern = codes "^(" ++ (join (codes "|") (map re_escape names) ++ codes ")$") in
        let command = with_metrics (exp.update package_root label pattern) metrics_of in
        let executable =
          under package_root (codes "Benchmarks/.build/arm64-apple-macosx/release")
          ++ (target ∷ []) in
        exp.check_workspace run.variant
        >-> (wait_for_compilers host
            >-> (make_new_folder destination
                >-> (make_new_folder temporary
                    >-> (write_text rt (destination ++ (codes "inventory.txt" ∷ []))
                          (join (10 ∷ []) (sort names) ++ (10 ∷ []))
                        >-> (read_text rt
                              (evidence ++ ((run.variant ++ codes "-binary-sha256.txt") ∷ []))
                            >=> λ text. sha rt executable >=> λ digest.
                                affirm (text_eq digest (strip text)) []
                                >-> pure (record {
                                  package_root = package_root;
                                  names = names;
                                  label = label;
                                  command = command;
                                  metrics = metrics_of;
                                  env = environment exp host.environ run.diagnostics;
                                  executable = executable;
                                  binary = strip text;
                                }))))))

    unfoldable pub metadata_file : FilePath
    metadata_file = destination ++ (codes "metadata.json" ∷ [])

    unfoldable pub say : Text → (Text → Text) → Action (Unit {0})
    say prefix text = timestamp host >=> λ now. print (prefix ++ (run.name ++ text now))

    -- The measurement, with the metadata before and after it.
    unfoldable pub measure : Plan → Action Members
    unfolding metadata_file say
    measure plan = start_metadata rt host exp run plan >=> λ metadata.
        write_json rt metadata_file (object metadata)
        >-> (say (codes "START ")
              (λ now. codes ": " ++ (decimal (length plan.names) ++ (codes " cases, " ++ now)))
            >-> (ask host.clock >=> λ started.
                execute rt host plan.command plan.package_root plan.env
                  (temporary ++ (codes "run" ∷ []))
                >-> (timestamp host >=> λ finished. ask host.clock >=> λ ended.
                    output rt host (map codes ("sysctl" ∷ "vm.loadavg" ∷ [])) >=> λ load.
                    output rt host (map codes ("pmset" ∷ "-g" ∷ "batt" ∷ [])) >=> λ power.
                    compiler_processes host >=> λ busy. pure (
                      set_key (codes "compiler_processes_after") (strings busy) (
                        set_key (codes "power_after") (string power) (
                          set_key (codes "load_after") (string load) (
                            set_key (codes "elapsed_seconds")
                              (number (host.seconds (ended - started)))
                              (set_key (codes "execution_finished_at_utc") (string finished)
                                (set_key (codes "exit_code") (number (codes "0")) metadata)))))))))

    unfoldable pub export_one : Plan → Members → Text → Action Members
    export_one plan metadata format =
        let command = exp.export plan.label format in
        execute rt host command plan.package_root plan.env
          (temporary ++ ((codes "export-" ++ format) ∷ []))
        >-> pure (
            set_key (codes "export_" ++ (format ++ codes "_command")) (string (shlex_join command))
              metadata)

    unfoldable pub archive : FilePath → Action (Unit {0})
    unfolding last_name
    archive log = compress rt host log (destination ++ ((last_name log ++ codes ".gz") ∷ []))

    unfoldable pub baseline_of : Plan → FilePath
    baseline_of plan =
        exp.storage plan.package_root
        ++ (codes ".benchmarkBaselines" ∷ target ∷ plan.label ∷ codes "results.json" ∷ [])

    -- The exports, the summary and the archives.
    unfoldable pub collect : Plan → Members → Action Members
    unfolding export_one archive baseline_of logs_in
    collect plan metadata =
        let baseline = baseline_of plan in
        let summary = temporary ++ (codes "summary" ∷ []) in
        (λ w. affirm (is_file baseline w.fs) [] w)
        >-> (export_one plan metadata (codes "influx") >=> λ metadata'.
            export_one plan metadata' (codes "text") >=> λ exported.
            run_checked rt host (
              host.python
              ∷ path_text (exp.work ++ (codes "summarize.py" ∷ []))
              ∷ path_text baseline
              ∷ path_text (temporary ++ (codes "export-influx.stdout.log" ∷ []))
              ∷ path_text (destination ++ (codes "inventory.txt" ∷ []))
              ∷ path_text summary
              ∷ [])
            >-> (for_each (codes "summary.csv" ∷ codes "coverage.json" ∷ [])
                  (λ name. copy (summary ++ (name ∷ [])) (destination ++ (name ∷ [])))
                >-> (compress rt host baseline (destination ++ (codes "baseline.json.gz" ∷ []))
                    >-> ((λ w. for_each (logs_in temporary w.fs) archive w)
                        >-> (read_bytes baseline >=> λ bytes. timestamp host >=> λ finished. pure (
                            set_key (codes "export_finished_at_utc") (string finished) (
                              set_key (codes "native_baseline_sha256") (string (rt.sha256 bytes)) (
                                set_key (codes "native_baseline_bytes")
                                  (number (decimal (length bytes))) exported))))))))

    unfoldable pub metrics_per_case : ℕ
    metrics_per_case = if text_eq run.profile (codes "full") then 9 else 2

    unfoldable pub done : ℕ → Action (Unit {0})
    unfolding say
    done samples =
        say (codes "DONE ")
          (λ now. codes ": minimum " ++ (decimal samples ++ (codes " samples, " ++ now)))

    unfoldable pub check_samples : Json → Action (Unit {0})
    check_samples coverage = lift (natural_field (codes "minimum_samples") coverage) >=> λ samples.
        affirm (leb 30 samples) [] >-> done samples

    -- The checks of what summarize.py counted.
    unfoldable pub check_coverage : Plan → Json → Action (Unit {0})
    unfolding check_samples metrics_per_case
    check_coverage plan coverage = lift (natural_field (codes "cases") coverage) >=> λ cases.
        affirm (cases == length plan.names) []
        >-> (lift (natural_field (codes "metric_records") coverage) >=> λ records.
            affirm (records == length plan.names * metrics_per_case) [] >-> check_samples coverage)

    -- The checks after the run, and the final metadata.
    unfoldable pub confirm : Plan → Members → Action (Unit {0})
    unfolding metadata_file check_coverage
    confirm plan metadata =
        exp.check_workspace run.variant
        >-> (sha rt plan.executable >=> λ digest.
            affirm (text_eq digest plan.binary) (codes "Executable changed during run")
            >-> (write_json rt metadata_file (object metadata)
                >-> (read_json rt (destination ++ (codes "coverage.json" ∷ []))
                    >=> check_coverage plan)))

    unfoldable pub capture_run : Action (Unit {0})
    capture_run =
        prepare_run >=> λ plan. measure plan >=> λ metadata. collect plan metadata >=> confirm plan

  -- if len(sys.argv) == 1 or run[0] in sys.argv[1:]
  unfoldable pub chosen : List Text → List Run → List Run
  chosen [] runs = runs
  chosen (a ∷ args) [] = []
  chosen (a ∷ args) (run ∷ runs) =
      let rest = chosen (a ∷ args) runs in
      if any (text_eq run.name) (a ∷ args) then run ∷ rest else rest

  -- The main program, with the names of runs as arguments.
  unfoldable pub rerun : List Text → Action (Unit {0})
  rerun args =
      for_each exp.variants (λ variant w.
        affirm (is_file (evidence ++ ((variant ++ codes "-binary-sha256.txt") ∷ [])) w.fs) [] w)
      >-> for_each (chosen args exp.sequence) capture_run
