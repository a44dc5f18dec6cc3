-- ===== src/Tests/Rerun.antt =====
-- A variant's files and a run over them, on which `check_workspace` and `capture_run` succeed.
use swift_cidr_admission.Capture.Workspace.{
  check_pins, check_binary, revision_of, edited_state, edited_of, check_edited, other_pins,
  original_of, json_eq, is_lock, check_source, check_sources, check_variant, check_package, entries,
}
use swift_cidr_admission.Files.{
  as_posix, path_eq, node_at, FilePath, FileSystem, Node, file, path_lt, relative_to, is_link,
  files,
}
use swift_cidr_admission.Capture.World.{
  path_text, sha, make_new_folder, for_each, read_bytes, read_text, read_json, ◌>->◌, ◌>=>◌, Host,
  World, pure, put_node, file_bytes, is_folder, is_file, parent, write_bytes, write_text,
  write_json, decimal,
}
use swift_cidr_admission.Json.{
  count, to_items, of_items, iterate, get_key, field, Json, Items, object, member, end, array, nil,
  cons, string, number, has_key, set_key,
}
use swift_cidr_admission.Capture.Shell.{
  occurs_in, under, join, sort, re_escape, quote, shlex_join, without_suffix, with_suffix,
}
use swift_cidr_admission.Publication.Lines.{
  strip_left, components, is_break, lines_from, split_lines, word, after_word, split_fields,
  is_absolute, climbs,
}
use swift_cidr_admission.Capture.Compilers.{
  strip, file_name, is_compiler, busy_among, compiler_processes, wait_for_compilers, second, or_now,
  settle,
}
use swift_cidr_admission.Capture.Rerun.{
  prepare_run, capture_run, natural, natural_field, last_name, logs_in, with_metrics, metrics_of,
  metadata_file, say, measure, export_one, archive, baseline_of, collect, metrics_per_case, done,
  check_samples, check_coverage, confirm,
}
use swift_cidr_admission.Base.{
  text_eq, ◌*◌, ◌==◌, if◌then◌else◌, ◌≡◌, refl, [], ◌∷◌, ◌++◌, Text, codes, String, ok,
}
use swift_cidr_admission.Base.Strings.{starts_with, text_lt, ends_with, remove_prefix}
use swift_cidr_admission.Base.Dict.{lookup, contains, insert, same}
use swift_cidr_admission.Runtime.{Runtime}
use swift_cidr_admission.Capture.Reading.{json_at}
use swift_cidr_admission.Capture.Experiment.{
  Experiment, Run, diagnostic_run, pairs_of, names_of, unset, without, set_if, environment,
  settings_of, index_of, root_in, benchmark_tool_update, benchmark_tool_export, package_update,
  package_export, driver_facts,
}
use swift_cidr_admission.Json.{Members}
use swift_cidr_admission.Capture.Workspace.Records.{AllMembers}
use swift_cidr_admission.Capture.Workspace.Account.{SourcesRecorded, IsEdited, HasDigest}
use swift_cidr_admission.Capture.Workspace.Soundness.{check_variant_sound, check_package_sound}
use swift_cidr_admission.Capture.Rerun.Acceptance.{Complete, capture_run-Complete}
use swift_cidr_admission.Capture.PeerProjection.{experiment}
use swift_cidr_admission.Tests.Toy.{toy}
use swift_cidr_admission.Tests.Capture.{host_of, start}
use swift_cidr_admission.Capture.Commands.{
  last, timestamp, run_command, run_checked, output, compress, execute, copy,
}
use swift_cidr_admission.Capture.Metadata.{members_of, start_metadata}
use swift_cidr_admission.Publication.Patterns.{
  is_space, home, temp, private_path, host, linux_host, secrets,
}

abbrev one : String → Json → Json
one key value = object (member (codes key) value end)

abbrev text : String → Json
text t = string (codes t)

abbrev digest : Json
digest = string (toy.sha256 (codes "a"))

abbrev sources : Json
sources = object (
    member (codes "swift-cidr-admission/Package.resolved") (text "before SwiftPM")
      (member (codes "a.swift") digest end))

abbrev checkout : Json
checkout = object (
    member (codes "packageRef") (one "identity" (text "swift-cidr")) (
      member (codes "state")
        (object (
          member (codes "name") (text "edited") (member (codes "path") (text "/r/swift-cidr") end)))
        (member (codes "basedOn")
          (one "state" (
            one "checkoutState" (one "revision" (text "cdc2e592beb9095875bc42fc4c269396b20d99e3"))))
          end)))

abbrev pins : Items → Json
pins items = one "pins" (array items)

abbrev coverage : Json
coverage = object (
    member (codes "cases") (number (codes "8")) (
      member (codes "metric_records") (number (codes "72"))
        (member (codes "minimum_samples") (number (codes "30")) end)))

-- The files of JSON hold one letter each.
abbrev decoded : Text → Json
decoded [] = coverage
decoded (c ∷ t) =
    if c == b's'
    then sources
    else if c == b'e'
    then one "object" (one "dependencies" (array (cons checkout nil)))
    else if c == b'b'
    then object (member (codes "/r/a.swift") digest end)
    else if c == b'o'
    then pins (cons (one "identity" (text "swift-cidr")) (cons (one "identity" (text "other")) nil))
    else if c == b'p'
    then pins (cons (one "identity" (text "other")) nil)
    else coverage

abbrev letters : Runtime
letters = record toy { json_loads = λ t. ok (decoded t) }

abbrev at : String → String → FilePath × Node
at path content = (under [] (codes path), file (codes content))

abbrev variant_files : FileSystem
variant_files =
    at "evidence/r-sources.json" "s"
    ∷ at "evidence/binaries.json" "b"
    ∷ at "evidence/original-root-dependencies.json" "o"
    ∷ at "r/swift-cidr-admission/Package.resolved" "p"
    ∷ at "r/a.swift" "a"
    ∷ at "r/swift-cidr-admission/Benchmarks/.build/workspace-state.json" "e"
    ∷ []

abbrev variant_world : World
variant_world = record start { fs = variant_files }

abbrev variant_root : FilePath
variant_root = codes "r" ∷ []

check_package_sound_example :
    SourcesRecorded letters (codes "evidence" ∷ []) variant_root variant_files (codes "r")
    × IsEdited letters variant_root variant_files
        (codes "Benchmarks")
        (one "object" (one "dependencies" (array (cons checkout nil))))
    × (variant_world ≡ variant_world)
unfolding check_package ◌>=>◌ check_edited read_json read_text read_bytes node_at path_eq under
    starts_with components text_eq edited_of field get_key iterate of_items occurs_in check_pins
    check_source check_sources edited_state entries is_lock json_eq original_of other_pins
    revision_of file_bytes for_each path_text sha ◌>->◌ as_posix count to_items
check_package_sound_example =
    check_package_sound letters [] (codes "r") (codes "Benchmarks") variant_world
      {state = one "object" (one "dependencies" (array (cons checkout nil)))} {w' = variant_world}
      refl

check_variant_sound_example :
    ((root : FilePath) × (state : Json) × (binaries : Members) × (ok variant_root ≡ ok root)
      × SourcesRecorded letters (codes "evidence" ∷ []) root variant_files (codes "r")
      × IsEdited letters root variant_files (codes "Benchmarks") state
      × (json_at letters (codes "evidence" ∷ codes "binaries.json" ∷ []) variant_files
          ≡ ok (object binaries))
      × AllMembers (λ entry. HasDigest letters variant_files (under [] entry.0) entry.1) binaries)
    × (variant_world ≡ variant_world)
unfolding check_package check_variant ◌>=>◌ ◌>->◌ check_sources read_json read_text read_bytes
    node_at path_eq under starts_with components text_eq entries for_each check_source sha is_lock
    json_eq original_of occurs_in field get_key iterate other_pins of_items to_items count
    check_edited edited_of edited_state path_text as_posix revision_of check_binary
check_variant_sound_example =
    check_variant_sound letters (codes "evidence" ∷ []) (λ v. ok variant_root) (codes "r")
      variant_world {w' = variant_world} refl

-- Every command leaves the native results and the summary of the run.
abbrev leave_results : FileSystem → FileSystem
leave_results fs =
    put_node
      (under [] (
        codes
          "Benchmarks/.benchmarkBaselines/CIDRAdmissionBenchmarkTarget/peer-projection-d/results.json"))
      (file (codes "results"))
      (put_node (under [] (codes "raw/d/summary/summary.csv")) (file (codes "rows"))
        (put_node (under [] (codes "raw/d/summary/coverage.json")) (file (codes "c")) fs))

abbrev run : Run
run = diagnostic_run "d" "v" "full"

abbrev small : Experiment
small = record (experiment letters []) {
  sequence = run ∷ [];
  root = λ v. ok [];
  check_workspace = λ v. pure tt;
  storage = λ root. codes "Benchmarks" ∷ [];
}

abbrev machine : Host
machine = host_of (4 * second) (codes "/usr/bin/vim" ∷ []) leave_results

abbrev run_world : World
run_world = record start {
  fs =
      at
        "swift-cidr-admission/Benchmarks/.build/arm64-apple-macosx/release/CIDRAdmissionBenchmarkTarget"
        "a"
      ∷ (
        under [] (codes "evidence/v-binary-sha256.txt"),
        file (toy.sha256 (codes "a") ++ (10 ∷ [])),
      )
      ∷ [];
}

capture_run-Complete_example :
    Complete letters machine small run (((capture_run letters machine small run run_world).1).fs)
unfolding ◌>=>◌ ◌>->◌ for_each put_node file_bytes read_bytes is_folder is_file parent write_bytes
    make_new_folder read_text read_json write_text write_json sha path_text decimal join sort
    re_escape quote shlex_join occurs_in under without_suffix with_suffix last timestamp run_command
    run_checked output compress execute copy pairs_of names_of unset without set_if environment
    settings_of index_of root_in benchmark_tool_update benchmark_tool_export package_update
    package_export driver_facts members_of start_metadata natural natural_field last_name logs_in
    with_metrics metrics_of prepare_run metadata_file say measure export_one archive baseline_of
    collect metrics_per_case done check_samples check_coverage confirm capture_run strip file_name
    is_compiler busy_among compiler_processes or_now settle wait_for_compilers experiment is_break
    lines_from split_lines strip_left word after_word split_fields components is_absolute climbs
    is_space home temp private_path host linux_host secrets text_eq text_lt starts_with ends_with
    remove_prefix lookup contains insert same path_eq path_lt relative_to node_at is_link as_posix
    files count has_key set_key get_key to_items of_items field iterate
capture_run-Complete_example =
    capture_run-Complete letters machine small run run_world
      {w' = (capture_run letters machine small run run_world).1} refl
