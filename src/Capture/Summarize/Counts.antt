-- ===== src/Capture/Summarize/Counts.antt =====
-- The rows and the counts that summarize.py writes.
pub mod Totals
use mathlib.Core.Option.{Option, none, some}
use swift_cidr_admission.Base.{
  ℕ, ◌+◌, ◌==◌, ltb, leb, Bool, true, false, not, List, [], ◌∷◌, ◌++◌, map, Text, codes, text_eq,
  Result, ok, err, raise, value_error, key_error, index_error, stop_iteration, ◌>>=◌, ◌>>◌, length,
  if◌then◌else◌, try_map,
}
use swift_cidr_admission.Base.Dict.{Dict, contains, insert, lookup}
use swift_cidr_admission.Json.{
  Json, Members, number, string, object, array, end, member, to_items, field,
}
use swift_cidr_admission.Files.{FilePath}
use swift_cidr_admission.Runtime.{Runtime, indented_sorted, indented_ascii}
use swift_cidr_admission.Publication.Manifest.{sorted}
use swift_cidr_admission.Capture.World.{
  Action, ◌>=>◌, ◌>->◌, lift, pure, print, read_text, read_json, make_new_folder, write_text,
  decimal,
}
use swift_cidr_admission.Capture.Shell.{sort}
use swift_cidr_admission.Capture.Metadata.{members_of, strings}
use swift_cidr_admission.Capture.Summarize.{Cases, Metric, labels, native_cases, read_inventory}
use swift_cidr_admission.Capture.Summarize.Export.{Decimals, Exported, read_export}

-- min(values)
unfoldable pub minimum : List ℕ → Result ℕ
minimum [] = raise value_error (codes "min() arg is an empty sequence")
minimum (n ∷ []) = ok n
minimum (n ∷ m ∷ more) = minimum (m ∷ more) >>= λ least. ok (if ltb least n then least else n)

abbrev pub counts_of : Dict Metric → List ℕ
counts_of metrics = map (λ (e : Text × Metric). (e.1).samples) metrics

-- Of a row of the summary, what the coverage is counted from.
pub record Row : Type 0 where
  pub benchmark : Text
  pub minimum_samples : ℕ
  pub low_sample_count : Bool
  -- The other columns, with the texts that the file has.
  pub columns : Dict Text

-- count_fields
unfoldable pub count_fields : Dict Text
count_fields =
    (codes "mallocCountSmall", codes "malloc_small_p50_per_operation")
    ∷ (codes "mallocCountLarge", codes "malloc_large_p50_per_operation")
    ∷ (codes "mallocCountTotal", codes "malloc_total_p50_per_operation")
    ∷ (codes "objectAllocCount", codes "object_allocations_p50_per_operation")
    ∷ (codes "retainCount", codes "retains_p50_per_operation")
    ∷ (codes "releaseCount", codes "releases_p50_per_operation")
    ∷ (codes "retainReleaseDelta", codes "retain_release_delta_p50_per_operation")
    ∷ []

abbrev pub fields : List Text
fields =
    map codes (
      "benchmark" ∷ "batch_size" ∷ "wall_sample_unit" ∷ "wall_samples" ∷ "throughput_samples"
      ∷ "minimum_metric_samples" ∷ "metrics_recorded" ∷ "low_sample_count"
      ∷ "wall_p50_sample_mean_ns_per_operation" ∷ "wall_p99_sample_mean_ns_per_operation"
      ∷ "throughput_p50_operations_per_second" ∷ [])
    ++ map (λ (e : Text × Text). e.1) count_fields

unfoldable pub truth : Bool → Text
truth true = codes "True"
truth false = codes "False"

-- The part of a name between its first dot and its second.
unfoldable pub part : Text → Text
part [] = []
part (c ∷ t) = let rest = part t in if c == b'.' then [] else c ∷ rest

-- name.split(".")[1]
unfoldable pub category : Text → Result Text
category [] = raise index_error (codes "list index out of range")
category (c ∷ t) = let rest = category t in if c == b'.' then ok (part t) else rest

-- Counter(…), by category
unfoldable pub tally : Dict ℕ → List Text → Dict ℕ
tally d [] = d
tally d (c ∷ cs) = tally (insert c (elim (lookup c d) [ some n ↦ n + 1 | none ↦ 1 ]) d) cs

-- sum(len(m) for m in cases.values())
unfoldable pub metric_records : Cases → ℕ
metric_records [] = 0
metric_records ((name, metrics) ∷ cases) = length metrics + metric_records cases

-- set(LABELS) - set(metrics), sorted
unfoldable pub absent_of : Dict Text → Dict Metric → List Text
absent_of [] metrics = []
absent_of ((metric, label) ∷ more) metrics =
    let rest = absent_of more metrics in if contains metric metrics then rest else metric ∷ rest

unfoldable pub missing_of : Cases → Dict Json
missing_of [] = []
missing_of ((name, metrics) ∷ cases) =
    let rest = missing_of cases in
    elim (sort (absent_of labels metrics)) [
      | [] ↦ rest
      | a ∷ more ↦ (name, strings (a ∷ more)) ∷ rest
    ]

unfoldable pub low_cases : List Row → List Text
low_cases [] = []
low_cases (row ∷ rows) =
    let rest = low_cases rows in if row.low_sample_count then row.benchmark ∷ rest else rest

module _ (dec : Decimals) where
  unfoldable pub value_of : List (Exported (dec.Decimal)) → Text → Text → ℕ → Result (dec.Decimal)
  value_of [] name metric p = raise key_error metric
  value_of (e ∷ exported) name metric p =
      let rest = value_of exported name metric p in
      if text_eq e.case name
      then (if text_eq e.metric metric
          then (if e.percentile == p then ok e.value else rest)
          else rest)
      else rest

  unfoldable pub per_operation : List (Exported (dec.Decimal)) → Text → Text → ℕ → ℕ → Result Text
  per_operation exported name metric p batch =
      value_of exported name metric p >>= λ v. ok (dec.number (dec.over v batch))

  unfoldable pub count_columns :
      List (Exported (dec.Decimal)) → Text → Dict Metric → ℕ → Dict Text → Result (Dict Text)
  count_columns exported name metrics batch [] = ok []
  count_columns exported name metrics batch ((metric, column) ∷ more) =
      let rest = count_columns exported name metrics batch more in
      if contains metric metrics
      then (per_operation exported name metric 50 batch >>= λ v.
          rest >>= λ columns. ok ((column, v) ∷ columns))
      else rest

  unfoldable pub throughput_columns :
      List (Exported (dec.Decimal)) → Text → Dict Metric → ℕ → Result (Dict Text)
  throughput_columns exported name metrics batch =
      if contains (codes "throughput") metrics
      then (value_of exported name (codes "throughput") 50 >>= λ v.
          ok ((codes "throughput_p50_operations_per_second", dec.number (dec.times v batch)) ∷ []))
      else ok []

  -- The row of a case, for the result of its wall clock.
  unfoldable pub row_for : List (Exported (dec.Decimal)) → Text → Dict Metric → Metric → Result Row
  row_for exported name metrics wall = minimum (counts_of metrics) >>= λ least.
      per_operation exported name (codes "wallClock") 50 wall.batch >>= λ p50.
      per_operation exported name (codes "wallClock") 99 wall.batch >>= λ p99.
      throughput_columns exported name metrics wall.batch >>= λ throughput.
      count_columns exported name metrics wall.batch count_fields >>= λ counts. ok (record {
        benchmark = name;
        minimum_samples = least;
        low_sample_count = ltb least 30;
        columns =
            (codes "benchmark", name)
            ∷ (codes "batch_size", decimal wall.batch)
            ∷ (codes "wall_samples", decimal wall.samples)
            ∷ (
              codes "throughput_samples",
              elim (lookup (codes "throughput") metrics) [ some t ↦ decimal t.samples | none ↦ [] ],
            )
            ∷ (codes "minimum_metric_samples", decimal least)
            ∷ (codes "metrics_recorded", decimal (length metrics))
            ∷ (codes "low_sample_count", truth (ltb least 30))
            ∷ (
              codes "wall_sample_unit",
              if wall.batch == 1 then codes "single_operation" else codes "batch_mean",
            )
            ∷ (codes "wall_p50_sample_mean_ns_per_operation", p50)
            ∷ (codes "wall_p99_sample_mean_ns_per_operation", p99)
            ∷ (throughput ++ counts);
      })

  row_if : List (Exported (dec.Decimal)) → Text → Dict Metric → Option Metric → Result Row
  row_if exported name metrics none = raise key_error (codes "wallClock")
  row_if exported name metrics (some wall) = row_for exported name metrics wall

  -- One turn of the loop over the cases.
  unfoldable pub row_of_case : List (Exported (dec.Decimal)) → Text × Dict Metric → Result Row
  unfolding row_if
  row_of_case exported (name, metrics) =
      row_if exported name metrics (lookup (codes "wallClock") metrics)

  unfoldable pub summary_of : List (Exported (dec.Decimal)) → Cases → Result (List Row)
  summary_of exported cases = try_map (row_of_case exported) (sorted cases)

-- The numbers of coverage.json that capture_run and analyze.py check.
pub record Coverage : Type 0 where
  pub cases : ℕ
  pub metric_records : ℕ
  pub minimum_samples : ℕ
  pub cases_below_30_samples : List Text

unfoldable pub coverage_of : Cases → List Row → Result Coverage
unfolding low_cases
coverage_of cases rows = minimum (map (λ (r : Row). r.minimum_samples) rows) >>= λ least.
    ok (record {
      cases = length cases;
      metric_records = metric_records cases;
      minimum_samples = least;
      cases_below_30_samples = low_cases rows;
    })

unfoldable pub tally_json : Dict ℕ → Dict Json
tally_json [] = []
tally_json ((c, n) ∷ d) = (c, number (decimal n)) ∷ tally_json d

unfoldable pub first_metrics : Cases → Result ℕ
first_metrics [] = raise stop_iteration []
first_metrics ((name, metrics) ∷ cases) = ok (length metrics)

unfoldable pub coverage_json : Json → Cases → List Row → Result Json
unfolding tally tally_json first_metrics missing_of category
coverage_json baseline cases rows = first_metrics cases >>= λ expected.
    try_map category (map (λ (e : Text × Dict Metric). e.0) cases) >>= λ categories.
    coverage_of cases rows >>= λ coverage. field (codes "baselineName") baseline >>= λ name. ok (
      object (
        members_of (
          (codes "cases", number (decimal coverage.cases))
          ∷ (codes "metrics_expected_per_case", number (decimal expected))
          ∷ (codes "metric_records", number (decimal coverage.metric_records))
          ∷ (codes "categories", object (members_of (tally_json (sorted (tally [] categories)))))
          ∷ (codes "unrecorded_metrics", object (members_of (missing_of (sorted cases))))
          ∷ (codes "minimum_samples", number (decimal coverage.minimum_samples))
          ∷ (codes "cases_below_30_samples", strings coverage.cases_below_30_samples)
          ∷ (codes "baseline_name", name)
          ∷ [])))

unfoldable pub cells : Dict Text → List Text
cells row = map (λ f. elim (lookup f row) [ some v ↦ v | none ↦ [] ]) fields

-- The main program, with the paths that are its arguments.
unfoldable pub summarize :
    Runtime → Decimals → FilePath → FilePath → FilePath → FilePath → Action (Unit {0})
unfolding cells
summarize rt dec baseline influx inventory out = read_json rt baseline >=> λ results.
    read_text rt inventory >=> λ names. lift (read_inventory names) >=> λ expected.
    lift (native_cases results expected) >=> λ cases. read_text rt influx >=> λ text.
    lift (read_export dec rt cases text) >=> λ exported.
    lift (summary_of dec exported cases) >=> λ rows.
    make_new_folder out
    >-> (write_text rt (out ++ (codes "summary.csv" ∷ []))
          (rt.csv_text (fields ∷ map (λ (r : Row). cells r.columns) rows))
        >-> (lift (coverage_json results cases rows) >=> λ coverage.
            write_text rt (out ++ (codes "coverage.json" ∷ []))
              (rt.json_dumps indented_sorted coverage ++ (10 ∷ []))
            >-> print (rt.json_dumps indented_ascii coverage)))
