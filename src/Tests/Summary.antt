-- ===== src/Tests/Summary.antt =====
-- Native results of one case, and their summary.
use swift_cidr_admission.Capture.Summarize.{one_batch}
use swift_cidr_admission.Base.Dict.{insert}
use swift_cidr_admission.Capture.Rerun.{natural}
use swift_cidr_admission.Capture.Rerun.{natural_field}
use swift_cidr_admission.Capture.Summarize.{labels}
use swift_cidr_admission.Json.{count}
use swift_cidr_admission.Capture.Summarize.{read_metric}
use swift_cidr_admission.Capture.Summarize.{read_metrics}
use swift_cidr_admission.Json.{iterate}
use swift_cidr_admission.Capture.Summarize.{require}
use swift_cidr_admission.Capture.Summarize.{read_case}
use swift_cidr_admission.Json.{of_items}
use swift_cidr_admission.Capture.Summarize.{read_cases}
use swift_cidr_admission.Json.{get_key}
use swift_cidr_admission.Json.{field}
use swift_cidr_admission.Capture.Summarize.Counts.{metric_records}
use swift_cidr_admission.Capture.Summarize.Counts.{truth}
use swift_cidr_admission.Capture.World.{decimal}
use swift_cidr_admission.Capture.Summarize.Counts.{count_fields}
use swift_cidr_admission.Capture.Summarize.Counts.{count_columns}
use swift_cidr_admission.Base.Dict.{contains}
use swift_cidr_admission.Capture.Summarize.Counts.{throughput_columns}
use swift_cidr_admission.Capture.Summarize.Counts.{value_of}
use swift_cidr_admission.Capture.Summarize.Counts.{per_operation}
use swift_cidr_admission.Capture.Summarize.Counts.{minimum}
use swift_cidr_admission.Capture.Summarize.Counts.{row_for}
use swift_cidr_admission.Base.{◌↔◌, Some, text_eq}
use swift_cidr_admission.Base.Dict.{lookup}
use swift_cidr_admission.Capture.Summarize.Counts.{row_of_case}
use swift_cidr_admission.Publication.Manifest.{sorted}
use swift_cidr_admission.Base.{
  ℕ, ◌≡◌, refl, false, List, [], ◌∷◌, Text, codes, String, ok, All, arith,
}
use swift_cidr_admission.Base.Dict.{NodupKeys}
use swift_cidr_admission.Json.{Json, object, member, end, array, nil, cons, string, number}
use swift_cidr_admission.Capture.Summarize.{Cases, native_cases, covers}
use swift_cidr_admission.Capture.Summarize.Native.{IsKey, IsMeasured, native_cases-IsMeasured}
use swift_cidr_admission.Capture.Summarize.Export.{Decimals, Exported}
use swift_cidr_admission.Capture.Summarize.Counts.{Row, Coverage, summary_of, coverage_of}
use swift_cidr_admission.Capture.Summarize.Counts.Totals.{
  AtLeast, coverage_of_sound, coverage_of_complete,
}

abbrev naturals : Decimals
naturals = record {
  Decimal = ℕ;
  decimal = λ t. ok 7;
  int = λ n. ok n;
  over = λ v n. v;
  times = λ v n. v;
  number = λ v. codes "7";
}

abbrev one_case : Cases
one_case =
    (codes "policy.decision", (codes "wallClock", record { batch = 1000; samples = 31 }) ∷ []) ∷ []

abbrev value_at : ℕ → Exported ℕ
value_at p = record {
  case = codes "policy.decision";
  metric = codes "wallClock";
  percentile = p;
  value = 7;
}

abbrev values : List (Exported ℕ)
values = value_at 50 ∷ value_at 99 ∷ []

abbrev one_row : Row
one_row = record {
  benchmark = codes "policy.decision";
  minimum_samples = 31;
  low_sample_count = false;
  columns =
      (codes "benchmark", codes "policy.decision")
      ∷ (codes "batch_size", codes "1000")
      ∷ (codes "wall_samples", codes "31")
      ∷ (codes "throughput_samples", [])
      ∷ (codes "minimum_metric_samples", codes "31")
      ∷ (codes "metrics_recorded", codes "1")
      ∷ (codes "low_sample_count", codes "False")
      ∷ (codes "wall_sample_unit", codes "batch_mean")
      ∷ (codes "wall_p50_sample_mean_ns_per_operation", codes "7")
      ∷ (codes "wall_p99_sample_mean_ns_per_operation", codes "7")
      ∷ [];
}

abbrev counted : Coverage
counted = record {
  cases = 1;
  metric_records = 1;
  minimum_samples = 31;
  cases_below_30_samples = [];
}

summarized : summary_of naturals values one_case ≡ ok (one_row ∷ [])
unfolding summary_of sorted row_of_case lookup text_eq row_for minimum per_operation value_of
    throughput_columns contains count_columns count_fields decimal truth
summarized = refl

covered : coverage_of one_case (one_row ∷ []) ≡ ok counted
unfolding coverage_of minimum metric_records
covered = refl

coverage_of_sound_example : All (AtLeast 31) one_case
coverage_of_sound_example = coverage_of_sound naturals values one_case summarized covered

coverage_of_complete_example : counted.cases_below_30_samples ≡ []
coverage_of_complete_example =
    coverage_of_complete naturals values one_case summarized covered (omega arith)

abbrev pair : String → Json → Json
pair key value = object (member (codes key) value end)

abbrev native_result : Json
native_result = object (
    member (codes "metric") (pair "wallClock" (object end)) (
      member (codes "scalingFactor") (number (codes "1000")) (
        member (codes "statistics") (pair "histogram" (pair "_totalCount" (number (codes "31"))))
          end)))

abbrev native : Json
native = pair "results" (
    array (
      cons
        (object (
          member (codes "target") (string (codes "CIDRAdmissionBenchmarkTarget"))
            (member (codes "name") (string (codes "policy.decision")) end)))
        (cons (array (cons native_result nil)) nil)))

abbrev expected : List Text
expected = codes "policy.decision" ∷ []

read_back : native_cases native expected ≡ ok one_case
unfolding native_cases field get_key text_eq read_cases of_items read_case require contains iterate
    read_metrics read_metric count labels natural_field natural insert one_batch covers
read_back = refl

native_cases-IsMeasured_example :
    ((name : Text) → IsKey name one_case ↔ Some (λ n. n ≡ name) expected)
    × NodupKeys one_case
    × All IsMeasured one_case
native_cases-IsMeasured_example = native_cases-IsMeasured native expected read_back
