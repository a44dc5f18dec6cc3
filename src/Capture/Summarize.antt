-- ===== src/Capture/Summarize.antt =====
-- The checks that summarize.py, the same in all captures, makes of the native results, and what it
-- counts of them.
pub mod Export
pub mod Counts
pub mod Native
use mathlib.Core.Option.{Option, none, some}
use swift_cidr_admission.Base.{
  ℕ, ◌%◌, ◌==◌, ltb, Bool, true, false, not, ◌&&◌, ◌||◌, List, [], ◌∷◌, map, Text, codes, text_eq,
  Result, ok, err, raise, ErrorClass, value_error, type_error, index_error, ◌>>=◌, ◌>>◌, check,
  length, any, all, if◌then◌else◌,
}
use swift_cidr_admission.Base.Dict.{Dict, contains, insert, lookup}
use swift_cidr_admission.Json.{
  Json, Members, Items, object, array, string, member, end, field, iterate, count, of_items,
}
use swift_cidr_admission.Publication.Lines.{split_lines}
use swift_cidr_admission.Capture.Rerun.{natural_field}

-- LABELS
unfoldable pub labels : Dict Text
labels =
    (codes "throughput", codes "Throughput(#/s)")
    ∷ (codes "wallClock", codes "Time(wallclock)")
    ∷ (codes "mallocCountSmall", codes "Malloc(small)")
    ∷ (codes "mallocCountLarge", codes "Malloc(large)")
    ∷ (codes "mallocCountTotal", codes "Malloc(total)")
    ∷ (codes "objectAllocCount", codes "Objectallocs")
    ∷ (codes "retainCount", codes "Retains")
    ∷ (codes "releaseCount", codes "Releases")
    ∷ (codes "retainReleaseDelta", codes "(Alloc+Retain)-ReleaseΔ")
    ∷ []

-- What is used of the result of a metric: scalingFactor and statistics.histogram._totalCount.
pub record Metric : Type 0 where
  pub batch : ℕ
  pub samples : ℕ

abbrev pub Cases : Type 0
Cases = Dict (Dict Metric)

-- require(condition, message)
unfoldable pub require : Bool → Text → Result (Unit {0})
require condition message = check condition value_error message

-- The only key of result["metric"].
unfoldable pub only_key : Json → Result Text
only_key (object m) =
    require (count m == 1) (codes "Unexpected metric encoding")
    >> elim m [ member k v n ↦ ok k | end ↦ raise ErrorClass.stop_iteration [] ]
only_key _ = raise type_error []

-- One turn of the loop over the results of a case.
unfoldable pub read_metric : Dict Metric → Json → Result (Dict Metric)
unfolding only_key
read_metric metrics result = field (codes "metric") result >>= only_key >>= λ metric.
    (require (contains metric labels && not (contains metric metrics))
        (codes "Unexpected or duplicate metric")
      >> (natural_field (codes "scalingFactor") result >>= λ batch.
          (require (batch == 1 || batch == 1000) (codes "Unexpected batch size")
            >> (field (codes "statistics") result
                >>= field (codes "histogram")
                >>= natural_field (codes "_totalCount")
                >>= λ samples.
                    (require (ltb 0 samples) (codes "Metric has no samples")
                      >> ok
                          (insert metric (record { batch = batch; samples = samples }) metrics))))))

unfoldable pub read_metrics : Dict Metric → List Json → Result (Dict Metric)
read_metrics metrics [] = ok metrics
read_metrics metrics (result ∷ results) =
    read_metric metrics result >>= λ metrics'. read_metrics metrics' results

unfoldable pub text_field : Text → Json → Result Text
text_field key value = field key value >>= λ v. elim v [ string t ↦ ok t | _ ↦ raise type_error [] ]

-- len({r["scalingFactor"] for r in metrics.values()}) == 1
unfoldable pub one_batch : Dict Metric → Bool
one_batch [] = false
one_batch ((k, m) ∷ metrics) = all (λ (e : Text × Metric). (e.1).batch == m.batch) metrics

-- One turn of the loop over the cases.
unfoldable pub read_case : Cases → Json → Json → Result Cases
unfolding text_field
read_case cases identifier results = text_field (codes "target") identifier >>= λ target.
    (require (text_eq target (codes "CIDRAdmissionBenchmarkTarget")) (codes "Unexpected target")
      >> (text_field (codes "name") identifier >>= λ name.
          (require (not (contains name cases)) (codes "Duplicate native case")
            >> (iterate results >>= read_metrics [] >>= λ metrics.
                (require (contains (codes "wallClock") metrics) (codes "Missing wall-clock samples")
                  >> (require (one_batch metrics) (codes "Inconsistent batch sizes")
                      >> ok (insert name metrics cases)))))))

-- The loop over zip(encoded[::2], encoded[1::2]); the length is even.
unfoldable pub read_cases : Cases → List Json → Result Cases
read_cases cases [] = ok cases
read_cases cases (identifier ∷ []) = raise value_error (codes "Unexpected native baseline schema")
read_cases cases (identifier ∷ results ∷ encoded) =
    read_case cases identifier results >>= λ cases'. read_cases cases' encoded

distinct : List Text → Bool
distinct [] = true
distinct (name ∷ names) = not (any (text_eq name) names) && distinct names

-- The names of the inventory.
unfoldable pub read_inventory : Text → Result (List Text)
unfolding distinct
read_inventory text =
    let expected = split_lines text in
    require (not (length expected == 0) && distinct expected) (codes "Unexpected inventory")
    >> ok expected

-- set(cases) == set(expected)
unfoldable pub covers : Cases → List Text → Bool
covers cases expected =
    all (λ (e : Text × Dict Metric). any (text_eq e.0) expected) cases
    && all (λ name. contains name cases) expected

unfoldable pub results_of : Json → Result (List Json)
results_of (array items) =
    let encoded = of_items items in
    require (length encoded % 2 == 0) (codes "Unexpected native baseline schema") >> ok encoded
results_of _ = raise value_error (codes "Unexpected native baseline schema")

-- The cases of the native results, for an inventory.
unfoldable pub native_cases : Json → List Text → Result Cases
unfolding results_of
native_cases baseline expected =
    field (codes "results") baseline >>= results_of >>= read_cases [] >>= λ cases.
    (require (covers cases expected) (codes "Full suite did not produce every discovered case")
      >> ok cases)
