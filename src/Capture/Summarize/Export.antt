-- ===== src/Capture/Summarize/Export.antt =====
-- What summarize.py reads of the exported percentiles.
use mathlib.Core.Option.{none, some}
use swift_cidr_admission.Base.{
  ℕ, ◌==◌, Bool, true, false, not, ◌&&◌, List, [], ◌∷◌, ◌++◌, Text, codes, text_eq, Result, ok,
  raise, value_error, key_error, index_error, ◌>>=◌, ◌>>◌, any, all, if◌then◌else◌,
}
use swift_cidr_admission.Base.Dict.{Dict, contains, insert, lookup}
use swift_cidr_admission.Base.Strings.{starts_with}
use swift_cidr_admission.Runtime.{Runtime}
use swift_cidr_admission.Capture.Summarize.{Cases, Metric, labels, require}

-- Python's decimal module, as far as it is used.
pub record Decimals : Type 1 where
  pub Decimal : Type 0
  -- Decimal(text)
  pub decimal : Text → Result Decimal
  -- int(value)
  pub int : Decimal → Result ℕ
  -- value / n and value * n
  pub over : Decimal → ℕ → Decimal
  pub times : Decimal → ℕ → Decimal
  -- number(value)
  pub number : Decimal → Text

abbrev pub percentiles : List ℕ
percentiles = 0 ∷ 25 ∷ 50 ∷ 75 ∷ 90 ∷ 99 ∷ 100 ∷ []

-- An entry of `exported`, whose keys are a case and a metric, and below them a percentile.
pub record Exported (D : Type 0) : Type 0 where
  pub case : Text
  pub metric : Text
  pub percentile : ℕ
  pub value : D

-- REVERSE[label]
unfoldable pub metric_of : Text → Dict Text → Result Text
metric_of label [] = raise key_error label
metric_of label ((metric, other) ∷ more) =
    let rest = metric_of label more in if text_eq other label then ok metric else rest

-- The lines of the file with their ends, the line so far as the first argument.
unfoldable pub lines_with_ends : Text → Text → List Text
lines_with_ends [] [] = []
lines_with_ends (c ∷ line) [] = (c ∷ line) ∷ []
lines_with_ends line (c ∷ text) = elim (c == 10) [
  | true ↦ (line ++ (c ∷ [])) ∷ lines_with_ends [] text
  | false ↦ lines_with_ends (line ++ (c ∷ [])) text
]

-- The header, and the text after it.
unfoldable pub find_header : List Text → Result (Text × List Text)
find_header [] = raise value_error (codes "Missing Influx CSV header")
find_header (line ∷ lines) =
    let rest = find_header lines in
    if starts_with line (codes "measurement,hostName,") then ok (line, lines) else rest

unfoldable pub concat : List Text → Text
concat [] = []
concat (line ∷ lines) = line ++ concat lines

-- dict(zip(fieldnames, row))
unfoldable pub row_of : Dict Text → List Text → List Text → Dict Text
row_of row [] values = row
row_of row (f ∷ fields) [] = row
row_of row (f ∷ fields) (v ∷ values) = row_of (insert f v row) fields values

-- row[key]. A missing column and a short row are errors here.
unfoldable pub cell : Text → Dict Text → Result Text
cell key row = elim (lookup key row) [ some v ↦ ok v | none ↦ raise key_error key ]

module _ (dec : Decimals) where
  -- Whether the percentile of the case and metric is there.
  unfoldable pub has : Text → Text → ℕ → List (Exported (dec.Decimal)) → Bool
  has name metric p exported =
      any
        (λ (e : Exported (dec.Decimal)).
          text_eq e.case name && text_eq e.metric metric && e.percentile == p)
        exported

  unfoldable pub known : Cases → Text → Text → Bool
  known cases name metric = elim (lookup name cases) [
    | some metrics ↦ contains metric metrics
    | none ↦ false
  ]

  unfoldable pub keep_row :
      Cases → List (Exported (dec.Decimal)) → Dict Text → Result (List (Exported (dec.Decimal)))
  unfolding known
  keep_row cases exported row = cell (codes "measurement") row >>= λ measurement.
      (require (text_eq measurement (codes "CIDRAdmissionBenchmarkTarget"))
          (codes "Unexpected export target")
        >> (cell (codes "test") row >>= λ name. cell (codes "metric") row >>= λ label.
            metric_of label labels >>= λ metric.
            (require (known cases name metric) (codes "Export/native mismatch")
              >> (cell (codes "percentile") row >>= dec.decimal >>= dec.int >>= λ p.
                  (require (any (λ q. p == q) percentiles) (codes "Unexpected percentile")
                    >> (require (not (has name metric p exported)) (codes "Duplicate percentile")
                        >> (cell (codes "value") row >>= dec.decimal >>= λ value. ok (
                            exported
                            ++ (record {
                              case = name;
                              metric = metric;
                              percentile = p;
                              value = value;
                            }
                                ∷ [])))))))))

  -- One turn of the loop: a row with no measurement is passed over.
  unfoldable pub read_row :
      Cases → List (Exported (dec.Decimal)) → Dict Text → Result (List (Exported (dec.Decimal)))
  unfolding keep_row
  read_row cases exported row = elim (lookup (codes "measurement") row) [
    | none ↦ ok exported
    | some [] ↦ ok exported
    | some (c ∷ t) ↦ keep_row cases exported row
  ]

  unfoldable pub read_rows :
      Cases
      → List Text
      → List (Exported (dec.Decimal))
      → List (List Text)
      → Result (List (Exported (dec.Decimal)))
  read_rows cases header exported [] = ok exported
  read_rows cases header exported (row ∷ rows) =
      read_row cases exported (row_of [] header row) >>= λ exported'.
      read_rows cases header exported' rows

  unfoldable pub complete_case : List (Exported (dec.Decimal)) → Text × Dict Metric → Bool
  complete_case exported (name, metrics) =
      all (λ (m : Text × Metric). all (λ p. has name m.0 p exported) percentiles) metrics

  unfoldable pub header_of : List (List Text) → Result (List Text)
  header_of [] = raise index_error []
  header_of (row ∷ rows) = ok row

  -- The exported percentiles, which are there for every metric of every case.
  unfoldable pub read_export : Runtime → Cases → Text → Result (List (Exported (dec.Decimal)))
  unfolding read_rows complete_case header_of
  read_export rt cases text = find_header (lines_with_ends [] text) >>= λ (line, lines).
      rt.csv_rows line >>= header_of >>= λ header.
      rt.csv_rows (concat lines) >>= read_rows cases header [] >>= λ exported.
      (require (all (complete_case exported) cases) (codes "Missing exported percentiles")
        >> ok exported)
