-- ===== src/Capture/Summarize/Counts/Totals.antt =====
-- What the counts of a coverage file say of the cases.
use mathlib.Core.Option.{Option, none, some}
use swift_cidr_admission.Base.{
  ℕ, ◌≤◌, ◌≡◌, refl, sym, ◌∙◌, ap, subst, ltb, Bool, true, false, List, [], ◌∷◌, map, Text, codes,
  ok, bind_inversion, ok-injective, All, arith, if◌then◌else◌, try_map,
}
use swift_cidr_admission.Base.Dict.{Dict, lookup}
use swift_cidr_admission.Base.Strings.{text_lt}
use swift_cidr_admission.Publication.Manifest.{sorted, insert_sorted}
use swift_cidr_admission.Capture.Summarize.Export.{Decimals, Exported}
use swift_cidr_admission.Capture.Summarize.{Cases, Metric}
use swift_cidr_admission.Capture.Summarize.Counts.{
  row_for, row_if, row_of_case, summary_of, counts_of, per_operation, throughput_columns,
  count_columns, count_fields, Row, Coverage, minimum, low_cases, coverage_of,
}

All-le : (k n : ℕ) (ns : List ℕ) → k ≤ n → All (λ m. n ≤ m) ns → All (λ m. k ≤ m) ns
All-le k n [] le h = tt
All-le k n (m ∷ ns) le h = (omega (arith, h.0), All-le k n ns le (h.1))

ltb_of_le : (m n : ℕ) → n ≤ m → 30 ≤ n → ltb m 30 ≡ false
ltb_of_le m n h t = ground arith

minimum_step :
    (rest n : ℕ) {least : ℕ}
    → ok (if ltb rest n then rest else n) ≡ ok least
    → (least ≤ rest) × (least ≤ n)
minimum_step rest n h = let e = ok-injective h in ground (arith, e)

low_cases_nil : low_cases [] ≡ []
unfolding low_cases
low_cases_nil = refl

low_cases_cons :
    (row : Row) (rows : List Row)
    → row.low_sample_count ≡ false
    → low_cases rows ≡ []
    → low_cases (row ∷ rows) ≡ []
unfolding low_cases
low_cases_cons row rows h e = rw h e

All-insert_if :
    (P : Text × Dict Metric → Type 0) (k j : Text) (v w : Dict Metric) (d : Cases)
    → (All P (insert_sorted k v d) → P (k, v) × All P d)
    → (b : Bool) → All P (if b then (j, w) ∷ insert_sorted k v d else (k, v) ∷ (j, w) ∷ d)
    → P (k, v) × (P (j, w) × All P d)
All-insert_if P k j v w d later true h = let (one, rest) = later (h.1) in (one, (h.0, rest))
All-insert_if P k j v w d later false h = h

All-insert_sorted :
    (P : Text × Dict Metric → Type 0) (k : Text) (v : Dict Metric) (d : Cases)
    → All P (insert_sorted k v d)
    → P (k, v) × All P d
unfolding insert_sorted
All-insert_sorted P k v [] h = h
All-insert_sorted P k v ((j, w) ∷ d) h =
    All-insert_if P k j v w d (All-insert_sorted P k v d) (text_lt j k) h

-- The minimum is at most every number.
minimum_bound : (ns : List ℕ) {least : ℕ} → minimum ns ≡ ok least → All (λ n. least ≤ n) ns
unfolding minimum
minimum_bound [] h = tt
minimum_bound (n ∷ []) h = (omega (arith, ok-injective h), tt)
minimum_bound (n ∷ m ∷ more) {least} h =
    let (rest, p, q) = bind_inversion (minimum (m ∷ more)) _ h in
    let bound = minimum_step rest n q in
    (bound.1, All-le least rest (m ∷ more) (bound.0) (minimum_bound (m ∷ more) p))

-- The least number of samples is that of every metric of the case, or less.
abbrev pub AtLeast : ℕ → Text × Dict Metric → Type 0
AtLeast n entry = All (λ (e : Text × Metric). n ≤ (e.1).samples) (entry.1)

counts_of-AtLeast :
    (n : ℕ) (name : Text) (metrics : Dict Metric)
    → All (λ k. n ≤ k) (counts_of metrics)
    → AtLeast n (name, metrics)
counts_of-AtLeast n name [] h = tt
counts_of-AtLeast n name ((k, m) ∷ metrics) h = (h.0, counts_of-AtLeast n name metrics (h.1))

AtLeast-le : (k n : ℕ) (entry : Text × Dict Metric) → k ≤ n → AtLeast n entry → AtLeast k entry
AtLeast-le k n (name, []) le h = tt
AtLeast-le k n (name, (j, m) ∷ metrics) le h =
    (omega (arith, h.0), AtLeast-le k n (name, metrics) le (h.1))

module _ (dec : Decimals) (exported : List (Exported (dec.Decimal))) where
  row_for_lem :
      (name : Text) (metrics : Dict Metric) (wall : Metric) {row : Row}
      → row_for dec exported name metrics wall ≡ ok row
      → AtLeast (row.minimum_samples) (name, metrics)
        × (row.low_sample_count ≡ ltb (row.minimum_samples) 30)
  unfolding row_for
  row_for_lem name metrics wall h =
      let (least, p, h1) = bind_inversion (minimum (counts_of metrics)) _ h in
      let (p50, _, h2) =
        bind_inversion (per_operation dec exported name (codes "wallClock") 50 wall.batch) _ h1 in
      let (p99, _, h3) =
        bind_inversion (per_operation dec exported name (codes "wallClock") 99 wall.batch) _ h2 in
      let (t, _, h4) =
        bind_inversion (throughput_columns dec exported name metrics wall.batch) _ h3 in
      let (c, _, h5) =
        bind_inversion (count_columns dec exported name metrics wall.batch count_fields) _ h4 in
      let e = ok-injective h5 in
      (
        subst (λ n. AtLeast n (name, metrics)) (ap (λ r. r.minimum_samples) e)
            (counts_of-AtLeast least name metrics (minimum_bound (counts_of metrics) p)),
        subst (λ r. r.low_sample_count ≡ ltb (r.minimum_samples) 30) e refl,
      )

  row_if_lem :
      (name : Text) (metrics : Dict Metric) (o : Option Metric) {row : Row}
      → row_if dec exported name metrics o ≡ ok row
      → AtLeast (row.minimum_samples) (name, metrics)
        × (row.low_sample_count ≡ ltb (row.minimum_samples) 30)
  unfolding row_if
  row_if_lem name metrics none h = absurd (ground (arith, h))
  row_if_lem name metrics (some wall) h = row_for_lem name metrics wall h

  rows_bound :
      (cases : Cases) {rows : List Row} (n : ℕ)
      → try_map (row_of_case dec exported) cases ≡ ok rows
      → All (λ k. n ≤ k) (map (λ (r : Row). r.minimum_samples) rows)
      → All (AtLeast n) cases
  unfolding row_of_case
  rows_bound [] n h b = tt
  rows_bound ((name, metrics) ∷ cases) n h b =
      let (row, p, h1) = bind_inversion (row_of_case dec exported (name, metrics)) _ h in
      let (rows, q, h2) = bind_inversion (try_map (row_of_case dec exported) cases) _ h1 in
      let b' =
        subst (λ rs. All (λ k. n ≤ k) (map (λ (r : Row). r.minimum_samples) rs))
          (sym (ok-injective h2)) b in
      let (least, low) = row_if_lem name metrics (lookup (codes "wallClock") metrics) p in
      (AtLeast-le n (row.minimum_samples) (name, metrics) (b'.0) least, rows_bound cases n q (b'.1))

  low_cases_none :
      (cases : Cases) {rows : List Row} (n : ℕ)
      → try_map (row_of_case dec exported) cases ≡ ok rows
      → All (λ k. n ≤ k) (map (λ (r : Row). r.minimum_samples) rows)
      → 30 ≤ n
      → low_cases rows ≡ []
  unfolding row_of_case
  low_cases_none [] n h b t = subst (λ rs. low_cases rs ≡ []) (ok-injective h) low_cases_nil
  low_cases_none ((name, metrics) ∷ cases) n h b t =
      let (row, p, h1) = bind_inversion (row_of_case dec exported (name, metrics)) _ h in
      let (rows, q, h2) = bind_inversion (try_map (row_of_case dec exported) cases) _ h1 in
      let b' =
        subst (λ rs. All (λ k. n ≤ k) (map (λ (r : Row). r.minimum_samples) rs))
          (sym (ok-injective h2)) b in
      let (least, low) = row_if_lem name metrics (lookup (codes "wallClock") metrics) p in
      subst (λ rs. low_cases rs ≡ []) (ok-injective h2)
        (low_cases_cons row rows (low ∙ ltb_of_le (row.minimum_samples) n (b'.0) t)
          (low_cases_none cases n q (b'.1) t))

All-sorted : (P : Text × Dict Metric → Type 0) (cases : Cases) → All P (sorted cases) → All P cases
unfolding sorted
All-sorted P [] h = tt
All-sorted P ((k, v) ∷ cases) h =
    let (one, rest) = All-insert_sorted P k v (sorted cases) h in (one, All-sorted P cases rest)

module _ (dec : Decimals) (exported : List (Exported (dec.Decimal))) (cases : Cases)
    {rows : List Row} {coverage : Coverage} where
  -- When the summary and the coverage of cases are computed, every metric of every case has at least as many samples as the coverage's minimum.
  pub coverage_of_sound :
      summary_of dec exported cases ≡ ok rows
      → coverage_of cases rows ≡ ok coverage
      → All (AtLeast (coverage.minimum_samples)) cases
  unfolding summary_of coverage_of
  coverage_of_sound s c =
      let (least, p, e) =
        bind_inversion (minimum (map (λ (r : Row). r.minimum_samples) rows)) _ c in
      let bound = minimum_bound (map (λ (r : Row). r.minimum_samples) rows) p in
      subst (λ v. All (AtLeast (v.minimum_samples)) cases) (ok-injective e)
        (All-sorted (AtLeast least) cases (rows_bound dec exported (sorted cases) least s bound))

  -- When moreover the minimum is thirty or more, the coverage lists no case as having too few samples.
  pub coverage_of_complete :
      summary_of dec exported cases ≡ ok rows
      → coverage_of cases rows ≡ ok coverage
      → 30 ≤ coverage.minimum_samples
      → coverage.cases_below_30_samples ≡ []
  unfolding summary_of coverage_of
  coverage_of_complete s c t =
      let (least, p, e) =
        bind_inversion (minimum (map (λ (r : Row). r.minimum_samples) rows)) _ c in
      let bound = minimum_bound (map (λ (r : Row). r.minimum_samples) rows) p in
      let same = ok-injective e in
      sym (ap (λ v. v.cases_below_30_samples) same)
      ∙ low_cases_none dec exported (sorted cases) least s bound
          (subst (λ n. 30 ≤ n) (sym (ap (λ v. v.minimum_samples) same)) t)
