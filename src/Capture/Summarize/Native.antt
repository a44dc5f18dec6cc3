-- ===== src/Capture/Summarize/Native.antt =====
-- What the checks of the native results establish.
use swift_cidr_admission.Base.{
  ℕ, ◌<◌, ◌==◌, ==_iff, ◌≡◌, ◌↔◌, ◌⊎◌, inl, inr, Bool-cases, Some, any, all, &&_split, text_eq_iff,
  sym, refl, subst, ltb, ltb→lt, Bool, true, false, not, ◌&&◌, ◌||◌, List, [], ◌∷◌, Text, codes,
  text_eq, text_eq_refl, ok, ◌>>=◌, bind_inversion, check-eq-ok, ok-injective, All, arith,
  if◌then◌else◌, value_error,
}
use swift_cidr_admission.Base.Dict.{Dict, contains, insert, NodupKeys, insert-NodupKeys}
use swift_cidr_admission.Json.{Json, field, iterate}
use swift_cidr_admission.Capture.Rerun.{natural_field}
use swift_cidr_admission.Capture.Summarize.{
  Cases, Metric, read_metric, read_metrics, read_case, read_cases, native_cases, covers, one_batch,
  only_key, text_field, results_of, labels, require,
}

All-insert_test :
    {V : Type 0} (P : Text × V → Type 0) (k j : Text) (v w : V) (d : Dict V)
    → ((i : Text) → text_eq i k ≡ true → P (i, v))
    → P (j, w) × All P d
    → All P (insert k v d)
    → (b : Bool) → (text_eq j k ≡ b)
    → All P (if b then (j, v) ∷ d else (j, w) ∷ insert k v d)
All-insert_test P k j v w d one h rest true e = (one j e, h.1)
All-insert_test P k j v w d one h rest false e = (h.0, rest)

All-insert :
    {V : Type 0} (P : Text × V → Type 0) (k : Text) (v : V) (d : Dict V)
    → ((j : Text) → text_eq j k ≡ true → P (j, v))
    → All P d
    → All P (insert k v d)
unfolding insert
All-insert P k v [] one h = (one k (text_eq_refl k), tt)
All-insert P k v ((j, w) ∷ d) one h =
    All-insert_test P k j v w d one h (All-insert P k v d one (h.1)) (text_eq j k) refl

-- The key stands in the dictionary.
abbrev pub IsKey : {V : Type 0} → Text → Dict V → Type 0
IsKey name d = Some (λ e. e.0 ≡ name) d

-- A metric was sampled, in batches of one or of a thousand.
abbrev IsSampled : Text × Metric → Type 0
IsSampled (name, m) = (((m.batch == 1) || (m.batch == 1000)) ≡ true) × (0 < m.samples)

-- A case has its wall clock, and every metric has samples in batches of the same size, of one or a thousand.
abbrev pub IsMeasured : Text × Dict Metric → Type 0
IsMeasured (name, metrics) =
    IsKey (codes "wallClock") metrics
    × ((batch : ℕ) × ((batch ≡ 1) ⊎ (batch ≡ 1000))
        × All (λ e. ((e.1).batch ≡ batch) × (0 < (e.1).samples)) metrics)

contains-IsKey : {V : Type 0} (name : Text) (d : Dict V) → contains name d ≡ true → IsKey name d
unfolding contains
contains-IsKey name [] h = absurd (ground arith)
contains-IsKey name ((k, v) ∷ d) h = elim (Bool-cases (text_eq k name)) [
  | inl e ↦ inl ((text_eq_iff k name).0 e)
  | inr e ↦ inr (contains-IsKey name d (ground arith))
]

listed_lem :
    (name : Text) (names : List Text) → any (text_eq name) names ≡ true → Some (λ n. n ≡ name) names
listed_lem name [] h = absurd (ground arith)
listed_lem name (n ∷ names) h = elim (Bool-cases (text_eq name n)) [
  | inl e ↦ inl (sym ((text_eq_iff name n).0 e))
  | inr e ↦ inr (listed_lem name names (ground arith))
]

cases_listed :
    (cases : Cases) (expected : List Text) (name : Text)
    → all (λ (e : Text × Dict Metric). any (text_eq e.0) expected) cases ≡ true
    → IsKey name cases
    → Some (λ n. n ≡ name) expected
cases_listed [] expected name h k = absurd k
cases_listed ((n, m) ∷ cases) expected name h (inl e) =
    subst (λ x. Some (λ n. n ≡ x) expected) e (listed_lem n expected (ground arith))
cases_listed ((n, m) ∷ cases) expected name h (inr k) =
    cases_listed cases expected name (ground arith) k

listed_cases :
    (cases : Cases) (expected : List Text) (name : Text)
    → all (λ n. contains n cases) expected ≡ true
    → Some (λ n. n ≡ name) expected
    → IsKey name cases
listed_cases cases [] name h k = absurd k
listed_cases cases (n ∷ expected) name h (inl e) =
    subst (λ x. IsKey x cases) e (contains-IsKey n cases (ground arith))
listed_cases cases (n ∷ expected) name h (inr k) = listed_cases cases expected name (ground arith) k

covers_sound :
    (cases : Cases) (expected : List Text)
    → covers cases expected ≡ true
    → (name : Text) → IsKey name cases ↔ Some (λ n. n ≡ name) expected
unfolding covers
covers_sound cases expected h name =
    let (one, other) =
      &&_split (all (λ (e : Text × Dict Metric). any (text_eq e.0) expected) cases)
        (all (λ n. contains n cases) expected) h in
    (cases_listed cases expected name one, listed_cases cases expected name other)

same_batch :
    (batch : ℕ) (metrics : Dict Metric)
    → all (λ (e : Text × Metric). (e.1).batch == batch) metrics ≡ true
    → All IsSampled metrics
    → All (λ e. ((e.1).batch ≡ batch) × (0 < (e.1).samples)) metrics
same_batch batch [] h k = tt
same_batch batch ((n, m) ∷ metrics) h k = (
  ((==_iff m.batch batch).0 (ground arith), k.0.1),
  same_batch batch metrics (ground arith) (k.1),
)

one_or_thousand : (n : ℕ) → ((n == 1) || (n == 1000)) ≡ true → (n ≡ 1) ⊎ (n ≡ 1000)
one_or_thousand n h = elim (Bool-cases (n == 1)) [
  | inl e ↦ inl ((==_iff n 1).0 e)
  | inr e ↦ inr ((==_iff n 1000).0 (ground arith))
]

one_batch_sound :
    (metrics : Dict Metric)
    → one_batch metrics ≡ true
    → All IsSampled metrics
    → (batch : ℕ) × ((batch ≡ 1) ⊎ (batch ≡ 1000))
      × All (λ e. ((e.1).batch ≡ batch) × (0 < (e.1).samples)) metrics
unfolding one_batch
one_batch_sound [] h k = absurd (ground arith)
one_batch_sound ((n, m) ∷ metrics) h k =
    (m.batch, one_or_thousand m.batch k.0.0, ((refl, k.0.1), same_batch m.batch metrics h (k.1)))

read_metric-IsSampled :
    (metrics : Dict Metric) (result : Json) {after : Dict Metric}
    → All IsSampled metrics
    → read_metric metrics result ≡ ok after
    → All IsSampled after
unfolding read_metric require
read_metric-IsSampled metrics result h e =
    let (metric, _, h1) = bind_inversion (field (codes "metric") result >>= only_key) _ e in
    let (_, h2) =
      check-eq-ok (contains metric labels && not (contains metric metrics)) value_error _ _ h1 in
    let (batch, _, h3) = bind_inversion (natural_field (codes "scalingFactor") result) _ h2 in
    let (b, h4) = check-eq-ok (batch == 1 || batch == 1000) value_error _ _ h3 in
    let (samples, _, h5) =
      bind_inversion
        (field (codes "statistics") result
          >>= field (codes "histogram")
          >>= natural_field (codes "_totalCount"))
        _ h4 in
    let (s, h6) = check-eq-ok (ltb 0 samples) value_error _ _ h5 in
    subst (All IsSampled) (ok-injective h6) (
      All-insert IsSampled metric (record { batch = batch; samples = samples }) metrics
        (λ j q. (b, ltb→lt 0 samples s)) h)

read_metrics-IsSampled :
    (results : List Json) (metrics : Dict Metric) {after : Dict Metric}
    → All IsSampled metrics
    → read_metrics metrics results ≡ ok after
    → All IsSampled after
unfolding read_metrics
read_metrics-IsSampled [] metrics h e = subst (All IsSampled) (ok-injective e) h
read_metrics-IsSampled (result ∷ results) metrics h e =
    let (next, p, q) = bind_inversion (read_metric metrics result) _ e in
    read_metrics-IsSampled results next (read_metric-IsSampled metrics result h p) q

read_case-IsMeasured :
    (cases : Cases) (identifier results : Json) {after : Cases}
    → All IsMeasured cases
    → NodupKeys cases
    → read_case cases identifier results ≡ ok after
    → All IsMeasured after × NodupKeys after
unfolding read_case require
read_case-IsMeasured cases identifier results h n e =
    let (target, _, h1) = bind_inversion (text_field (codes "target") identifier) _ e in
    let (_, h2) =
      check-eq-ok (text_eq target (codes "CIDRAdmissionBenchmarkTarget")) value_error _ _ h1 in
    let (name, _, h3) = bind_inversion (text_field (codes "name") identifier) _ h2 in
    let (_, h4) = check-eq-ok (not (contains name cases)) value_error _ _ h3 in
    let (metrics, m, h5) = bind_inversion (iterate results >>= read_metrics []) _ h4 in
    let (items, _, r) = bind_inversion (iterate results) (read_metrics []) m in
    let (w, h6) = check-eq-ok (contains (codes "wallClock") metrics) value_error _ _ h5 in
    let (b, h7) = check-eq-ok (one_batch metrics) value_error _ _ h6 in
    let sampled = read_metrics-IsSampled items [] tt r in
    (
      subst (All IsMeasured) (ok-injective h7) (
          All-insert IsMeasured name metrics cases
            (λ j q.
              (contains-IsKey (codes "wallClock") metrics w, one_batch_sound metrics b sampled))
            h),
      subst NodupKeys (ok-injective h7) (insert-NodupKeys name metrics cases n),
    )

read_cases-IsMeasured :
    (encoded : List Json) (cases : Cases) {after : Cases}
    → All IsMeasured cases
    → NodupKeys cases
    → read_cases cases encoded ≡ ok after
    → All IsMeasured after × NodupKeys after
unfolding read_cases
read_cases-IsMeasured [] cases h n e =
    (subst (All IsMeasured) (ok-injective e) h, subst NodupKeys (ok-injective e) n)
read_cases-IsMeasured (identifier ∷ []) cases h n e = absurd (ground (arith, e))
read_cases-IsMeasured (identifier ∷ results ∷ encoded) cases h n e =
    let (next, p, q) = bind_inversion (read_case cases identifier results) _ e in
    let (h', n') = read_case-IsMeasured cases identifier results h n p in
    read_cases-IsMeasured encoded next h' n' q

-- When the native results pass the checks of summarize.py, a name is that of a case just if it is in the inventory, no case stands twice, and each case has its wall clock, and samples of every metric that it has, in batches of one size, of one or a thousand.
pub native_cases-IsMeasured :
    (baseline : Json) (expected : List Text) {cases : Cases}
    → native_cases baseline expected ≡ ok cases
    → ((name : Text) → IsKey name cases ↔ Some (λ n. n ≡ name) expected)
      × NodupKeys cases
      × All IsMeasured cases
unfolding native_cases require
native_cases-IsMeasured baseline expected h =
    let (cases, p, h1) =
      bind_inversion (field (codes "results") baseline >>= results_of >>= read_cases []) _ h in
    let (c, h2) = check-eq-ok (covers cases expected) value_error _ _ h1 in
    let (encoded, _, r) =
      bind_inversion (field (codes "results") baseline >>= results_of) (read_cases []) p in
    let (measured, once) = read_cases-IsMeasured encoded [] tt tt r in
    (
      subst (λ v. (name : Text) → IsKey name v ↔ Some (λ n. n ≡ name) expected) (ok-injective h2)
          (covers_sound cases expected c),
      subst NodupKeys (ok-injective h2) once,
      subst (All IsMeasured) (ok-injective h2) measured,
    )
