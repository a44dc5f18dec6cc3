-- ===== src/Capture/Rerun/Acceptance.antt =====
-- What a run that `capture_run` reports as done has been checked for.
use swift_cidr_admission.Base.{
  ℕ, ◌*◌, ◌==◌, ◌≤◌, ◌≡◌, sym, ◌∙◌, ap, subst, leb, leb→le, true, [], ◌∷◌, ◌++◌, codes, text_eq, ok,
  ok-injective, arith, length, if◌then◌else◌,
}
use swift_cidr_admission.Json.{Json, Members}
use swift_cidr_admission.Files.{FileSystem}
use swift_cidr_admission.Runtime.{Runtime}
use swift_cidr_admission.Capture.World.{
  Host, World, ◌>=>◌, ◌>->◌, affirm, read_json, read_text, sha,
}
use swift_cidr_admission.Capture.Inversion.{
  step_inversion, then_inversion, lift_inversion, affirm_inversion,
}
use swift_cidr_admission.Capture.Reading.{json_at, read_json_lem}
use swift_cidr_admission.Capture.Commands.{timestamp}
use swift_cidr_admission.Capture.Experiment.{Experiment, Run, names_of}
use swift_cidr_admission.Capture.Metadata.{Plan}
use swift_cidr_admission.Capture.Rerun.{
  natural_field, destination, prepare_run, measure, collect, confirm, capture_run, metrics_per_case,
  say, done, check_samples, check_coverage,
}

eq_of_test : (a b : ℕ) → (a == b) ≡ true → a ≡ b
eq_of_test a b h = ground arith

done_keeps :
    (rt : Runtime) (host : Host) (exp : Experiment) (run : Run) (samples : ℕ) (w : World)
    {w' : World}
    → done rt host exp run samples w ≡ (ok tt, w')
    → w.fs ≡ w'.fs
unfolding done say timestamp ◌>=>◌
done_keeps rt host exp run samples w h = ap (λ r. (r.1).fs) h

prepare_run-names :
    (rt : Runtime) (host : Host) (exp : Experiment) (run : Run) (w : World) {plan : Plan}
    {w' : World}
    → prepare_run rt host exp run w ≡ (ok plan, w')
    → plan.names ≡ names_of exp run.diagnostics
unfolding prepare_run
prepare_run-names rt host exp run w h =
    let (base, _, h1) = lift_inversion (exp.root run.variant) _ w h in
    let (_, w2, _, h2) = then_inversion (exp.check_workspace run.variant) _ w h1 in
    let (_, w3, _, h3) = then_inversion _ _ w2 h2 in
    let (_, w4, _, h4) = then_inversion _ _ w3 h3 in
    let (_, w5, _, h5) = then_inversion _ _ w4 h4 in
    let (_, w6, _, h6) = then_inversion _ _ w5 h5 in
    let (text, w7, _, h7) = step_inversion (read_text rt _) _ w6 h6 in
    let (digest, w8, _, h8) = step_inversion (sha rt _) _ w7 h7 in
    let (_, h9) = affirm_inversion _ _ _ w8 h8 in
    ap (λ p. p.names) (sym (ok-injective (ap (λ r. r.0) h9)))

-- The coverage file of the run, in the files as they are, is complete: it counts the benchmarks and
-- their metrics, and has at least thirty samples of each.
pub record Complete (rt : Runtime) (host : Host) (exp : Experiment) (run : Run) (fs : FileSystem)
    : Type 0 where
  pub coverage : Json
  pub reads :
      json_at rt (destination rt host exp run ++ (codes "coverage.json" ∷ [])) fs ≡ ok coverage
  pub all_cases :
      natural_field (codes "cases") coverage ≡ ok (length (names_of exp run.diagnostics))
  pub all_metrics :
      natural_field (codes "metric_records") coverage
      ≡ ok (
          length (names_of exp run.diagnostics)
          * (if text_eq run.profile (codes "full") then 9 else 2))
  pub samples : ℕ
  pub has_samples : natural_field (codes "minimum_samples") coverage ≡ ok samples
  pub enough_samples : 30 ≤ samples

module _ (rt : Runtime) (host : Host) (exp : Experiment) (run : Run) where
  check_samples_sound :
      (coverage : Json) (w : World) {w' : World}
      → check_samples rt host exp run coverage w ≡ (ok tt, w')
      → (samples : ℕ) × (natural_field (codes "minimum_samples") coverage ≡ ok samples)
        × (30 ≤ samples)
        × (w.fs ≡ w'.fs)
  unfolding check_samples
  check_samples_sound coverage w h =
      let (samples, s, h1) =
        lift_inversion (natural_field (codes "minimum_samples") coverage)
          (λ samples. affirm (leb 30 samples) [] >-> done rt host exp run samples) w h in
      let (e, h2) = affirm_inversion (leb 30 samples) [] (done rt host exp run samples) w h1 in
      (samples, s, leb→le 30 samples e, done_keeps rt host exp run samples w h2)

  check_coverage_sound :
      (plan : Plan) (coverage : Json) (w : World) {w' : World}
      → check_coverage rt host exp run plan coverage w ≡ (ok tt, w')
      → (natural_field (codes "cases") coverage ≡ ok (length plan.names))
        × (natural_field (codes "metric_records") coverage
            ≡ ok (length plan.names * metrics_per_case rt host exp run))
        × (check_samples rt host exp run coverage w ≡ (ok tt, w'))
  unfolding check_coverage
  check_coverage_sound plan coverage w h =
      let (cases, c, h1) = lift_inversion (natural_field (codes "cases") coverage) _ w h in
      let (c', h2) = affirm_inversion (cases == length plan.names) [] _ w h1 in
      let (records, m, h3) =
        lift_inversion (natural_field (codes "metric_records") coverage) _ w h2 in
      let (m', h4) =
        affirm_inversion (records == length plan.names * metrics_per_case rt host exp run) []
          (check_samples rt host exp run coverage) w h3 in
      (c ∙ ap ok (eq_of_test cases _ c'), m ∙ ap ok (eq_of_test records _ m'), h4)

  -- The file that confirm reads is complete, and stays as it is.
  confirm-Complete :
      (plan : Plan) (metadata : Members) (w : World) {w' : World}
      → (plan.names ≡ names_of exp run.diagnostics)
      → confirm rt host exp run plan metadata w ≡ (ok tt, w')
      → Complete rt host exp run w'.fs
  unfolding confirm metrics_per_case
  confirm-Complete plan metadata w names h =
      let (_, w1, _, h1) = then_inversion (exp.check_workspace run.variant) _ w h in
      let (digest, w2, _, h2) = step_inversion (sha rt plan.executable) _ w1 h1 in
      let (same, h3) = affirm_inversion (text_eq digest plan.binary) _ _ w2 h2 in
      let (_, w3, _, h4) = then_inversion _ _ w2 h3 in
      let (coverage, w4, r, h5) =
        step_inversion (read_json rt (destination rt host exp run ++ (codes "coverage.json" ∷ [])))
          (check_coverage rt host exp run plan) w3 h4 in
      let read =
        read_json_lem rt (destination rt host exp run ++ (codes "coverage.json" ∷ [])) w3 r in
      let facts = check_coverage_sound plan coverage w4 h5 in
      let samples = check_samples_sound coverage w4 (facts.2) in
      record {
        coverage = coverage;
        reads =
            subst
              (λ fs.
                json_at rt (destination rt host exp run ++ (codes "coverage.json" ∷ [])) fs
                ≡ ok coverage)
              (ap (λ v. v.fs) (read.1) ∙ samples.3) (read.0);
        all_cases =
            subst (λ ns. natural_field (codes "cases") coverage ≡ ok (length ns)) names (facts.0);
        all_metrics =
            subst
              (λ ns.
                natural_field (codes "metric_records") coverage
                ≡ ok (length ns * (if text_eq run.profile (codes "full") then 9 else 2)))
              names (facts.1);
        samples = samples.0;
        has_samples = samples.1;
        enough_samples = samples.2;
      }

-- When capture_run succeeds, the coverage file that it leaves counts every benchmark of the run, nine metrics for each in a full run and two otherwise, and at least thirty samples.
pub capture_run-Complete :
    (rt : Runtime) (host : Host) (exp : Experiment) (run : Run) (w : World) {w' : World}
    → capture_run rt host exp run w ≡ (ok tt, w')
    → Complete rt host exp run w'.fs
unfolding capture_run
capture_run-Complete rt host exp run w h =
    let (plan, w1, p, h1) = step_inversion (prepare_run rt host exp run) _ w h in
    let (metadata, w2, _, h2) = step_inversion (measure rt host exp run plan) _ w1 h1 in
    let (final, w3, _, h3) = step_inversion (collect rt host exp run plan metadata) _ w2 h2 in
    confirm-Complete rt host exp run plan final w3 (prepare_run-names rt host exp run w p) h3
