-- ===== src/Capture/Experiment/Environment.antt =====
-- The environment that every command of a run has.
use mathlib.Core.Option.{none, some}
use swift_cidr_admission.Base.{
  ◌≡◌, refl, Bool, true, false, ◌&&◌, List, [], ◌∷◌, Text, codes, text_eq, text_eq_iff, any, arith,
  if◌then◌else◌,
}
use swift_cidr_admission.Base.Dict.{Dict, lookup, insert, lookup-insert}
use swift_cidr_admission.Capture.Experiment.{
  Experiment, unset, without, set_if, environment, setting,
}

lookup-without :
    (names : List Text) (k : Text) (env : Dict Text)
    → lookup k (without names env) ≡ (if any (text_eq k) names then none else lookup k env)
unfolding lookup without
lookup-without names k [] = ground arith
lookup-without names k ((j, v) ∷ env) = ground (arith, lookup-without names k env, text_eq_iff j k)

lookup-set_if :
    (b : Bool) (k j v : Text) (env : Dict Text)
    → lookup j (set_if b k v env) ≡ (if b && text_eq k j then some v else lookup j env)
unfolding set_if
lookup-set_if true k j v env = lookup-insert k j v env
lookup-set_if false k j v env = refl

-- What environment(diagnostics) holds for a name: the diagnostics and the peer projection are on where the run asks for them, the sampling is the reference one, the other names of UNSET are absent, and every other name is as in os.environ.
pub lookup-environment :
    (exp : Experiment) (environ : Dict Text) (diagnostics : Bool) (k : Text)
    → lookup k (environment exp environ diagnostics) ≡ (
        if diagnostics && text_eq (setting (codes "DIAGNOSTICS")) k
        then some (codes "1")
        else (if exp.peer_projection && text_eq (setting (codes "PEER_PROJECTION")) k
            then some (codes "1")
            else (if text_eq (setting (codes "SAMPLING")) k
                then some (codes "reference")
                else (if any (text_eq k) (unset exp) then none else lookup k environ))))
unfolding environment
lookup-environment exp environ diagnostics k =
    let cleared = without (unset exp) environ in
    let sampled = insert (setting (codes "SAMPLING")) (codes "reference") cleared in
    let projected =
      set_if exp.peer_projection (setting (codes "PEER_PROJECTION")) (codes "1") sampled in
    rw (lookup-set_if diagnostics (setting (codes "DIAGNOSTICS")) k (codes "1") projected) (
      rw
        (lookup-set_if exp.peer_projection (setting (codes "PEER_PROJECTION")) k (codes "1")
          sampled)
        (rw (lookup-insert (setting (codes "SAMPLING")) k (codes "reference") cleared)
          (rw (lookup-without (unset exp) k environ) refl)))
