-- ===== src/Capture/Compilers/Quiet.antt =====
-- What the wait for a quiet machine promises.
use mathlib.Core.Option.{Option, none, some}
use swift_cidr_admission.Base.{
  ℕ, zero, suc, ◌+◌, ◌*◌, ◌≤◌, ◌≡◌, refl, subst, if◌then◌else◌, sym, ◌∙◌, ap, leb, leb→le, Bool,
  true, false, List, [], ◌∷◌, Text, All, ok, arith, Bool-cases, inl, inr,
}
use swift_cidr_admission.Capture.World.{pure, Host, World, Action, ◌>=>◌, ◌>->◌, resume, ask}
use swift_cidr_admission.Capture.Inversion.{step_inversion, then_inversion}
use swift_cidr_admission.Capture.Compilers.Names.{IsOther, others_only}
use swift_cidr_admission.Capture.Compilers.{
  busy_among, found, compiler_processes, second, or_now, announce, give_up, turn, settle, rounds,
  wait_for_compilers,
}

-- The listing of processes that answers a question shows no compiler.
abbrev pub Idle : Host → ℕ → Type 0
Idle host n = (names : List Text) × (host.processes n ≡ some names) × All IsOther names

-- Rounds in a row, of three questions each (the clock, the processes, the pause), from the question
-- `first` up to `next`, in all of which no compiler is listed.
pub data QuietRun (host : Host) (first : ℕ) : ℕ → Type 0 where
  one : Idle host (first + 1) → QuietRun host first (first + 3)
  more : {k : ℕ} → QuietRun host first k → Idle host (k + 1) → QuietRun host first (k + 3)

-- What `quiet_since` stands for before the question `n`.
abbrev Since : Host → ℕ → Option ℕ → Type 0
Since host n none = Unit
Since host n (some t) = (first : ℕ) × QuietRun host first n × (host.clock first ≡ t)

-- The rounds ended well before the question `n`.
abbrev pub Settled : Host → ℕ → Type 0
Settled host n =
    (first k : ℕ) × QuietRun host first (k + 3)
    × (host.clock first + 10 * second ≤ host.clock k)
    × (n ≡ k + 2)

-- A quiet round carries the run on, or begins one.
Since-quiet :
    (host : Host) (n : ℕ) (quiet : Option ℕ)
    → Since host n quiet
    → Idle host (n + 1)
    → (first : ℕ) × QuietRun host first (n + 3) × (host.clock first ≡ or_now quiet (host.clock n))
unfolding or_now
Since-quiet host n none s i = (n, one i, refl)
Since-quiet host n (some zero) s i = (n, one i, refl)
Since-quiet host n (some (suc t)) (first, run, e) i = (first, more run i, e)

-- What one round of the loop does when the wait does not fail in it.
data Round (host : Host) (fuel deadline : ℕ) (quiet : Option ℕ) (announced : Bool) (w w' : World)
    : Type 0 where
  busy :
      (w1 : World)
      → (w1.asked ≡ w.asked + 3)
      → (settle host fuel deadline none true w1 ≡ (ok tt, w'))
      → Round host fuel deadline quiet announced w w'
  waiting :
      Idle host (w.asked + 1)
      → (w1 : World) → (w1.asked ≡ w.asked + 3)
      → (settle host fuel deadline (some (or_now quiet (host.clock w.asked))) announced w1
          ≡ (ok tt, w'))
      → Round host fuel deadline quiet announced w w'
  settled :
      Idle host (w.asked + 1)
      → (or_now quiet (host.clock w.asked) + 10 * second ≤ host.clock w.asked)
      → (w'.asked ≡ w.asked + 2)
      → Round host fuel deadline quiet announced w w'

abbrev pub at : World → ℕ → World
at w k = record w { asked = k }

pub give_up_inversion :
    (deadline now : ℕ) (w : World) {w' : World} → give_up deadline now w ≡ (ok tt, w') → w ≡ w'
unfolding give_up
give_up_inversion deadline now w h = elim (Bool-cases (leb deadline now)) [
  | inl e ↦ absurd (ground (arith, h, e))
  | inr e ↦ ground (arith, h, e)
]

pub announce_inversion :
    (announced : Bool) (w : World) {w' : World}
    → announce announced w ≡ (ok tt, w')
    → w.asked ≡ w'.asked
unfolding announce
announce_inversion true w h = ap (λ p. (p.1).asked) h
announce_inversion false w h = ap (λ p. (p.1).asked) h

pub three : (n : ℕ) → n + 1 + 1 + 1 ≡ n + 3
three n = omega arith

pause_inversion :
    (deadline now : ℕ) (next : Action (Unit {0})) (w : World) {w' : World}
    → (give_up deadline now >-> (ask (λ n. tt) >-> next)) w ≡ (ok tt, w')
    → (w1 : World) × (w1.asked ≡ w.asked + 1) × (next w1 ≡ (ok tt, w'))
pause_inversion deadline now next w h =
    let (_, w1, p, h1) = then_inversion (give_up deadline now) _ w h in
    let (_, w2, q, h2) = then_inversion (ask (λ n. tt)) next w1 h1 in
    (
      w2,
      sym (ap (λ p. (p.1).asked) q)
          ∙ ap (λ v. v.asked + 1) (sym (give_up_inversion deadline now w p)),
      h2,
    )

module _ (host : Host) (fuel deadline : ℕ) (quiet : Option ℕ) (announced : Bool) (w : World)
    {w' : World} where
  quiet-Round :
      (long_enough : Bool)
      → (leb (or_now quiet (host.clock w.asked) + 10 * second) (host.clock w.asked) ≡ long_enough)
      → Idle host (w.asked + 1)
      → (if long_enough
            then pure tt
            else (give_up deadline (host.clock w.asked)
                >-> (ask (λ n. tt)
                    >-> settle host fuel deadline
                        (some (or_now quiet (host.clock w.asked)))
                        announced)))
          (at w (w.asked + 1 + 1))
        ≡ (ok tt, w')
      → Round host fuel deadline quiet announced w w'
  quiet-Round true e i h = settled i (leb→le _ _ e) (sym (ap (λ p. (p.1).asked) h) ∙ omega arith)
  quiet-Round false e i h =
      let (w1, p, k) =
        pause_inversion deadline (host.clock w.asked)
          (settle host fuel deadline (some (or_now quiet (host.clock w.asked))) announced)
          (at w (w.asked + 1 + 1)) h in
      waiting i w1 (p ∙ three w.asked) k

  turn-Round :
      (busy : List Text)
      → ((names : List Text) × (host.processes (w.asked + 1) ≡ some names)
          × (busy_among names ≡ busy))
      → turn
          (settle host fuel deadline)
          deadline
          quiet
          announced
          (host.clock w.asked)
          busy
          (at w (w.asked + 1 + 1))
        ≡ (ok tt, w')
      → Round host fuel deadline quiet announced w w'
  unfolding turn
  turn-Round [] (names, listed, none_busy) h =
      quiet-Round _ refl (names, listed, others_only names none_busy) h
  turn-Round (b ∷ bs) i h =
      let (_, w1, p, h1) = then_inversion (announce announced) _ (at w (w.asked + 1 + 1)) h in
      let (w2, q, h2) =
        pause_inversion deadline (host.clock w.asked) (settle host fuel deadline none true) w1 h1 in
      busy w2
        (q
          ∙ ap (λ n. n + 1) (sym (announce_inversion announced (at w (w.asked + 1 + 1)) p))
          ∙ three w.asked)
        h2

  listed-Round :
      (o : Option (List Text)) (e : host.processes (w.asked + 1) ≡ o)
      → resume
          (found o)
          (turn (settle host fuel deadline) deadline quiet announced (host.clock w.asked))
          (at w (w.asked + 1 + 1))
        ≡ (ok tt, w')
      → Round host fuel deadline quiet announced w w'
  unfolding found
  listed-Round none e h = absurd (ground (arith, h))
  listed-Round (some names) e h = turn-Round (busy_among names) (names, e, refl) h

  settle-Round :
      settle host (suc fuel) deadline quiet announced w ≡ (ok tt, w')
      → Round host fuel deadline quiet announced w w'
  unfolding settle ◌>=>◌ compiler_processes
  settle-Round h = listed-Round (host.processes (w.asked + 1)) refl h

-- The wait has seen the machine quiet when it ends well.
module _ (host : Host) where
  settle_sound :
      (fuel deadline : ℕ) (quiet : Option ℕ) (announced : Bool) (w : World) {w' : World}
      → Since host w.asked quiet
      → settle host fuel deadline quiet announced w ≡ (ok tt, w')
      → Settled host w'.asked
  unfolding settle
  settle_sound zero deadline quiet announced w s h = absurd (ground (arith, h))
  settle_sound (suc fuel) deadline quiet announced w s h =
      elim (settle-Round host fuel deadline quiet announced w h) [
        | busy w1 p k ↦ settle_sound fuel deadline none true w1 tt k
        | waiting i w1 p k ↦
            let (first, run, e) = Since-quiet host w.asked quiet s i in
            settle_sound fuel deadline (some (or_now quiet (host.clock w.asked))) announced w1
              (first, subst (QuietRun host first) (sym p) run, e) k
        | settled i le p ↦
            let (first, run, e) = Since-quiet host w.asked quiet s i in
            (first, w.asked, run, omega arith, p)
      ]

  -- When wait_for_compilers succeeds, the last listings of processes in a row, over a time of at least ten seconds by the clock, show no process with the file name of one of the six compilers.
  pub wait_for_compilers_sound :
      (w : World) {w' : World} → wait_for_compilers host w ≡ (ok tt, w') → Settled host w'.asked
  unfolding wait_for_compilers
  wait_for_compilers_sound w h =
      let (start, w1, p, k) =
        step_inversion (ask host.clock)
          (λ start. settle host rounds (start + 900 * second) none false) w h in
      settle_sound rounds (start + 900 * second) none false w1 tt k
