-- ===== src/Capture/Compilers/Deadline.antt =====
-- The wait for a quiet machine ends.
use mathlib.Core.Option.{Option, none, some}
use swift_cidr_admission.Base.{
  ℕ, zero, suc, ◌+◌, ◌*◌, ◌≤◌, ◌≡◌, ◌≢◌, sym, ◌∙◌, ap, subst, leb, le→leb, Bool, true, false, List,
  [], ◌∷◌, Text, ok, err, out_of_fuel, Error, arith, Bool-cases, inl, inr, if◌then◌else◌,
}
use swift_cidr_admission.Capture.World.{Host, World, Action, ◌>=>◌, ◌>->◌, ask, pure, resume}
use swift_cidr_admission.Capture.Inversion.{then_failure}
use swift_cidr_admission.Capture.Compilers.{
  busy_among, found, compiler_processes, second, or_now, announce, give_up, turn, settle,
  wait_for_compilers,
}
use swift_cidr_admission.Capture.Compilers.Quiet.{at, three, announce_inversion, give_up_inversion}

-- The clock never goes back, and a turn of the loop, which sleeps for five seconds, takes as long.
pub record Ticks (host : Host) : Type 0 where
  pub monotonic : (n : ℕ) → host.clock n ≤ host.clock (n + 1)
  pub sleeps : (n : ℕ) → host.clock n + 5 * second ≤ host.clock (n + 3)

abbrev FuelLeft : Error → Type 0
FuelLeft e = e.class ≢ out_of_fuel

give_up_failure :
    (deadline now : ℕ) (w : World) {e : Error} {w' : World}
    → give_up deadline now w ≡ (err e, w')
    → FuelLeft e
unfolding give_up
give_up_failure deadline now w h = elim (Bool-cases (leb deadline now)) [
  | inl e ↦ ground (arith, h, e)
  | inr e ↦ ground (arith, h, e)
]

give_up_before :
    (deadline now : ℕ) (w : World) {w' : World}
    → give_up deadline now w ≡ (ok tt, w')
    → leb deadline now ≡ false
unfolding give_up
give_up_before deadline now w h = elim (Bool-cases (leb deadline now)) [
  | inl e ↦ absurd (ground (arith, h, e))
  | inr e ↦ e
]

announce_succeeds :
    (announced : Bool) (w : World) {e : Error} {w' : World} → announce announced w ≢ (err e, w')
unfolding announce
announce_succeeds true w h = absurd (ground (arith, h))
announce_succeeds false w h = absurd (ground (arith, h))

-- The end of a turn fails with fuel left if the next turn, which begins before the deadline, does.
pause_failure :
    (deadline now : ℕ) (next : Action (Unit {0})) (w : World) {e : Error} {w' : World}
    → ((w1 : World)
        → (w1.asked ≡ w.asked + 1)
        → (leb deadline now ≡ false)
        → next w1 ≡ (err e, w')
        → FuelLeft e)
    → (give_up deadline now >-> (ask (λ n. tt) >-> next)) w ≡ (err e, w')
    → FuelLeft e
pause_failure deadline now next w later h = elim (then_failure (give_up deadline now) _ w h) [
  | inl k ↦ give_up_failure deadline now w k
  | inr (_, w1, p, h1) ↦ elim (then_failure (ask (λ n. tt)) next w1 h1) [
    | inl k ↦ absurd (ground (arith, k))
    | inr (_, w2, q, h2) ↦
        later w2
          (sym (ap (λ p. (p.1).asked) q)
            ∙ ap (λ v. v.asked + 1) (sym (give_up_inversion deadline now w p)))
          (give_up_before deadline now w p) h2
  ]
]

-- The turns after this one reach the deadline.
abbrev Enough : Host → ℕ → ℕ → ℕ → Type 0
Enough host deadline turns n = deadline ≤ host.clock n + 5 * second * turns

next_turn :
    (turns deadline now later : ℕ)
    → now + 5 * second ≤ later
    → deadline ≤ now + 5 * second * suc turns
    → deadline ≤ later + 5 * second * turns
next_turn turns deadline now later s h = omega arith

start_turn : (now later : ℕ) → now ≤ later → now + 900 * second ≤ later + 5 * second * 181
start_turn now later h = omega arith

module _ (host : Host) (ticks : Ticks host) where
  -- The turns after this one fail with fuel left, if this one is before the deadline.
  abbrev Later : (fuel deadline : ℕ) → World → Type 0
  Later fuel deadline w =
      (quiet : Option ℕ) (announced : Bool) (w1 : World) (e : Error) (w' : World)
      → (w1.asked ≡ w.asked + 3)
      → (leb deadline (host.clock w.asked) ≡ false)
      → settle host fuel deadline quiet announced w1 ≡ (err e, w')
      → FuelLeft e

  module _ (fuel deadline : ℕ) (quiet : Option ℕ) (announced : Bool) (w : World) {e : Error}
      {w' : World} (later : Later fuel deadline w) where
    quiet_failure :
        (long_enough : Bool)
        → (if long_enough
              then pure tt
              else (give_up deadline (host.clock w.asked)
                  >-> (ask (λ n. tt)
                      >-> settle host fuel deadline
                          (some (or_now quiet (host.clock w.asked)))
                          announced)))
            (at w (w.asked + 1 + 1))
          ≡ (err e, w')
        → FuelLeft e
    quiet_failure true h = absurd (ground (arith, h))
    quiet_failure false h =
        pause_failure deadline (host.clock w.asked)
          (settle host fuel deadline (some (or_now quiet (host.clock w.asked))) announced)
          (at w (w.asked + 1 + 1))
          (λ w1 p b.
            later (some (or_now quiet (host.clock w.asked))) announced w1 e w' (p ∙ three w.asked)
              b)
          h

    turn_failure :
        (busy : List Text)
        → turn
            (settle host fuel deadline)
            deadline
            quiet
            announced
            (host.clock w.asked)
            busy
            (at w (w.asked + 1 + 1))
          ≡ (err e, w')
        → FuelLeft e
    unfolding turn
    turn_failure [] h = quiet_failure _ h
    turn_failure (b ∷ bs) h =
        elim (then_failure (announce announced) _ (at w (w.asked + 1 + 1)) h) [
          | inl k ↦ absurd (announce_succeeds announced _ k)
          | inr (_, w1, p, h1) ↦
              pause_failure deadline (host.clock w.asked) (settle host fuel deadline none true) w1
                (λ w2 q b.
                  later none true w2 e w'
                    (q
                      ∙ ap (λ n. n + 1)
                          (sym (announce_inversion announced (at w (w.asked + 1 + 1)) p))
                      ∙ three w.asked)
                    b)
                h1
        ]

    listed_failure :
        (o : Option (List Text))
        → resume
            (found o)
            (turn (settle host fuel deadline) deadline quiet announced (host.clock w.asked))
            (at w (w.asked + 1 + 1))
          ≡ (err e, w')
        → FuelLeft e
    unfolding found
    listed_failure none h = ground (arith, h)
    listed_failure (some names) h = turn_failure (busy_among names) h

  settle_failure :
      (fuel deadline : ℕ) (quiet : Option ℕ) (announced : Bool) (w : World) {e : Error} {w' : World}
      → Enough host deadline fuel w.asked
      → settle host (suc fuel) deadline quiet announced w ≡ (err e, w')
      → FuelLeft e
  unfolding settle ◌>=>◌ compiler_processes
  settle_failure zero deadline quiet announced w enough h =
      listed_failure zero deadline quiet announced w
        (λ quiet' announced' w1 e' w'' p b k.
          absurd (ground (arith, le→leb deadline (host.clock w.asked) (omega arith), b)))
        (host.processes (w.asked + 1)) h
  settle_failure (suc fuel) deadline quiet announced w enough h =
      listed_failure (suc fuel) deadline quiet announced w
        (λ quiet' announced' w1 e' w'' p b k.
          settle_failure fuel deadline quiet' announced' w1
            (subst (λ m. deadline ≤ host.clock m + 5 * second * fuel) (sym p)
              (next_turn fuel deadline (host.clock w.asked) (host.clock (w.asked + 3))
                (ticks.sleeps w.asked) enough))
            k)
        (host.processes (w.asked + 1)) h

  -- When the clock never goes back and each turn takes the five seconds that it sleeps, the loop of wait_for_compilers ends: it returns or raises before the fuel of the model runs out.
  pub wait_for_compilers_terminates :
      (w : World) {e : Error} {w' : World}
      → wait_for_compilers host w ≡ (err e, w')
      → e.class ≢ out_of_fuel
  unfolding wait_for_compilers ◌>=>◌
  wait_for_compilers_terminates w h =
      settle_failure 181 (host.clock w.asked + 900 * second) none false (at w (w.asked + 1))
        (start_turn (host.clock w.asked) (host.clock (w.asked + 1)) (ticks.monotonic w.asked)) h
