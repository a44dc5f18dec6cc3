-- ===== src/Capture/Compilers.antt =====
-- `compiler_processes` and `wait_for_compilers` of rerun.py, the same in all captures.
pub mod Names
pub mod Quiet
pub mod Deadline
use mathlib.Core.Option.{Option, none, some}
use swift_cidr_admission.Base.{
  ℕ, zero, suc, ◌+◌, ◌*◌, ◌==◌, leb, Bool, true, false, not, ◌||◌, List, [], ◌∷◌, ◌++◌, Text, codes,
  text_eq, Result, ok, err, raise, ErrorClass, out_of_fuel, runtime_error, if◌then◌else◌, any,
}
use mathlib.Core.List.{reverse}
use swift_cidr_admission.Publication.Patterns.{is_space}
use swift_cidr_admission.Publication.Lines.{components, strip_left}
use swift_cidr_admission.Capture.World.{Host, World, Action, ◌>=>◌, ◌>->◌, pure, lift, ask, print}

-- name.strip()
unfoldable pub strip : Text → Text
strip s = reverse (strip_left (reverse (strip_left s)))

last_part : Text → List Text → Text
last_part found [] = found
last_part found (part ∷ parts) =
    last_part (if text_eq part [] || text_eq part (codes ".") then found else part) parts

-- Path(path).name
unfoldable pub file_name : Text → Text
unfolding last_part
file_name path = last_part [] (components [] path)

abbrev pub compilers : List Text
compilers =
    codes "swift-build"
    ∷ codes "swift-test"
    ∷ codes "swift-frontend"
    ∷ codes "clang"
    ∷ codes "clang++"
    ∷ codes "xcodebuild"
    ∷ []

unfoldable pub is_compiler : Text → Bool
is_compiler name = any (text_eq (file_name (strip name))) compilers

unfoldable pub busy_among : List Text → List Text
busy_among [] = []
busy_among (name ∷ names) =
    let rest = busy_among names in if is_compiler name then name ∷ rest else rest

pub found : Option (List Text) → Result (List Text)
found none = raise ErrorClass.other (codes "CalledProcessError")
found (some names) = ok (busy_among names)

unfoldable pub compiler_processes : Host → Action (List Text)
unfolding found
compiler_processes host = ask host.processes >=> λ names. lift (found names)

abbrev pub second : ℕ
second = 1000000000

-- quiet_since or now: zero is false.
unfoldable pub or_now : Option ℕ → ℕ → ℕ
or_now none now = now
or_now (some zero) now = now
or_now (some (suc n)) now = suc n

pub announce : Bool → Action (Unit {0})
announce true = pure tt
announce false = print (codes "Waiting for other compilation to finish before measurement")

pub give_up : ℕ → ℕ → Action (Unit {0})
give_up deadline now =
    if leb deadline now
    then lift (
        raise runtime_error
          (codes "Compiler activity did not settle within 15 minutes; no new measurement started"))
    else pure tt

-- The rest of a turn of the loop, once the clock is read and the processes are listed. `next` is the
-- next turn, with the values of `quiet_since` and `announced`.
pub turn :
    (Option ℕ → Bool → Action (Unit {0})) → ℕ → Option ℕ → Bool → ℕ → List Text → Action (Unit {0})
unfolding or_now give_up announce
turn next deadline quiet announced now [] =
    if leb (or_now quiet now + 10 * second) now
    then pure tt
    else give_up deadline now >-> (ask (λ n. tt) >-> next (some (or_now quiet now)) announced)
turn next deadline quiet announced now (b ∷ bs) =
    announce announced >-> (give_up deadline now >-> (ask (λ n. tt) >-> next none true))

abbrev pub rounds : ℕ
rounds = 182

module _ (host : Host) where
  -- The loop, with `quiet_since` and `announced`.
  unfoldable pub settle : ℕ → ℕ → Option ℕ → Bool → Action (Unit {0})
  unfolding turn
  settle zero deadline quiet announced = lift (raise out_of_fuel [])
  settle (suc fuel) deadline quiet announced = ask host.clock >=> λ now.
      compiler_processes host >=> λ busy.
      turn (settle fuel deadline) deadline quiet announced now busy

  -- `rounds` suffice: the loop sleeps five seconds in a round, and gives up after fifteen minutes.
  unfoldable pub wait_for_compilers : Action (Unit {0})
  unfolding settle
  wait_for_compilers = ask host.clock >=> λ start. settle rounds (start + 900 * second) none false
