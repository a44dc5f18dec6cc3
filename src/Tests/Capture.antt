-- ===== src/Tests/Capture.antt =====
-- A machine small enough to run the capture scripts on, and concrete inputs of their theorems.
use swift_cidr_admission.Capture.World.{◌>->◌}
use swift_cidr_admission.Publication.Lines.{strip_left}
use swift_cidr_admission.Capture.Compilers.{strip}
use swift_cidr_admission.Publication.Lines.{components}
use swift_cidr_admission.Capture.Compilers.{file_name}
use swift_cidr_admission.Capture.Compilers.{is_compiler}
use swift_cidr_admission.Capture.Compilers.{busy_among}
use swift_cidr_admission.Capture.Compilers.{compiler_processes}
use swift_cidr_admission.Capture.World.{◌>=>◌}
use mathlib.Core.Option.{some}
use swift_cidr_admission.Base.{
  ℕ, ◌*◌, ◌≡◌, ◌≢◌, refl, false, List, [], ◌∷◌, Text, codes, out_of_fuel, arith, runtime_error,
  text_eq,
}
use swift_cidr_admission.Base.Dict.{lookup}
use swift_cidr_admission.Files.{FileSystem}
use swift_cidr_admission.Capture.World.{Host, World}
use swift_cidr_admission.Capture.Compilers.{second, wait_for_compilers}
use swift_cidr_admission.Capture.Compilers.Quiet.{Settled, wait_for_compilers_sound}
use swift_cidr_admission.Capture.Compilers.Deadline.{Ticks, wait_for_compilers_terminates}
use swift_cidr_admission.Capture.Experiment.{environment, setting}
use swift_cidr_admission.Capture.Experiment.Environment.{lookup-environment}
use swift_cidr_admission.Capture.PeerProjection.{experiment}
use swift_cidr_admission.Tests.Toy.{toy}

-- The steps of the clock, what runs, and what a command does to the files.
abbrev pub host_of : ℕ → List Text → (FileSystem → FileSystem) → Host
host_of tick names effect = record {
  clock = λ n. n * tick;
  processes = λ n. some names;
  now = λ n. codes "now";
  run = λ n command fs. (record { code = 0; stdout = codes "out"; stderr = [] }, effect fs);
  seconds = λ n. codes "1";
  environ = (codes "PATH", codes "/bin") ∷ (setting (codes "SAMPLING"), codes "quick") ∷ [];
  python = codes "python3";
  gzip_file = λ b. 0 ∷ b;
}

abbrev quiet_host : Host
quiet_host = host_of (4 * second) (codes "/usr/bin/vim" ∷ []) (λ fs. fs)

abbrev pub start : World
start = record { fs = []; asked = 0; printed = [] }

wait_for_compilers_sound_example : Settled quiet_host 6
unfolding wait_for_compilers ◌>=>◌ compiler_processes busy_among is_compiler text_eq file_name
    components strip strip_left ◌>->◌
wait_for_compilers_sound_example =
    wait_for_compilers_sound quiet_host start {w' = record start { asked = 6 }} refl

-- A compiler is running, and the clock is past the deadline at the second turn.
abbrev busy_host : Host
busy_host = host_of (300 * second) (codes "/usr/bin/clang" ∷ []) (λ fs. fs)

busy_host-Ticks : Ticks busy_host
busy_host-Ticks = record { monotonic = λ n. omega arith; sleeps = λ n. omega arith }

wait_for_compilers_terminates_example : runtime_error ≢ out_of_fuel
unfolding wait_for_compilers ◌>=>◌ compiler_processes busy_among is_compiler text_eq file_name
    components strip strip_left ◌>->◌
wait_for_compilers_terminates_example =
    wait_for_compilers_terminates busy_host busy_host-Ticks start
      {e = record {
        class = runtime_error;
        message =
            codes "Compiler activity did not settle within 15 minutes; no new measurement started";
      }}
      {w' = record start {
        asked = 6;
        printed = codes "Waiting for other compilation to finish before measurement" ∷ [];
      }}
      refl

lookup-environment_example :
    lookup (setting (codes "SAMPLING")) (environment (experiment toy []) (quiet_host.environ) false)
    ≡ some (codes "reference")
unfolding experiment text_eq
lookup-environment_example =
    lookup-environment (experiment toy []) (quiet_host.environ) false (setting (codes "SAMPLING"))
