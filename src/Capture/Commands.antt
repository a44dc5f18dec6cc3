-- ===== src/Capture/Commands.antt =====
-- `timestamp`, `output`, `compress` and `execute` of rerun.py, and the copies it makes.
use mathlib.Core.Option.{none, some}
use swift_cidr_admission.Base.{
  ℕ, ◌+◌, ◌-◌, ◌==◌, List, [], ◌++◌, Text, codes, ok, raise, ErrorClass, runtime_error,
  if◌then◌else◌, length, drop,
}
use swift_cidr_admission.Base.Dict.{Dict}
use swift_cidr_admission.Files.{FilePath}
use swift_cidr_admission.Runtime.{Runtime}
use swift_cidr_admission.Capture.World.{
  Host, Action, Command, Completed, ◌>=>◌, ◌>->◌, pure, lift, ask, print, read_bytes, read_text,
  write_bytes, path_text, decimal,
}
use swift_cidr_admission.Capture.Compilers.{strip}
use swift_cidr_admission.Capture.Shell.{with_suffix}

-- text[-n:]
unfoldable pub last : ℕ → Text → Text
last n text = drop (length text - n) text

unfoldable pub timestamp : Host → Action Text
timestamp host = ask host.now

-- subprocess.run(command)
unfoldable pub run_command : Host → Command → Action Completed
run_command host command w =
    let (completed, fs) = host.run w.asked command w.fs in
    (ok completed, record w { fs = fs; asked = w.asked + 1 })

module _ (rt : Runtime) (host : Host) where
  -- subprocess.run(command, check=True)
  unfoldable pub run_checked : List Text → Action Completed
  unfolding run_command
  run_checked argv =
      run_command host (record { argv = argv; cwd = none; env = none }) >=> λ completed.
      if completed.code == 0
      then pure completed
      else lift (raise ErrorClass.other (codes "CalledProcessError"))

  unfoldable pub output : List Text → Action Text
  output argv = run_checked argv >=> λ completed.
      lift (rt.decode completed.stdout) >=> λ text. pure (strip text)

  -- The opened destination is empty until the archive is written.
  unfoldable pub compress : FilePath → FilePath → Action (Unit {0})
  compress source destination =
      read_bytes source >=> λ bytes. write_bytes destination (host.gzip_file bytes)

  unfoldable pub execute : List Text → FilePath → Dict Text → FilePath → Action (Unit {0})
  execute argv cwd env stem =
      let stdout = with_suffix stem (codes ".stdout.log") in
      let stderr = with_suffix stem (codes ".stderr.log") in
      write_bytes stdout []
      >-> (write_bytes stderr []
          >-> (run_command host (record { argv = argv; cwd = some cwd; env = some env })
              >=> λ completed.
                  write_bytes stdout completed.stdout
                  >-> (write_bytes stderr completed.stderr
                      >-> (if completed.code == 0
                          then pure tt
                          else read_text rt stderr >=> λ text.
                              print (last 5000 text)
                              >-> lift (
                                  raise runtime_error (
                                    path_text stem
                                    ++ (codes ": exit " ++ decimal completed.code)))))))

-- shutil.copy2(source, destination)
unfoldable pub copy : FilePath → FilePath → Action (Unit {0})
copy source destination = read_bytes source >=> λ bytes. write_bytes destination bytes
