-- ===== src/Capture/World.antt =====
-- The machine that the capture scripts run on: its files, its clock and its commands. An action may
-- raise, and what it did before stays done.
use mathlib.Core.Option.{Option, none, some}
use swift_cidr_admission.Base.{
  ℕ, zero, suc, ◌+◌, ◌/◌, ◌%◌, ◌==◌, Bool, true, false, List, [], ◌∷◌, ◌++◌, Text, codes, Result,
  ok, err, raise, os_error, assertion_error, if◌then◌else◌,
}
use swift_cidr_admission.Base.Dict.{Dict}
use swift_cidr_admission.Json.{Json}
use swift_cidr_admission.Runtime.{Runtime, Bytes, indented_ascii}
use swift_cidr_admission.Files.{
  FileSystem, FilePath, Node, folder, file, node_at, path_eq, as_posix,
}

-- subprocess.run: a return code other than 0 is a failure.
pub record Completed : Type 0 where
  pub code : ℕ
  pub stdout : Bytes
  pub stderr : Bytes

-- The arguments of subprocess.run: with none given, the folder and the environment are the script's.
pub record Command : Type 0 where
  pub argv : List Text
  pub cwd : Option FilePath
  pub env : Option (Dict Text)

-- What the machine answers to the n-th question. A command may change any file.
pub record Host : Type 0 where
  -- time.monotonic(), in nanoseconds.
  pub clock : ℕ → ℕ
  -- The lines of `ps -axo comm=`, if the command succeeds.
  pub processes : ℕ → Option (List Text)
  -- datetime.now(utc).isoformat(timespec='seconds')
  pub now : ℕ → Text
  pub run : ℕ → Command → FileSystem → Completed × FileSystem
  -- A span of nanoseconds as JSON has it in seconds.
  pub seconds : ℕ → Text
  -- os.environ and sys.executable
  pub environ : Dict Text
  pub python : Text
  -- What gzip.GzipFile(filename='', mode='wb', mtime=0) writes for the bytes.
  pub gzip_file : Bytes → Bytes

pub record World : Type 0 where
  pub fs : FileSystem
  -- The number of questions that the machine has answered.
  pub asked : ℕ
  pub printed : List Text

abbrev pub Action : Type 0 → Type 0
Action A = World → Result A × World

module _ {A B : Type 0} where
  infixl 6 ◌>=>◌ ◌>->◌
  abbrev pub resume : Result A → (A → Action B) → Action B
  resume (ok a) next w = next a w
  resume (err e) next w = (err e, w)

  -- The first action, and with its value the next.
  unfoldable pub ◌>=>◌ : Action A → (A → Action B) → Action B
  ◌>=>◌ first next w = let (r, w') = first w in resume r next w'

  unfoldable pub ◌>->◌ : Action A → Action B → Action B
  ◌>->◌ first next w = let (r, w') = first w in resume r (λ _. next) w'

module _ {A : Type 0} where
  abbrev pub pure : A → Action A
  pure a w = (ok a, w)

  abbrev pub lift : Result A → Action A
  lift r w = (r, w)

  -- An answer of the machine.
  abbrev pub ask : (ℕ → A) → Action A
  ask answer w = (ok (answer w.asked), record w { asked = w.asked + 1 })

module _ {A : Type 0} where
  -- for item in items
  unfoldable pub for_each : List A → (A → Action (Unit {0})) → Action (Unit {0})
  for_each [] body = pure tt
  for_each (x ∷ xs) body = body x >-> for_each xs body

abbrev pub print : Text → Action (Unit {0})
print line w = (ok tt, record w { printed = w.printed ++ (line ∷ []) })

-- assert condition, message
abbrev pub affirm : Bool → Text → Action (Unit {0})
affirm true message w = (ok tt, w)
affirm false message w = (raise assertion_error message, w)

-- Sets a node in its place, or at the end.
unfoldable pub put_node : FilePath → Node → FileSystem → FileSystem
put_node p n [] = (p, n) ∷ []
put_node p n ((q, m) ∷ fs) = if path_eq q p then (q, n) ∷ fs else (q, m) ∷ put_node p n fs

unfoldable pub file_bytes : Option Node → Result Bytes
file_bytes (some (file bytes)) = ok bytes
file_bytes _ = raise os_error (codes "No such file, or no file")

-- path.read_bytes(). The captures hold no links.
unfoldable pub read_bytes : FilePath → Action Bytes
unfolding file_bytes
read_bytes path w = (file_bytes (node_at path w.fs), w)

unfoldable pub is_folder : FilePath → FileSystem → Bool
is_folder [] fs = true
is_folder (p ∷ path) fs = elim (node_at (p ∷ path) fs) [ some folder ↦ true | _ ↦ false ]

unfoldable pub is_file : FilePath → FileSystem → Bool
is_file path fs = elim (node_at path fs) [ some (file b) ↦ true | _ ↦ false ]

-- path.parent
unfoldable pub parent : FilePath → FilePath
parent [] = []
parent (p ∷ []) = []
parent (p ∷ q ∷ path) = p ∷ parent (q ∷ path)

-- path.write_bytes(bytes)
unfoldable pub write_bytes : FilePath → Bytes → Action (Unit {0})
write_bytes path bytes w =
    if is_folder path w.fs
    then (raise os_error (codes "Is a directory"), w)
    else if is_folder (parent path) w.fs
    then (ok tt, record w { fs = put_node path (file bytes) w.fs })
    else (raise os_error (codes "No such file or directory"), w)

-- The missing folders from the root down, from `at` on.
unfoldable pub make_folders : FilePath → FilePath → Action (Unit {0})
make_folders at [] w = (ok tt, w)
make_folders at (p ∷ path) w =
    let here = at ++ (p ∷ []) in
    elim (node_at here w.fs) [
      | none ↦ make_folders here path (record w { fs = put_node here folder w.fs })
      | some folder ↦ make_folders here path w
      | some _ ↦ (raise os_error (codes "Not a directory"), w)
    ]

-- path.mkdir(parents=True, exist_ok=False)
unfoldable pub make_new_folder : FilePath → Action (Unit {0})
unfolding make_folders
make_new_folder path w = elim (node_at path w.fs) [
  | some n ↦ (raise os_error (codes "File exists"), w)
  | none ↦ make_folders [] path w
]

module _ (rt : Runtime) where
  -- path.read_text()
  unfoldable pub read_text : FilePath → Action Text
  read_text path = read_bytes path >=> λ bytes. lift (rt.decode bytes)

  -- json.loads(path.read_text())
  unfoldable pub read_json : FilePath → Action Json
  read_json path = read_text path >=> λ text. lift (rt.json_loads text)

  -- path.write_text(text)
  unfoldable pub write_text : FilePath → Text → Action (Unit {0})
  write_text path text = lift (rt.encode text) >=> λ bytes. write_bytes path bytes

  -- path.write_text(json.dumps(value, indent=2) + '\n')
  unfoldable pub write_json : FilePath → Json → Action (Unit {0})
  write_json path value = write_text path (rt.json_dumps indented_ascii value ++ (10 ∷ []))

  -- sha(path)
  unfoldable pub sha : FilePath → Action Text
  sha path = read_bytes path >=> λ bytes. pure (rt.sha256 bytes)

-- str(path) of an absolute path.
unfoldable pub path_text : FilePath → Text
path_text path = codes "/" ++ as_posix path

digits_of : ℕ → ℕ → Text → Text
digits_of zero n more = more
digits_of (suc fuel) n more =
    let more' = (b'0' + n % 10) ∷ more in
    elim (n / 10 == 0) [ true ↦ more' | false ↦ digits_of fuel (n / 10) more' ]

-- str(n)
unfoldable pub decimal : ℕ → Text
unfolding digits_of
decimal n = digits_of (suc n) n []
