-- ===== src/Admission/FileAccess.antt =====
-- IPAdmissionPolicyFileAccess: openAndReadRegularFile, over the system's calls.
pub mod Reading
pub mod Live
use swift_cidr_admission.Base.{
  ℕ, zero, suc, ◌+◌, ◌/◌, ◌%◌, ◌==◌, Bool, true, false, ◌||◌, List, [], ◌∷◌, ◌++◌, Text, codes,
  Option, none, some, if◌then◌else◌,
}
use swift_cidr_admission.Runtime.{Bytes}
use swift_cidr_admission.Admission.Errors.{Attempt, gives, throws}
use swift_cidr_admission.Admission.Platform.{Url}
use swift_cidr_admission.Admission.Loader.{ReadResult, missing, irregular, content}

-- The system: the path of a URL, and the calls, which fail with an error number. `read` is numbered.
pub record Posix : Type 0 where
  pub file_system_representation : Url → Option Text
  pub open_file : Text → Attempt ℕ ℕ
  -- st_mode
  pub file_status : ℕ → Attempt ℕ ℕ
  pub read : ℕ → ℕ → Attempt ℕ Bytes
  pub einval : ℕ
  pub enoent : ℕ
  pub enotdir : ℕ
  pub eintr : ℕ

-- POSIXFileAccessError
pub record PosixFileAccessError : Type 0 where
  pub operation : Text
  pub error_number : ℕ

-- What a call of openAndReadRegularFile did: its result, or none when the fuel was used up, and the descriptors that it closed.
pub record Call : Type 0 where
  pub result : Option (Attempt PosixFileAccessError ReadResult)
  pub closed : List ℕ

abbrev pub failing : {A : Type 0} → Text → ℕ → Attempt PosixFileAccessError A
failing operation error_number =
    throws record { operation = operation; error_number = error_number }

-- (st_mode & S_IFMT) == S_IFREG, where the type of a file is the four bits from the twelfth on.
unfoldable pub is_regular : ℕ → Bool
is_regular mode = (mode / 4096) % 16 == 8

unfoldable pub read_result :
    Option (Attempt PosixFileAccessError Bytes) → Option (Attempt PosixFileAccessError ReadResult)
read_result none = none
read_result (some (throws e)) = some (throws e)
read_result (some (gives bytes)) = some (gives (content bytes))

module _ (posix : Posix) where
  -- What the loop does with a count, or an error number, and where it continues.
  unfoldable pub after_read :
      Attempt ℕ Bytes
      → Bytes
      → (Bytes → Option (Attempt PosixFileAccessError Bytes))
      → Option (Attempt PosixFileAccessError Bytes)
  after_read (gives []) buffered continue = some (gives buffered)
  after_read (gives (byte ∷ bytes)) buffered continue = continue (buffered ++ (byte ∷ bytes))
  after_read (throws e) buffered continue =
      if e == posix.eintr then continue buffered else some (failing (codes "read") e)

  -- The loop over systemRead, from its n-th turn on.
  unfoldable pub read_loop : ℕ → ℕ → ℕ → Bytes → Option (Attempt PosixFileAccessError Bytes)
  read_loop zero descriptor n buffered = none
  read_loop (suc fuel) descriptor n buffered =
      after_read (posix.read descriptor n) buffered (read_loop fuel descriptor (n + 1))

  -- What follows fstat.
  unfoldable pub read_regular :
      ℕ → ℕ → Attempt ℕ ℕ → Option (Attempt PosixFileAccessError ReadResult)
  read_regular fuel descriptor (throws e) = some (failing (codes "fstat") e)
  read_regular fuel descriptor (gives mode) = elim (is_regular mode) [
    | true ↦ read_result (read_loop fuel descriptor 0 [])
    | false ↦ some (gives irregular)
  ]

  -- What follows open; the deferred close runs on every way out.
  unfoldable pub opened : ℕ → Attempt ℕ ℕ → Call
  opened fuel (throws e) = record {
    result = some (
        if (e == posix.enoent) || (e == posix.enotdir)
        then gives missing
        else failing (codes "open") e);
    closed = [];
  }
  opened fuel (gives descriptor) = record {
    result = read_regular fuel descriptor (posix.file_status descriptor);
    closed = descriptor ∷ [];
  }

  -- openAndReadRegularFile(_:)
  unfoldable pub open_and_read_regular_file : ℕ → Url → Call
  open_and_read_regular_file fuel url = elim (posix.file_system_representation url) [
    | none ↦ record { result = some (failing (codes "encode path") posix.einval); closed = [] }
    | some path ↦ opened fuel (posix.open_file path)
  ]
