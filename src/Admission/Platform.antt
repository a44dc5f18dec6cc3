-- ===== src/Admission/Platform.antt =====
-- What the library takes from Foundation and Crypto.
use swift_cidr_admission.Base.{ℕ, ◌≡◌, ◌≢◌, ◌<◌, Bool, List, Text, Option, none, All, length}
use swift_cidr_admission.Runtime.{Bytes}

pub record Url : Type 0 where
  pub is_file_url : Bool
  pub host : Option Text
  pub path : Text
  pub absolute_string : Text
  pub last_path_component : Text

pub record Platform : Type 0 where
  -- URL(fileURLWithPath:)
  pub file_url : Text → Url
  -- String(bytes:encoding: .utf8) and Array(text.utf8)
  pub decode_utf8 : Bytes → Option Text
  pub utf8 : Text → Bytes
  -- SHA256.hash(data:)
  pub sha256 : Bytes → Bytes
  -- The characters of a text, each with its code points.
  pub characters : Text → List Text
  -- CharacterSet.newlines.contains and CharacterSet.whitespaces.contains
  pub is_newline : ℕ → Bool
  pub is_whitespace : ℕ → Bool

-- The documented behaviour: the bytes of a text are UTF-8, and a digest has 32 bytes.
pub record PlatformIsLawful (p : Platform) : Type 0 where
  pub decodes : (t : Text) → p.decode_utf8 (p.utf8 t) ≢ none
  pub digest_length : (b : Bytes) → length (p.sha256 b) ≡ 32
  pub digest_bytes : (b : Bytes) → All (λ n. n < 256) (p.sha256 b)
