-- ===== src/Admission/Checksum.antt =====
-- DetachedSHA256ChecksumVerifier.
pub mod Exactness
use swift_cidr_admission.Base.{
  ℕ, ◌+◌, ◌-◌, ◌/◌, ◌%◌, ◌==◌, leb, Bool, true, false, not, ◌&&◌, ◌||◌, List, [], ◌∷◌, ◌++◌, Text,
  codes, text_eq, Option, none, some, all, any, length, take, drop, get_elem?,
}
use swift_cidr_admission.Base.Slices.{last?}
use swift_cidr_admission.Runtime.{Bytes}
use swift_cidr_admission.Admission.Policy.{AdmissionRuleSet}
use swift_cidr_admission.Admission.Errors.{
  FileLoadError, checksum_malformed, checksum_filename_mismatch, checksum_digest_mismatch, Attempt,
  gives, throws, guarding,
}
use swift_cidr_admission.Admission.Platform.{Platform}

unfoldable pub is_lowercase_hexadecimal : ℕ → Bool
is_lowercase_hexadecimal byte = (leb 0x30 byte && leb byte 0x39) || (leb 0x61 byte && leb byte 0x66)

-- hexadecimalDigits[n], for n below 16
unfoldable pub digit : ℕ → ℕ
digit n = elim (leb 10 n) [ true ↦ 0x57 + n | false ↦ 0x30 + n ]

-- The loop of hexadecimalDigest(of:).
unfoldable pub hexadecimal : Bytes → Bytes
hexadecimal [] = []
hexadecimal (byte ∷ digest) = digit (byte / 16) ∷ digit (byte % 16) ∷ hexadecimal digest

-- bytes[i] == byte
unfoldable pub stands_at : Option ℕ → ℕ → Bool
stands_at none byte = false
stands_at (some b) byte = b == byte

unfoldable pub is_record : Bytes → Bool
is_record bytes =
    leb 67 (length bytes)
    && stands_at (get_elem? bytes 64) 0x20
    && stands_at (get_elem? bytes 65) 0x20
    && stands_at (last? bytes) 0x0A
    && all is_lowercase_hexadecimal (take 64 bytes)

-- bytes[66..<(bytes.count - 1)]
unfoldable pub filename_of : Bytes → Bytes
filename_of bytes = drop 66 (take (length bytes - 1) bytes)

unfoldable pub is_filename : Bytes → Bool
is_filename name =
    not (length name == 0) && not (any (λ b. b == 0x0A) name) && not (any (λ b. b == 0x0D) name)

module _ (p : Platform) where
  unfoldable pub hexadecimal_digest : Bytes → Bytes
  hexadecimal_digest source = hexadecimal (p.sha256 source)

  -- The comparisons of the name and of the digest. Digests are texts of ASCII digits, so that they
  -- compare like their bytes.
  unfoldable pub compare_record :
      Bytes
      → Text
      → Text
      → Bytes
      → Text
      → AdmissionRuleSet
      → Text
      → Attempt FileLoadError (Unit {0})
  compare_record source source_path basename bytes checksum_path rule_set actual_name =
      guarding (text_eq (filename_of bytes) (p.utf8 basename))
        (checksum_filename_mismatch rule_set source_path checksum_path basename actual_name)
        (guarding (text_eq (take 64 bytes) (hexadecimal_digest source))
          (checksum_digest_mismatch rule_set source_path checksum_path (take 64 bytes)
            (hexadecimal_digest source))
          (gives tt))

  unfoldable pub verify :
      Bytes → Text → Text → Bytes → Text → AdmissionRuleSet → Attempt FileLoadError (Unit {0})
  verify source source_path basename bytes checksum_path rule_set =
      let malformed = checksum_malformed rule_set source_path checksum_path in
      guarding (is_record bytes) malformed (
        guarding (is_filename (filename_of bytes)) malformed
          (elim (p.decode_utf8 (filename_of bytes)) [
            | none ↦ throws malformed
            | some name ↦
                compare_record source source_path basename bytes checksum_path rule_set name
          ]))
