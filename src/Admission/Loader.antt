-- ===== src/Admission/Loader.antt =====
-- IPAdmissionPolicyRoleLoader, and the policy that init(fileConfiguration:) makes of two roles. The
-- calls of the file system are counted, so that each may find a different state of the files.
pub mod Integrity
pub mod Roles
pub mod Required
use swift_cidr_admission.Base.{
  ℕ, ◌+◌, ◌==◌, leb, Bool, true, false, not, ◌&&◌, ◌||◌, List, [], ◌∷◌, ◌++◌, Text, codes, Option,
  none, some, all, length, if◌then◌else◌,
}
use swift_cidr_admission.Runtime.{Bytes}
use swift_cidr_admission.Admission.Cidr.{Cidr}
use swift_cidr_admission.Admission.Rules.{AdmissionRule}
use swift_cidr_admission.Admission.Policy.{
  AdmissionAction, AdmissionRuleSet, IpAdmissionPolicy, policy_of_rules,
}
use swift_cidr_admission.Admission.Errors.{
  IpAdmissionChecksumPolicy, verify_if_present, required, FileLoadError, unsupported_url,
  file_not_found, not_regular_file, unreadable_file, checksum_not_found, checksum_not_regular_file,
  checksum_unreadable, Attempt, gives, throws,
}
use swift_cidr_admission.Admission.Platform.{Platform, Url}
use swift_cidr_admission.Admission.Checksum.{verify}
use swift_cidr_admission.Admission.ListText.{is_empty, parse}

-- IPAdmissionPolicyFileAccess.ReadResult
pub data ReadResult : Type 0 where
  missing irregular : ReadResult
  content : Bytes → ReadResult

-- openAndRead at each of its calls; an error as its localized description.
abbrev pub FileAccess : Type 0
FileAccess = ℕ → Url → Attempt Text ReadResult

-- IPAdmissionPolicyFileConfiguration
pub record FileConfiguration : Type 0 where
  pub checksum_policy : IpAdmissionChecksumPolicy
  pub default_action : AdmissionAction
  pub allow_file : Option Url
  pub deny_file : Option Url

-- A throwing call that starts after some calls of the file system, with their number when it ends.
abbrev pub Loading : Type 0 → Type 0
Loading A = ℕ → Attempt FileLoadError A × ℕ

unfoldable pub resume :
    {A B : Type 0} → Attempt FileLoadError A × ℕ → (A → Loading B) → Attempt FileLoadError B × ℕ
resume (throws e, calls) next = (throws e, calls)
resume (gives a, calls) next = next a calls

unfoldable pub lower_case : ℕ → ℕ
lower_case byte = if leb 0x41 byte && leb byte 0x5A then byte + 0x20 else byte

-- zip(actual, expected).allSatisfy
unfoldable pub all_match : Bytes → Bytes → Bool
unfolding lower_case
all_match (byte ∷ actual) (expected_byte ∷ expected) =
    (lower_case byte == expected_byte) && all_match actual expected
all_match _ _ = true

unfoldable pub suffix : Text
suffix = codes ".sha256"

module _ (p : Platform) where
  -- isASCIICaseInsensitiveLocalhost(_:)
  unfoldable pub is_localhost : Text → Bool
  is_localhost host =
      if length (p.utf8 host) == 9 then all_match (p.utf8 host) (codes "localhost") else false

  -- isLocalFileURL(_:)
  unfoldable pub is_local_file_url : Url → Bool
  is_local_file_url url = elim url.host [
    | none ↦ true
    | some host ↦ is_empty host || is_localhost host
  ]

  -- checksumURL
  unfoldable pub checksum_url : Url → Url
  checksum_url file = p.file_url (file.path ++ suffix)

module _ (rule_set : AdmissionRuleSet) where
  -- The result of readSource for what openAndRead did.
  unfoldable pub source_result : Text → Attempt Text ReadResult → Attempt FileLoadError Bytes
  source_result path (throws reason) = throws (unreadable_file rule_set path reason)
  source_result path (gives missing) = throws (file_not_found rule_set path)
  source_result path (gives irregular) = throws (not_regular_file rule_set path)
  source_result path (gives (content bytes)) = gives bytes

  -- The result of readChecksum for what openAndRead did.
  unfoldable pub checksum_result :
      Text
      → Text
      → IpAdmissionChecksumPolicy
      → Attempt Text ReadResult
      → Attempt FileLoadError (Option Bytes)
  checksum_result path checksum_path policy (throws reason) =
      throws (checksum_unreadable rule_set path checksum_path reason)
  checksum_result path checksum_path verify_if_present (gives missing) = gives none
  checksum_result path checksum_path required (gives missing) =
      throws (checksum_not_found rule_set path checksum_path)
  checksum_result path checksum_path policy (gives irregular) =
      throws (checksum_not_regular_file rule_set path checksum_path)
  checksum_result path checksum_path policy (gives (content bytes)) = gives (some bytes)

module _ (c : Cidr) (p : Platform) (file_access : FileAccess) where
  unfoldable pub read_source : AdmissionRuleSet → Url → Loading Bytes
  read_source rule_set url calls =
      (source_result rule_set url.path (file_access calls url), calls + 1)

  unfoldable pub read_checksum :
      AdmissionRuleSet → Text → IpAdmissionChecksumPolicy → Url → Loading (Option Bytes)
  read_checksum rule_set source_path policy url calls =
      (checksum_result rule_set source_path url.path policy (file_access calls url), calls + 1)

  -- The verification of a checksum, if one was read.
  unfoldable pub verify_read :
      AdmissionRuleSet → Url → Bytes → Option Bytes → Attempt FileLoadError (Unit {0})
  verify_read rule_set file source none = gives tt
  verify_read rule_set file source (some checksum) =
      verify p source file.path file.last_path_component checksum ((checksum_url p file).path)
        rule_set

  unfoldable pub load :
      Option Url → AdmissionRuleSet → IpAdmissionChecksumPolicy → Loading (List (AdmissionRule c))
  load none rule_set policy calls = (gives [], calls)
  load (some file) rule_set policy calls =
      if file.is_file_url && is_local_file_url p file
      then resume (read_source rule_set file calls) (λ source after_source.
        resume (read_checksum rule_set file.path policy (checksum_url p file) after_source)
          (λ checksum after_checksum.
            resume (verify_read rule_set file source checksum, after_checksum)
              (λ verified end. (parse c p rule_set file.path source, end))))
      else (throws (unsupported_url rule_set file.absolute_string), calls)

  -- init(fileConfiguration:)
  unfoldable pub policy_of_files : FileConfiguration → Loading (IpAdmissionPolicy c)
  policy_of_files configuration calls =
      resume
        (load configuration.allow_file AdmissionRuleSet.allow configuration.checksum_policy calls)
        (λ allow_rules after_allow.
          resume
            (load configuration.deny_file AdmissionRuleSet.deny configuration.checksum_policy
              after_allow)
            (λ deny_rules end.
              (gives (policy_of_rules c allow_rules deny_rules configuration.default_action), end)))
