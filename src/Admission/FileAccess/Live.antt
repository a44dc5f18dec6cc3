-- ===== src/Admission/FileAccess/Live.antt =====
-- The role loader over the system's calls: what stands behind an address that a policy of real files
-- lets in.
use swift_cidr_admission.Base.{
  ℕ, ◌+◌, ◌≡◌, sym, ◌∙◌, ap, true, List, ◌++◌, Text, codes, some, any, arith,
}
use swift_cidr_admission.Runtime.{Bytes}
use swift_cidr_admission.Capture.World.{decimal}
use swift_cidr_admission.Admission.Cidr.{Cidr, IsLawful, AnyIpAddress}
use swift_cidr_admission.Admission.Rules.{AdmissionRule, contains}
use swift_cidr_admission.Admission.Policy.{
  AdmissionAction, AdmissionRuleSet, IpAdmissionPolicy, allows,
}
use swift_cidr_admission.Admission.Errors.{required, Attempt, gives, throws}
use swift_cidr_admission.Admission.Platform.{Platform, PlatformIsLawful, Url}
use swift_cidr_admission.Admission.Checksum.Exactness.{record_of}
use swift_cidr_admission.Admission.ListText.{parse}
use swift_cidr_admission.Admission.Loader.{
  ReadResult, content, FileAccess, FileConfiguration, checksum_url, policy_of_files,
}
use swift_cidr_admission.Admission.Loader.Required.{required_allows}
use swift_cidr_admission.Admission.FileAccess.{
  Posix, PosixFileAccessError, open_and_read_regular_file,
}
use swift_cidr_admission.Admission.FileAccess.Reading.{ReadsFrom, Opens, open_and_read_sound}

-- errorDescription, where `message` is strerror.
unfoldable pub error_description : (ℕ → Text) → PosixFileAccessError → Text
error_description message e =
    e.operation
    ++ (codes " failed: "
        ++ (message e.error_number
            ++ (codes " (POSIX error " ++ (decimal e.error_number ++ codes ")"))))

-- What the loader sees of a call.
unfoldable pub described :
    (ℕ → Text) → Attempt PosixFileAccessError ReadResult → Attempt Text ReadResult
described message (throws e) = throws (error_description message e)
described message (gives result) = gives result

-- The file access is openAndReadRegularFile at each call, which finds the system in some state, and returns.
abbrev pub IsLive : (ℕ → Posix) → (ℕ → Text) → FileAccess → Type 0
IsLive machine message file_access =
    (calls : ℕ) (url : Url)
    → (fuel : ℕ) × (outcome : Attempt PosixFileAccessError ReadResult)
      × ((open_and_read_regular_file (machine calls) fuel url).result ≡ some outcome)
      × (file_access calls url ≡ described message outcome)

described_content :
    (message : ℕ → Text) (outcome : Attempt PosixFileAccessError ReadResult) (bytes : Bytes)
    → described message outcome ≡ gives (content bytes)
    → outcome ≡ gives (content bytes)
unfolding described
described_content message (throws e) bytes h = absurd (ground (arith, h))
described_content message (gives result) bytes h = ground (arith, h)

module _ (machine : ℕ → Posix) (message : ℕ → Text) (file_access : FileAccess)
    (live : IsLive machine message file_access) where
  -- The bytes are those of a regular file that the URL leads to, from its first byte to its end.
  abbrev pub IsContent : ℕ → Url → Bytes → Type 0
  IsContent calls url bytes =
      (descriptor : ℕ) × Opens (machine calls) url descriptor
      × ReadsFrom (machine calls) descriptor 0 bytes

  found_IsContent :
      (calls : ℕ) (url : Url) (bytes : Bytes)
      → file_access calls url ≡ gives (content bytes)
      → IsContent calls url bytes
  found_IsContent calls url bytes h =
      let (fuel, outcome, returned, seen) = live calls url in
      let read = described_content message outcome bytes (sym seen ∙ h) in
      let (descriptor, opens, from, closed) =
        open_and_read_sound (machine calls) url fuel bytes (returned ∙ ap some read) in
      (descriptor, opens, from)

  module _ (c : Cidr) (lawful : IsLawful c) (p : Platform)
      (platform_lawful : PlatformIsLawful p) where
    -- Over the system's calls, with required checksums and a default action of deny: when a policy of files lets an address in, the allow file is a regular file that was read to its end; the checksum file, read to its end by the next call, names that file and has the digest of these bytes; and a rule that the parser reads from these bytes holds the address.
    pub live_allows :
        (configuration : FileConfiguration) (calls : ℕ) (policy : IpAdmissionPolicy c) (end : ℕ)
        (a : AnyIpAddress c)
        → configuration.checksum_policy ≡ required
        → configuration.default_action ≡ AdmissionAction.deny
        → policy_of_files c p file_access configuration calls ≡ (gives policy, end)
        → allows c policy a ≡ true
        → (url : Url) × (source : Bytes) × (rules : List (AdmissionRule c))
          × (configuration.allow_file ≡ some url)
          × IsContent calls url source
          × IsContent (calls + 1) (checksum_url p url) (record_of p source url.last_path_component)
          × (parse c p AdmissionRuleSet.allow url.path source ≡ gives rules)
          × (any (λ rule. contains c rule a) rules ≡ true)
    live_allows configuration calls policy end a strict closed made allowed =
        let (url, source, rules, configured, found, vouched, parsed, holds) =
          required_allows c lawful p platform_lawful file_access configuration calls policy end a
            strict closed made allowed in
        (
          url,
          source,
          rules,
          configured,
          found_IsContent calls url source found,
          found_IsContent (calls + 1) (checksum_url p url)
              (record_of p source url.last_path_component) vouched,
          parsed,
          holds,
        )
