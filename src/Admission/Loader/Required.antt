-- ===== src/Admission/Loader/Required.antt =====
-- What stands behind an address that a policy of files lets in.
use swift_cidr_admission.Base.{
  ℕ, ◌+◌, ◌≡◌, ◌≢◌, refl, sym, ◌∙◌, ap, true, List, Option, some, any, inl, inr, Bool-cases, arith,
}
use swift_cidr_admission.Runtime.{Bytes}
use swift_cidr_admission.Admission.Cidr.{Cidr, IsLawful, AnyIpAddress}
use swift_cidr_admission.Admission.Rules.{AdmissionRule, contains}
use swift_cidr_admission.Admission.Policy.{
  AdmissionAction, AdmissionRuleSet, IpAdmissionPolicy, index_of_rules, index_contains,
  policy_of_rules, is_allow, allows,
}
use swift_cidr_admission.Admission.Policy.Agreement.{index_contains-index_of_rules}
use swift_cidr_admission.Admission.Errors.{
  IpAdmissionChecksumPolicy, verify_if_present, required, gives,
}
use swift_cidr_admission.Admission.Platform.{Platform, PlatformIsLawful, Url}
use swift_cidr_admission.Admission.Checksum.Exactness.{record_of}
use swift_cidr_admission.Admission.ListText.{parse}
use swift_cidr_admission.Admission.Loader.{
  content, FileAccess, FileConfiguration, checksum_url, policy_of_files,
}
use swift_cidr_admission.Admission.Loader.Integrity.{Loads, absent, verified, unverified}
use swift_cidr_admission.Admission.Loader.Roles.{policy_of_files_iff}

required_is_strict : required ≢ verify_if_present
required_is_strict h = ground (arith, h)

module _ (c : Cidr) (p : Platform) (file_access : FileAccess) where
  -- The file is one that its checksum file names with the digest of its bytes, and some rule that the parser reads from these bytes holds the address.
  abbrev pub IsVouched : ℕ → Option Url → AnyIpAddress c → Type 0
  IsVouched calls file a =
      (url : Url) × (source : Bytes) × (rules : List (AdmissionRule c)) × (file ≡ some url)
      × (file_access calls url ≡ gives (content source))
      × (file_access (calls + 1) (checksum_url p url)
          ≡ gives (content (record_of p source url.last_path_component)))
      × (parse c p AdmissionRuleSet.allow url.path source ≡ gives rules)
      × (any (λ rule. contains c rule a) rules ≡ true)

  Loads-IsVouched :
      {policy : IpAdmissionChecksumPolicy} {calls : ℕ} {file : Option Url}
      {rules : List (AdmissionRule c)} {end : ℕ} (a : AnyIpAddress c)
      → policy ≡ required
      → any (λ rule. contains c rule a) rules ≡ true
      → Loads c p file_access AdmissionRuleSet.allow policy calls file rules end
      → IsVouched calls file a
  Loads-IsVouched a strict holds absent = absurd (ground (arith, holds))
  Loads-IsVouched a strict holds (verified file source rules local found read_it named parsed) =
      (file, source, rules, refl, found, read_it, parsed, holds)
  Loads-IsVouched a strict holds (unverified file source rules local found nothing lenient parsed) =
      absurd (required_is_strict (sym strict ∙ lenient))

module _ (c : Cidr) (lawful : IsLawful c) where
  allows_by_a_rule :
      (allow deny : List (AdmissionRule c)) (default : AdmissionAction) (a : AnyIpAddress c)
      → default ≡ AdmissionAction.deny
      → allows c (policy_of_rules c allow deny default) a ≡ true
      → any (λ rule. contains c rule a) allow ≡ true
  unfolding allows policy_of_rules is_allow
  allows_by_a_rule allow deny default a closed h =
      elim (Bool-cases (index_contains c (index_of_rules c allow) a)) [
        | inl e ↦ sym (index_contains-index_of_rules c lawful allow a) ∙ e
        | inr e ↦ absurd (ground (arith, h, e, closed, ap (is_allow c) closed))
      ]

  module _ (p : Platform) (platform_lawful : PlatformIsLawful p) (file_access : FileAccess) where
    -- Under the laws, with required checksums and a default action of deny, an address that a policy of files lets in has a rule that holds it in the bytes of the allow file, and the checksum file that was read vouches for these same bytes.
    pub required_allows :
        (configuration : FileConfiguration) (calls : ℕ) (policy : IpAdmissionPolicy c) (end : ℕ)
        (a : AnyIpAddress c)
        → configuration.checksum_policy ≡ required
        → configuration.default_action ≡ AdmissionAction.deny
        → policy_of_files c p file_access configuration calls ≡ (gives policy, end)
        → allows c policy a ≡ true
        → IsVouched c p file_access calls configuration.allow_file a
    required_allows configuration calls policy end a strict closed made allowed =
        let (allow, deny, between, loaded, denied, compiled) =
          (policy_of_files_iff c p platform_lawful file_access configuration calls policy end).0
            made in
        Loads-IsVouched c p file_access a strict
          (allows_by_a_rule allow deny configuration.default_action a closed
            (ap (λ q. allows c q a) compiled ∙ allowed))
          loaded
