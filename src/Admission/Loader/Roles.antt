-- ===== src/Admission/Loader/Roles.antt =====
-- When a policy is made of two roles.
use swift_cidr_admission.Base.{ℕ, ◌≡◌, ◌↔◌, ◌∙◌, ap, List}
use swift_cidr_admission.Admission.Cidr.{Cidr}
use swift_cidr_admission.Admission.Rules.{AdmissionRule}
use swift_cidr_admission.Admission.Policy.{AdmissionRuleSet, IpAdmissionPolicy, policy_of_rules}
use swift_cidr_admission.Admission.Errors.{gives, gives-injective}
use swift_cidr_admission.Admission.Platform.{Platform, PlatformIsLawful}
use swift_cidr_admission.Admission.Loader.{
  FileAccess, FileConfiguration, resume, load, policy_of_files,
}
use swift_cidr_admission.Admission.Loader.Integrity.{resume_gives, Loads, load_sound, load_complete}

module _ (c : Cidr) (p : Platform) (file_access : FileAccess) where
  -- A policy is made of two roles that load, one after the other.
  abbrev pub MadeOf : FileConfiguration → ℕ → IpAdmissionPolicy c → ℕ → Type 0
  MadeOf configuration calls policy end =
      (allow : List (AdmissionRule c)) × (deny : List (AdmissionRule c)) × (between : ℕ) × Loads c p
        file_access AdmissionRuleSet.allow configuration.checksum_policy calls
        configuration.allow_file allow between
      × Loads c p file_access AdmissionRuleSet.deny configuration.checksum_policy between
          configuration.deny_file deny end
      × (policy_of_rules c allow deny configuration.default_action ≡ policy)

module _ (c : Cidr) (p : Platform) (lawful : PlatformIsLawful p) (file_access : FileAccess) where
  policy_of_files_sound :
      (configuration : FileConfiguration) (calls : ℕ) (policy : IpAdmissionPolicy c) (end : ℕ)
      → policy_of_files c p file_access configuration calls ≡ (gives policy, end)
      → MadeOf c p file_access configuration calls policy end
  unfolding policy_of_files
  policy_of_files_sound configuration calls policy end h =
      let (allow, between, allowed, h1) =
        resume_gives
          (load c p file_access configuration.allow_file AdmissionRuleSet.allow
            configuration.checksum_policy calls)
          _ policy end h in
      let (deny, last, denied, h2) =
        resume_gives
          (load c p file_access configuration.deny_file AdmissionRuleSet.deny
            configuration.checksum_policy between)
          _ policy end h1 in
      (
        allow,
        deny,
        between,
        load_sound c p lawful file_access AdmissionRuleSet.allow configuration.allow_file
            configuration.checksum_policy calls allow between allowed,
        load_sound c p lawful file_access AdmissionRuleSet.deny configuration.deny_file
            configuration.checksum_policy between deny end
            (denied ∙ ap (λ k. (gives deny, k)) (ap (λ x. x.1) h2)),
        gives-injective (ap (λ x. x.0) h2),
      )

  policy_of_files_complete :
      (configuration : FileConfiguration) (calls : ℕ) (policy : IpAdmissionPolicy c) (end : ℕ)
      → MadeOf c p file_access configuration calls policy end
      → policy_of_files c p file_access configuration calls ≡ (gives policy, end)
  unfolding policy_of_files resume
  policy_of_files_complete configuration calls policy end
        (allow, deny, between, allowed, denied, made) =
      rw
        (
          load_complete c p lawful file_access AdmissionRuleSet.allow allowed,
          load_complete c p lawful file_access AdmissionRuleSet.deny denied,
        )
        (ap (λ q. (gives q, end)) made)

  -- Under the platform's laws, a file configuration gives a policy exactly when both roles load, the allow role first; the policy is compiled from their rules and the default action.
  pub policy_of_files_iff :
      (configuration : FileConfiguration) (calls : ℕ) (policy : IpAdmissionPolicy c) (end : ℕ)
      → (policy_of_files c p file_access configuration calls ≡ (gives policy, end))
        ↔ MadeOf c p file_access configuration calls policy end
  policy_of_files_iff configuration calls policy end = (
    policy_of_files_sound configuration calls policy end,
    policy_of_files_complete configuration calls policy end,
  )
