-- ===== src/Admission/Loader/Integrity.antt =====
-- What a role that loads has read.
use swift_cidr_admission.Base.{
  ℕ, ◌+◌, ◌≡◌, ◌↔◌, refl, sym, ◌∙◌, ap, subst, Bool, true, false, ◌&&◌, List, [], Text, Option,
  none, some, arith, if◌then◌else◌,
}
use swift_cidr_admission.Runtime.{Bytes}
use swift_cidr_admission.Admission.Cidr.{Cidr}
use swift_cidr_admission.Admission.Rules.{AdmissionRule}
use swift_cidr_admission.Admission.Policy.{AdmissionRuleSet}
use swift_cidr_admission.Admission.Errors.{
  IpAdmissionChecksumPolicy, verify_if_present, required, FileLoadError, Attempt, gives, throws,
}
use swift_cidr_admission.Admission.Platform.{Platform, PlatformIsLawful, Url}
use swift_cidr_admission.Admission.Checksum.{is_filename}
use swift_cidr_admission.Admission.Checksum.Exactness.{record_of, verify_iff}
use swift_cidr_admission.Admission.ListText.{parse}
use swift_cidr_admission.Admission.Loader.{
  ReadResult, missing, irregular, content, FileAccess, Loading, resume, is_local_file_url,
  checksum_url, source_result, checksum_result, read_source, read_checksum, verify_read, load,
}

pub resume_gives :
    {A B : Type 0} (first : Attempt FileLoadError A × ℕ) (next : A → Loading B) (b : B) (end : ℕ)
    → resume first next ≡ (gives b, end)
    → (a : A) × (calls : ℕ) × (first ≡ (gives a, calls)) × (next a calls ≡ (gives b, end))
unfolding resume
resume_gives (throws e, calls) next b end h = absurd (ground (arith, h))
resume_gives (gives a, calls) next b end h = (a, calls, refl, h)

module _ (rule_set : AdmissionRuleSet) where
  source_result_gives :
      (path : Text) (r : Attempt Text ReadResult) (source : Bytes)
      → source_result rule_set path r ≡ gives source
      → r ≡ gives (content source)
  unfolding source_result
  source_result_gives path (throws e) source h = absurd (ground (arith, h))
  source_result_gives path (gives missing) source h = absurd (ground (arith, h))
  source_result_gives path (gives irregular) source h = absurd (ground (arith, h))
  source_result_gives path (gives (content bytes)) source h = ground (arith, h)

  checksum_result-some :
      (path checksum_path : Text) (policy : IpAdmissionChecksumPolicy) (r : Attempt Text ReadResult)
      (checksum : Bytes)
      → checksum_result rule_set path checksum_path policy r ≡ gives (some checksum)
      → r ≡ gives (content checksum)
  unfolding checksum_result
  checksum_result-some path checksum_path policy (throws e) checksum h = absurd (ground (arith, h))
  checksum_result-some path checksum_path verify_if_present (gives missing) checksum h =
      absurd (ground (arith, h))
  checksum_result-some path checksum_path required (gives missing) checksum h =
      absurd (ground (arith, h))
  checksum_result-some path checksum_path policy (gives irregular) checksum h =
      absurd (ground (arith, h))
  checksum_result-some path checksum_path policy (gives (content bytes)) checksum h =
      ground (arith, h)

  checksum_result-none :
      (path checksum_path : Text) (policy : IpAdmissionChecksumPolicy) (r : Attempt Text ReadResult)
      → checksum_result rule_set path checksum_path policy r ≡ gives none
      → (r ≡ gives missing) × (policy ≡ verify_if_present)
  unfolding checksum_result
  checksum_result-none path checksum_path policy (throws e) h = absurd (ground (arith, h))
  checksum_result-none path checksum_path verify_if_present (gives missing) h = (refl, refl)
  checksum_result-none path checksum_path required (gives missing) h = absurd (ground (arith, h))
  checksum_result-none path checksum_path policy (gives irregular) h = absurd (ground (arith, h))
  checksum_result-none path checksum_path policy (gives (content bytes)) h =
      absurd (ground (arith, h))

module _ (c : Cidr) (p : Platform) (file_access : FileAccess) where
  -- How a role loads: what the calls of the file system found, and the rules that came of it.
  pub data Loads (rule_set : AdmissionRuleSet) (policy : IpAdmissionChecksumPolicy) (calls : ℕ)
      : Option Url → List (AdmissionRule c) → ℕ → Type 0 where
    absent : Loads rule_set policy calls none [] calls
    verified :
        (file : Url) (source : Bytes) (rules : List (AdmissionRule c))
        → (file.is_file_url && is_local_file_url p file) ≡ true
        → file_access calls file ≡ gives (content source)
        → file_access (calls + 1) (checksum_url p file)
          ≡ gives (content (record_of p source file.last_path_component))
        → is_filename (p.utf8 file.last_path_component) ≡ true
        → parse c p rule_set file.path source ≡ gives rules
        → Loads rule_set policy calls (some file) rules (calls + 1 + 1)
    unverified :
        (file : Url) (source : Bytes) (rules : List (AdmissionRule c))
        → (file.is_file_url && is_local_file_url p file) ≡ true
        → file_access calls file ≡ gives (content source)
        → file_access (calls + 1) (checksum_url p file) ≡ gives missing
        → policy ≡ verify_if_present
        → parse c p rule_set file.path source ≡ gives rules
        → Loads rule_set policy calls (some file) rules (calls + 1 + 1)

module _ (c : Cidr) (p : Platform) (lawful : PlatformIsLawful p) (file_access : FileAccess)
    (rule_set : AdmissionRuleSet) where
  module _ (policy : IpAdmissionChecksumPolicy) (calls : ℕ) (file : Url) (source : Bytes)
      (rules : List (AdmissionRule c)) where
    verified-Loads :
        (checksum : Option Bytes)
        → (file.is_file_url && is_local_file_url p file) ≡ true
        → file_access calls file ≡ gives (content source)
        → checksum_result rule_set file.path
            ((checksum_url p file).path)
            policy
            (file_access (calls + 1) (checksum_url p file))
          ≡ gives checksum
        → verify_read c p file_access rule_set file source checksum ≡ gives tt
        → parse c p rule_set file.path source ≡ gives rules
        → Loads c p file_access rule_set policy calls (some file) rules (calls + 1 + 1)
    unfolding verify_read
    verified-Loads none local found read_it accepted parsed =
        let (nothing, lenient) =
          checksum_result-none rule_set file.path ((checksum_url p file).path) policy _ read_it in
        unverified file source rules local found nothing lenient parsed
    verified-Loads (some checksum) local found read_it accepted parsed =
        let (exact, named) =
          (verify_iff p lawful source file.path file.last_path_component checksum
              ((checksum_url p file).path) rule_set).0
            accepted in
        verified file source rules local found
          (checksum_result-some rule_set file.path ((checksum_url p file).path) policy _ checksum
              read_it
            ∙ ap (λ b. gives (content b)) exact)
          named parsed

  if_gives :
      {B : Type 0} (condition : Bool) (one : Attempt FileLoadError B × ℕ) (e : FileLoadError)
      (calls : ℕ) (b : B) (end : ℕ)
      → (if condition then one else (throws e, calls)) ≡ (gives b, end)
      → (condition ≡ true) × (one ≡ (gives b, end))
  if_gives true one e calls b end h = (refl, h)
  if_gives false one e calls b end h = absurd (ground (arith, h))

  pub load_sound :
      (file : Option Url) (policy : IpAdmissionChecksumPolicy) (calls : ℕ)
      (rules : List (AdmissionRule c)) (end : ℕ)
      → load c p file_access file rule_set policy calls ≡ (gives rules, end)
      → Loads c p file_access rule_set policy calls file rules end
  unfolding load read_source read_checksum
  load_sound none policy calls rules end h =
      subst (λ k. Loads c p file_access rule_set policy calls none k end) (ground (arith, h))
        (subst (λ k. Loads c p file_access rule_set policy calls none [] k) (ap (λ x. x.1) h)
          absent)
  load_sound (some file) policy calls rules end h =
      let (local, h1) =
        if_gives (file.is_file_url && is_local_file_url p file) _ _ calls rules end h in
      let (source, c1, found, h2) =
        resume_gives (read_source c p file_access rule_set file calls) _ rules end h1 in
      let (checksum, c2, read_it, h3) =
        resume_gives
          (read_checksum c p file_access rule_set file.path policy (checksum_url p file) c1) _ rules
          end h2 in
      let (accepted, c3, checked, h4) =
        resume_gives (verify_read c p file_access rule_set file source checksum, c2) _ rules end
          h3 in
      let first : calls + 1 ≡ c1 = ap (λ x. x.1) found in
      let last : calls + 1 + 1 ≡ end =
        ap (λ k. k + 1) first
        ∙ (ap (λ x. x.1) read_it ∙ (ap (λ x. x.1) checked ∙ ap (λ x. x.1) h4)) in
      subst (λ k. Loads c p file_access rule_set policy calls (some file) rules k) last
        (verified-Loads policy calls file source rules checksum local
          (source_result_gives rule_set file.path (file_access calls file) source
            (ap (λ x. x.0) found))
          (subst
            (λ k.
              checksum_result rule_set file.path ((checksum_url p file).path) policy
                (file_access k (checksum_url p file))
              ≡ gives checksum)
            (sym first) (ap (λ x. x.0) read_it))
          (ap (λ x. x.0) checked) (ap (λ x. x.0) h4))

  load_steps :
      (file : Url) (policy : IpAdmissionChecksumPolicy) (calls : ℕ) (source : Bytes)
      (checksum : Option Bytes)
      → (file.is_file_url && is_local_file_url p file) ≡ true
      → source_result rule_set file.path (file_access calls file) ≡ gives source
      → checksum_result rule_set file.path
          ((checksum_url p file).path)
          policy
          (file_access (calls + 1) (checksum_url p file))
        ≡ gives checksum
      → verify_read c p file_access rule_set file source checksum ≡ gives tt
      → load c p file_access (some file) rule_set policy calls
        ≡ (parse c p rule_set file.path source, calls + 1 + 1)
  unfolding load read_source read_checksum resume
  load_steps file policy calls source checksum local found read_it accepted =
      rw (local, found, read_it, accepted) refl

  pub load_complete :
      {policy : IpAdmissionChecksumPolicy} {calls : ℕ} {file : Option Url}
      {rules : List (AdmissionRule c)} {end : ℕ}
      → Loads c p file_access rule_set policy calls file rules end
      → load c p file_access file rule_set policy calls ≡ (gives rules, end)
  unfolding load source_result checksum_result verify_read
  load_complete absent = refl
  load_complete {policy} {calls} (verified file source rules local found read_it named parsed) =
      let checksum_path = (checksum_url p file).path in
      load_steps file policy calls source (some (record_of p source file.last_path_component)) local
        (ap (source_result rule_set file.path) found)
        (ap (checksum_result rule_set file.path checksum_path policy) read_it)
        ((verify_iff p lawful source file.path file.last_path_component
            (record_of p source file.last_path_component) checksum_path rule_set).1
          (refl, named))
      ∙ ap (λ r. (r, calls + 1 + 1)) parsed
  load_complete {policy} {calls} (unverified file source rules local found nothing lenient parsed) =
      load_steps file policy calls source none local (ap (source_result rule_set file.path) found)
        (ap (checksum_result rule_set file.path ((checksum_url p file).path) policy) nothing
          ∙ ap
              (λ q.
                checksum_result rule_set file.path ((checksum_url p file).path) q (gives missing))
              lenient)
        refl
      ∙ ap (λ r. (r, calls + 1 + 1)) parsed

  -- Under the platform's laws, a role gives rules exactly as `Loads` says: no rules for no file; else the file is local, its bytes are read by one call, and the rules are parsed from these bytes. The next call finds the checksum file that names the file and has the digest of the same bytes, or it finds no checksum file, under the policy that allows that.
  pub load_iff :
      (file : Option Url) (policy : IpAdmissionChecksumPolicy) (calls : ℕ)
      (rules : List (AdmissionRule c)) (end : ℕ)
      → (load c p file_access file rule_set policy calls ≡ (gives rules, end))
        ↔ Loads c p file_access rule_set policy calls file rules end
  load_iff file policy calls rules end = (load_sound file policy calls rules end, load_complete)
