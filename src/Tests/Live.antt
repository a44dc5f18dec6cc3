-- ===== src/Tests/Live.antt =====
-- The files of the tests of loading on a toy system.
use swift_cidr_admission.Base.{
  ℕ, zero, suc, ◌≡◌, refl, true, List, [], ◌++◌, Text, codes, text_eq, some, any, if◌then◌else◌,
  Bool-cases, inl, inr,
}
use swift_cidr_admission.Runtime.{Bytes}
use swift_cidr_admission.Admission.Cidr.{v4}
use swift_cidr_admission.Admission.Rules.{AdmissionRule, contains}
use swift_cidr_admission.Admission.Policy.{AdmissionRuleSet}
use swift_cidr_admission.Admission.Errors.{Attempt, gives, throws}
use swift_cidr_admission.Admission.Platform.{Url}
use swift_cidr_admission.Admission.Checksum.{hexadecimal_digest, hexadecimal, digit}
use swift_cidr_admission.Admission.Checksum.Exactness.{record_of}
use swift_cidr_admission.Admission.ListText.{parse}
use swift_cidr_admission.Admission.Loader.{missing, content, checksum_url}
use swift_cidr_admission.Admission.FileAccess.{
  Posix, open_and_read_regular_file, opened, read_regular, read_result, read_loop, after_read,
  is_regular,
}
use swift_cidr_admission.Admission.FileAccess.Live.{IsLive, IsContent, described, live_allows}
use swift_cidr_admission.Tests.ToyCidr.{
  toy_cidr, toy_cidr-IsLawful, toy_platform, toy_platform-IsLawful,
}
use swift_cidr_admission.Tests.Loading.{
  name, document, checksum, disk, configuration, policy, policy_is_made, allowed,
}

abbrev bytes_of : ℕ → Bytes
bytes_of zero = document
bytes_of (suc descriptor) = checksum

abbrev read_of : ℕ → ℕ → Attempt ℕ Bytes
read_of descriptor zero = gives (bytes_of descriptor)
read_of descriptor (suc n) = gives []

abbrev system : Posix
system = record {
  file_system_representation = λ url. some url.path;
  open_file = λ path.
      if text_eq path name
      then gives 0
      else if text_eq path (name ++ codes ".sha256")
      then gives 1
      else throws 2;
  file_status = λ descriptor. gives 33188;
  read = read_of;
  einval = 22;
  enoent = 2;
  enotdir = 20;
  eintr = 4;
}

abbrev message : ℕ → Text
message n = codes "error"

disk_is_live : IsLive (λ calls. system) message disk
unfolding described open_and_read_regular_file opened read_regular read_result read_loop after_read
    is_regular hexadecimal_digest hexadecimal digit
disk_is_live calls url = elim (Bool-cases (text_eq url.path name)) [
  | inl e ↦ (3, gives (content document), rw e refl, rw e refl)
  | inr e ↦ elim (Bool-cases (text_eq url.path (name ++ codes ".sha256"))) [
    | inl f ↦ (3, gives (content checksum), rw (e, f) refl, rw (e, f) refl)
    | inr f ↦ (3, gives missing, rw (e, f) refl, rw (e, f) refl)
  ]
]

live_allows_example :
    (url : Url) × (source : Bytes) × (rules : List (AdmissionRule toy_cidr))
    × (configuration.allow_file ≡ some url)
    × IsContent (λ calls. system) message disk disk_is_live 0 url source
    × IsContent
        (λ calls. system)
        message
        disk
        disk_is_live
        1
        (checksum_url toy_platform url)
        (record_of toy_platform source url.last_path_component)
    × (parse toy_cidr toy_platform AdmissionRuleSet.allow url.path source ≡ gives rules)
    × (any (λ rule. contains toy_cidr rule (v4 (114, 32))) rules ≡ true)
live_allows_example =
    live_allows (λ calls. system) message disk disk_is_live toy_cidr toy_cidr-IsLawful toy_platform
      toy_platform-IsLawful configuration 0 policy 2 (v4 (114, 32)) refl refl policy_is_made allowed
