-- ===== src/Tests/Reading.antt =====
-- A file that is read in chunks with an interruption, and configurations, over the toy families.
use swift_cidr_admission.Admission.Policy.{policy_of_rules}
use swift_cidr_admission.Admission.FileAccess.{after_read}
use swift_cidr_admission.Admission.FileAccess.{read_loop}
use swift_cidr_admission.Admission.FileAccess.{read_result}
use swift_cidr_admission.Admission.FileAccess.{read_regular}
use swift_cidr_admission.Admission.FileAccess.{opened}
use swift_cidr_admission.Base.{
  ℕ, zero, suc, ◌≡◌, ◌↔◌, refl, List, [], ◌∷◌, Text, codes, text_eq, some, arith,
}
use swift_cidr_admission.Runtime.{Bytes}
use swift_cidr_admission.Json.{object, member, end, string, get_key}
use swift_cidr_admission.Admission.Cidr.{AnyIpNetwork, v4, v6}
use swift_cidr_admission.Admission.Policy.{
  AdmissionAction, AdmissionRuleSet, IpAdmissionPolicy, policy_of_networks,
}
use swift_cidr_admission.Admission.Errors.{Attempt, gives, throws}
use swift_cidr_admission.Admission.Platform.{Url}
use swift_cidr_admission.Admission.Loader.{content}
use swift_cidr_admission.Admission.FileAccess.{Posix, open_and_read_regular_file, is_regular}
use swift_cidr_admission.Admission.FileAccess.Reading.{
  ReadsFrom, at_end, chunk, interrupted, Opens, open_and_read_finishes, open_and_read_sound,
}
use swift_cidr_admission.Admission.Configuration.{
  data_corrupted, decode_value, decode_action, action_of, IpAdmissionPolicyConfiguration,
  invalid_network, configuration_of, encode_configuration, parse_values, policy_of_configuration,
}
use swift_cidr_admission.Admission.Configuration.RoundTrip.{configuration_of-encode_configuration}
use swift_cidr_admission.Admission.Configuration.Compilation.{
  AreNetworks, Compiles, parse_values-Compiles, policy_of_configuration_iff,
}
use swift_cidr_admission.Tests.ToyCidr.{toy_cidr, toy_platform}

-- Two chunks, the second after an interrupted call.
abbrev read_at : ℕ → Attempt ℕ Bytes
read_at zero = gives (1 ∷ 2 ∷ [])
read_at (suc zero) = throws 4
read_at (suc (suc zero)) = gives (3 ∷ [])
read_at (suc (suc (suc n))) = gives []

abbrev machine : Posix
machine = record {
  file_system_representation = λ url. some url.path;
  open_file = λ path. gives 7;
  file_status = λ descriptor. gives 33188;
  read = λ descriptor. read_at;
  einval = 22;
  enoent = 2;
  enotdir = 20;
  eintr = 4;
}

abbrev file : Url
file = toy_platform.file_url (codes "f")

abbrev reading : ReadsFrom machine 7 0 (1 ∷ 2 ∷ 3 ∷ [])
reading = chunk 1 (2 ∷ []) (3 ∷ []) refl (interrupted refl (chunk 3 [] [] refl (at_end refl)))

-- 33188 is 0o100644.
is_opened : Opens machine file 7
unfolding is_regular
is_opened = (codes "f", 33188, refl, refl, refl, refl)

open_and_read_finishes_example :
    open_and_read_regular_file machine 9 file
    ≡ record { result = some (gives (content (1 ∷ 2 ∷ 3 ∷ []))); closed = 7 ∷ [] }
open_and_read_finishes_example =
    open_and_read_finishes machine file 7 (1 ∷ 2 ∷ 3 ∷ []) reading 9 is_opened (omega arith)

finished :
    (open_and_read_regular_file machine 4 file).result ≡ some (gives (content (1 ∷ 2 ∷ 3 ∷ [])))
unfolding open_and_read_regular_file opened read_regular is_regular read_result read_loop after_read
finished = refl

open_and_read_sound_example :
    (descriptor : ℕ) × Opens machine file descriptor
    × ReadsFrom machine descriptor 0 (1 ∷ 2 ∷ 3 ∷ [])
    × ((open_and_read_regular_file machine 4 file).closed ≡ descriptor ∷ [])
open_and_read_sound_example = open_and_read_sound machine file 4 (1 ∷ 2 ∷ 3 ∷ []) finished

abbrev lan : IpAdmissionPolicyConfiguration
lan = record {
  default_action = AdmissionAction.deny;
  allow = codes "a/9" ∷ codes ":b/2" ∷ [];
  deny = codes "c/1" ∷ [];
}

configuration_of-encode_configuration_example :
    configuration_of (encode_configuration lan) ≡ gives lan
configuration_of-encode_configuration_example = configuration_of-encode_configuration lan

abbrev faulty : List Text
faulty = codes "a/9" ∷ codes "b" ∷ codes "c" ∷ []

fault_is_found :
    parse_values toy_cidr faulty AdmissionRuleSet.deny 0
    ≡ throws (invalid_network AdmissionRuleSet.deny 1 (codes "b"))
unfolding parse_values
fault_is_found = refl

parse_values-Compiles_example :
    Compiles toy_cidr AdmissionRuleSet.deny 0 faulty
      (parse_values toy_cidr faulty AdmissionRuleSet.deny 0)
parse_values-Compiles_example = parse_values-Compiles toy_cidr AdmissionRuleSet.deny faulty 0

abbrev lan_policy : IpAdmissionPolicy toy_cidr
lan_policy =
    policy_of_networks toy_cidr (v4 (97, 9) ∷ v6 (98, 2) ∷ []) (v4 (99, 1) ∷ [])
      AdmissionAction.deny

lan_compiles : policy_of_configuration toy_cidr lan ≡ gives lan_policy
unfolding policy_of_configuration parse_values policy_of_networks policy_of_rules
lan_compiles = refl

policy_of_configuration_iff_example : (policy_of_configuration toy_cidr lan ≡ gives lan_policy) ↔ (
    (allowed : List (AnyIpNetwork toy_cidr)) × (denied : List (AnyIpNetwork toy_cidr)) × AreNetworks
      toy_cidr lan.allow allowed
    × AreNetworks toy_cidr lan.deny denied
    × (lan_policy ≡ policy_of_networks toy_cidr allowed denied lan.default_action))
policy_of_configuration_iff_example = policy_of_configuration_iff toy_cidr lan lan_policy

missing_keys_decode :
    configuration_of (object end)
    ≡ gives (record { default_action = AdmissionAction.deny; allow = []; deny = [] })
unfolding configuration_of decode_value get_key
missing_keys_decode = refl

bad_action_fails :
    configuration_of (object (member (codes "defaultAction") (string (codes "permit")) end))
    ≡ throws (data_corrupted (codes "defaultAction"))
unfolding configuration_of decode_value decode_action action_of get_key text_eq
bad_action_fails = refl
