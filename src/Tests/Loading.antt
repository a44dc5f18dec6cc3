-- ===== src/Tests/Loading.antt =====
-- Documents, checksum files and file configurations over the toy platform.
use swift_cidr_admission.Admission.Characters.{
  after_dots, first_range, has_dots, has_slash, preceded_by,
}
use swift_cidr_admission.Admission.ListText.{
  range_between, parse, parse_lines, parse_line, parse_ended, without_carriage_return,
  without_byte_order_mark, parse_decoded, contains_byte_order_mark, trimmed, skip_whitespace,
  uncommented, text_of, before_comment, parse_token, diagnostic_token, endpoint, parse_range,
  restored,
}
use swift_cidr_admission.Admission.ListText.{endpoint}
use swift_cidr_admission.Admission.ListText.{parse_range}
use swift_cidr_admission.Admission.ListText.{parse_token}
use swift_cidr_admission.Admission.Policy.{collect_ranges}
use swift_cidr_admission.Admission.Policy.{index_of_rules}
use swift_cidr_admission.Admission.Policy.{index_contains}
use swift_cidr_admission.Admission.Checksum.{
  compare_record, verify, is_record, stands_at, is_lowercase_hexadecimal, hexadecimal_digest,
  hexadecimal, digit, filename_of, is_filename,
}
use swift_cidr_admission.Admission.Checksum.{filename_of}
use swift_cidr_admission.Admission.Checksum.{digit}
use swift_cidr_admission.Admission.Checksum.{is_lowercase_hexadecimal}
use swift_cidr_admission.Admission.Checksum.{stands_at}
use swift_cidr_admission.Admission.Checksum.{hexadecimal}
use swift_cidr_admission.Admission.Checksum.{hexadecimal_digest}
use swift_cidr_admission.Admission.Checksum.{is_record}
use swift_cidr_admission.Admission.ListText.{before_comment}
use swift_cidr_admission.Admission.ListText.{text_of}
use swift_cidr_admission.Admission.ListText.{uncommented}
use swift_cidr_admission.Admission.ListText.{skip_whitespace}
use swift_cidr_admission.Admission.ListText.{trimmed}
use swift_cidr_admission.Admission.ListText.{contains_byte_order_mark}
use swift_cidr_admission.Admission.ListText.{parse_decoded}
use swift_cidr_admission.Base.Strings.{starts_with}
use swift_cidr_admission.Admission.ListText.{without_byte_order_mark}
use swift_cidr_admission.Admission.ListText.{without_carriage_return}
use swift_cidr_admission.Admission.ListText.{parse_ended}
use swift_cidr_admission.Admission.ListText.{parse_line}
use swift_cidr_admission.Admission.ListText.{parse_lines}
use swift_cidr_admission.Base.{
  ◌≡◌, ◌↔◌, refl, true, List, [], ◌∷◌, ◌++◌, Text, codes, text_eq, none, some, if◌then◌else◌, arith,
}
use swift_cidr_admission.Runtime.{Bytes}
use swift_cidr_admission.Admission.Cidr.{v4}
use swift_cidr_admission.Admission.Rules.{AdmissionRule, address, network, range}
use swift_cidr_admission.Admission.Policy.{
  AdmissionAction, AdmissionRuleSet, IpAdmissionPolicy, policy_of_rules, allows,
}
use swift_cidr_admission.Admission.Errors.{
  required, FileLoadError, invalid_rule, invalid_line_ending, invalid_utf8, reversed_range,
  extra_columns, gives, throws,
}
use swift_cidr_admission.Admission.Platform.{Url}
use swift_cidr_admission.Admission.Checksum.{verify, is_filename}
use swift_cidr_admission.Admission.Checksum.Exactness.{record_of, verify_iff}
use swift_cidr_admission.Admission.ListText.{parse}
use swift_cidr_admission.Admission.ListText.Lines.{Reads, parse-Reads}
use swift_cidr_admission.Admission.ListText.Failure.{FailsAt, parse-FailsAt}
use swift_cidr_admission.Admission.ListText.LineEndings.{with_crlf, IsPlain, parse-with_crlf}
use swift_cidr_admission.Admission.Loader.{
  missing, content, FileAccess, FileConfiguration, load, policy_of_files, read_source,
  read_checksum, verify_read, resume, source_result, checksum_result, is_local_file_url,
  checksum_url, suffix,
}
use swift_cidr_admission.Admission.Loader.Integrity.{Loads, load_iff}
use swift_cidr_admission.Admission.Loader.Roles.{MadeOf, policy_of_files_iff}
use swift_cidr_admission.Admission.Loader.Required.{IsVouched, required_allows}
use swift_cidr_admission.Capture.World.{decimal}
use swift_cidr_admission.Admission.Messages.{
  load_description, interpolated, rule_set_description, rule_text_description,
}
use swift_cidr_admission.Tests.ToyCidr.{
  toy_cidr, toy_cidr-IsLawful, toy_platform, toy_platform-IsLawful,
}

abbrev role : AdmissionRuleSet
role = AdmissionRuleSet.allow

abbrev pub name : Text
name = codes "hosts"

abbrev pub document : Bytes
document = codes "# hosts\na/9\n\n  p...t # lan\nz"

abbrev pub rules : List (AdmissionRule toy_cidr)
rules = network (v4 (97, 9)) ∷ range (v4 (112, 117)) ∷ address (v4 (122, 32)) ∷ []

document_parses : parse toy_cidr toy_platform role name document ≡ gives rules
unfolding parse parse_lines parse_line parse_ended without_carriage_return stands_at
    without_byte_order_mark starts_with parse_decoded contains_byte_order_mark trimmed
    skip_whitespace uncommented text_of before_comment text_eq parse_token after_dots
    diagnostic_token endpoint first_range has_dots has_slash parse_range preceded_by range_between
    restored
document_parses = refl

-- The second line has a reversed range.
abbrev reversed : Bytes
reversed = codes "a\nt...p\nb c\n"

abbrev reversed_error : FileLoadError
reversed_error = invalid_rule role name 2 (codes "t...p") reversed_range

reversed_fails : parse toy_cidr toy_platform role name reversed ≡ throws reversed_error
unfolding parse parse_lines parse_line parse_ended without_carriage_return stands_at
    without_byte_order_mark starts_with parse_decoded contains_byte_order_mark trimmed
    skip_whitespace uncommented text_of before_comment text_eq parse_token after_dots
    diagnostic_token endpoint first_range has_dots has_slash parse_range preceded_by range_between
    restored
reversed_fails = refl

columns_fail :
    parse toy_cidr toy_platform role name (codes "a b")
    ≡ throws (invalid_rule role name 1 (codes "a b") extra_columns)
unfolding parse parse_lines parse_line parse_ended without_carriage_return stands_at
    without_byte_order_mark starts_with parse_decoded contains_byte_order_mark trimmed
    skip_whitespace uncommented text_of before_comment text_eq parse_token after_dots
    diagnostic_token endpoint first_range has_dots has_slash parse_range preceded_by range_between
    restored
columns_fail = refl

lone_return_fails :
    parse toy_cidr toy_platform role name (codes "a\n\rb\n")
    ≡ throws (invalid_line_ending role name 2)
unfolding parse parse_lines parse_line parse_ended without_carriage_return stands_at
    without_byte_order_mark starts_with parse_decoded contains_byte_order_mark trimmed
    skip_whitespace uncommented text_of before_comment text_eq parse_token after_dots
    diagnostic_token endpoint first_range has_dots has_slash parse_range preceded_by range_between
    restored
lone_return_fails = refl

bytes_fail :
    parse toy_cidr toy_platform role name (b'a' ∷ 200 ∷ []) ≡ throws (invalid_utf8 role name 1)
unfolding parse parse_lines parse_line parse_ended without_carriage_return stands_at
    without_byte_order_mark starts_with parse_decoded contains_byte_order_mark trimmed
    skip_whitespace uncommented text_of before_comment text_eq parse_token after_dots
    diagnostic_token endpoint first_range has_dots has_slash parse_range preceded_by range_between
    restored
bytes_fail = refl

parse-Reads_example :
    (parse toy_cidr toy_platform role name document ≡ gives rules)
    ↔ Reads toy_cidr toy_platform role name 1 document (gives rules)
parse-Reads_example = parse-Reads toy_cidr toy_platform role name document (gives rules)

parse-FailsAt_example : FailsAt toy_cidr toy_platform role name 1 reversed reversed_error
parse-FailsAt_example =
    parse-FailsAt toy_cidr toy_platform role name reversed reversed_error reversed_fails

document-IsPlain : IsPlain document
document-IsPlain = ground arith

parse-with_crlf_example :
    parse toy_cidr toy_platform role name (with_crlf document)
    ≡ parse toy_cidr toy_platform role name document
parse-with_crlf_example = parse-with_crlf toy_cidr toy_platform role name document document-IsPlain

abbrev pub checksum : Bytes
checksum = record_of toy_platform document name

checksum_has_67_bytes_and_the_name :
    verify toy_platform document name name checksum (codes "c") role ≡ gives tt
unfolding verify is_record stands_at is_lowercase_hexadecimal hexadecimal_digest hexadecimal digit
    filename_of is_filename compare_record text_eq
checksum_has_67_bytes_and_the_name = refl

verify_iff_example :
    (verify toy_platform document name name checksum (codes "c") role ≡ gives tt) ↔ (
      (checksum ≡ record_of toy_platform document name)
      × (is_filename (toy_platform.utf8 name) ≡ true))
verify_iff_example =
    verify_iff toy_platform toy_platform-IsLawful document name name checksum (codes "c") role

abbrev pub hosts : Url
hosts = toy_platform.file_url name

abbrev pub disk : FileAccess
disk calls url =
    if text_eq url.path name
    then gives (content document)
    else if text_eq url.path (name ++ codes ".sha256")
    then gives (content checksum)
    else gives missing

role_loads : load toy_cidr toy_platform disk (some hosts) role required 0 ≡ (gives rules, 2)
unfolding parse parse_lines parse_line parse_ended without_carriage_return stands_at
    without_byte_order_mark starts_with parse_decoded contains_byte_order_mark trimmed
    skip_whitespace uncommented text_of before_comment text_eq parse_token after_dots
    diagnostic_token endpoint first_range has_dots has_slash parse_range preceded_by range_between
    restored verify is_record is_lowercase_hexadecimal hexadecimal_digest hexadecimal digit
    filename_of is_filename compare_record load read_source read_checksum verify_read resume
    source_result checksum_result is_local_file_url checksum_url suffix policy_of_files
role_loads = refl

load_iff_example :
    (load toy_cidr toy_platform disk (some hosts) role required 0 ≡ (gives rules, 2))
    ↔ Loads toy_cidr toy_platform disk role required 0 (some hosts) rules 2
load_iff_example =
    load_iff toy_cidr toy_platform toy_platform-IsLawful disk role (some hosts) required 0 rules 2

abbrev pub configuration : FileConfiguration
configuration = record {
  checksum_policy = required;
  default_action = AdmissionAction.deny;
  allow_file = some hosts;
  deny_file = none;
}

abbrev pub policy : IpAdmissionPolicy toy_cidr
policy = policy_of_rules toy_cidr rules [] AdmissionAction.deny

pub policy_is_made : policy_of_files toy_cidr toy_platform disk configuration 0 ≡ (gives policy, 2)
unfolding parse parse_lines parse_line parse_ended without_carriage_return stands_at
    without_byte_order_mark starts_with parse_decoded contains_byte_order_mark trimmed
    skip_whitespace uncommented text_of before_comment text_eq parse_token after_dots
    diagnostic_token endpoint first_range has_dots has_slash parse_range preceded_by range_between
    restored verify is_record is_lowercase_hexadecimal hexadecimal_digest hexadecimal digit
    filename_of is_filename compare_record load read_source read_checksum verify_read resume
    source_result checksum_result is_local_file_url checksum_url suffix policy_of_files
policy_is_made = refl

policy_of_files_iff_example :
    (policy_of_files toy_cidr toy_platform disk configuration 0 ≡ (gives policy, 2))
    ↔ MadeOf toy_cidr toy_platform disk configuration 0 policy 2
policy_of_files_iff_example =
    policy_of_files_iff toy_cidr toy_platform toy_platform-IsLawful disk configuration 0 policy 2

pub allowed : allows toy_cidr policy (v4 (114, 32)) ≡ true
unfolding allows index_contains policy_of_rules index_of_rules collect_ranges
allowed = refl

required_allows_example : IsVouched toy_cidr toy_platform disk 0 (some hosts) (v4 (114, 32))
required_allows_example =
    required_allows toy_cidr toy_cidr-IsLawful toy_platform toy_platform-IsLawful disk configuration
      0 policy 2 (v4 (114, 32)) refl refl policy_is_made allowed

reversed_message :
    load_description (λ text. codes "\"" ++ (text ++ codes "\"")) reversed_error
    ≡ codes
        "Invalid allow rule in \"hosts\" at line 2, token \"t...p\": range lower endpoint must not follow its upper endpoint"
unfolding load_description interpolated rule_set_description rule_text_description decimal
reversed_message = refl
