-- ===== src/Admission/Messages.antt =====
-- The descriptions of actions, rule sets and errors in IPAdmissionPolicy.swift and
-- IPAdmissionPolicyFileConfiguration.swift.
use swift_cidr_admission.Base.{List, [], ◌∷◌, ◌++◌, Text, codes}
use swift_cidr_admission.Capture.World.{decimal}
use swift_cidr_admission.Admission.Policy.{AdmissionRuleSet}
use swift_cidr_admission.Admission.Errors.{
  RuleTextError, malformed_value, malformed_range, cidr_qualified_range_endpoint,
  mixed_address_families, reversed_range, extra_columns, misplaced_byte_order_mark, FileLoadError,
  unsupported_url, file_not_found, not_regular_file, unreadable_file, invalid_utf8,
  invalid_line_ending, invalid_rule, checksum_not_found, checksum_not_regular_file,
  checksum_unreadable, checksum_malformed, checksum_filename_mismatch, checksum_digest_mismatch,
}
use swift_cidr_admission.Admission.Configuration.{ConfigurationError, invalid_network}

unfoldable pub rule_set_description : AdmissionRuleSet → Text
rule_set_description AdmissionRuleSet.allow = codes "allow"
rule_set_description AdmissionRuleSet.deny = codes "deny"

unfoldable pub rule_text_description : RuleTextError → Text
rule_text_description malformed_value =
    codes "expected one IP address, CIDR network, or inclusive range"
rule_text_description malformed_range = codes "expected one strict lower...upper range"
rule_text_description cidr_qualified_range_endpoint =
    codes "range endpoints must be bare addresses without CIDR prefix lengths"
rule_text_description mixed_address_families =
    codes "range endpoints must use the same IP address family"
rule_text_description reversed_range =
    codes "range lower endpoint must not follow its upper endpoint"
rule_text_description extra_columns = codes "expected exactly one value before the optional comment"
rule_text_description misplaced_byte_order_mark =
    codes "a UTF-8 byte-order mark is permitted only at the beginning of the file"

-- The parts of an interpolated string.
unfoldable pub interpolated : List Text → Text
interpolated [] = []
interpolated (part ∷ parts) = part ++ interpolated parts

unfoldable pub configuration_description : ConfigurationError → Text
unfolding interpolated rule_set_description
configuration_description (invalid_network rule_set index value) = interpolated (
    codes "Invalid "
    ∷ rule_set_description rule_set
    ∷ codes " network at index "
    ∷ decimal index
    ∷ codes ": "
    ∷ value
    ∷ [])

-- `reflecting` is String(reflecting:).
module _ (reflecting : Text → Text) where
  -- The words that the messages about a detached checksum share.
  about_checksum : Text → AdmissionRuleSet → Text → Text → List Text → Text
  unfolding interpolated rule_set_description
  about_checksum start rule_set path checksum_path end = interpolated (
      start
      ∷ rule_set_description rule_set
      ∷ codes " rule file "
      ∷ reflecting path
      ∷ codes " at "
      ∷ reflecting checksum_path
      ∷ end)

  unfoldable pub load_description : FileLoadError → Text
  unfolding interpolated rule_set_description rule_text_description about_checksum
  load_description (unsupported_url rule_set url) = interpolated (
      codes "Unsupported "
      ∷ rule_set_description rule_set
      ∷ codes " file URL "
      ∷ reflecting url
      ∷ codes "; only local file URLs are accepted"
      ∷ [])
  load_description (file_not_found rule_set path) = interpolated (
      codes "Missing "
      ∷ rule_set_description rule_set
      ∷ codes " rule file at "
      ∷ reflecting path
      ∷ [])
  load_description (not_regular_file rule_set path) = interpolated (
      codes "The "
      ∷ rule_set_description rule_set
      ∷ codes " rule source at "
      ∷ reflecting path
      ∷ codes " is not a regular file"
      ∷ [])
  load_description (unreadable_file rule_set path reason) = interpolated (
      codes "Unable to read "
      ∷ rule_set_description rule_set
      ∷ codes " rule file at "
      ∷ reflecting path
      ∷ codes ": "
      ∷ reason
      ∷ [])
  load_description (invalid_utf8 rule_set path line) = interpolated (
      codes "Invalid UTF-8 in "
      ∷ rule_set_description rule_set
      ∷ codes " rule file "
      ∷ reflecting path
      ∷ codes " at line "
      ∷ decimal line
      ∷ [])
  load_description (invalid_line_ending rule_set path line) = interpolated (
      codes "Invalid line ending in "
      ∷ rule_set_description rule_set
      ∷ codes " rule file "
      ∷ reflecting path
      ∷ codes " at line "
      ∷ decimal line
      ∷ codes "; expected LF or CRLF"
      ∷ [])
  load_description (invalid_rule rule_set path line token reason) = interpolated (
      codes "Invalid "
      ∷ rule_set_description rule_set
      ∷ codes " rule in "
      ∷ reflecting path
      ∷ codes " at line "
      ∷ decimal line
      ∷ codes ", token "
      ∷ reflecting token
      ∷ codes ": "
      ∷ rule_text_description reason
      ∷ [])
  load_description (checksum_not_found rule_set path checksum_path) =
      about_checksum (codes "Missing detached SHA-256 checksum for ") rule_set path checksum_path []
  load_description (checksum_not_regular_file rule_set path checksum_path) =
      about_checksum (codes "The detached SHA-256 checksum for ") rule_set path checksum_path
        (codes " is not a regular file" ∷ [])
  load_description (checksum_unreadable rule_set path checksum_path reason) =
      about_checksum (codes "Unable to read detached SHA-256 checksum for ") rule_set path
        checksum_path (codes ": " ∷ reason ∷ [])
  load_description (checksum_malformed rule_set path checksum_path) =
      about_checksum (codes "Malformed detached SHA-256 checksum for ") rule_set path checksum_path
        []
  load_description (checksum_filename_mismatch rule_set path checksum_path expected actual) =
      about_checksum (codes "Detached SHA-256 checksum filename mismatch for ") rule_set path
        checksum_path
        (codes "; expected " ∷ reflecting expected ∷ codes ", found " ∷ reflecting actual ∷ [])
  load_description (checksum_digest_mismatch rule_set path checksum_path expected actual) =
      about_checksum (codes "Detached SHA-256 checksum digest mismatch for ") rule_set path
        checksum_path (codes "; expected " ∷ expected ∷ codes ", computed " ∷ actual ∷ [])
