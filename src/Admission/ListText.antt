-- ===== src/Admission/ListText.antt =====
-- IPListTextParser.swift. Text is searched by characters, as Swift does it, and trimmed by code points.
pub mod Rules
pub mod Lines
pub mod Failure
pub mod LineEndings
use mathlib.Core.List.{reverse}
use swift_cidr_admission.Base.{
  ℕ, ◌+◌, ◌-◌, ◌==◌, Bool, true, false, not, ◌&&◌, ◌||◌, List, [], ◌∷◌, ◌++◌, Text, codes, text_eq,
  Option, none, some, any, length, take, drop, if◌then◌else◌,
}
use swift_cidr_admission.Base.Strings.{starts_with}
use swift_cidr_admission.Base.Slices.{last?}
use swift_cidr_admission.Runtime.{Bytes}
use swift_cidr_admission.Admission.Cidr.{Cidr, v4, v6, AnyIpAddress}
use swift_cidr_admission.Admission.Characters.{has_slash, has_dots, first_range}
use swift_cidr_admission.Admission.Rules.{AdmissionRule, address, network, range}
use swift_cidr_admission.Admission.Policy.{AdmissionRuleSet}
use swift_cidr_admission.Admission.Errors.{
  RuleTextError, malformed_value, malformed_range, cidr_qualified_range_endpoint,
  mixed_address_families, reversed_range, extra_columns, misplaced_byte_order_mark, FileLoadError,
  invalid_utf8, invalid_line_ending, invalid_rule, Attempt, gives, throws, ◌then◌, guarding,
}
use swift_cidr_admission.Admission.Platform.{Platform}
use swift_cidr_admission.Admission.Checksum.{stands_at}

abbrev pub byte_order_mark : Text
byte_order_mark = 0xFEFF ∷ []

abbrev pub byte_order_mark_bytes : Bytes
byte_order_mark_bytes = 0xEF ∷ 0xBB ∷ 0xBF ∷ []

-- isEmpty
abbrev pub is_empty : {A : Type 0} → List A → Bool
is_empty [] = true
is_empty (a ∷ rest) = false

-- The text of some characters.
unfoldable pub text_of : List Text → Text
text_of [] = []
text_of (character ∷ rest) = character ++ text_of rest

-- line[..<commentStart]
unfoldable pub before_comment : List Text → List Text
before_comment [] = []
before_comment (character ∷ rest) =
    let before = before_comment rest in
    if text_eq (codes "#") character then [] else character ∷ before

-- containsByteOrderMark(_:)
unfoldable pub contains_byte_order_mark : Bytes → Bool
contains_byte_order_mark [] = false
contains_byte_order_mark (byte ∷ bytes) =
    starts_with (byte ∷ bytes) byte_order_mark_bytes || contains_byte_order_mark bytes

unfoldable pub without_carriage_return : Bytes → Bool → Bytes
without_carriage_return bytes is_lf_present =
    if is_lf_present && stands_at (last? bytes) 0x0D then take (length bytes - 1) bytes else bytes

unfoldable pub without_byte_order_mark : Bytes → ℕ → Bytes
without_byte_order_mark bytes line_number =
    if (line_number == 1) && starts_with bytes byte_order_mark_bytes then drop 3 bytes else bytes

-- The line with the leading mark that decoding consumed.
unfoldable pub restored : Bytes → Text → Text
restored bytes line =
    if starts_with bytes byte_order_mark_bytes && not (starts_with line byte_order_mark)
    then byte_order_mark ++ line
    else line

module _ (p : Platform) where
  unfoldable pub skip_whitespace : Text → Text
  skip_whitespace [] = []
  skip_whitespace (scalar ∷ text) =
      let rest = skip_whitespace text in if p.is_whitespace scalar then rest else scalar ∷ text

  -- trimmingCharacters(in: .whitespaces)
  unfoldable pub trimmed : Text → Text
  trimmed text = reverse (skip_whitespace (reverse (skip_whitespace text)))

  unfoldable pub uncommented : Text → Text
  uncommented line = text_of (before_comment (p.characters line))

  unfoldable pub diagnostic_token : Text → Text
  diagnostic_token line =
      let token = trimmed (uncommented line) in if is_empty token then trimmed line else token

module _ (c : Cidr) (p : Platform) (rule_set : AdmissionRuleSet) (path : Text) where
  -- invalidRule(_:ruleSet:path:line:token:)
  abbrev pub rejected : RuleTextError → ℕ → Text → FileLoadError
  rejected reason line token = invalid_rule rule_set path line token reason

  -- The switch over the families of the endpoints.
  unfoldable pub range_between :
      AnyIpAddress c → AnyIpAddress c → ℕ → Text → Attempt FileLoadError (AdmissionRule c)
  range_between (v4 lower) (v4 upper) line token = elim (c.V4.between lower upper) [
    | none ↦ throws (rejected reversed_range line token)
    | some r ↦ gives (range (v4 r))
  ]
  range_between (v6 lower) (v6 upper) line token = elim (c.V6.between lower upper) [
    | none ↦ throws (rejected reversed_range line token)
    | some r ↦ gives (range (v6 r))
  ]
  range_between _ _ line token = throws (rejected mixed_address_families line token)

  -- AnyIPAddress(text), or malformedValue
  unfoldable pub endpoint : Text → ℕ → Text → Attempt FileLoadError (AnyIpAddress c)
  endpoint text line token = elim (c.parse_address text) [
    | none ↦ throws (rejected malformed_value line token)
    | some a ↦ gives a
  ]

  -- parseRange, for a token and its characters
  unfoldable pub parse_range : Text → List Text → ℕ → Attempt FileLoadError (AdmissionRule c)
  parse_range token characters line = elim (first_range characters) [
    | none ↦ throws (rejected malformed_range line token)
    | some (lower_text, upper_text) ↦
        guarding (not (has_dots upper_text)) (rejected malformed_range line token) (
          guarding (not (is_empty lower_text) && not (is_empty upper_text))
            (rejected malformed_range line token)
            (guarding (not (has_slash lower_text) && not (has_slash upper_text))
              (rejected cidr_qualified_range_endpoint line token)
              (endpoint (text_of lower_text) line token then λ lower.
                endpoint (text_of upper_text) line token then λ upper.
                range_between lower upper line token)))
  ]

  -- The rule of a token: a range, a network or an address.
  unfoldable pub parse_token : Text → ℕ → Attempt FileLoadError (AdmissionRule c)
  parse_token token line =
      let characters = p.characters token in
      if has_dots characters
      then parse_range token characters line
      else if has_slash characters
      then elim (c.parse_network token) [
        | none ↦ throws (rejected malformed_value line token)
        | some n ↦ gives (network n)
      ]
      else endpoint token line token then (λ a. gives (address a))

  -- parseLine after decoding
  unfoldable pub parse_decoded :
      Bytes → Text → ℕ → List (AdmissionRule c) → Attempt FileLoadError (List (AdmissionRule c))
  parse_decoded bytes line line_number rules =
      guarding (not (any p.is_newline line)) (invalid_line_ending rule_set path line_number) (
        guarding (not (contains_byte_order_mark bytes))
          (rejected misplaced_byte_order_mark line_number
            (diagnostic_token p (restored bytes line)))
          (let token = trimmed p (uncommented p line) in
            if is_empty token
            then gives rules
            else guarding (not (any p.is_whitespace token))
                (rejected extra_columns line_number token)
                (parse_token token line_number then (λ rule. gives (rules ++ (rule ∷ []))))))

  -- parseLine after the carriage return of CRLF
  unfoldable pub parse_ended :
      Bytes → ℕ → List (AdmissionRule c) → Attempt FileLoadError (List (AdmissionRule c))
  parse_ended ended line_number rules =
      guarding (not (any (λ b. b == 0x0D) ended)) (invalid_line_ending rule_set path line_number) (
        let bytes = without_byte_order_mark ended line_number in
        elim (p.decode_utf8 bytes) [
          | none ↦ throws (invalid_utf8 rule_set path line_number)
          | some line ↦ parse_decoded bytes line line_number rules
        ])

  -- parseLine
  unfoldable pub parse_line :
      Bytes → Bool → ℕ → List (AdmissionRule c) → Attempt FileLoadError (List (AdmissionRule c))
  parse_line source_bytes is_lf_present line_number rules =
      parse_ended (without_carriage_return source_bytes is_lf_present) line_number rules

  -- The loop of `parse` and its last line.
  unfoldable pub parse_lines :
      Bytes → Bytes → ℕ → List (AdmissionRule c) → Attempt FileLoadError (List (AdmissionRule c))
  parse_lines [] line_bytes line_number rules =
      if is_empty line_bytes then gives rules else parse_line line_bytes false line_number rules
  parse_lines (byte ∷ source) line_bytes line_number rules = elim (byte == 0x0A) [
    | true ↦
        parse_line line_bytes true line_number rules
        then (λ more. parse_lines source [] (line_number + 1) more)
    | false ↦ parse_lines source (line_bytes ++ (byte ∷ [])) line_number rules
  ]

  unfoldable pub parse : Bytes → Attempt FileLoadError (List (AdmissionRule c))
  parse source = if is_empty source then gives [] else parse_lines source [] 1 []
