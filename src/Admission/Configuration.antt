-- ===== src/Admission/Configuration.antt =====
-- IPAdmissionPolicyConfiguration and init(configuration:) of IPAdmissionPolicy.swift, over the JSON
-- values that a JSONDecoder and a JSONEncoder handle.
pub mod RoundTrip
pub mod Compilation
use swift_cidr_admission.Base.{
  ℕ, ◌+◌, Bool, List, [], ◌∷◌, map, Text, codes, text_eq, Option, none, some, if◌then◌else◌,
}
use swift_cidr_admission.Json.{
  Json, Items, Members, null, boolean, number, string, array, object, nil, cons, end, member,
  get_key, to_items,
}
use swift_cidr_admission.Admission.Cidr.{Cidr}
use swift_cidr_admission.Admission.Rules.{AdmissionRule, network}
use swift_cidr_admission.Admission.Policy.{
  AdmissionAction, AdmissionRuleSet, IpAdmissionPolicy, policy_of_rules,
}
use swift_cidr_admission.Admission.Errors.{Attempt, gives, throws, ◌then◌}

pub record IpAdmissionPolicyConfiguration : Type 0 where
  pub default_action : AdmissionAction
  pub allow : List Text
  pub deny : List Text

-- DecodingError, with the key that it is about.
pub data DecodingError : Type 0 where
  type_mismatch value_not_found data_corrupted : Text → DecodingError

abbrev pub Decoded : Type 0 → Type 0
Decoded A = Attempt DecodingError A

-- AdmissionAction(rawValue:)
unfoldable pub action_of : Text → Text → Decoded AdmissionAction
action_of key value =
    if text_eq value (codes "allow")
    then gives AdmissionAction.allow
    else if text_eq value (codes "deny")
    then gives AdmissionAction.deny
    else throws (data_corrupted key)

-- decode(AdmissionAction.self, forKey: key)
unfoldable pub decode_action : Text → Json → Decoded AdmissionAction
unfolding action_of
decode_action key (string value) = action_of key value
decode_action key _ = throws (type_mismatch key)

unfoldable pub decode_texts : Text → Items → Decoded (List Text)
decode_texts key nil = gives []
decode_texts key (cons (string value) items) =
    decode_texts key items then (λ values. gives (value ∷ values))
decode_texts key (cons null items) = throws (value_not_found key)
decode_texts key (cons _ items) = throws (type_mismatch key)

-- decode([String].self, forKey: key)
unfoldable pub decode_list : Text → Json → Decoded (List Text)
unfolding decode_texts
decode_list key (array items) = decode_texts key items
decode_list key _ = throws (type_mismatch key)

-- decodeIfPresent(_:forKey:) ?? default, where null counts as absent
unfoldable pub decode_value : {A : Type 0} → A → (Json → Decoded A) → Option Json → Decoded A
decode_value default decode none = gives default
decode_value default decode (some null) = gives default
decode_value default decode (some value) = decode value

-- init(from:)
unfoldable pub configuration_of : Json → Decoded IpAdmissionPolicyConfiguration
configuration_of (object members) =
    decode_value AdmissionAction.deny (decode_action (codes "defaultAction"))
      (get_key (codes "defaultAction") members)
    then λ default.
        decode_value [] (decode_list (codes "allow")) (get_key (codes "allow") members)
        then λ allowed.
            decode_value [] (decode_list (codes "deny")) (get_key (codes "deny") members)
            then λ denied. gives record { default_action = default; allow = allowed; deny = denied }
configuration_of null = throws (value_not_found [])
configuration_of _ = throws (type_mismatch [])

-- rawValue
unfoldable pub raw_value : AdmissionAction → Text
raw_value AdmissionAction.allow = codes "allow"
raw_value AdmissionAction.deny = codes "deny"

-- encode(to:)
unfoldable pub encode_configuration : IpAdmissionPolicyConfiguration → Json
encode_configuration configuration = object (
    member (codes "defaultAction") (string (raw_value configuration.default_action)) (
      member (codes "allow") (array (to_items (map string configuration.allow)))
        (member (codes "deny") (array (to_items (map string configuration.deny))) end)))

-- IPAdmissionPolicyConfigurationError
pub data ConfigurationError : Type 0 where
  invalid_network : AdmissionRuleSet → ℕ → Text → ConfigurationError

module _ (c : Cidr) where
  -- IPAdmissionPolicy.parse(_:ruleSet:), from an index on
  unfoldable pub parse_values :
      List Text → AdmissionRuleSet → ℕ → Attempt ConfigurationError (List (AdmissionRule c))
  parse_values [] rule_set index = gives []
  parse_values (value ∷ values) rule_set index = elim (c.parse_network value) [
    | none ↦ throws (invalid_network rule_set index value)
    | some n ↦ parse_values values rule_set (index + 1) then (λ rules. gives (network n ∷ rules))
  ]

  -- init(configuration:)
  unfoldable pub policy_of_configuration :
      IpAdmissionPolicyConfiguration → Attempt ConfigurationError (IpAdmissionPolicy c)
  policy_of_configuration configuration =
      parse_values configuration.allow AdmissionRuleSet.allow 0 then λ allow_rules.
      parse_values configuration.deny AdmissionRuleSet.deny 0 then λ deny_rules.
      gives (policy_of_rules c allow_rules deny_rules configuration.default_action)
