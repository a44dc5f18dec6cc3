-- ===== src/Admission/Configuration/RoundTrip.antt =====
-- A configuration that is encoded decodes to itself.
use swift_cidr_admission.Base.{◌≡◌, refl, List, [], ◌∷◌, map, Text, codes, text_eq}
use swift_cidr_admission.Json.{string, get_key, to_items}
use swift_cidr_admission.Admission.Policy.{AdmissionAction}
use swift_cidr_admission.Admission.Errors.{gives}
use swift_cidr_admission.Admission.Configuration.{
  IpAdmissionPolicyConfiguration, action_of, decode_action, decode_texts, decode_list, decode_value,
  configuration_of, raw_value, encode_configuration,
}

decode_texts-to_items :
    (key : Text) (values : List Text)
    → decode_texts key (to_items (map string values)) ≡ gives values
unfolding decode_texts to_items
decode_texts-to_items key [] = refl
decode_texts-to_items key (value ∷ values) = rw (decode_texts-to_items key values) refl

action_of-raw_value : (key : Text) (a : AdmissionAction) → action_of key (raw_value a) ≡ gives a
unfolding action_of raw_value text_eq
action_of-raw_value key AdmissionAction.allow = refl
action_of-raw_value key AdmissionAction.deny = refl

-- Decoding the encoding of a configuration gives the configuration.
pub configuration_of-encode_configuration :
    (configuration : IpAdmissionPolicyConfiguration)
    → configuration_of (encode_configuration configuration) ≡ gives configuration
unfolding configuration_of encode_configuration decode_value decode_action decode_list get_key
    text_eq
configuration_of-encode_configuration configuration =
    rw
      (
        action_of-raw_value (codes "defaultAction") configuration.default_action,
        decode_texts-to_items (codes "allow") configuration.allow,
        decode_texts-to_items (codes "deny") configuration.deny,
      )
      refl
