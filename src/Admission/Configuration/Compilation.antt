-- ===== src/Admission/Configuration/Compilation.antt =====
-- When a configuration compiles, and which value is at fault when it does not.
use swift_cidr_admission.Base.{
  ℕ, ◌+◌, ◌≡◌, ◌↔◌, refl, sym, ◌∙◌, ap, subst, List, [], ◌∷◌, ◌++◌, map, Text, Option, none, some,
  length, arith,
}
use swift_cidr_admission.Admission.Cidr.{Cidr, AnyIpNetwork}
use swift_cidr_admission.Admission.Rules.{AdmissionRule, network}
use swift_cidr_admission.Admission.Policy.{
  AdmissionRuleSet, IpAdmissionPolicy, policy_of_rules, policy_of_networks,
}
use swift_cidr_admission.Admission.Errors.{
  Attempt, gives, throws, ◌then◌, then-gives, gives-injective,
}
use swift_cidr_admission.Admission.Configuration.{
  IpAdmissionPolicyConfiguration, ConfigurationError, invalid_network, parse_values,
  policy_of_configuration,
}

module _ (c : Cidr) where
  -- Every value is a network.
  abbrev pub AreNetworks : List Text → List (AnyIpNetwork c) → Type 0
  AreNetworks values networks = map c.parse_network values ≡ map some networks

  -- What compiling the values of a rule set from an index on comes to: the rules of their networks, or the first value that is no network.
  pub data Compiles (rule_set : AdmissionRuleSet)
      : ℕ → List Text → Attempt ConfigurationError (List (AdmissionRule c)) → Type 0 where
    compiled :
        (values : List Text) (networks : List (AnyIpNetwork c)) {index : ℕ}
        → AreNetworks values networks
        → Compiles rule_set index values (gives (map network networks))
    refused :
        (before after : List Text) (value : Text) (networks : List (AnyIpNetwork c)) {index : ℕ}
        → AreNetworks before networks
        → c.parse_network value ≡ none
        → Compiles rule_set index
            (before ++ (value ∷ after))
            (throws (invalid_network rule_set (index + length before) value))

  module _ (rule_set : AdmissionRuleSet) where
    Compiles-cons :
        (value : Text) (n : AnyIpNetwork c) (index : ℕ) {values : List Text}
        {outcome : Attempt ConfigurationError (List (AdmissionRule c))}
        → c.parse_network value ≡ some n
        → Compiles rule_set (index + 1) values outcome
        → Compiles rule_set index (value ∷ values) (outcome then λ rules. gives (network n ∷ rules))
    Compiles-cons value n index h (compiled values networks k) =
        compiled (value ∷ values) (n ∷ networks) (rw h (ap (λ r. some n ∷ r) k))
    Compiles-cons value n index h (refused before after bad networks k fault) =
        let place : index + length (value ∷ before) ≡ index + 1 + length before = omega arith in
        subst
          (λ j.
            Compiles rule_set index (value ∷ (before ++ (bad ∷ after)))
              (throws (invalid_network rule_set j bad)))
          place
          (refused (value ∷ before) after bad (n ∷ networks) (rw h (ap (λ r. some n ∷ r) k)) fault)

    parse_step :
        (value : Text) (values : List Text) (index : ℕ) (o : Option (AnyIpNetwork c))
        → c.parse_network value ≡ o
        → Compiles rule_set (index + 1) values (parse_values c values rule_set (index + 1))
        → Compiles rule_set index (value ∷ values) (elim o [
          | none ↦ throws (invalid_network rule_set index value)
          | some n ↦
              parse_values c values rule_set (index + 1) then (λ rules. gives (network n ∷ rules))
        ])
    parse_step value values index none h compiles =
        let here : index + 0 ≡ index = omega arith in
        subst
          (λ j.
            Compiles rule_set index (value ∷ values) (throws (invalid_network rule_set j value)))
          here (refused [] values value [] refl h)
    parse_step value values index (some n) h compiles = Compiles-cons value n index h compiles

    -- Compiling the values of a rule set gives the rules of their networks in order, or, at the first value that is no network, an error with the rule set, the value and its index.
    pub parse_values-Compiles :
        (values : List Text) (index : ℕ)
        → Compiles rule_set index values (parse_values c values rule_set index)
    unfolding parse_values
    parse_values-Compiles [] index = compiled [] [] refl
    parse_values-Compiles (value ∷ values) index =
        parse_step value values index (c.parse_network value) refl
          (parse_values-Compiles values (index + 1))

  Compiles-gives :
      {rule_set : AdmissionRuleSet} {index : ℕ} {values : List Text}
      {outcome : Attempt ConfigurationError (List (AdmissionRule c))}
      (rules : List (AdmissionRule c))
      → outcome ≡ gives rules
      → Compiles rule_set index values outcome
      → (networks : List (AnyIpNetwork c)) × AreNetworks values networks
        × (rules ≡ map network networks)
  Compiles-gives rules h (compiled values networks k) = (networks, k, sym (gives-injective h))
  Compiles-gives rules h (refused before after value networks k fault) = absurd (ground (arith, h))

  parse_values_of_networks :
      (values : List Text) (networks : List (AnyIpNetwork c)) (rule_set : AdmissionRuleSet)
      (index : ℕ)
      → AreNetworks values networks
      → parse_values c values rule_set index ≡ gives (map network networks)
  unfolding parse_values
  parse_values_of_networks [] [] rule_set index h = refl
  parse_values_of_networks [] (n ∷ networks) rule_set index h = absurd (ground (arith, h))
  parse_values_of_networks (value ∷ values) [] rule_set index h = absurd (ground (arith, h))
  parse_values_of_networks (value ∷ values) (n ∷ networks) rule_set index h =
      let first : c.parse_network value ≡ some n = cc in
      let others : AreNetworks values networks = cc in
      rw (first, parse_values)
        (rw (parse_values_of_networks values networks rule_set (index + 1) others) refl)

  -- A configuration compiles to a policy exactly when all its values are networks, and then the policy is the one of these networks and the default action.
  pub policy_of_configuration_iff :
      (configuration : IpAdmissionPolicyConfiguration) (policy : IpAdmissionPolicy c)
      → (policy_of_configuration c configuration ≡ gives policy) ↔ (
          (allowed : List (AnyIpNetwork c)) × (denied : List (AnyIpNetwork c)) × AreNetworks
            configuration.allow allowed
          × AreNetworks configuration.deny denied
          × (policy ≡ policy_of_networks c allowed denied configuration.default_action))
  unfolding policy_of_configuration policy_of_networks
  policy_of_configuration_iff configuration policy = (
    λ h.
        let (allow_rules, h1, h2) =
          then-gives (parse_values c configuration.allow AdmissionRuleSet.allow 0) _ h in
        let (deny_rules, h3, h4) =
          then-gives (parse_values c configuration.deny AdmissionRuleSet.deny 0) _ h2 in
        let (allowed, k1, e1) =
          Compiles-gives allow_rules h1
            (parse_values-Compiles AdmissionRuleSet.allow configuration.allow 0) in
        let (denied, k2, e2) =
          Compiles-gives deny_rules h3
            (parse_values-Compiles AdmissionRuleSet.deny configuration.deny 0) in
        (
          allowed,
          denied,
          k1,
          k2,
          sym (gives-injective h4)
              ∙ (ap (λ r. policy_of_rules c r deny_rules configuration.default_action) e1
                  ∙ ap (λ r. policy_of_rules c (map network allowed) r configuration.default_action)
                      e2),
        ),
    λ (allowed, denied, k1, k2, e).
        rw
          (
            parse_values_of_networks configuration.allow allowed AdmissionRuleSet.allow 0 k1,
            parse_values_of_networks configuration.deny denied AdmissionRuleSet.deny 0 k2,
          )
          (ap gives (sym e)),
  )
