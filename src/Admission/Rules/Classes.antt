-- ===== src/Admission/Rules/Classes.antt =====
-- Rules up to `==`, as a Set of rules or a Dictionary keyed by rules takes them.
use mathlib.Core.Bool.{Bool-set}
use mathlib.Core.Quot
use mathlib.Core.Quot.{Quot}
use swift_cidr_admission.Base.{◌≡◌, ◌↔◌, refl, sym, ap, ◌∙◌, Bool, true, [], arith}
use swift_cidr_admission.Admission.Cidr.{Cidr, IsLawful, AnyIpAddress}
use swift_cidr_admission.Admission.Rules.{AdmissionRule, contains, rule_eq}
use swift_cidr_admission.Admission.Rules.Identity.{rule_eq_congruent, rule_eq_iff}

module _ (c : Cidr) where
  -- The rules, where those that compare equal are one.
  abbrev pub RuleClass : Type 0
  RuleClass = Quot (λ (r s : AdmissionRule c). rule_eq c r s ≡ true)

  abbrev pub class_of : AdmissionRule c → RuleClass
  class_of rule = Quot.mk rule

module _ (c : Cidr) (lawful : IsLawful c) where
  rule_eq_refl : (r : AdmissionRule c) → rule_eq c r r ≡ true
  rule_eq_refl r = (rule_eq_iff c lawful r r).1 refl

  rule_eq_respects :
      (r s t : AdmissionRule c) → rule_eq c s t ≡ true → rule_eq c r s ≡ rule_eq c r t
  rule_eq_respects r s t h =
      let same = (rule_eq_iff c lawful s t).0 h in
      ground (arith, rule_eq_iff c lawful r s, rule_eq_iff c lawful r t, same)

  -- Whether a rule equals the rules of a class.
  is_in : AdmissionRule c → RuleClass c → Bool
  is_in r = Quot.lift Bool-set (rule_eq c r) (rule_eq_respects r)

  -- Membership of an address, for a class.
  unfoldable pub class_contains : AnyIpAddress c → RuleClass c → Bool
  class_contains a =
      Quot.lift Bool-set (λ rule. contains c rule a)
        (λ r s h. (rule_eq_congruent c lawful r s a [] h).0)

  class_of-rule_eq : (r s : AdmissionRule c) → class_of c r ≡ class_of c s → rule_eq c r s ≡ true
  unfolding is_in
  class_of-rule_eq r s h = sym (ap (is_in r) h) ∙ rule_eq_refl r

  -- The rules up to `==` are a type in which two rules are equal exactly if `==` holds, and in which membership of an address is a function: a class holds an address if its rules do.
  pub class_of_iff :
      (r s : AdmissionRule c) (a : AnyIpAddress c)
      → ((class_of c r ≡ class_of c s) ↔ (rule_eq c r s ≡ true))
        × (class_contains a (class_of c r) ≡ contains c r a)
  unfolding class_contains
  class_of_iff r s a = ((class_of-rule_eq r s, λ h. Quot.sound h), refl)
