-- ===== src/Tests/Policy.antt =====
-- The rules and the policy at addresses of the toy families.
use mathlib.Core.List.{Permᴰ, Perm}
use swift_cidr_admission.Base.{ℕ, ◌≡◌, ◌↔◌, refl, true, false, [], ◌∷◌, codes, text_eq, some}
use swift_cidr_admission.Admission.Cidr.{v4, v6, AnyIpAddress}
use swift_cidr_admission.Admission.Characters.{
  has_dots, has_slash, first_range, after_dots, preceded_by,
}
use swift_cidr_admission.Admission.Rules.{
  AdmissionRule, address, network, range, rule_of, contains, rule_eq, hash,
}
use swift_cidr_admission.Admission.Rules.Membership.{bare, contains-bare}
use swift_cidr_admission.Admission.Rules.Identity.{rule_eq_congruent}
use swift_cidr_admission.Admission.Rules.Classes.{class_of, class_contains, class_of_iff}
use swift_cidr_admission.Admission.Policy.{
  AdmissionAction, AdmissionRuleSet, AdmissionDecision, default_action, matched, IpAdmissionPolicy,
  collect_ranges, index_of_rules, index_contains, policy_of_rules, peer_of, matches, first_where,
  by_default, decide, decision, allows, is_allowed,
}
use swift_cidr_admission.Admission.Policy.Agreement.{allows-decision}
use swift_cidr_admission.Admission.Policy.Precedence.{Decides, decision-Decides}
use swift_cidr_admission.Admission.Policy.Order.{allows-Perm}
use swift_cidr_admission.Tests.ToyCidr.{toy_cidr, toy_cidr-IsLawful, toy_platform}

abbrev at : ℕ → AnyIpAddress toy_cidr
at n = v4 (n, 32)

-- The same address, with the prefix of its network.
abbrev prefixed : ℕ → AnyIpAddress toy_cidr
prefixed n = v4 (n, 8)

abbrev block : AdmissionRule toy_cidr
block = network (v4 (10, 10))

abbrev hole : AdmissionRule toy_cidr
hole = range (v4 (13, 15))

abbrev single : AdmissionRule toy_cidr
single = address (prefixed 40)

abbrev other_family : AdmissionRule toy_cidr
other_family = address (v6 (12, 32))

abbrev policy : IpAdmissionPolicy toy_cidr
policy =
    policy_of_rules toy_cidr (block ∷ single ∷ []) (hole ∷ other_family ∷ []) AdmissionAction.deny

allowed_inside : allows toy_cidr policy (prefixed 12) ≡ true
unfolding allows index_contains policy_of_rules index_of_rules collect_ranges
allowed_inside = refl

denied_in_hole : allows toy_cidr policy (at 13) ≡ false
unfolding allows index_contains policy_of_rules index_of_rules collect_ranges
denied_in_hole = refl

denied_by_family : allows toy_cidr policy (v6 (40, 32)) ≡ false
unfolding allows index_contains policy_of_rules index_of_rules collect_ranges
denied_by_family = refl

decided_by_the_hole :
    decision toy_cidr policy (at 14) ≡ AdmissionDecision.deny (matched AdmissionRuleSet.deny hole)
unfolding decision decide first_where policy_of_rules matches contains peer_of
decided_by_the_hole = refl

decided_by_default : decision toy_cidr policy (at 99) ≡ AdmissionDecision.deny default_action
unfolding decision decide first_where policy_of_rules matches contains peer_of by_default
decided_by_default = refl

parsed_network : rule_of toy_cidr toy_platform (codes "a/9") ≡ some (network (v4 (97, 9)))
unfolding rule_of has_dots has_slash first_range after_dots preceded_by text_eq
parsed_network = refl

contains-bare_example :
    contains toy_cidr block (bare toy_cidr (prefixed 12)) ≡ contains toy_cidr block (prefixed 12)
contains-bare_example = contains-bare toy_cidr toy_cidr-IsLawful block (prefixed 12)

rule_eq_congruent_example :
    (contains toy_cidr single (at 40) ≡ contains toy_cidr (address (at 40)) (at 40))
    × (hash toy_cidr single [] ≡ hash toy_cidr (address (at 40)) [])
unfolding rule_eq
rule_eq_congruent_example =
    rule_eq_congruent toy_cidr toy_cidr-IsLawful single (address (at 40)) (at 40) [] refl

allows-decision_example :
    allows toy_cidr policy (at 12) ≡ is_allowed toy_cidr (decision toy_cidr policy (at 12))
allows-decision_example =
    allows-decision toy_cidr toy_cidr-IsLawful (block ∷ single ∷ []) (hole ∷ other_family ∷ [])
      AdmissionAction.deny (at 12)

decision-Decides_example : Decides toy_cidr policy (at 14) (decision toy_cidr policy (at 14))
decision-Decides_example = decision-Decides toy_cidr toy_cidr-IsLawful policy (at 14)

swapped : Perm (block ∷ single ∷ []) (single ∷ block ∷ [])
swapped = ∣ Permᴰ.swap refl refl ∣₁

allows-Perm_example :
    allows toy_cidr
      (policy_of_rules toy_cidr (block ∷ single ∷ []) (hole ∷ []) AdmissionAction.deny)
      (at 12)
    ≡ allows toy_cidr
        (policy_of_rules toy_cidr (single ∷ block ∷ []) (hole ∷ []) AdmissionAction.deny)
        (at 12)
allows-Perm_example =
    allows-Perm toy_cidr toy_cidr-IsLawful (block ∷ single ∷ []) (single ∷ block ∷ []) (hole ∷ [])
      (hole ∷ []) AdmissionAction.deny (at 12) swapped ∣ Permᴰ.cons refl Permᴰ.nil ∣₁

class_of_iff_example :
    ((class_of toy_cidr single ≡ class_of toy_cidr (address (at 40)))
      ↔ (rule_eq toy_cidr single (address (at 40)) ≡ true))
    × (class_contains toy_cidr toy_cidr-IsLawful (at 40) (class_of toy_cidr single)
        ≡ contains toy_cidr single (at 40))
class_of_iff_example = class_of_iff toy_cidr toy_cidr-IsLawful single (address (at 40)) (at 40)
