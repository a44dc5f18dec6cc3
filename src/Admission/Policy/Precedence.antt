-- ===== src/Admission/Policy/Precedence.antt =====
-- Which rule a decision names: denials first, and in each set the first rule in source order.
use swift_cidr_admission.Base.{
  ◌≡◌, refl, sym, ap, ◌∙◌, subst, inl, inr, true, false, List, [], ◌∷◌, ◌++◌, Option, none, some,
  All, arith, Bool-cases,
}
use swift_cidr_admission.Admission.Cidr.{Cidr, IsLawful, AnyIpAddress}
use swift_cidr_admission.Admission.Rules.{AdmissionRule, contains}
use swift_cidr_admission.Admission.Policy.{
  AdmissionAction, AdmissionRuleSet, AdmissionDecision, matched, default_action, IpAdmissionPolicy,
  peer_of, matches, first_where, by_default, decide, decision,
}
use swift_cidr_admission.Admission.Policy.Agreement.{matches-peer_of}

module _ (c : Cidr) where
  -- No rule of the list holds the address.
  abbrev pub Misses : AnyIpAddress c → List (AdmissionRule c) → Type 0
  Misses a rules = All (λ rule. contains c rule a ≡ false) rules

  -- The rule holds the address, and stands behind rules that do not.
  abbrev pub IsFirst : AnyIpAddress c → List (AdmissionRule c) → AdmissionRule c → Type 0
  IsFirst a rules rule =
      (before : List (AdmissionRule c)) × (after : List (AdmissionRule c)) × (rules
        ≡ before ++ (rule ∷ after))
      × Misses a before
      × (contains c rule a ≡ true)

  -- What a policy promises to decide for an address.
  pub data Decides (policy : IpAdmissionPolicy c) (a : AnyIpAddress c)
      : AdmissionDecision c → Type 0 where
    denied :
        (rule : AdmissionRule c)
        → IsFirst a policy.deny rule
        → Decides policy a (AdmissionDecision.deny (matched AdmissionRuleSet.deny rule))
    allowed :
        (rule : AdmissionRule c)
        → Misses a policy.deny
        → IsFirst a policy.allow rule
        → Decides policy a (AdmissionDecision.allow (matched AdmissionRuleSet.allow rule))
    allowed_by_default :
        Misses a policy.deny
        → Misses a policy.allow
        → (policy.default_action ≡ AdmissionAction.allow)
        → Decides policy a (AdmissionDecision.allow default_action)
    denied_by_default :
        Misses a policy.deny
        → Misses a policy.allow
        → (policy.default_action ≡ AdmissionAction.deny)
        → Decides policy a (AdmissionDecision.deny default_action)

module _ (c : Cidr) (lawful : IsLawful c) where
  first_where-Misses :
      (rules : List (AdmissionRule c)) (a : AnyIpAddress c)
      → first_where c (matches c (peer_of c a)) rules ≡ none
      → Misses c a rules
  unfolding first_where
  first_where-Misses [] a h = tt
  first_where-Misses (rule ∷ rules) a h = elim (Bool-cases (matches c (peer_of c a) rule)) [
    | inl e ↦ absurd (ground (arith, h, e))
    | inr e ↦ (
      sym (matches-peer_of c lawful rule a) ∙ e,
      first_where-Misses rules a (ground (arith, h, e)),
    )
  ]

  first_where-IsFirst :
      (rules : List (AdmissionRule c)) (a : AnyIpAddress c) (rule : AdmissionRule c)
      → first_where c (matches c (peer_of c a)) rules ≡ some rule
      → IsFirst c a rules rule
  unfolding first_where
  first_where-IsFirst [] a rule h = absurd (ground (arith, h))
  first_where-IsFirst (other ∷ rules) a rule h = elim (Bool-cases (matches c (peer_of c a) other)) [
    | inl e ↦
        let same : other ≡ rule = ground (arith, h, e) in
        (
          [],
          rules,
          ap (λ r. r ∷ rules) same,
          tt,
          subst (λ r. contains c r a ≡ true) same (sym (matches-peer_of c lawful other a) ∙ e),
        )
    | inr e ↦
        let (before, after, split, misses, holds) =
          first_where-IsFirst rules a rule (ground (arith, h, e)) in
        (
          other ∷ before,
          after,
          ap (λ rs. other ∷ rs) split,
          (sym (matches-peer_of c lawful other a) ∙ e, misses),
          holds,
        )
  ]

  default-Decides :
      (policy : IpAdmissionPolicy c) (a : AnyIpAddress c) (default : AdmissionAction)
      → (policy.default_action ≡ default)
      → Misses c a policy.deny
      → Misses c a policy.allow
      → Decides c policy a (by_default c default)
  unfolding by_default
  default-Decides policy a AdmissionAction.allow e d o = allowed_by_default d o e
  default-Decides policy a AdmissionAction.deny e d o = denied_by_default d o e

  decide-Decides :
      (policy : IpAdmissionPolicy c) (a : AnyIpAddress c)
      (denied_rule allowed_rule : Option (AdmissionRule c))
      → first_where c (matches c (peer_of c a)) policy.deny ≡ denied_rule
      → first_where c (matches c (peer_of c a)) policy.allow ≡ allowed_rule
      → Decides c policy a (decide c policy.default_action denied_rule allowed_rule)
  unfolding decide
  decide-Decides policy a (some rule) o d h = denied rule (first_where-IsFirst policy.deny a rule d)
  decide-Decides policy a none (some rule) d h =
      allowed rule (first_where-Misses policy.deny a d) (first_where-IsFirst policy.allow a rule h)
  decide-Decides policy a none none d h =
      default-Decides policy a policy.default_action refl (first_where-Misses policy.deny a d)
        (first_where-Misses policy.allow a h)

  -- Under the families' laws, the decision is the one that the policy promises: the first deny rule that holds the address; else the first such allow rule; else the default action.
  pub decision-Decides :
      (policy : IpAdmissionPolicy c) (a : AnyIpAddress c) → Decides c policy a (decision c policy a)
  unfolding decision
  decision-Decides policy a =
      decide-Decides policy a (first_where c (matches c (peer_of c a)) policy.deny)
        (first_where c (matches c (peer_of c a)) policy.allow) refl refl
