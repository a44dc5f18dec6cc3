-- ===== src/Admission/Policy.antt =====
-- IPAdmissionPolicy.swift and IPAdmissionCoverageIndex.swift: the compiled policy, its decision with a
-- reason, and the test by coverage alone.
pub mod Agreement
pub mod Precedence
pub mod Order
use swift_cidr_admission.Base.{
  Bool, true, false, List, [], ◌∷◌, ◌++◌, map, Option, none, some, if◌then◌else◌, ℕ, ◌+◌,
}
use swift_cidr_admission.Admission.Cidr.{Cidr, Family, AnyOf, v4, v6, AnyIpAddress, AnyIpNetwork}
use swift_cidr_admission.Admission.Rules.{AdmissionRule, address, network, range, contains}

pub data AdmissionAction : Type 0 where
  allow deny : AdmissionAction

pub data AdmissionRuleSet : Type 0 where
  allow deny : AdmissionRuleSet

pub data AdmissionDecisionReason (c : Cidr) : Type 0 where
  matched : AdmissionRuleSet → AdmissionRule c → AdmissionDecisionReason c
  default_action : AdmissionDecisionReason c

pub data AdmissionDecision (c : Cidr) : Type 0 where
  allow deny : AdmissionDecisionReason c → AdmissionDecision c

pub record IpAdmissionCoverageIndex (c : Cidr) : Type 0 where
  pub ipv4 : c.V4.Coverage
  pub ipv6 : c.V6.Coverage

pub record IpAdmissionPolicy (c : Cidr) : Type 0 where
  pub default_action : AdmissionAction
  pub allow : List (AdmissionRule c)
  pub deny : List (AdmissionRule c)
  pub allow_coverage : IpAdmissionCoverageIndex c
  pub deny_coverage : IpAdmissionCoverageIndex c

module _ (c : Cidr) where
  -- The ranges of each family that the loop over the rules collects.
  unfoldable pub collect_ranges :
      List (AdmissionRule c) → List c.V4.Range → List c.V6.Range → List c.V4.Range × List c.V6.Range
  collect_ranges [] r4 r6 = (r4, r6)
  collect_ranges (address (v4 a) ∷ rules) r4 r6 =
      collect_ranges rules (r4 ++ (c.V4.single a ∷ [])) r6
  collect_ranges (address (v6 a) ∷ rules) r4 r6 =
      collect_ranges rules r4 (r6 ++ (c.V6.single a ∷ []))
  collect_ranges (network (v4 n) ∷ rules) r4 r6 =
      collect_ranges rules (r4 ++ (c.V4.covering n ∷ [])) r6
  collect_ranges (network (v6 n) ∷ rules) r4 r6 =
      collect_ranges rules r4 (r6 ++ (c.V6.covering n ∷ []))
  collect_ranges (range (v4 r) ∷ rules) r4 r6 = collect_ranges rules (r4 ++ (r ∷ [])) r6
  collect_ranges (range (v6 r) ∷ rules) r4 r6 = collect_ranges rules r4 (r6 ++ (r ∷ []))

  -- IPAdmissionCoverageIndex(rules:)
  unfoldable pub index_of_rules : List (AdmissionRule c) → IpAdmissionCoverageIndex c
  index_of_rules rules =
      let (r4, r6) = collect_ranges rules [] [] in
      record { ipv4 = c.V4.coverage r4; ipv6 = c.V6.coverage r6 }

  unfoldable pub index_contains : IpAdmissionCoverageIndex c → AnyIpAddress c → Bool
  index_contains index (v4 a) = c.V4.coverage_contains index.ipv4 a
  index_contains index (v6 a) = c.V6.coverage_contains index.ipv6 a

  -- init(allowRules:denyRules:defaultAction:)
  unfoldable pub policy_of_rules :
      List (AdmissionRule c) → List (AdmissionRule c) → AdmissionAction → IpAdmissionPolicy c
  policy_of_rules allow_rules deny_rules default = record {
    default_action = default;
    allow = allow_rules;
    deny = deny_rules;
    allow_coverage = index_of_rules allow_rules;
    deny_coverage = index_of_rules deny_rules;
  }

  -- init(allow:deny:defaultAction:)
  unfoldable pub policy_of_networks :
      List (AnyIpNetwork c) → List (AnyIpNetwork c) → AdmissionAction → IpAdmissionPolicy c
  policy_of_networks allowed denied default =
      policy_of_rules (map network allowed) (map network denied) default

  -- DecisionPeer(_:), whose host has no prefix.
  unfoldable pub peer_of : AnyIpAddress c → AnyIpAddress c
  peer_of (v4 peer) = v4 (c.V4.host (c.V4.bits peer))
  peer_of (v6 peer) = v6 (c.V6.host (c.V6.bits peer))

  -- DecisionPeer.matches(_:)
  unfoldable pub matches : AnyIpAddress c → AdmissionRule c → Bool
  matches (v4 candidate) (network (v4 n)) = c.V4.network_contains n candidate
  matches (v6 candidate) (network (v6 n)) = c.V6.network_contains n candidate
  matches (v4 candidate) (network (v6 n)) = false
  matches (v6 candidate) (network (v4 n)) = false
  matches host (address a) = contains c (address a) host
  matches host (range r) = contains c (range r) host

  -- rules.first(where:)
  unfoldable pub first_where :
      (AdmissionRule c → Bool) → List (AdmissionRule c) → Option (AdmissionRule c)
  first_where p [] = none
  first_where p (rule ∷ rules) =
      let rest = first_where p rules in if p rule then some rule else rest

  unfoldable pub by_default : AdmissionAction → AdmissionDecision c
  by_default AdmissionAction.allow = AdmissionDecision.allow default_action
  by_default AdmissionAction.deny = AdmissionDecision.deny default_action

  -- The decision for the first deny rule and the first allow rule that match.
  unfoldable pub decide :
      AdmissionAction → Option (AdmissionRule c) → Option (AdmissionRule c) → AdmissionDecision c
  decide default (some rule) allowed = AdmissionDecision.deny (matched AdmissionRuleSet.deny rule)
  decide default none (some rule) = AdmissionDecision.allow (matched AdmissionRuleSet.allow rule)
  decide default none none = by_default default

  -- decision(for:)
  unfoldable pub decision : IpAdmissionPolicy c → AnyIpAddress c → AdmissionDecision c
  decision policy a =
      let peer = peer_of a in
      decide policy.default_action (first_where (matches peer) policy.deny)
        (first_where (matches peer) policy.allow)

  unfoldable pub is_allow : AdmissionAction → Bool
  is_allow AdmissionAction.allow = true
  is_allow AdmissionAction.deny = false

  -- allows(_:)
  unfoldable pub allows : IpAdmissionPolicy c → AnyIpAddress c → Bool
  unfolding is_allow
  allows policy a =
      if index_contains policy.deny_coverage a
      then false
      else if index_contains policy.allow_coverage a
      then true
      else is_allow policy.default_action

  -- decision.action
  unfoldable pub action : AdmissionDecision c → AdmissionAction
  action (AdmissionDecision.allow reason) = AdmissionAction.allow
  action (AdmissionDecision.deny reason) = AdmissionAction.deny

  -- decision.isAllowed
  unfoldable pub is_allowed : AdmissionDecision c → Bool
  unfolding is_allow
  is_allowed d = is_allow (action d)

  -- decision.reason
  unfoldable pub reason : AdmissionDecision c → AdmissionDecisionReason c
  reason (AdmissionDecision.allow r) = r
  reason (AdmissionDecision.deny r) = r
