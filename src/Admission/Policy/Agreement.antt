-- ===== src/Admission/Policy/Agreement.antt =====
-- The test by coverage and the decision with a reason are one policy.
use mathlib.Core.Bool.{◌||◌}
use swift_cidr_admission.Base.{
  ◌≡◌, refl, ◌∙◌, Bool, true, false, List, [], ◌∷◌, ◌++◌, Option, none, some, any, arith,
}
use swift_cidr_admission.Admission.Cidr.{Cidr, IsLawful, v4, v6, AnyIpAddress}
use swift_cidr_admission.Admission.Rules.{
  AdmissionRule, address, network, range, contains, range_holds,
}
use swift_cidr_admission.Admission.Rules.Membership.{contains-bare}
use swift_cidr_admission.Admission.Policy.{
  AdmissionAction, collect_ranges, index_of_rules, index_contains, policy_of_rules, peer_of,
  matches, first_where, by_default, decide, decision, is_allow, allows, action, is_allowed,
}

any-append :
    {A : Type 0} (p : A → Bool) (xs ys : List A) → any p (xs ++ ys) ≡ (any p xs || any p ys)
any-append p [] ys = refl
any-append p (x ∷ xs) ys = ground (arith, any-append p xs ys)

module _ (c : Cidr) (lawful : IsLawful c) where
  -- The ranges collected for a family hold what the ranges so far and the rules hold.
  collect4 :
      (rules : List (AdmissionRule c)) (r4 : List c.V4.Range) (r6 : List c.V6.Range)
      (a : c.V4.Address)
      → any (λ r. c.V4.range_contains r a) (collect_ranges c rules r4 r6).0
        ≡ (any (λ r. c.V4.range_contains r a) r4 || any (λ rule. contains c rule (v4 a)) rules)
  unfolding collect_ranges contains range_holds
  collect4 [] r4 r6 a = ground arith
  collect4 (address (v4 b) ∷ rules) r4 r6 a = ground (
    arith,
    collect4 rules (r4 ++ (c.V4.single b ∷ [])) r6 a,
    any-append (λ r. c.V4.range_contains r a) r4 (c.V4.single b ∷ []),
    lawful.lawful4.range-single b a,
  )
  collect4 (address (v6 b) ∷ rules) r4 r6 a = collect4 rules r4 (r6 ++ (c.V6.single b ∷ [])) a
  collect4 (network (v4 n) ∷ rules) r4 r6 a = ground (
    arith,
    collect4 rules (r4 ++ (c.V4.covering n ∷ [])) r6 a,
    any-append (λ r. c.V4.range_contains r a) r4 (c.V4.covering n ∷ []),
    lawful.lawful4.range-covering n a,
  )
  collect4 (network (v6 n) ∷ rules) r4 r6 a = collect4 rules r4 (r6 ++ (c.V6.covering n ∷ [])) a
  collect4 (range (v4 s) ∷ rules) r4 r6 a = ground (
    arith,
    collect4 rules (r4 ++ (s ∷ [])) r6 a,
    any-append (λ r. c.V4.range_contains r a) r4 (s ∷ []),
  )
  collect4 (range (v6 s) ∷ rules) r4 r6 a = collect4 rules r4 (r6 ++ (s ∷ [])) a

  collect6 :
      (rules : List (AdmissionRule c)) (r4 : List c.V4.Range) (r6 : List c.V6.Range)
      (a : c.V6.Address)
      → any (λ r. c.V6.range_contains r a) (collect_ranges c rules r4 r6).1
        ≡ (any (λ r. c.V6.range_contains r a) r6 || any (λ rule. contains c rule (v6 a)) rules)
  unfolding collect_ranges contains range_holds
  collect6 [] r4 r6 a = ground arith
  collect6 (address (v6 b) ∷ rules) r4 r6 a = ground (
    arith,
    collect6 rules r4 (r6 ++ (c.V6.single b ∷ [])) a,
    any-append (λ r. c.V6.range_contains r a) r6 (c.V6.single b ∷ []),
    lawful.lawful6.range-single b a,
  )
  collect6 (address (v4 b) ∷ rules) r4 r6 a = collect6 rules (r4 ++ (c.V4.single b ∷ [])) r6 a
  collect6 (network (v6 n) ∷ rules) r4 r6 a = ground (
    arith,
    collect6 rules r4 (r6 ++ (c.V6.covering n ∷ [])) a,
    any-append (λ r. c.V6.range_contains r a) r6 (c.V6.covering n ∷ []),
    lawful.lawful6.range-covering n a,
  )
  collect6 (network (v4 n) ∷ rules) r4 r6 a = collect6 rules (r4 ++ (c.V4.covering n ∷ [])) r6 a
  collect6 (range (v6 s) ∷ rules) r4 r6 a = ground (
    arith,
    collect6 rules r4 (r6 ++ (s ∷ [])) a,
    any-append (λ r. c.V6.range_contains r a) r6 (s ∷ []),
  )
  collect6 (range (v4 s) ∷ rules) r4 r6 a = collect6 rules (r4 ++ (s ∷ [])) r6 a

  -- Under the families' laws, the coverage index of a list of rules holds an address exactly if one of the rules does.
  pub index_contains-index_of_rules :
      (rules : List (AdmissionRule c)) (a : AnyIpAddress c)
      → index_contains c (index_of_rules c rules) a ≡ any (λ rule. contains c rule a) rules
  unfolding index_contains index_of_rules
  index_contains-index_of_rules rules (v4 a) =
      lawful.lawful4.coverage_exact (collect_ranges c rules [] []).0 a ∙ collect4 rules [] [] a
  index_contains-index_of_rules rules (v6 a) =
      lawful.lawful6.coverage_exact (collect_ranges c rules [] []).1 a ∙ collect6 rules [] [] a

  -- The projected peer matches a rule as the rule holds the address.
  pub matches-peer_of :
      (rule : AdmissionRule c) (a : AnyIpAddress c)
      → matches c (peer_of c a) rule ≡ contains c rule a
  unfolding matches peer_of contains
  matches-peer_of (network (v4 n)) (v4 a) = refl
  matches-peer_of (network (v4 n)) (v6 a) = refl
  matches-peer_of (network (v6 n)) (v4 a) = refl
  matches-peer_of (network (v6 n)) (v6 a) = refl
  matches-peer_of (address b) (v4 a) = contains-bare c lawful (address b) (v4 a)
  matches-peer_of (address b) (v6 a) = contains-bare c lawful (address b) (v6 a)
  matches-peer_of (range r) (v4 a) = contains-bare c lawful (range r) (v4 a)
  matches-peer_of (range r) (v6 a) = contains-bare c lawful (range r) (v6 a)

  -- Whether a rule is found.
  abbrev pub is_found : Option (AdmissionRule c) → Bool
  is_found none = false
  is_found (some rule) = true

  is_found-first_where :
      (rules : List (AdmissionRule c)) (a : AnyIpAddress c)
      → is_found (first_where c (matches c (peer_of c a)) rules)
        ≡ any (λ rule. contains c rule a) rules
  unfolding first_where
  is_found-first_where [] a = refl
  is_found-first_where (rule ∷ rules) a =
      ground (arith, matches-peer_of rule a, is_found-first_where rules a)

  -- Under the families' laws, the test by coverage agrees with the decision: a policy compiled from rules allows an address exactly if its detailed decision for the address is to allow it.
  pub allows-decision :
      (allow_rules deny_rules : List (AdmissionRule c)) (default : AdmissionAction)
      (a : AnyIpAddress c)
      → allows c (policy_of_rules c allow_rules deny_rules default) a
        ≡ is_allowed c (decision c (policy_of_rules c allow_rules deny_rules default) a)
  unfolding allows policy_of_rules decision decide is_allowed action by_default is_allow
  allows-decision allow_rules deny_rules default a = ground (
    arith,
    index_contains-index_of_rules deny_rules a,
    index_contains-index_of_rules allow_rules a,
    is_found-first_where deny_rules a,
    is_found-first_where allow_rules a,
  )
