-- ===== src/Admission/Rules/Identity.antt =====
-- `==` and `hash(into:)` of rules: what compares equal holds the same peers and hashes alike.
use swift_cidr_admission.Base.{
  ℕ, ◌≡◌, refl, ap, subst, ◌==◌, ==_iff, true, List, [], ◌∷◌, ◌++◌, arith, ◌↔◌,
}
use swift_cidr_admission.Admission.Cidr.{Cidr, IsLawful, v4, v6, AnyIpAddress}
use swift_cidr_admission.Admission.Rules.{
  AdmissionRule, address, network, range, contains, rule_eq, network_same, range_same, hash,
}

-- What a rule stands for.
pub data Key (c : Cidr) : Type 0 where
  key4 key6 : ℕ → Key c
  as_written : AdmissionRule c → Key c

abbrev pub key : (c : Cidr) → AdmissionRule c → Key c
key c (address (v4 a)) = key4 (c.V4.bits a)
key c (address (v6 a)) = key6 (c.V6.bits a)
key c (network n) = as_written (network n)
key c (range r) = as_written (range r)

module _ (c : Cidr) (lawful : IsLawful c) where
  -- What rules that compare equal have in common.
  data Same : AdmissionRule c → AdmissionRule c → Type 0 where
    address4 :
        (a b : c.V4.Address) → (c.V4.bits a ≡ c.V4.bits b) → Same (address (v4 a)) (address (v4 b))
    address6 :
        (a b : c.V6.Address) → (c.V6.bits a ≡ c.V6.bits b) → Same (address (v6 a)) (address (v6 b))
    itself : (r s : AdmissionRule c) → (r ≡ s) → Same r s

  rule_eq-Same : (r s : AdmissionRule c) → rule_eq c r s ≡ true → Same r s
  unfolding rule_eq network_same range_same
  rule_eq-Same (address (v4 a)) (address (v4 b)) h = address4 a b ((==_iff _ _).0 h)
  rule_eq-Same (address (v6 a)) (address (v6 b)) h = address6 a b ((==_iff _ _).0 h)
  rule_eq-Same (network (v4 n)) (network (v4 m)) h =
      itself _ _ (ap (λ k. network (v4 k)) ((lawful.lawful4.network_eq_iff n m).0 h))
  rule_eq-Same (network (v6 n)) (network (v6 m)) h =
      itself _ _ (ap (λ k. network (v6 k)) ((lawful.lawful6.network_eq_iff n m).0 h))
  rule_eq-Same (range (v4 r)) (range (v4 s)) h =
      itself _ _ (ap (λ k. range (v4 k)) ((lawful.lawful4.range_eq_iff r s).0 h))
  rule_eq-Same (range (v6 r)) (range (v6 s)) h =
      itself _ _ (ap (λ k. range (v6 k)) ((lawful.lawful6.range_eq_iff r s).0 h))
  rule_eq-Same (address (v4 a)) (address (v6 b)) h = cc
  rule_eq-Same (address (v6 a)) (address (v4 b)) h = cc
  rule_eq-Same (network (v4 a)) (network (v6 b)) h = cc
  rule_eq-Same (network (v6 a)) (network (v4 b)) h = cc
  rule_eq-Same (range (v4 a)) (range (v6 b)) h = cc
  rule_eq-Same (range (v6 a)) (range (v4 b)) h = cc
  rule_eq-Same (address (v4 a)) (network b) h = cc
  rule_eq-Same (address (v6 a)) (network b) h = cc
  rule_eq-Same (address (v4 a)) (range b) h = cc
  rule_eq-Same (address (v6 a)) (range b) h = cc
  rule_eq-Same (network a) (address b) h = cc
  rule_eq-Same (network a) (range b) h = cc
  rule_eq-Same (range a) (address b) h = cc
  rule_eq-Same (range a) (network b) h = cc

  Same-congruent :
      (r s : AdmissionRule c) (peer : AnyIpAddress c) (hasher : List ℕ)
      → Same r s
      → (contains c r peer ≡ contains c s peer) × (hash c r hasher ≡ hash c s hasher)
  unfolding contains hash
  Same-congruent _ _ (v4 p) hasher (address4 a b e) =
      (ap (λ n. n == c.V4.bits p) e, ap (λ n. hasher ++ (0 ∷ 0 ∷ n ∷ [])) e)
  Same-congruent _ _ (v6 p) hasher (address4 a b e) = (refl, ap (λ n. hasher ++ (0 ∷ 0 ∷ n ∷ [])) e)
  Same-congruent _ _ (v4 p) hasher (address6 a b e) = (refl, ap (λ n. hasher ++ (0 ∷ 1 ∷ n ∷ [])) e)
  Same-congruent _ _ (v6 p) hasher (address6 a b e) =
      (ap (λ n. n == c.V6.bits p) e, ap (λ n. hasher ++ (0 ∷ 1 ∷ n ∷ [])) e)
  Same-congruent r s peer hasher (itself _ _ e) =
      (ap (λ k. contains c k peer) e, ap (λ k. hash c k hasher) e)

  rule_eq_refl : (r : AdmissionRule c) → rule_eq c r r ≡ true
  unfolding rule_eq network_same range_same
  rule_eq_refl (address (v4 a)) = (==_iff _ _).1 refl
  rule_eq_refl (address (v6 a)) = (==_iff _ _).1 refl
  rule_eq_refl (network (v4 n)) = (lawful.lawful4.network_eq_iff n n).1 refl
  rule_eq_refl (network (v6 n)) = (lawful.lawful6.network_eq_iff n n).1 refl
  rule_eq_refl (range (v4 r)) = (lawful.lawful4.range_eq_iff r r).1 refl
  rule_eq_refl (range (v6 r)) = (lawful.lawful6.range_eq_iff r r).1 refl

  Same-rule_eq : (r s : AdmissionRule c) → Same r s → rule_eq c r s ≡ true
  unfolding rule_eq
  Same-rule_eq _ _ (address4 a b e) = (==_iff _ _).1 e
  Same-rule_eq _ _ (address6 a b e) = (==_iff _ _).1 e
  Same-rule_eq r s (itself _ _ e) = subst (λ k. rule_eq c r k ≡ true) e (rule_eq_refl r)

  -- Rules that compare equal with `==` hold the same addresses and feed the same input to a hasher, although the addresses in them may carry different prefixes.
  pub rule_eq_congruent :
      (r s : AdmissionRule c) (peer : AnyIpAddress c) (hasher : List ℕ)
      → rule_eq c r s ≡ true
      → (contains c r peer ≡ contains c s peer) × (hash c r hasher ≡ hash c s hasher)
  rule_eq_congruent r s peer hasher h = Same-congruent r s peer hasher (rule_eq-Same r s h)

  key-Same : (r s : AdmissionRule c) → Same r s → key c r ≡ key c s
  key-Same _ _ (address4 a b e) = ap key4 e
  key-Same _ _ (address6 a b e) = ap key6 e
  key-Same r s (itself _ _ e) = ap (key c) e

  Same-of_key : (r s : AdmissionRule c) → key c r ≡ key c s → Same r s
  Same-of_key (address (v4 a)) (address (v4 b)) h = address4 a b cc
  Same-of_key (address (v6 a)) (address (v6 b)) h = address6 a b cc
  Same-of_key (network n) (network m) h = itself _ _ cc
  Same-of_key (range r) (range s) h = itself _ _ cc
  Same-of_key (address (v4 a)) (address (v6 b)) h = absurd (ground (arith, h))
  Same-of_key (address (v6 a)) (address (v4 b)) h = absurd (ground (arith, h))
  Same-of_key (address (v4 a)) (network b) h = absurd (ground (arith, h))
  Same-of_key (address (v6 a)) (network b) h = absurd (ground (arith, h))
  Same-of_key (address (v4 a)) (range b) h = absurd (ground (arith, h))
  Same-of_key (address (v6 a)) (range b) h = absurd (ground (arith, h))
  Same-of_key (network a) (address (v4 b)) h = absurd (ground (arith, h))
  Same-of_key (network a) (address (v6 b)) h = absurd (ground (arith, h))
  Same-of_key (network a) (range b) h = absurd (ground (arith, h))
  Same-of_key (range a) (address (v4 b)) h = absurd (ground (arith, h))
  Same-of_key (range a) (address (v6 b)) h = absurd (ground (arith, h))
  Same-of_key (range a) (network b) h = absurd (ground (arith, h))

  -- `==` of rules is equality of what a rule stands for: the family and the bits of an address, and a network or a range as it is. So it is an equivalence.
  pub rule_eq_iff : (r s : AdmissionRule c) → (rule_eq c r s ≡ true) ↔ (key c r ≡ key c s)
  rule_eq_iff r s =
      (λ h. key-Same r s (rule_eq-Same r s h), λ h. Same-rule_eq r s (Same-of_key r s h))
