-- ===== src/Admission/Rules.antt =====
-- AdmissionRule.swift.
pub mod Membership
pub mod Identity
pub mod Classes
use swift_cidr_admission.Base.{
  ℕ, ◌==◌, Bool, true, false, Option, none, some, List, [], ◌∷◌, ◌++◌, Text, codes, if◌then◌else◌,
}
use swift_cidr_admission.Admission.Characters.{has_dots, has_slash}
use swift_cidr_admission.Admission.Platform.{Platform}
use swift_cidr_admission.Admission.Cidr.{
  Cidr, Family, AnyOf, v4, v6, AnyIpAddress, AnyIpNetwork, AnyIpAddressRange,
}

pub data AdmissionRule (c : Cidr) : Type 0 where
  address : AnyIpAddress c → AdmissionRule c
  network : AnyIpNetwork c → AdmissionRule c
  range : AnyIpAddressRange c → AdmissionRule c

module _ (c : Cidr) (p : Platform) where
  abbrev pub parsed {ℓ} : {A : Type ℓ} {B : Type ℓ} → (A → B) → Option A → Option B
  parsed f none = none
  parsed f (some a) = some (f a)

  -- init?(_:)
  unfoldable pub rule_of : Text → Option (AdmissionRule c)
  rule_of description =
      if has_dots (p.characters description)
      then parsed range (c.parse_range description)
      else if has_slash (p.characters description)
      then parsed network (c.parse_network description)
      else parsed address (c.parse_address description)

module _ (c : Cidr) where
  unfoldable pub description : AdmissionRule c → Text
  description (address a) = c.address_literal a
  description (network n) = c.network_description n
  description (range r) = c.range_description r

  unfoldable pub range_holds : AnyIpAddressRange c → AnyIpAddress c → Bool
  range_holds (v4 r) (v4 a) = c.V4.range_contains r a
  range_holds (v6 r) (v6 a) = c.V6.range_contains r a
  range_holds _ _ = false

  -- contains(_:)
  unfoldable pub contains : AdmissionRule c → AnyIpAddress c → Bool
  unfolding range_holds
  contains (address (v4 rule)) (v4 candidate) = c.V4.bits rule == c.V4.bits candidate
  contains (address (v6 rule)) (v6 candidate) = c.V6.bits rule == c.V6.bits candidate
  contains (address _) _ = false
  contains (network (v4 n)) (v4 candidate) =
      c.V4.network_contains n (c.V4.host (c.V4.bits candidate))
  contains (network (v6 n)) (v6 candidate) =
      c.V6.network_contains n (c.V6.host (c.V6.bits candidate))
  contains (network _) _ = false
  contains (range r) candidate = range_holds r candidate

  unfoldable pub network_same : AnyIpNetwork c → AnyIpNetwork c → Bool
  network_same (v4 n) (v4 m) = c.V4.network_eq n m
  network_same (v6 n) (v6 m) = c.V6.network_eq n m
  network_same _ _ = false

  unfoldable pub range_same : AnyIpAddressRange c → AnyIpAddressRange c → Bool
  range_same (v4 r) (v4 s) = c.V4.range_eq r s
  range_same (v6 r) (v6 s) = c.V6.range_eq r s
  range_same _ _ = false

  -- static func ==
  unfoldable pub rule_eq : AdmissionRule c → AdmissionRule c → Bool
  unfolding network_same range_same
  rule_eq (address (v4 lhs)) (address (v4 rhs)) = c.V4.bits lhs == c.V4.bits rhs
  rule_eq (address (v6 lhs)) (address (v6 rhs)) = c.V6.bits lhs == c.V6.bits rhs
  rule_eq (network lhs) (network rhs) = network_same lhs rhs
  rule_eq (range lhs) (range rhs) = range_same lhs rhs
  rule_eq _ _ = false

  -- What an `AnyIPNetwork` or an `AnyIPAddressRange` feeds to a hasher: its family, and its value.
  unfoldable pub network_input : AnyIpNetwork c → List ℕ
  network_input (v4 n) = 0 ∷ c.V4.network_hash n
  network_input (v6 n) = 1 ∷ c.V6.network_hash n

  unfoldable pub range_input : AnyIpAddressRange c → List ℕ
  range_input (v4 r) = 0 ∷ c.V4.range_hash r
  range_input (v6 r) = 1 ∷ c.V6.range_hash r

  -- hash(into:), for a hasher that keeps what was combined into it.
  unfoldable pub hash : AdmissionRule c → List ℕ → List ℕ
  unfolding network_input range_input
  hash (address (v4 a)) hasher = hasher ++ (0 ∷ 0 ∷ c.V4.bits a ∷ [])
  hash (address (v6 a)) hasher = hasher ++ (0 ∷ 1 ∷ c.V6.bits a ∷ [])
  hash (network n) hasher = hasher ++ (1 ∷ network_input n)
  hash (range r) hasher = hasher ++ (2 ∷ range_input r)
