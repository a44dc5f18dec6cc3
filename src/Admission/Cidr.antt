-- ===== src/Admission/Cidr.antt =====
-- What the library takes from the package swift-cidr: addresses, networks, ranges and exact coverage
-- of the two address families.
use swift_cidr_admission.Base.{ℕ, ◌≡◌, ◌↔◌, Bool, true, List, Option, Text, any, ◌==◌}

-- The types of one family. An address has its literal bits, and may carry the length of a prefix.
pub record Family : Type 1 where
  pub Address : Type 0
  pub Network : Type 0
  pub Range : Type 0
  -- IPAddressCoverage
  pub Coverage : Type 0
  -- address.address, and IPAddress(address:), which has no prefix.
  pub bits : Address → ℕ
  pub host : ℕ → Address
  -- network.contains(address:) and range.contains(_:)
  pub network_contains : Network → Address → Bool
  pub range_contains : Range → Address → Bool
  -- IPAddressRange(_:), IPAddressRange(covering:) and IPAddressRange(lowerBound:upperBound:)
  pub single : Address → Range
  pub covering : Network → Range
  pub between : Address → Address → Option Range
  -- IPAddressCoverage(_:) and contains(_:)
  pub coverage : List Range → Coverage
  pub coverage_contains : Coverage → Address → Bool
  pub network_eq : Network → Network → Bool
  pub range_eq : Range → Range → Bool
  -- What these values feed to a hasher.
  pub network_hash : Network → List ℕ
  pub range_hash : Range → List ℕ

-- A value of either family: AnyIPAddress, AnyIPNetwork and AnyIPAddressRange.
pub data AnyOf (A B : Type 0) : Type 0 where
  v4 : A → AnyOf A B
  v6 : B → AnyOf A B

pub record Cidr : Type 1 where
  pub V4 : Family
  pub V6 : Family
  -- AnyIPAddress(_:), AnyIPNetwork(_:) and AnyIPAddressRange(_:)
  pub parse_address : Text → Option (AnyOf V4.Address V6.Address)
  pub parse_network : Text → Option (AnyOf V4.Network V6.Network)
  pub parse_range : Text → Option (AnyOf V4.Range V6.Range)
  -- addressLiteral and description
  pub address_literal : AnyOf V4.Address V6.Address → Text
  pub network_description : AnyOf V4.Network V6.Network → Text
  pub range_description : AnyOf V4.Range V6.Range → Text

module _ (c : Cidr) where
  abbrev pub AnyIpAddress : Type 0
  AnyIpAddress = AnyOf c.V4.Address c.V6.Address

  abbrev pub AnyIpNetwork : Type 0
  AnyIpNetwork = AnyOf c.V4.Network c.V6.Network

  abbrev pub AnyIpAddressRange : Type 0
  AnyIpAddressRange = AnyOf c.V4.Range c.V6.Range

-- The documented behaviour of a family: a host keeps the bits, a range holds an address by its bits,
-- the range of an address holds what has its bits, the range of a network holds the hosts that the
-- network holds, and coverage is exact.
pub record FamilyIsLawful (f : Family) : Type 0 where
  pub bits-host : (a : f.Address) → f.bits (f.host (f.bits a)) ≡ f.bits a
  pub range_by_bits :
      (r : f.Range) (a : f.Address) → f.range_contains r (f.host (f.bits a)) ≡ f.range_contains r a
  pub range-single : (a b : f.Address) → f.range_contains (f.single a) b ≡ (f.bits a == f.bits b)
  pub range-covering :
      (n : f.Network) (a : f.Address)
      → f.range_contains (f.covering n) a ≡ f.network_contains n (f.host (f.bits a))
  pub coverage_exact :
      (rs : List f.Range) (a : f.Address)
      → f.coverage_contains (f.coverage rs) a ≡ any (λ r. f.range_contains r a) rs
  pub network_eq_iff : (n m : f.Network) → (f.network_eq n m ≡ true) ↔ (n ≡ m)
  pub range_eq_iff : (r s : f.Range) → (f.range_eq r s ≡ true) ↔ (r ≡ s)

pub record IsLawful (c : Cidr) : Type 0 where
  pub lawful4 : FamilyIsLawful c.V4
  pub lawful6 : FamilyIsLawful c.V6
