-- ===== src/Admission/Rules/Membership.antt =====
-- A rule holds a peer by the peer's literal bits alone.
use swift_cidr_admission.Base.{◌≡◌, refl, ap, ◌==◌}
use swift_cidr_admission.Admission.Cidr.{Cidr, IsLawful, v4, v6, AnyIpAddress}
use swift_cidr_admission.Admission.Rules.{
  AdmissionRule, address, network, range, contains, range_holds,
}

module _ (c : Cidr) where
  -- The address with its bits and no prefix.
  abbrev pub bare : AnyIpAddress c → AnyIpAddress c
  bare (v4 a) = v4 (c.V4.host (c.V4.bits a))
  bare (v6 a) = v6 (c.V6.host (c.V6.bits a))

  -- Under the families' laws, a rule holds an address exactly if it holds the address without its prefix: a peer's prefix length never changes membership.
  pub contains-bare :
      (lawful : IsLawful c) (rule : AdmissionRule c) (peer : AnyIpAddress c)
      → contains c rule (bare peer) ≡ contains c rule peer
  unfolding contains range_holds
  contains-bare lawful (address (v4 a)) (v4 p) =
      ap (λ n. c.V4.bits a == n) (lawful.lawful4.bits-host p)
  contains-bare lawful (address (v4 a)) (v6 p) = refl
  contains-bare lawful (address (v6 a)) (v4 p) = refl
  contains-bare lawful (address (v6 a)) (v6 p) =
      ap (λ n. c.V6.bits a == n) (lawful.lawful6.bits-host p)
  contains-bare lawful (network (v4 n)) (v4 p) =
      ap (λ b. c.V4.network_contains n (c.V4.host b)) (lawful.lawful4.bits-host p)
  contains-bare lawful (network (v4 n)) (v6 p) = refl
  contains-bare lawful (network (v6 n)) (v4 p) = refl
  contains-bare lawful (network (v6 n)) (v6 p) =
      ap (λ b. c.V6.network_contains n (c.V6.host b)) (lawful.lawful6.bits-host p)
  contains-bare lawful (range (v4 r)) (v4 p) = lawful.lawful4.range_by_bits r p
  contains-bare lawful (range (v4 r)) (v6 p) = refl
  contains-bare lawful (range (v6 r)) (v4 p) = refl
  contains-bare lawful (range (v6 r)) (v6 p) = lawful.lawful6.range_by_bits r p
