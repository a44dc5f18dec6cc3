-- ===== src/Tests/ToyCidr.antt =====
-- Two families and a platform small enough to run. A literal is one code point, its bits, with a colon
-- before it in the second family; a network counts its addresses.
use swift_cidr_admission.Base.{
  ℕ, zero, suc, ◌+◌, ◌-◌, ◌%◌, ◌<◌, ◌≡◌, ◌≢◌, ◌↔◌, refl, ◌∙◌, ap, Bool, true, ◌&&◌, ◌||◌, ltb, leb,
  ◌==◌, List, [], ◌∷◌, ◌++◌, map, Text, codes, Option, none, some, any, all, All, arith,
  if◌then◌else◌,
}
use swift_cidr_admission.Runtime.{Bytes}
use swift_cidr_admission.Admission.Cidr.{Family, FamilyIsLawful, Cidr, IsLawful, AnyOf, v4, v6}
use swift_cidr_admission.Admission.Platform.{Platform, PlatformIsLawful}

-- The bits and the length of the prefix.
abbrev Address : Type 0
Address = ℕ × ℕ

-- The first address, and how many there are, or the end.
abbrev Span : Type 0
Span = ℕ × ℕ

abbrev spans_eq : Span → Span → Bool
spans_eq (a, b) (d, e) = (a == d) && (b == e)

abbrev host_prefix : ℕ
host_prefix = 32

abbrev span_holds : Span → Address → Bool
span_holds (lower, end) (n, prefix) = leb lower n && ltb n end

abbrev pub toy_family : Family
toy_family = record {
  Address = Address;
  Network = Span;
  Range = Span;
  Coverage = List Span;
  bits = λ a. a.0;
  host = λ n. (n, host_prefix);
  network_contains = λ n a. leb (n.0) (a.0) && ltb (a.0) (n.0 + n.1);
  range_contains = span_holds;
  single = λ a. (a.0, a.0 + 1);
  covering = λ n. (n.0, n.0 + n.1);
  between = λ a b. if leb (a.0) (b.0) then some (a.0, b.0 + 1) else none;
  coverage = λ rs. rs;
  coverage_contains = λ rs a. any (λ r. span_holds r a) rs;
  network_eq = spans_eq;
  range_eq = spans_eq;
  network_hash = λ n. n.0 ∷ n.1 ∷ [];
  range_hash = λ r. r.0 ∷ r.1 ∷ [];
}

single_holds : (a b : Address) → span_holds (a.0, a.0 + 1) b ≡ (a.0 == b.0)
single_holds (n, p) (m, q) = ground arith

spans_eq_iff : (r s : Span) → (spans_eq r s ≡ true) ↔ (r ≡ s)
spans_eq_iff (a, b) (d, e) = (
  λ h.
      let first : a ≡ d = ground (arith, h) in
      let second : b ≡ e = ground (arith, h) in ap (λ x. (x, b)) first ∙ ap (λ y. (d, y)) second,
  λ h.
      let first : a ≡ d = ap (λ x. x.0) h in
      let second : b ≡ e = ap (λ x. x.1) h in ground (arith, first, second),
)

toy_family-IsLawful : FamilyIsLawful toy_family
toy_family-IsLawful = record {
  bits-host = λ a. refl;
  range_by_bits = λ r a. refl;
  range-single = single_holds;
  range-covering = λ n a. refl;
  coverage_exact = λ rs a. refl;
  network_eq_iff = spans_eq_iff;
  range_eq_iff = spans_eq_iff;
}

abbrev parse_literal : Text → Option (AnyOf Address Address)
parse_literal (n ∷ []) = some (v4 (n, host_prefix))
parse_literal (colon ∷ n ∷ []) = some (v6 (n, host_prefix))
parse_literal _ = none

abbrev parse_block : Text → Option (AnyOf Span Span)
parse_block (n ∷ slash ∷ size ∷ []) = some (v4 (n, size - b'0'))
parse_block (colon ∷ n ∷ slash ∷ size ∷ []) = some (v6 (n, size - b'0'))
parse_block _ = none

abbrev parse_span : Text → Option (AnyOf Span Span)
parse_span (n ∷ dot ∷ dot1 ∷ dot2 ∷ m ∷ []) = some (v4 (n, m + 1))
parse_span _ = none

abbrev pub toy_cidr : Cidr
toy_cidr = record {
  V4 = toy_family;
  V6 = toy_family;
  parse_address = parse_literal;
  parse_network = parse_block;
  parse_range = parse_span;
  address_literal = λ a. [];
  network_description = λ n. [];
  range_description = λ r. [];
}

pub toy_cidr-IsLawful : IsLawful toy_cidr
toy_cidr-IsLawful = record { lawful4 = toy_family-IsLawful; lawful6 = toy_family-IsLawful }

abbrev ascii : Bytes → Option Text
ascii bytes = if all (λ b. ltb b 128) bytes then some bytes else none

abbrev ascii_bytes : Text → Bytes
ascii_bytes text = map (λ n. n % 128) text

abbrev sum : Bytes → ℕ
sum [] = 0
sum (b ∷ bytes) = b + sum bytes

abbrev zeros : ℕ → Bytes
zeros zero = []
zeros (suc n) = 0 ∷ zeros n

abbrev pub toy_platform : Platform
toy_platform = record {
  file_url = λ path. record {
    is_file_url = true;
    host = none;
    path = path;
    absolute_string = codes "file://" ++ path;
    last_path_component = path;
  };
  decode_utf8 = ascii;
  utf8 = ascii_bytes;
  sha256 = λ bytes. (sum bytes % 256) ∷ zeros 31;
  characters = λ text. map (λ n. n ∷ []) text;
  is_newline = λ n. (leb 10 n && leb n 13) || (n == 0x85);
  is_whitespace = λ n. (n == 9) || (n == 32);
}

ascii_bytes_are_small : (text : Text) → all (λ b. ltb b 128) (ascii_bytes text) ≡ true
ascii_bytes_are_small [] = refl
ascii_bytes_are_small (n ∷ text) = ground (arith, ascii_bytes_are_small text)

ascii-ascii_bytes : (text : Text) → ascii (ascii_bytes text) ≢ none
ascii-ascii_bytes text = ground (arith, ascii_bytes_are_small text)

zeros_are_bytes : (n : ℕ) → All (λ b. b < 256) (zeros n)
zeros_are_bytes zero = tt
zeros_are_bytes (suc n) = (omega arith, zeros_are_bytes n)

pub toy_platform-IsLawful : PlatformIsLawful toy_platform
toy_platform-IsLawful = record {
  decodes = ascii-ascii_bytes;
  digest_length = λ b. refl;
  digest_bytes = λ b. (omega arith, zeros_are_bytes 31);
}
