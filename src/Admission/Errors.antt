-- ===== src/Admission/Errors.antt =====
-- IPAdmissionPolicyFileConfiguration.swift: the configuration, the errors of loading, and calls that
-- throw them.
use swift_cidr_admission.Base.{ℕ, ◌≡◌, refl, Bool, true, false, Text, arith}
use swift_cidr_admission.Admission.Policy.{AdmissionRuleSet}

pub data IpAdmissionChecksumPolicy : Type 0 where
  verify_if_present required : IpAdmissionChecksumPolicy

-- IPAdmissionPolicyRuleTextError
pub data RuleTextError : Type 0 where
  malformed_value malformed_range cidr_qualified_range_endpoint mixed_address_families :
      RuleTextError
  reversed_range extra_columns misplaced_byte_order_mark : RuleTextError

-- IPAdmissionPolicyFileLoadError: the rule set, then the path or the URL, then what the case adds.
pub data FileLoadError : Type 0 where
  unsupported_url file_not_found not_regular_file : AdmissionRuleSet → Text → FileLoadError
  unreadable_file : AdmissionRuleSet → Text → Text → FileLoadError
  invalid_utf8 invalid_line_ending : AdmissionRuleSet → Text → ℕ → FileLoadError
  invalid_rule : AdmissionRuleSet → Text → ℕ → Text → RuleTextError → FileLoadError
  checksum_not_found checksum_not_regular_file checksum_malformed :
      AdmissionRuleSet → Text → Text → FileLoadError
  checksum_unreadable : AdmissionRuleSet → Text → Text → Text → FileLoadError
  checksum_filename_mismatch checksum_digest_mismatch :
      AdmissionRuleSet → Text → Text → Text → Text → FileLoadError

-- What a throwing function gives.
pub data Attempt (E A : Type 0) : Type 0 where
  throws : E → Attempt E A
  gives : A → Attempt E A

module _ {E A B : Type 0} where
  infixl 5 ◌then◌
  abbrev pub ◌then◌ : Attempt E A → (A → Attempt E B) → Attempt E B
  throws e then next = throws e
  gives a then next = next a

  pub then-gives :
      (first : Attempt E A) (next : A → Attempt E B) {b : B}
      → (first then next) ≡ gives b
      → (a : A) × (first ≡ gives a) × (next a ≡ gives b)
  then-gives (throws e) next h = absurd (ground (arith, h))
  then-gives (gives a) next h = (a, refl, h)

module _ {E A : Type 0} where
  -- guard condition else { throw e }
  abbrev pub guarding : Bool → E → Attempt E A → Attempt E A
  guarding true e next = next
  guarding false e next = throws e

  pub guarding-gives :
      (c : Bool) (e : E) (next : Attempt E A) {a : A}
      → guarding c e next ≡ gives a
      → (c ≡ true) × (next ≡ gives a)
  guarding-gives true e next h = (refl, h)
  guarding-gives false e next h = absurd (ground (arith, h))

  pub gives-injective : {a b : A} → ◌≡◌ {A = Attempt E A} (gives a) (gives b) → a ≡ b
  gives-injective h = cc
