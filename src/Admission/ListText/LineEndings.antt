-- ===== src/Admission/ListText/LineEndings.antt =====
-- Documents whose lines end with CRLF, and with LF.
use swift_cidr_admission.Base.{
  ℕ, ◌+◌, ◌-◌, ◌==◌, ==_iff, ◌≡◌, refl, sym, ◌∙◌, ap, subst, true, false, Bool-cases, inl, inr,
  List, [], ◌∷◌, ◌++◌, Text, All, All-append, length, length-append, arith, if◌then◌else◌,
}
use swift_cidr_admission.Base.Slices.{last?, last?-append, take-append}
use swift_cidr_admission.Runtime.{Bytes}
use swift_cidr_admission.Admission.Cidr.{Cidr}
use swift_cidr_admission.Admission.Rules.{AdmissionRule}
use swift_cidr_admission.Admission.Policy.{AdmissionRuleSet}
use swift_cidr_admission.Admission.Errors.{◌then◌}
use swift_cidr_admission.Admission.Platform.{Platform}
use swift_cidr_admission.Admission.Checksum.{stands_at}
use swift_cidr_admission.Admission.ListText.{
  without_carriage_return, parse_ended, parse_line, parse_lines, parse,
}
use swift_cidr_admission.Admission.ListText.Lines.{parse-parse_lines, parse_lines_byte}

-- No byte is a carriage return.
abbrev pub IsPlain : Bytes → Type 0
IsPlain bytes = All (λ b. (b == 0x0D) ≡ false) bytes

-- The document with CRLF for each line feed.
abbrev pub with_crlf : Bytes → Bytes
with_crlf [] = []
with_crlf (b ∷ bytes) = if b == 0x0A then 0x0D ∷ 0x0A ∷ with_crlf bytes else b ∷ with_crlf bytes

with_crlf_byte :
    (b : ℕ) (bytes : Bytes) → (b == 0x0A) ≡ false → with_crlf (b ∷ bytes) ≡ b ∷ with_crlf bytes
with_crlf_byte b bytes e = rw e refl

last-IsPlain : (bytes : Bytes) → IsPlain bytes → stands_at (last? bytes) 0x0D ≡ false
unfolding stands_at
last-IsPlain [] h = refl
last-IsPlain (b ∷ []) h = h.0
last-IsPlain (b ∷ d ∷ bytes) h = last-IsPlain (d ∷ bytes) (h.1)

without_carriage_return_plain :
    (bytes : Bytes) → IsPlain bytes → without_carriage_return bytes true ≡ bytes
unfolding without_carriage_return
without_carriage_return_plain bytes h = ground (arith, last-IsPlain bytes h)

without_carriage_return_ended :
    (bytes : Bytes) → without_carriage_return (bytes ++ (0x0D ∷ [])) true ≡ bytes
unfolding without_carriage_return stands_at
without_carriage_return_ended bytes =
    let size : length bytes ≡ length (bytes ++ (0x0D ∷ [])) - 1 =
      omega (arith, length-append bytes (0x0D ∷ [])) in
    rw (last?-append bytes 0x0D)
      (take-append (length (bytes ++ (0x0D ∷ [])) - 1) bytes (0x0D ∷ []) size)

module _ (c : Cidr) (p : Platform) (rule_set : AdmissionRuleSet) (path : Text) where
  parse_line_ended :
      (line : Bytes) (n : ℕ) (rules : List (AdmissionRule c))
      → IsPlain line
      → parse_line c p rule_set path (line ++ (0x0D ∷ [])) true n rules
        ≡ parse_line c p rule_set path line true n rules
  unfolding parse_line
  parse_line_ended line n rules h =
      ap (λ bytes. parse_ended c p rule_set path bytes n rules)
        (without_carriage_return_ended line ∙ sym (without_carriage_return_plain line h))

  parse_lines-with_crlf :
      (source line : Bytes) (n : ℕ) (rules : List (AdmissionRule c))
      → IsPlain source
      → IsPlain line
      → parse_lines c p rule_set path (with_crlf source) line n rules
        ≡ parse_lines c p rule_set path source line n rules
  unfolding parse_lines
  parse_lines-with_crlf [] line n rules h k = refl
  parse_lines-with_crlf (b ∷ source) line n rules h k = elim (Bool-cases (b == 0x0A)) [
    | inl e ↦
        subst
          (λ x.
            parse_lines c p rule_set path (with_crlf (x ∷ source)) line n rules
            ≡ parse_lines c p rule_set path (x ∷ source) line n rules)
          (sym ((==_iff b 0x0A).0 e))
          (ap
              (λ first.
                first then λ more. parse_lines c p rule_set path (with_crlf source) [] (n + 1) more)
              (parse_line_ended line n rules k)
            ∙ ap (λ next. parse_line c p rule_set path line true n rules then next)
                (λ i more. parse_lines-with_crlf source [] (n + 1) more (h.1) tt i))
    | inr e ↦
        ap (λ s. parse_lines c p rule_set path s line n rules) (with_crlf_byte b source e)
        ∙ (parse_lines_byte c p rule_set path b (with_crlf source) line n rules e
            ∙ (parse_lines-with_crlf source (line ++ (b ∷ [])) n rules (h.1)
                  (All-append (λ x. (x == 0x0D) ≡ false) line (b ∷ []) k (h.0, tt))
                ∙ sym (parse_lines_byte c p rule_set path b source line n rules e)))
  ]

  -- A document without carriage returns parses to the same, rules or error, when every line feed is written as CRLF.
  pub parse-with_crlf :
      (source : Bytes)
      → IsPlain source
      → parse c p rule_set path (with_crlf source) ≡ parse c p rule_set path source
  parse-with_crlf source h =
      parse-parse_lines c p rule_set path (with_crlf source)
      ∙ (parse_lines-with_crlf source [] 1 [] h tt
          ∙ sym (parse-parse_lines c p rule_set path source))
