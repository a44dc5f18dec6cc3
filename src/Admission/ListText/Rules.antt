-- ===== src/Admission/ListText/Rules.antt =====
-- The rules that a line adds: IPListTextParser.swift keeps those of the lines before it.
use mathlib.Core.List.{append_assoc, append-nil}
use swift_cidr_admission.Base.{
  ℕ, ◌+◌, ◌==◌, ==_iff, ◌≡◌, refl, sym, ◌∙◌, ap, Bool, true, false, not, Bool-cases, inl, inr, List,
  [], ◌∷◌, ◌++◌, Text, Option, none, some, any, if◌then◌else◌,
}
use swift_cidr_admission.Runtime.{Bytes}
use swift_cidr_admission.Admission.Cidr.{Cidr}
use swift_cidr_admission.Admission.Rules.{AdmissionRule}
use swift_cidr_admission.Admission.Policy.{AdmissionRuleSet}
use swift_cidr_admission.Admission.Errors.{
  FileLoadError, invalid_line_ending, invalid_utf8, extra_columns, misplaced_byte_order_mark,
  Attempt, gives, throws, ◌then◌, guarding,
}
use swift_cidr_admission.Admission.Platform.{Platform}
use swift_cidr_admission.Admission.ListText.{
  is_empty, restored, without_carriage_return, without_byte_order_mark, contains_byte_order_mark,
  uncommented, trimmed, diagnostic_token, rejected, parse_token, parse_decoded, parse_ended,
  parse_line, parse_lines,
}

module _ (c : Cidr) where
  abbrev Outcome : Type 0
  Outcome = Attempt FileLoadError (List (AdmissionRule c))

  -- The outcome with some rules before its own.
  abbrev after : List (AdmissionRule c) → Outcome → Outcome
  after rules outcome = outcome then λ more. gives (rules ++ more)

  after-guarding :
      (rules : List (AdmissionRule c)) (condition : Bool) (e : FileLoadError) (next alone : Outcome)
      → next ≡ after rules alone
      → guarding condition e next ≡ after rules (guarding condition e alone)
  after-guarding rules true e next alone h = h
  after-guarding rules false e next alone h = refl

  after-if :
      (rules : List (AdmissionRule c)) (condition : Bool)
      (one other one_alone other_alone : Outcome)
      → one ≡ after rules one_alone
      → other ≡ after rules other_alone
      → (if condition then one else other)
        ≡ after rules (if condition then one_alone else other_alone)
  after-if rules true a b a' b' h k = h
  after-if rules false a b a' b' h k = k

  after-option :
      {A : Type 0} (rules : List (AdmissionRule c)) (o : Option A) (e : FileLoadError)
      (found alone : A → Outcome)
      → ((a : A) → found a ≡ after rules (alone a))
      → elim o [ none ↦ throws e | some a ↦ found a ]
        ≡ after rules (elim o [ none ↦ throws e | some a ↦ alone a ])
  after-option rules none e found alone h = refl
  after-option rules (some a) e found alone h = h a

  after-rule :
      (rules : List (AdmissionRule c)) (parsed : Attempt FileLoadError (AdmissionRule c))
      → (parsed then λ rule. gives (rules ++ (rule ∷ [])))
        ≡ after rules (parsed then λ rule. gives (rule ∷ []))
  after-rule rules (throws e) = refl
  after-rule rules (gives rule) = refl

  after-after :
      (rules here : List (AdmissionRule c)) (outcome : Outcome)
      → after (rules ++ here) outcome ≡ after rules (after here outcome)
  after-after rules here (throws e) = refl
  after-after rules here (gives more) = ap gives (append_assoc rules here more)

  after-nil : (outcome : Outcome) → after [] outcome ≡ outcome
  after-nil (throws e) = refl
  after-nil (gives more) = refl

module _ (c : Cidr) (p : Platform) (rule_set : AdmissionRuleSet) (path : Text) where
  parse_decoded-after :
      (bytes : Bytes) (line : Text) (n : ℕ) (rules : List (AdmissionRule c))
      → parse_decoded c p rule_set path bytes line n rules
        ≡ after c rules (parse_decoded c p rule_set path bytes line n [])
  unfolding parse_decoded
  parse_decoded-after bytes line n rules =
      let token = trimmed p (uncommented p line) in
      after-guarding c rules (not (any p.is_newline line)) (invalid_line_ending rule_set path n) _ _
        (after-guarding c rules (not (contains_byte_order_mark bytes))
          (rejected c p rule_set path misplaced_byte_order_mark n
            (diagnostic_token p (restored bytes line)))
          _ _
          (after-if c rules (is_empty token) _ _ _ _ (ap gives (sym (append-nil rules))) (
            after-guarding c rules (not (any p.is_whitespace token))
              (rejected c p rule_set path extra_columns n token) _ _
              (after-rule c rules (parse_token c p rule_set path token n)))))

  parse_line-after :
      (source : Bytes) (lf : Bool) (n : ℕ) (rules : List (AdmissionRule c))
      → parse_line c p rule_set path source lf n rules
        ≡ after c rules (parse_line c p rule_set path source lf n [])
  unfolding parse_line parse_ended
  parse_line-after source lf n rules =
      let ended = without_carriage_return source lf in
      let bytes = without_byte_order_mark ended n in
      after-guarding c rules (not (any (λ b. b == 0x0D) ended))
        (invalid_line_ending rule_set path n) _ _
        (after-option c rules (p.decode_utf8 bytes) (invalid_utf8 rule_set path n)
          (λ line. parse_decoded c p rule_set path bytes line n rules)
          (λ line. parse_decoded c p rule_set path bytes line n [])
          (λ line. parse_decoded-after bytes line n rules))

  after-next :
      (rules : List (AdmissionRule c)) (first : Outcome c)
      (next : List (AdmissionRule c) → Outcome c)
      → ((here : List (AdmissionRule c)) → next here ≡ after c here (next []))
      → (after c rules first then next) ≡ after c rules (first then next)
  after-next rules (throws e) next h = refl
  after-next rules (gives here) next h =
      h (rules ++ here) ∙ (after-after c rules here (next []) ∙ ap (after c rules) (sym (h here)))

  -- What is read already comes first, and does not change how the rest is read.
  pub parse_lines_after :
      (source acc : Bytes) (n : ℕ) (rules : List (AdmissionRule c))
      → parse_lines c p rule_set path source acc n rules
        ≡ (parse_lines c p rule_set path source acc n [] then λ more. gives (rules ++ more))
  unfolding parse_lines
  parse_lines_after [] acc n rules =
      after-if c rules (is_empty acc) _ _ _ _ (ap gives (sym (append-nil rules)))
        (parse_line-after acc false n rules)
  parse_lines_after (b ∷ source) acc n rules = elim (Bool-cases (b == 0x0A)) [
    | inl e ↦
        rw ((==_iff b 0x0A).0 e, parse_lines)
          (ap (λ first. first then λ more. parse_lines c p rule_set path source [] (n + 1) more)
              (parse_line-after acc true n rules)
            ∙ after-next rules (parse_line c p rule_set path acc true n [])
                (λ more. parse_lines c p rule_set path source [] (n + 1) more)
                (λ here. parse_lines_after source [] (n + 1) here))
    | inr e ↦ rw (e, parse_lines) (parse_lines_after source (acc ++ (b ∷ [])) n rules)
  ]
