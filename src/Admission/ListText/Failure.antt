-- ===== src/Admission/ListText/Failure.antt =====
-- Where `parse` fails: every error names the role, the path and the line that it is about.
use mathlib.Core.List.{append_assoc, append-nil}
use swift_cidr_admission.Base.{
  ℕ, ◌+◌, ◌==◌, ◌≡◌, refl, sym, ◌∙◌, ap, subst, Bool, true, false, not, ◌&&◌, List, [], ◌∷◌, ◌++◌,
  Text, ◌⊎◌, inl, inr, Option, none, some, any, arith, if◌then◌else◌,
}
use swift_cidr_admission.Runtime.{Bytes}
use swift_cidr_admission.Admission.Cidr.{Cidr, AnyIpAddress, v4, v6}
use swift_cidr_admission.Admission.Rules.{AdmissionRule}
use swift_cidr_admission.Admission.Policy.{AdmissionRuleSet}
use swift_cidr_admission.Admission.Errors.{
  FileLoadError, invalid_utf8, invalid_line_ending, invalid_rule, malformed_range,
  cidr_qualified_range_endpoint, extra_columns, misplaced_byte_order_mark, Attempt, gives, throws,
  ◌then◌, guarding,
}
use swift_cidr_admission.Admission.Platform.{Platform}
use swift_cidr_admission.Admission.Characters.{has_slash, has_dots, first_range}
use swift_cidr_admission.Admission.ListText.{
  is_empty, text_of, restored, without_carriage_return, without_byte_order_mark,
  contains_byte_order_mark, uncommented, trimmed, diagnostic_token, rejected, range_between,
  endpoint, parse_range, parse_token, parse_decoded, parse_ended, parse_line, parse_lines, parse,
}
use swift_cidr_admission.Admission.ListText.Lines.{
  IsLine, Outcome, Reads, finished, last_line, failed, continued, parse_lines-line, parse-Reads,
}
use swift_cidr_admission.Admission.ListText.Rules.{parse_lines_after}

-- The role, the path and the line of an error in a document.
unfoldable pub location : FileLoadError → Option (AdmissionRuleSet × Text × ℕ)
location (invalid_utf8 rule_set path line) = some (rule_set, path, line)
location (invalid_line_ending rule_set path line) = some (rule_set, path, line)
location (invalid_rule rule_set path line token reason) = some (rule_set, path, line)
location _ = none

module _ (rule_set : AdmissionRuleSet) (path : Text) (n : ℕ) where
  -- If the attempt fails, its error is of this line.
  data Located {A : Type 0} : Attempt FileLoadError A → Type 0 where
    fails : {e : FileLoadError} → location e ≡ some (rule_set, path, n) → Located (throws e)
    works : {a : A} → Located (gives a)

  Located-location :
      {A : Type 0} {e : FileLoadError}
      → Located {A = A} (throws e)
      → location e ≡ some (rule_set, path, n)
  Located-location (fails h) = h

  Located-guarding :
      {A : Type 0} (condition : Bool) (e : FileLoadError) (next : Attempt FileLoadError A)
      → location e ≡ some (rule_set, path, n)
      → Located next
      → Located (guarding condition e next)
  Located-guarding true e next h k = k
  Located-guarding false e next h k = fails h

  Located-then :
      {A B : Type 0} (first : Attempt FileLoadError A) (next : A → Attempt FileLoadError B)
      → Located first
      → ((a : A) → Located (next a))
      → Located (first then next)
  Located-then (throws e) next (fails h) k = fails h
  Located-then (gives a) next h k = k a

  Located-if :
      {A : Type 0} (condition : Bool) (one other : Attempt FileLoadError A)
      → Located one
      → Located other
      → Located (if condition then one else other)
  Located-if true one other h k = h
  Located-if false one other h k = k

  Located-option :
      {A B : Type 0} (o : Option A) (missing : Attempt FileLoadError B)
      (found : A → Attempt FileLoadError B)
      → Located missing
      → ((a : A) → Located (found a))
      → Located (elim o [ none ↦ missing | some a ↦ found a ])
  Located-option none missing found h k = h
  Located-option (some a) missing found h k = k a

module _ (c : Cidr) (p : Platform) (rule_set : AdmissionRuleSet) (path : Text) (n : ℕ) where
  range_between-Located :
      (lower upper : AnyIpAddress c) (token : Text)
      → Located rule_set path n (range_between c p rule_set path lower upper n token)
  unfolding range_between location
  range_between-Located (v4 lower) (v4 upper) token =
      Located-option rule_set path n (c.V4.between lower upper) _ _ (fails refl) (λ r. works)
  range_between-Located (v6 lower) (v6 upper) token =
      Located-option rule_set path n (c.V6.between lower upper) _ _ (fails refl) (λ r. works)
  range_between-Located (v4 lower) (v6 upper) token = fails refl
  range_between-Located (v6 lower) (v4 upper) token = fails refl

  endpoint-Located :
      (text token : Text) → Located rule_set path n (endpoint c p rule_set path text n token)
  unfolding endpoint location
  endpoint-Located text token =
      Located-option rule_set path n (c.parse_address text) _ _ (fails refl) (λ a. works)

  parse_range-Located :
      (token : Text) (characters : List Text)
      → Located rule_set path n (parse_range c p rule_set path token characters n)
  unfolding parse_range location
  parse_range-Located token characters =
      Located-option rule_set path n (first_range characters) _ _ (fails refl) (λ parts.
        Located-guarding rule_set path n (not (has_dots (parts.1)))
          (rejected c p rule_set path malformed_range n token) _ refl
          (Located-guarding rule_set path n (not (is_empty (parts.0)) && not (is_empty (parts.1)))
            (rejected c p rule_set path malformed_range n token) _ refl
            (Located-guarding rule_set path n
              (not (has_slash (parts.0)) && not (has_slash (parts.1)))
              (rejected c p rule_set path cidr_qualified_range_endpoint n token) _ refl
              (Located-then rule_set path n _ _ (endpoint-Located (text_of (parts.0)) token)
                (λ lower.
                  Located-then rule_set path n _ _ (endpoint-Located (text_of (parts.1)) token)
                    (λ upper. range_between-Located lower upper token))))))

  parse_token-Located :
      (token : Text) → Located rule_set path n (parse_token c p rule_set path token n)
  unfolding parse_token location
  parse_token-Located token =
      Located-if rule_set path n (has_dots (p.characters token)) _ _
        (parse_range-Located token (p.characters token))
        (Located-if rule_set path n (has_slash (p.characters token)) _ _
          (Located-option rule_set path n (c.parse_network token) _ _ (fails refl) (λ m. works))
          (Located-then rule_set path n _ _ (endpoint-Located token token) (λ a. works)))

  parse_decoded-Located :
      (bytes : Bytes) (line : Text) (rules : List (AdmissionRule c))
      → Located rule_set path n (parse_decoded c p rule_set path bytes line n rules)
  unfolding parse_decoded location
  parse_decoded-Located bytes line rules =
      let token = trimmed p (uncommented p line) in
      Located-guarding rule_set path n (not (any p.is_newline line))
        (invalid_line_ending rule_set path n) _ refl
        (Located-guarding rule_set path n (not (contains_byte_order_mark bytes))
          (rejected c p rule_set path misplaced_byte_order_mark n
            (diagnostic_token p (restored bytes line)))
          _ refl
          (Located-if rule_set path n (is_empty token) _ _ works (
            Located-guarding rule_set path n (not (any p.is_whitespace token))
              (rejected c p rule_set path extra_columns n token) _ refl
              (Located-then rule_set path n _ _ (parse_token-Located token) (λ rule. works)))))

  parse_line-Located :
      (source : Bytes) (lf : Bool) (rules : List (AdmissionRule c))
      → Located rule_set path n (parse_line c p rule_set path source lf n rules)
  unfolding parse_line parse_ended location
  parse_line-Located source lf rules =
      let bytes = without_byte_order_mark (without_carriage_return source lf) n in
      Located-guarding rule_set path n
        (not (any (λ b. b == 0x0D) (without_carriage_return source lf)))
        (invalid_line_ending rule_set path n) _ refl
        (Located-option rule_set path n (p.decode_utf8 bytes) _ _ (fails refl)
          (λ line. parse_decoded-Located bytes line rules))

-- How many lines the line feeds end.
abbrev pub line_feeds : Bytes → ℕ
line_feeds [] = 0
line_feeds (b ∷ bytes) = if b == 0x0A then 1 + line_feeds bytes else line_feeds bytes

module _ (c : Cidr) (p : Platform) (rule_set : AdmissionRuleSet) (path : Text) where
  line_feeds-IsLine :
      (line rest : Bytes) → IsLine line → line_feeds (line ++ (0x0A ∷ rest)) ≡ 1 + line_feeds rest
  line_feeds-IsLine [] rest h = refl
  line_feeds-IsLine (b ∷ line) rest h = ground (arith, line_feeds-IsLine line rest (h.1), h.0)

  -- `before` is whole lines: it is empty, or ends with a line feed.
  abbrev pub EndsLine : Bytes → Type 0
  EndsLine before = (before ≡ []) ⊎ ((lines : Bytes) × (before ≡ lines ++ (0x0A ∷ [])))

  -- `rest` is behind a line: it is empty, or begins with the line feed of that line.
  abbrev pub BeginsBelow : Bytes → Type 0
  BeginsBelow rest = (rest ≡ []) ⊎ ((below : Bytes) × (rest ≡ 0x0A ∷ below))

  -- The line between `before` and `rest` is the first that fails: the lines of `before` parse, and the line by itself gives the error, which is of that line.
  abbrev pub FailsAt : ℕ → Bytes → FileLoadError → Type 0
  FailsAt n source e =
      (before : Bytes) × (line : Bytes) × (rest : Bytes) × (read : List (AdmissionRule c)) × (source
        ≡ before ++ (line ++ rest))
      × EndsLine before
      × IsLine line
      × BeginsBelow rest
      × (parse_lines c p rule_set path before [] n [] ≡ gives read)
      × (parse_line c p rule_set path line (not (is_empty rest)) (n + line_feeds before) []
          ≡ throws e)
      × (location e ≡ some (rule_set, path, n + line_feeds before))

  EndsLine-below : (line before : Bytes) → EndsLine before → EndsLine (line ++ (0x0A ∷ before))
  EndsLine-below line before (inl h) = inr (line, ap (λ b. line ++ (0x0A ∷ b)) h)
  EndsLine-below line before (inr (lines, h)) = inr (
    line ++ (0x0A ∷ lines),
    ap (λ b. line ++ (0x0A ∷ b)) h ∙ sym (append_assoc line (0x0A ∷ lines) (0x0A ∷ [])),
  )

  throws-after :
      (here : List (AdmissionRule c)) (outcome : Outcome c p rule_set path) {e : FileLoadError}
      → (outcome then λ more. gives (here ++ more)) ≡ throws e
      → outcome ≡ throws e
  throws-after here (throws e) h = h
  throws-after here (gives more) h = absurd (ground (arith, h))

  first_line-FailsAt :
      (line rest : Bytes) (n : ℕ) (e : FileLoadError)
      → IsLine line
      → BeginsBelow rest
      → parse_line c p rule_set path line (not (is_empty rest)) n [] ≡ throws e
      → FailsAt n (line ++ rest) e
  unfolding parse_lines
  first_line-FailsAt line rest n e h below k =
      let here : n ≡ n + 0 = omega arith in
      (
        [],
        line,
        rest,
        [],
        refl,
        inl refl,
        h,
        below,
        refl,
        subst (λ m. parse_line c p rule_set path line (not (is_empty rest)) m [] ≡ throws e) here k,
        subst (λ m. location e ≡ some (rule_set, path, m)) here
            (Located-location rule_set path n (
              subst (Located rule_set path n) k
                (parse_line-Located c p rule_set path n line (not (is_empty rest)) []))),
      )

  Reads-FailsAt :
      {n : ℕ} {source : Bytes} {outcome : Outcome c p rule_set path} {e : FileLoadError}
      → Reads c p rule_set path n source outcome
      → outcome ≡ throws e
      → FailsAt n source e
  Reads-FailsAt finished h = absurd (ground (arith, h))
  Reads-FailsAt {n} {source} {outcome} {e} (last_line h some_bytes k) err =
      subst (λ s. FailsAt n s e) (append-nil source)
        (first_line-FailsAt source [] n e h (inl refl) (k ∙ err))
  Reads-FailsAt {n} {source} {outcome} {e} (failed line rest h k) err =
      first_line-FailsAt line (0x0A ∷ rest) n e h (inr (rest, refl)) (k ∙ err)
  Reads-FailsAt {n} {e = e} (continued line rest {here} {outcome = outcome} h k reads) err =
      let (before, at, after, read, split, ended, is_line, below, parses, fails_here, located) =
        Reads-FailsAt reads (throws-after here outcome err) in
      let count : n + line_feeds (line ++ (0x0A ∷ before)) ≡ n + 1 + line_feeds before =
        omega (arith, line_feeds-IsLine line before h) in
      (
        line ++ (0x0A ∷ before),
        at,
        after,
        here ++ read,
        ap (λ s. line ++ (0x0A ∷ s)) split ∙ sym (append_assoc line (0x0A ∷ before) (at ++ after)),
        EndsLine-below line before ended,
        is_line,
        below,
        parse_lines-line c p rule_set path line before n [] h
            ∙ rw k (parse_lines_after c p rule_set path before [] (n + 1) here ∙ rw parses refl),
        subst (λ m. parse_line c p rule_set path at (not (is_empty after)) m [] ≡ throws e)
            (sym count) fails_here,
        subst (λ m. location e ≡ some (rule_set, path, m)) (sym count) located,
      )

  -- A failing parse names the first line that fails: whole lines stand before it and parse, it has no line feed and ends with one or with the document, it gives the error by itself, and the error carries the role, the path and the number of the line, which is one more than the line feeds before it.
  pub parse-FailsAt :
      (source : Bytes) (e : FileLoadError)
      → parse c p rule_set path source ≡ throws e
      → FailsAt 1 source e
  parse-FailsAt source e h =
      Reads-FailsAt ((parse-Reads c p rule_set path source (throws e)).0 h) refl
