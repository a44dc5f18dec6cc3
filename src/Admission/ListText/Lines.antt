-- ===== src/Admission/ListText/Lines.antt =====
-- How `parse` reads a document: line by line, up to the first line that fails.
use mathlib.Core.List.{append_assoc, append-nil}
use swift_cidr_admission.Base.{
  ℕ, ◌+◌, ◌==◌, ==_iff, ◌≡◌, ◌↔◌, refl, sym, ◌∙◌, ap, subst, true, false, Bool-cases, inl, inr,
  List, [], ◌∷◌, ◌++◌, Text, All, All-append, if◌then◌else◌,
}
use swift_cidr_admission.Runtime.{Bytes}
use swift_cidr_admission.Admission.Cidr.{Cidr}
use swift_cidr_admission.Admission.Rules.{AdmissionRule}
use swift_cidr_admission.Admission.Policy.{AdmissionRuleSet}
use swift_cidr_admission.Admission.Errors.{FileLoadError, Attempt, gives, throws, ◌then◌}
use swift_cidr_admission.Admission.Platform.{Platform}
use swift_cidr_admission.Admission.ListText.{is_empty, parse_line, parse_lines, parse}
use swift_cidr_admission.Admission.ListText.Rules.{parse_lines_after}

-- The bytes of one line: none is a line feed.
abbrev pub IsLine : Bytes → Type 0
IsLine bytes = All (λ b. (b == 0x0A) ≡ false) bytes

module _ (c : Cidr) (p : Platform) (rule_set : AdmissionRuleSet) (path : Text) where
  abbrev pub Outcome : Type 0
  Outcome = Attempt FileLoadError (List (AdmissionRule c))

  -- `Reads n source outcome`: read from line `n` on, each line by itself, `source` has this outcome. The rules of a line come before those of the lines below it.
  pub data Reads : ℕ → Bytes → Outcome → Type 0 where
    finished : {n : ℕ} → Reads n [] (gives [])
    last_line :
        {n : ℕ} {line : Bytes} {outcome : Outcome}
        → IsLine line
        → (is_empty line ≡ false)
        → parse_line c p rule_set path line false n [] ≡ outcome
        → Reads n line outcome
    failed :
        (line rest : Bytes) {n : ℕ} {e : FileLoadError}
        → IsLine line
        → parse_line c p rule_set path line true n [] ≡ throws e
        → Reads n (line ++ (0x0A ∷ rest)) (throws e)
    continued :
        (line rest : Bytes) {n : ℕ} {here : List (AdmissionRule c)} {outcome : Outcome}
        → IsLine line
        → parse_line c p rule_set path line true n [] ≡ gives here
        → Reads (n + 1) rest outcome
        → Reads n (line ++ (0x0A ∷ rest)) (outcome then λ more. gives (here ++ more))

  pub parse_lines_byte :
      (b : ℕ) (source acc : Bytes) (n : ℕ) (rules : List (AdmissionRule c))
      → (b == 0x0A) ≡ false
      → parse_lines c p rule_set path (b ∷ source) acc n rules
        ≡ parse_lines c p rule_set path source (acc ++ (b ∷ [])) n rules
  unfolding parse_lines
  parse_lines_byte b source acc n rules h = rw (h, parse_lines) refl

  parse_lines-append :
      (line acc rest : Bytes) (n : ℕ) (rules : List (AdmissionRule c))
      → IsLine line
      → parse_lines c p rule_set path (line ++ rest) acc n rules
        ≡ parse_lines c p rule_set path rest (acc ++ line) n rules
  unfolding parse_lines
  parse_lines-append [] acc rest n rules h = rw (append-nil acc) refl
  parse_lines-append (b ∷ line) acc rest n rules h =
      parse_lines_byte b (line ++ rest) acc n rules (h.0)
      ∙ (parse_lines-append line (acc ++ (b ∷ [])) rest n rules (h.1)
          ∙ ap (λ a. parse_lines c p rule_set path rest a n rules) (append_assoc acc (b ∷ []) line))

  pub parse_lines-line :
      (line rest : Bytes) (n : ℕ) (rules : List (AdmissionRule c))
      → IsLine line
      → parse_lines c p rule_set path (line ++ (0x0A ∷ rest)) [] n rules ≡ (
          parse_line c p rule_set path line true n rules then λ more.
          parse_lines c p rule_set path rest [] (n + 1) more)
  unfolding parse_lines
  parse_lines-line line rest n rules h = parse_lines-append line [] (0x0A ∷ rest) n rules h

  pub parse_lines-last :
      (line : Bytes) (n : ℕ) (rules : List (AdmissionRule c))
      → IsLine line
      → parse_lines c p rule_set path line [] n rules
        ≡ (if is_empty line then gives rules else parse_line c p rule_set path line false n rules)
  unfolding parse_lines
  parse_lines-last line n rules h =
      ap (λ s. parse_lines c p rule_set path s [] n rules) (sym (append-nil line))
      ∙ parse_lines-append line [] [] n rules h

  Reads-sound :
      {n : ℕ} {source : Bytes} {outcome : Outcome}
      → Reads n source outcome
      → parse_lines c p rule_set path source [] n [] ≡ outcome
  Reads-sound {n} finished = parse_lines-last [] n [] tt
  Reads-sound {n} {source} (last_line h some_bytes e) =
      parse_lines-last source n [] h ∙ rw some_bytes e
  Reads-sound {n} (failed line rest h e) = parse_lines-line line rest n [] h ∙ rw e refl
  Reads-sound {n} (continued line rest {here} h e reads) =
      parse_lines-line line rest n [] h
      ∙ (rw e (parse_lines_after c p rule_set path rest [] (n + 1) here)
          ∙ ap (λ outcome. outcome then λ more. gives (here ++ more)) (Reads-sound reads))

  Reads-after :
      (line rest : Bytes) (n : ℕ) (first : Outcome)
      → IsLine line
      → parse_line c p rule_set path line true n [] ≡ first
      → Reads (n + 1) rest (parse_lines c p rule_set path rest [] (n + 1) [])
      → Reads n
          (line ++ (0x0A ∷ rest))
          (first then λ more. parse_lines c p rule_set path rest [] (n + 1) more)
  Reads-after line rest n (throws e) h k reads = failed line rest h k
  Reads-after line rest n (gives here) h k reads =
      subst (Reads n (line ++ (0x0A ∷ rest)))
        (sym (parse_lines_after c p rule_set path rest [] (n + 1) here))
        (continued line rest h k reads)

  Reads-complete :
      (source acc : Bytes) (n : ℕ)
      → IsLine acc
      → Reads n (acc ++ source) (parse_lines c p rule_set path source acc n [])
  unfolding parse_lines
  Reads-complete [] [] n h = finished
  Reads-complete [] (b ∷ acc) n h =
      subst (λ s. Reads n s (parse_line c p rule_set path (b ∷ acc) false n []))
        (sym (append-nil (b ∷ acc))) (last_line h refl refl)
  Reads-complete (b ∷ source) acc n h = elim (Bool-cases (b == 0x0A)) [
    | inl e ↦
        rw ((==_iff b 0x0A).0 e, parse_lines)
          (Reads-after acc source n (parse_line c p rule_set path acc true n []) h refl
            (Reads-complete source [] (n + 1) tt))
    | inr e ↦ subst (Reads n (acc ++ (b ∷ source))) (sym (parse_lines_byte b source acc n [] e)) (
        subst (λ s. Reads n s (parse_lines c p rule_set path source (acc ++ (b ∷ [])) n []))
          (append_assoc acc (b ∷ []) source)
          (Reads-complete source (acc ++ (b ∷ [])) n
            (All-append (λ x. (x == 0x0A) ≡ false) acc (b ∷ []) h (e, tt))))
  ]

  pub parse-parse_lines :
      (source : Bytes)
      → parse c p rule_set path source ≡ parse_lines c p rule_set path source [] 1 []
  unfolding parse parse_lines
  parse-parse_lines [] = refl
  parse-parse_lines (b ∷ source) = refl

  -- The parser does what the line-by-line reading of the document does, and that reading has one outcome: the rules that each line gives by itself, in the order of the lines, or the error of the first line that fails. A line feed ends a line, and the bytes behind the last one are a line unless there are none.
  pub parse-Reads :
      (source : Bytes) (outcome : Outcome)
      → (parse c p rule_set path source ≡ outcome) ↔ Reads 1 source outcome
  parse-Reads source outcome = (
    λ e.
        subst (Reads 1 source) (sym (parse-parse_lines source) ∙ e) (Reads-complete source [] 1 tt),
    λ reads. parse-parse_lines source ∙ Reads-sound reads,
  )
