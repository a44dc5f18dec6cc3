-- ===== src/Publication/Lines/RoundTrip.antt =====
-- A written manifest line is read back.
use swift_cidr_admission.Base.{
  ℕ, ◌≡◌, refl, ap, ◌∙◌, true, false, not, [], ◌∷◌, ◌++◌, Text, ok, arith, all,
}
use mathlib.Core.List.{append-nil, append_assoc}
use swift_cidr_admission.Publication.Patterns.{is_space}
use swift_cidr_admission.Publication.Lines.{
  is_break, lines_from, strip_left, word, after_word, split_fields,
}

-- No character ends a line.
abbrev pub IsLine : Text → Type 0
IsLine s = all (λ c. not (is_break c)) s ≡ true

-- No character is white space.
abbrev pub IsWord : Text → Type 0
IsWord s = all (λ c. not (is_space c)) s ≡ true

lines_from-step :
    (line : Text) (c : ℕ) (s : Text)
    → is_break c ≡ false
    → lines_from false line (c ∷ s) ≡ lines_from false (line ++ (c ∷ [])) s
unfolding lines_from
lines_from-step [] c s h = ground arith
lines_from-step (d ∷ line) c s h = ground arith

lines_from-feed : (line s : Text) → lines_from false line (10 ∷ s) ≡ line ∷ lines_from false [] s
unfolding lines_from is_break
lines_from-feed [] s = refl
lines_from-feed (d ∷ line) s = refl

-- A text without line ends, and a line feed, make the first line.
pub lines_from-append :
    (line s rest : Text)
    → IsLine s
    → lines_from false line (s ++ (10 ∷ rest)) ≡ (line ++ s) ∷ lines_from false [] rest
lines_from-append line [] rest h = rw append-nil (lines_from-feed line rest)
lines_from-append line (c ∷ s) rest h =
    lines_from-step line c (s ++ (10 ∷ rest)) (ground arith)
    ∙ lines_from-append (line ++ (c ∷ [])) s rest (ground arith)
    ∙ ap (λ t. t ∷ lines_from false [] rest) (append_assoc line (c ∷ []) s)

word-append : (w s : Text) → IsWord w → word (w ++ (32 ∷ s)) ≡ w
unfolding word
word-append [] s h = refl
word-append (c ∷ w) s h = ground (arith, word-append w s)

after_word-append : (w s : Text) → IsWord w → after_word (w ++ (32 ∷ s)) ≡ 32 ∷ s
unfolding after_word
after_word-append [] s h = refl
after_word-append (c ∷ w) s h = ground (arith, after_word-append w s)

-- `digest  path` is split into its two fields.
pub split_fields-line :
    (d : ℕ) (digest : Text) (c : ℕ) (path : Text)
    → IsWord (d ∷ digest)
    → is_space c ≡ false
    → split_fields ((d ∷ digest) ++ (32 ∷ 32 ∷ c ∷ path)) ≡ ok (d ∷ digest, c ∷ path)
unfolding split_fields strip_left
split_fields-line d digest c path h k = ground (
  arith,
  word-append (d ∷ digest) (32 ∷ c ∷ path),
  after_word-append (d ∷ digest) (32 ∷ c ∷ path),
)
