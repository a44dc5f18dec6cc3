-- ===== src/Regex/Relation.antt =====
-- What a pattern matches, as a relation, and that `run` and `search` decide it.
use mathlib.Core.Option.{Option, none, some}
use swift_cidr_admission.Base.{
  ℕ, ◌≡◌, refl, ◌↔◌, inl, inr, Bool, true, false, [], ◌∷◌, Text, arith, Bool-cases, Option-cases,
}
use swift_cidr_admission.Regex.{
  Regex, eps, cls, seq, alt, star, ahead, boundary, eos, at_boundary, run, run_star, at_end,
  match_at, search, search_from, sub, sub_from,
}

-- `Matches r b s m t`: from the text `s`, with `b` before it, the pattern may match up to `t`.
pub data Matches : Regex → Option ℕ → Text → Option ℕ → Text → Type 0 where
  eps_match : {b : Option ℕ} {s : Text} → Matches eps b s b s
  cls_match :
      {p : ℕ → Bool} {b : Option ℕ} {c : ℕ} {s : Text}
      → p c ≡ true
      → Matches (cls p) b (c ∷ s) (some c) s
  seq_match :
      {a d : Regex} {b m n : Option ℕ} {s t u : Text}
      → Matches a b s m t
      → Matches d m t n u
      → Matches (seq a d) b s n u
  alt_left :
      {a d : Regex} {b m : Option ℕ} {s t : Text} → Matches a b s m t → Matches (alt a d) b s m t
  alt_right :
      {a d : Regex} {b m : Option ℕ} {s t : Text} → Matches d b s m t → Matches (alt a d) b s m t
  star_end : {p : ℕ → Bool} {b : Option ℕ} {s : Text} → Matches (star p) b s b s
  star_more :
      {p : ℕ → Bool} {b m : Option ℕ} {c : ℕ} {s t : Text}
      → p c ≡ true
      → Matches (star p) (some c) s m t
      → Matches (star p) b (c ∷ s) m t
  ahead_match :
      {a : Regex} {b m : Option ℕ} {s t : Text} → Matches a b s m t → Matches (ahead a) b s b s
  boundary_match :
      {w : ℕ → Bool} {b : Option ℕ} {s : Text}
      → at_boundary w b s ≡ true
      → Matches (boundary w) b s b s
  eos_match : {b : Option ℕ} {s : Text} → at_end s ≡ true → Matches eos b s b s

-- A match somewhere in the text.
pub data Occurs (r : Regex) : Option ℕ → Text → Type 0 where
  here : {b m : Option ℕ} {s t : Text} → Matches r b s m t → Occurs r b s
  later : {b : Option ℕ} {c : ℕ} {s : Text} → Occurs r (some c) s → Occurs r b (c ∷ s)

run_star_sound {ℓ} :
    {R : Type ℓ} (p : ℕ → Bool) (b : Option ℕ) (s : Text) (k : Option ℕ → Text → Option R) (x : R)
    → run_star p b s k ≡ some x
    → (m : Option ℕ) × (t : Text) × Matches (star p) b s m t × (k m t ≡ some x)
unfolding run_star
run_star_sound p b [] k x h = (b, [], star_end, h)
run_star_sound p b (c ∷ s) k x h = elim (Bool-cases (p c)) [
  | inl e ↦ elim (Option-cases (run_star p (some c) s k)) [
    | inl n ↦ (b, c ∷ s, star_end, ground arith)
    | inr (y, f) ↦
        let (m, t, q, w) = run_star_sound p (some c) s k x (ground arith) in
        (m, t, star_more e q, w)
  ]
  | inr e ↦ (b, c ∷ s, star_end, ground arith)
]

run_sound :
    (r : Regex) (b : Option ℕ) (s : Text) (k : Option ℕ → Text → Option Text) (x : Text)
    → run r b s k ≡ some x
    → (m : Option ℕ) × (t : Text) × Matches r b s m t × (k m t ≡ some x)
unfolding run
run_sound eps b s k x h = (b, s, eps_match, h)
run_sound (cls p) b [] k x h = cc
run_sound (cls p) b (c ∷ s) k x h = elim (Bool-cases (p c)) [
  | inl e ↦ (some c, s, cls_match e, ground arith)
  | inr e ↦ absurd (ground arith)
]
run_sound (seq a d) b s k x h =
    let (m, t, q, w) = run_sound a b s (λ m t. run d m t k) x h in
    let (n, u, q', w') = run_sound d m t k x w in (n, u, seq_match q q', w')
run_sound (alt a d) b s k x h = elim (Option-cases (run a b s k)) [
  | inl n ↦ let (m, t, q, w) = run_sound d b s k x (ground arith) in (m, t, alt_right q, w)
  | inr (y, f) ↦ let (m, t, q, w) = run_sound a b s k x (ground arith) in (m, t, alt_left q, w)
]
run_sound (star p) b s k x h = run_star_sound p b s k x h
run_sound (ahead a) b s k x h = elim (Option-cases (run a b s (λ m t. some t))) [
  | inl n ↦ absurd (ground arith)
  | inr (y, f) ↦
      let (m, t, q, w) = run_sound a b s (λ m t. some t) y f in (b, s, ahead_match q, ground arith)
]
run_sound (boundary w) b s k x h = elim (Bool-cases (at_boundary w b s)) [
  | inl e ↦ (b, s, boundary_match e, ground arith)
  | inr e ↦ absurd (ground arith)
]
run_sound eos b s k x h = elim (Bool-cases (at_end s)) [
  | inl e ↦ (b, s, eos_match e, ground arith)
  | inr e ↦ absurd (ground arith)
]

abbrev Succeeds {ℓ} : {R : Type ℓ} → Option R → Type ℓ
Succeeds {R = R} o = (x : R) × (o ≡ some x)

run_star-now {ℓ} :
    {R : Type ℓ} (p : ℕ → Bool) (b : Option ℕ) (s : Text) (k : Option ℕ → Text → Option R) {x : R}
    → k b s ≡ some x
    → Succeeds (run_star p b s k)
unfolding run_star
run_star-now p b [] k {x} h = (x, h)
run_star-now p b (c ∷ s) k {x} h = elim (Bool-cases (p c)) [
  | inl e ↦ elim (Option-cases (run_star p (some c) s k)) [
    | inl n ↦ (x, ground arith)
    | inr (y, f) ↦ (y, ground arith)
  ]
  | inr e ↦ (x, ground arith)
]

run_star-more {ℓ} :
    {R : Type ℓ} (p : ℕ → Bool) (b : Option ℕ) (c : ℕ) (s : Text) (k : Option ℕ → Text → Option R)
    → p c ≡ true
    → Succeeds (run_star p (some c) s k)
    → Succeeds (run_star p b (c ∷ s) k)
unfolding run_star
run_star-more p b c s k e (y, f) = (y, ground arith)

run_complete :
    {r : Regex} {b m : Option ℕ} {s t : Text} (k : Option ℕ → Text → Option Text)
    → Matches r b s m t
    → {x : Text} → k m t ≡ some x
    → Succeeds (run r b s k)
unfolding run
run_complete k eps_match {x} h = (x, h)
run_complete k (cls_match {p = p} {b = b} {c = c} {s = s} e) {x} h = (x, ground arith)
run_complete k (seq_match {d = d} q q') {x} h =
    let (y, f) = run_complete k q' h in run_complete (λ m t. run d m t k) q f
run_complete k (alt_left {a = a} {d = d} {b = b} {s = s} q) {x} h =
    let (y, f) = run_complete k q h in (y, ground arith)
run_complete k (alt_right {a = a} {d = d} {b = b} {s = s} q) {x} h =
    let (y, f) = run_complete k q h in
    elim (Option-cases (run a b s k)) [ inl n ↦ (y, ground arith) | inr (z, g) ↦ (z, ground arith) ]
run_complete k (star_end {p = p} {b = b} {s = s}) h = run_star-now p b s k h
run_complete k (star_more {p = p} {b = b} {c = c} {s = s} e q) h =
    run_star-more p b c s k e (run_complete k q h)
run_complete k (ahead_match q) {x} h =
    let (y, f) = run_complete (λ m t. some t) q refl in (x, ground arith)
run_complete k (boundary_match {w = w} {b = b} {s = s} e) {x} h = (x, ground arith)
run_complete k (eos_match {b = b} {s = s} e) {x} h = (x, ground arith)

search_from_sound : (r : Regex) (b : Option ℕ) (s : Text) → search_from r b s ≡ true → Occurs r b s
unfolding search_from match_at
search_from_sound r b [] h = elim (Option-cases (match_at r b [])) [
  | inl n ↦ absurd (ground arith)
  | inr (t, f) ↦ let (m, u, q, w) = run_sound r b [] (λ m t. some t) t f in here q
]
search_from_sound r b (c ∷ s) h = elim (Option-cases (match_at r b (c ∷ s))) [
  | inl n ↦ later (search_from_sound r (some c) s (ground arith))
  | inr (t, f) ↦ let (m, u, q, w) = run_sound r b (c ∷ s) (λ m t. some t) t f in here q
]

search_from-here :
    (r : Regex) (b : Option ℕ) (s : Text) → Succeeds (match_at r b s) → search_from r b s ≡ true
unfolding search_from
search_from-here r b [] (t, f) = rw (f, search_from)
search_from-here r b (c ∷ s) (t, f) = rw (f, search_from)

search_from_complete :
    {r : Regex} {b : Option ℕ} {s : Text} → Occurs r b s → search_from r b s ≡ true
unfolding search_from match_at
search_from_complete {r} {b} {s} (here q) =
    search_from-here r b s (run_complete (λ m t. some t) q refl)
search_from_complete {r} {b} (later {c = c} {s = s} o) = ground (arith, search_from_complete o)

-- `search` finds a match exactly when the pattern matches, as a relation, somewhere in the text.
pub search_iff : (r : Regex) (s : Text) → (search r s ≡ true) ↔ Occurs r none s
unfolding search
search_iff r s = (search_from_sound r none s, search_from_complete)

sub_from-none :
    (r : Regex) (to : Text) (b : Option ℕ) (s : Text)
    → search_from r b s ≡ false
    → sub_from r to 0 b s ≡ s
unfolding sub_from search_from match_at
sub_from-none r to b [] h = refl
sub_from-none r to b (c ∷ s) h = ground (arith, sub_from-none r to (some c) s)

-- A text with no match is left as it is.
pub sub_of_no_match : (r : Regex) (to s : Text) → search r s ≡ false → sub r to s ≡ s
unfolding search sub
sub_of_no_match r to s h = sub_from-none r to none s h
