-- ===== src/Regex.antt =====
-- The part of Python's `re` that scripts/prepare-benchmark-publication.py uses: greedy backtracking
-- from the left, `search`, and `sub`.
pub mod Relation
use mathlib.Core.Option.{Option, none, some}
use swift_cidr_admission.Base.{
  ℕ, zero, suc, ◌-◌, Bool, true, false, ◌&&◌, ◌||◌, not, List, [], ◌∷◌, ◌++◌, Text, length, leb,
  ◌==◌, if◌then◌else◌,
}

-- `star p` is the greedy repetition of a class; the tool repeats nothing else without a bound.
pub data Regex : Type 0 where
  eps : Regex
  cls : (ℕ → Bool) → Regex
  seq : Regex → Regex → Regex
  alt : Regex → Regex → Regex
  star : (ℕ → Bool) → Regex
  ahead : Regex → Regex
  boundary : (ℕ → Bool) → Regex
  eos : Regex

-- A position in a text: the character before it, if any, and the text after it.
abbrev pub Position : Type 0
Position = record { before : Option ℕ; after : Text }

before_word : (ℕ → Bool) → Option ℕ → Bool
before_word word none = false
before_word word (some c) = word c

after_word : (ℕ → Bool) → Text → Bool
after_word word [] = false
after_word word (c ∷ s) = word c

-- `\b`, for the characters that count as words.
unfoldable pub at_boundary : (ℕ → Bool) → Option ℕ → Text → Bool
unfolding before_word after_word
at_boundary word before s =
    if before_word word before then not (after_word word s) else after_word word s

-- `$`: the end of the text, or a last line feed.
unfoldable pub at_end : Text → Bool
at_end [] = true
at_end (c ∷ []) = c == 10
at_end (c ∷ d ∷ s) = false

module _ {ℓ} {R : Type ℓ} where
  -- As many characters of the class as there are, then fewer, until the rest fits.
  unfoldable pub run_star : (ℕ → Bool) → Option ℕ → Text → (Option ℕ → Text → Option R) → Option R
  run_star p before [] k = k before []
  run_star p before (c ∷ s) k = elim (p c) [
    | true ↦ elim (run_star p (some c) s k) [ some r ↦ some r | none ↦ k before (c ∷ s) ]
    | false ↦ k before (c ∷ s)
  ]

  run_class : (ℕ → Bool) → Text → (Option ℕ → Text → Option R) → Option R
  run_class p [] k = none
  run_class p (c ∷ s) k = elim (p c) [ true ↦ k (some c) s | false ↦ none ]

-- The first way to match, in the engine's order, with which the rest `k` succeeds too.
unfoldable pub run : Regex → Option ℕ → Text → (Option ℕ → Text → Option Text) → Option Text
unfolding run_star run_class at_end at_boundary
run eps before s k = k before s
run (cls p) before s k = run_class p s k
run (seq a b) before s k = run a before s (λ m t. run b m t k)
run (alt a b) before s k = elim (run a before s k) [ some r ↦ some r | none ↦ run b before s k ]
run (star p) before s k = run_star p before s k
run (ahead a) before s k = elim (run a before s (λ m t. some t)) [
  | some r ↦ k before s
  | none ↦ none
]
run (boundary word) before s k = elim (at_boundary word before s) [
  | true ↦ k before s
  | false ↦ none
]
run eos before s k = elim (at_end s) [ true ↦ k before s | false ↦ none ]

-- pattern.match at a position: the text behind the match.
unfoldable pub match_at : Regex → Option ℕ → Text → Option Text
unfolding run
match_at r before s = run r before s (λ m t. some t)

search_from : Regex → Option ℕ → Text → Bool
search_from r before [] = elim (match_at r before []) [ some t ↦ true | none ↦ false ]
search_from r before (c ∷ s) = elim (match_at r before (c ∷ s)) [
  | some t ↦ true
  | none ↦ search_from r (some c) s
]

-- pattern.search(s) is not None
unfoldable pub search : Regex → Text → Bool
unfolding search_from match_at
search r s = search_from r none s

-- The scan of `sub`: the first number counts the characters of a match still to be passed over. No
-- pattern of the tool matches the empty text, so an empty match, which `re` treats by rules of its
-- own, is left out.
sub_from : Regex → Text → ℕ → Option ℕ → Text → Text
unfolding match_at
sub_from r to n before [] = []
sub_from r to (suc n) before (c ∷ s) = sub_from r to n (some c) s
sub_from r to zero before (c ∷ s) = elim (match_at r before (c ∷ s)) [
  | some t ↦ elim (leb (length t) (length s)) [
    | true ↦ to ++ sub_from r to (length s - length t) (some c) s
    | false ↦ c ∷ sub_from r to zero (some c) s
  ]
  | none ↦ c ∷ sub_from r to zero (some c) s
]

-- pattern.sub(to, s), where `to` has no group reference.
unfoldable pub sub : Regex → Text → Text → Text
unfolding sub_from
sub r to s = sub_from r to zero none s

-- The text `t` itself.
unfoldable pub lit : Text → Regex
lit [] = eps
lit (c ∷ t) = seq (cls (λ d. d == c)) (lit t)

unfoldable pub opt : Regex → Regex
opt r = alt r eps

-- [p]+
unfoldable pub plus : (ℕ → Bool) → Regex
plus p = seq (cls p) (star p)

-- [p]{n}
unfoldable pub times : ℕ → (ℕ → Bool) → Regex
times zero p = eps
times (suc n) p = seq (cls p) (times n p)

-- [p]{n,}
unfoldable pub at_least : ℕ → (ℕ → Bool) → Regex
unfolding times
at_least n p = seq (times n p) (star p)

-- a|b|c
unfoldable pub one_of : Regex → List Regex → Regex
one_of r [] = r
one_of r (q ∷ rs) = alt r (one_of q rs)
