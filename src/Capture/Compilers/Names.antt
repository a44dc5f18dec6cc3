-- ===== src/Capture/Compilers/Names.antt =====
-- The processes that compiler_processes of rerun.py leaves out.
use swift_cidr_admission.Base.{
  ◌≡◌, ◌≢◌, false, Bool-cases, inl, inr, List, [], ◌∷◌, Text, codes, text_eq, text_eq_iff, any, All,
  arith,
}
use swift_cidr_admission.Capture.Compilers.{strip, file_name, is_compiler, compilers, busy_among}

-- The file name of the process is none of those of the compilers.
abbrev pub IsOther : Text → Type 0
IsOther name =
    All (λ compiler. file_name (strip name) ≢ codes compiler)
      ("swift-build" ∷ "swift-test" ∷ "swift-frontend" ∷ "clang" ∷ "clang++" ∷ "xcodebuild" ∷ [])

not-any :
    (name : Text) (names : List Text)
    → any (text_eq name) names ≡ false
    → All (λ other. name ≢ other) names
not-any name [] h = tt
not-any name (other ∷ names) h = (
  λ e. absurd (ground (arith, h, text_eq_iff name other, e)),
  not-any name names (ground (arith, h)),
)

not-is_compiler : (name : Text) → is_compiler name ≡ false → IsOther name
unfolding is_compiler
not-is_compiler name h = not-any (file_name (strip name)) compilers h

pub others_only : (names : List Text) → busy_among names ≡ [] → All IsOther names
unfolding busy_among
others_only [] h = tt
others_only (name ∷ names) h = elim (Bool-cases (is_compiler name)) [
  | inl e ↦ absurd (ground (arith, h, e))
  | inr e ↦ (not-is_compiler name e, others_only names (ground (arith, h, e)))
]
