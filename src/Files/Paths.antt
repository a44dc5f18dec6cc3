-- ===== src/Files/Paths.antt =====
-- Equality of paths, and paths that do not lie under a folder.
use swift_cidr_admission.Base.{
  ◌≡◌, refl, sym, ◌∙◌, ap, true, false, Bool-cases, inl, inr, &&_split, [], ◌∷◌, ◌++◌, Text,
  text_eq, text_eq_iff, text_eq_refl, none, some, arith,
}
use swift_cidr_admission.Files.{FilePath, path_eq, relative_to}

-- The path is not the folder, and does not lie in it.
abbrev pub IsApart : FilePath → FilePath → Type 0
IsApart root path = relative_to root path ≡ none

pub path_eq-append : (root p q : FilePath) → path_eq (root ++ p) (root ++ q) ≡ path_eq p q
unfolding path_eq
path_eq-append [] p q = refl
path_eq-append (r ∷ root) p q = rw (text_eq_refl r) (path_eq-append root p q)

pub path_eq→eq : (p q : FilePath) → path_eq p q ≡ true → p ≡ q
unfolding path_eq
path_eq→eq [] [] h = refl
path_eq→eq [] (d ∷ q) h = absurd (ground (arith, h))
path_eq→eq (c ∷ p) [] h = absurd (ground (arith, h))
path_eq→eq (c ∷ p) (d ∷ q) h =
    let (first, others) = &&_split (text_eq c d) (path_eq p q) h in
    let same : c ≡ d = (text_eq_iff c d).0 first in
    ap (λ x. x ∷ p) same ∙ ap (λ r. d ∷ r) (path_eq→eq p q others)

module _ (r p : Text) (root path : FilePath) where
  relative_to_same : text_eq r p ≡ true → relative_to (r ∷ root) (p ∷ path) ≡ relative_to root path
  unfolding relative_to
  relative_to_same e = rw (e, relative_to) refl

  relative_to_other : text_eq r p ≡ false → relative_to (r ∷ root) (p ∷ path) ≡ none
  unfolding relative_to
  relative_to_other e = rw (e, relative_to) refl

pub relative_to-append : (root rest : FilePath) → relative_to root (root ++ rest) ≡ some rest
unfolding relative_to
relative_to-append [] rest = refl
relative_to-append (r ∷ root) rest =
    relative_to_same r r root (root ++ rest) (text_eq_refl r) ∙ relative_to-append root rest

pub relative_to_split :
    (root path rest : FilePath) → relative_to root path ≡ some rest → path ≡ root ++ rest
unfolding relative_to
relative_to_split [] path rest h = ground (arith, h)
relative_to_split (r ∷ root) [] rest h = absurd (ground (arith, h))
relative_to_split (r ∷ root) (p ∷ path) rest h = elim (Bool-cases (text_eq r p)) [
  | inl e ↦
      let same : p ≡ r = sym ((text_eq_iff r p).0 e) in
      let others : relative_to root path ≡ some rest = ground (arith, h, e) in
      ap (λ x. x ∷ path) same ∙ ap (λ q. r ∷ q) (relative_to_split root path rest others)
  | inr e ↦ absurd (ground (arith, h, e))
]

-- A path under the folder is another one.
pub IsApart-path_eq :
    (root rest path : FilePath) → IsApart root path → path_eq (root ++ rest) path ≡ false
IsApart-path_eq root rest path h = elim (Bool-cases (path_eq (root ++ rest) path)) [
  | inl e ↦
      let same = path_eq→eq (root ++ rest) path e in
      let found : relative_to root path ≡ some rest =
        sym (ap (relative_to root) same) ∙ relative_to-append root rest in
      absurd (ground (arith, h, found))
  | inr e ↦ e
]

pub IsApart-append : (root part path : FilePath) → IsApart root path → IsApart (root ++ part) path
unfolding relative_to
IsApart-append [] part path h = absurd (ground (arith, h))
IsApart-append (r ∷ root) part [] h = refl
IsApart-append (r ∷ root) part (p ∷ path) h = elim (Bool-cases (text_eq r p)) [
  | inl e ↦
      relative_to_same r p (root ++ part) path e
      ∙ IsApart-append root part path (sym (relative_to_same r p root path e) ∙ h)
  | inr e ↦ relative_to_other r p (root ++ part) path e
]
