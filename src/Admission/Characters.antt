-- ===== src/Admission/Characters.antt =====
-- Searches of a text by its characters, as Swift makes them: contains(_:) and firstRange(of:).
use swift_cidr_admission.Base.{
  Bool, true, false, ◌&&◌, List, [], ◌∷◌, Text, codes, text_eq, Option, none, some, any,
  if◌then◌else◌,
}

-- token.contains("/")
unfoldable pub has_slash : List Text → Bool
has_slash token = any (text_eq (codes "/")) token

-- What follows "..." at the start.
unfoldable pub after_dots : List Text → Option (List Text)
after_dots (a ∷ b ∷ d ∷ rest) =
    if text_eq (codes ".") a && text_eq (codes ".") b && text_eq (codes ".") d
    then some rest
    else none
after_dots _ = none

unfoldable pub preceded_by : Text → Option (List Text × List Text) → Option (List Text × List Text)
preceded_by character none = none
preceded_by character (some (lower, upper)) = some (character ∷ lower, upper)

-- token.firstRange(of: "..."), as what stands before and what stands after it.
unfoldable pub first_range : List Text → Option (List Text × List Text)
unfolding after_dots preceded_by
first_range [] = none
first_range (character ∷ rest) =
    let later = first_range rest in
    elim (after_dots (character ∷ rest)) [
      | some upper ↦ some ([], upper)
      | none ↦ preceded_by character later
    ]

unfoldable pub has_dots : List Text → Bool
has_dots token = elim (first_range token) [ none ↦ false | some parts ↦ true ]
