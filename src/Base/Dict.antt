-- ===== src/Base/Dict.antt =====
-- Python's `dict` with text keys, in insertion order: setting a key that is there keeps its place.
pub mod Same
use mathlib.Core.Path.{◌≡◌, refl}
use mathlib.Core.Bool.{Bool, true, false, ◌||◌, ◌&&◌}
use mathlib.Core.Option.{Option, none, some}
use mathlib.Core.List.{List, [], ◌∷◌, map}
use native.Mathlib.Omega.{arith}
use swift_cidr_admission.Base.Tests.{◌==◌, if◌then◌else◌}
use swift_cidr_admission.Base.Lists.{length}
use swift_cidr_admission.Base.Strings.{Text, text_eq, text_eq_iff}

abbrev pub Dict {ℓ} : Type ℓ → Type ℓ
Dict V = List (Text × V)

module _ {ℓ} {V : Type ℓ} where
  -- d.get(k)
  unfoldable pub lookup : Text → Dict V → Option V
  lookup k [] = none
  lookup k ((j, v) ∷ d) = if text_eq j k then some v else lookup k d

  -- k in d
  unfoldable pub contains : Text → Dict V → Bool
  contains k [] = false
  contains k ((j, v) ∷ d) = text_eq j k || contains k d

  -- d[k] = v
  unfoldable pub insert : Text → V → Dict V → Dict V
  insert k v [] = (k, v) ∷ []
  insert k v ((j, w) ∷ d) = if text_eq j k then (j, v) ∷ d else (j, w) ∷ insert k v d

  -- No key stands twice: what every `dict` keeps.
  abbrev pub NodupKeys : Dict V → Type 0
  NodupKeys [] = Unit
  NodupKeys ((k, v) ∷ d) = (contains k d ≡ false) × NodupKeys d

  pub lookup-insert :
      (k j : Text) (v : V) (d : Dict V)
      → lookup j (insert k v d) ≡ (if text_eq k j then some v else lookup j d)
  unfolding lookup insert
  lookup-insert k j v [] = refl
  lookup-insert k j v ((i, w) ∷ d) =
      ground (arith, text_eq_iff k j, text_eq_iff i k, text_eq_iff i j, lookup-insert k j v d)

  pub contains-insert :
      (k j : Text) (v : V) (d : Dict V) → contains j (insert k v d) ≡ (text_eq k j || contains j d)
  unfolding contains insert
  contains-insert k j v [] = refl
  contains-insert k j v ((i, w) ∷ d) =
      ground (arith, text_eq_iff k j, text_eq_iff i k, text_eq_iff i j, contains-insert k j v d)

  pub insert-NodupKeys : (k : Text) (v : V) (d : Dict V) → NodupKeys d → NodupKeys (insert k v d)
  unfolding insert contains
  insert-NodupKeys k v [] h = (refl, tt)
  insert-NodupKeys k v ((j, w) ∷ d) h =
      ground
        (arith, contains-insert k j v d, insert-NodupKeys k v d, text_eq_iff j k, text_eq_iff k j)

  pub contains_of_lookup :
      (k : Text) (d : Dict V) {v : V} → lookup k d ≡ some v → contains k d ≡ true
  unfolding contains lookup
  contains_of_lookup k [] h = ground arith
  contains_of_lookup k ((j, w) ∷ d) {v} h = ground (arith, contains_of_lookup k d {v = v})

  pub lookup_of_absent : (k : Text) (d : Dict V) → contains k d ≡ false → lookup k d ≡ none
  unfolding contains lookup
  lookup_of_absent k [] h = refl
  lookup_of_absent k ((j, w) ∷ d) h = ground (arith, lookup_of_absent k d)

-- d == e, for texts as values: the order does not count.
holds : Dict Text → Dict Text → Bool
holds [] e = true
holds ((k, v) ∷ d) e = elim (lookup k e) [ some w ↦ text_eq v w | none ↦ false ] && holds d e

unfoldable pub same : Dict Text → Dict Text → Bool
unfolding holds
same d e = length d == length e && holds d e
