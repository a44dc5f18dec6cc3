-- ===== src/Base/Dict/Same.antt =====
-- What the equality of two dictionaries tells of each key.
use mathlib.Core.Path.{◌≡◌, refl, sym, ◌∙◌}
use mathlib.Core.Bool.{true, false}
use mathlib.Core.Option.{Option, none, some}
use mathlib.Core.List.{[], ◌∷◌}
use native.Mathlib.Omega.{arith}
use Prim.Native.Nat.{suc}
use swift_cidr_admission.Base.Tests.{◌==◌, ==_iff, if◌then◌else◌, &&_split}
use swift_cidr_admission.Base.Lists.{length}
use swift_cidr_admission.Base.Strings.{Text, text_eq, text_eq_iff, text_eq_refl}
use swift_cidr_admission.Base.Dict.{
  Dict, lookup, contains, contains_of_lookup, NodupKeys, holds, same,
}

-- The dictionary without a key.
without : Text → Dict Text → Dict Text
without k [] = []
without k ((j, v) ∷ d) = let rest = without k d in if text_eq j k then rest else (j, v) ∷ rest

contains-without :
    (k j : Text) (d : Dict Text)
    → contains j (without k d) ≡ (if text_eq k j then false else contains j d)
unfolding contains without
contains-without k j [] = ground arith
contains-without k j ((i, w) ∷ d) =
    ground (arith, text_eq_iff k j, text_eq_iff i k, text_eq_iff i j, contains-without k j d)

lookup-without :
    (k j : Text) (d : Dict Text)
    → lookup j (without k d) ≡ (if text_eq k j then none else lookup j d)
unfolding lookup without
lookup-without k j [] = ground arith
lookup-without k j ((i, w) ∷ d) =
    ground (arith, text_eq_iff k j, text_eq_iff i k, text_eq_iff i j, lookup-without k j d)

without_of_absent : (k : Text) (d : Dict Text) → contains k d ≡ false → without k d ≡ d
unfolding contains without
without_of_absent k [] h = refl
without_of_absent k ((j, w) ∷ d) h = ground (arith, without_of_absent k d)

length-without :
    (k : Text) (d : Dict Text)
    → NodupKeys d
    → contains k d ≡ true
    → suc (length (without k d)) ≡ length d
unfolding contains without
length-without k [] n h = ground arith
length-without k ((j, w) ∷ d) n h =
    ground (arith, without_of_absent k d, length-without k d, text_eq_iff j k)

without-NodupKeys : (k : Text) (d : Dict Text) → NodupKeys d → NodupKeys (without k d)
unfolding without
without-NodupKeys k [] n = tt
without-NodupKeys k ((j, w) ∷ d) n = ground (arith, without-NodupKeys k d, contains-without k j d)

holds-without :
    (k : Text) (d e : Dict Text)
    → contains k d ≡ false
    → holds d e ≡ true
    → holds d (without k e) ≡ true
unfolding holds contains
holds-without k [] e a h = refl
holds-without k ((j, v) ∷ d) e a h =
    ground (arith, lookup-without k j e, holds-without k d e, text_eq_iff k j, text_eq_iff j k)

same_value :
    (v : Text) (o : Option Text)
    → elim o [ some w ↦ text_eq v w | none ↦ false ] ≡ true
    → o ≡ some v
same_value v none h = cc
same_value v (some w) h = ground (arith, text_eq_iff v w)

lookup_of_holds :
    (d e : Dict Text)
    → NodupKeys d
    → NodupKeys e
    → length d ≡ length e
    → holds d e ≡ true
    → (k : Text) → lookup k d ≡ lookup k e
unfolding holds lookup
lookup_of_holds [] [] n m l h k = refl
lookup_of_holds [] (x ∷ e) n m l h k = absurd (omega arith)
lookup_of_holds ((j, v) ∷ d) e n m l h k =
    let (first, rest) =
      &&_split (elim (lookup j e) [ some w ↦ text_eq v w | none ↦ false ]) (holds d e) h in
    let found = same_value v (lookup j e) first in
    let there = contains_of_lookup j e found in
    let ih =
      lookup_of_holds d (without j e) n.1 (without-NodupKeys j e m)
        (omega (arith, length-without j e m there)) (holds-without j d e n.0 rest) k in
    ground (arith, ih, found, lookup-without j k e, text_eq_iff j k)

-- Where both sides are dictionaries, equality gives every key the same value, or none, on both.
pub lookup_of_same :
    (d e : Dict Text)
    → NodupKeys d
    → NodupKeys e
    → same d e ≡ true
    → (k : Text) → lookup k d ≡ lookup k e
unfolding same
lookup_of_same d e n m h k =
    let (l, r) = &&_split (length d == length e) (holds d e) h in
    lookup_of_holds d e n m ((==_iff (length d) (length e)).0 l) r k

holds_of_lookup :
    (d e : Dict Text)
    → NodupKeys d
    → ((k v : Text) → lookup k d ≡ some v → lookup k e ≡ some v)
    → holds d e ≡ true
unfolding holds lookup
holds_of_lookup [] e n h = refl
holds_of_lookup ((j, v) ∷ d) e n h =
    let first = h j v (ground (arith, text_eq_refl j)) in
    let rest =
      holds_of_lookup d e n.1
        (λ k w f. h k w (ground (arith, n.0, contains_of_lookup k d {v = w} f, text_eq_iff j k))) in
    ground (arith, first, rest, text_eq_refl v)

-- Dictionaries of one size in which each key has one value, or none, are equal.
pub same_of_lookup :
    (d e : Dict Text)
    → NodupKeys d
    → length d ≡ length e
    → ((k : Text) → lookup k d ≡ lookup k e)
    → same d e ≡ true
unfolding same
same_of_lookup d e n l h =
    ground (arith, holds_of_lookup d e n (λ k v f. sym (h k) ∙ f), ==_iff (length d) (length e))
