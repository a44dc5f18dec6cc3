-- ===== src/Publication/Manifest/Sorted.antt =====
-- Sorting a dictionary keeps its entries.
use mathlib.Core.Option.{some}
use swift_cidr_admission.Base.{
  ◌≡◌, refl, suc, false, ◌||◌, [], ◌∷◌, Text, text_eq, text_eq_iff, arith, if◌then◌else◌, length,
}
use swift_cidr_admission.Base.Dict.{Dict, lookup, contains, NodupKeys}
use swift_cidr_admission.Publication.Manifest.{insert_sorted, sorted}

module _ {ℓ} {V : Type ℓ} where
  length-insert_sorted :
      (k : Text) (v : V) (d : Dict V) → length (insert_sorted k v d) ≡ suc (length d)
  unfolding insert_sorted
  length-insert_sorted k v [] = refl
  length-insert_sorted k v ((j, w) ∷ d) = ground (arith, length-insert_sorted k v d)

  pub length-sorted : (d : Dict V) → length (sorted d) ≡ length d
  unfolding sorted
  length-sorted [] = refl
  length-sorted ((k, v) ∷ d) = ground (arith, length-insert_sorted k v (sorted d), length-sorted d)

  contains-insert_sorted :
      (k j : Text) (v : V) (d : Dict V)
      → contains j (insert_sorted k v d) ≡ (text_eq k j || contains j d)
  unfolding insert_sorted contains
  contains-insert_sorted k j v [] = refl
  contains-insert_sorted k j v ((i, w) ∷ d) = ground (arith, contains-insert_sorted k j v d)

  pub contains-sorted : (j : Text) (d : Dict V) → contains j (sorted d) ≡ contains j d
  unfolding sorted contains
  contains-sorted j [] = refl
  contains-sorted j ((k, v) ∷ d) =
      ground (arith, contains-insert_sorted k j v (sorted d), contains-sorted j d)

  insert_sorted-NodupKeys :
      (k : Text) (v : V) (d : Dict V)
      → contains k d ≡ false
      → NodupKeys d
      → NodupKeys (insert_sorted k v d)
  unfolding insert_sorted contains
  insert_sorted-NodupKeys k v [] a n = (refl, tt)
  insert_sorted-NodupKeys k v ((i, w) ∷ d) a n = ground (
    arith,
    contains-insert_sorted k i v d,
    insert_sorted-NodupKeys k v d,
    text_eq_iff i k,
    text_eq_iff k i,
  )

  pub sorted-NodupKeys : (d : Dict V) → NodupKeys d → NodupKeys (sorted d)
  unfolding sorted
  sorted-NodupKeys [] n = tt
  sorted-NodupKeys ((k, v) ∷ d) n =
      insert_sorted-NodupKeys k v (sorted d) (ground (arith, contains-sorted k d))
        (sorted-NodupKeys d n.1)

  lookup-insert_sorted :
      (k j : Text) (v : V) (d : Dict V)
      → contains k d ≡ false
      → lookup j (insert_sorted k v d) ≡ (if text_eq k j then some v else lookup j d)
  unfolding insert_sorted lookup contains
  lookup-insert_sorted k j v [] a = refl
  lookup-insert_sorted k j v ((i, w) ∷ d) a =
      ground
        (arith, lookup-insert_sorted k j v d, text_eq_iff i k, text_eq_iff i j, text_eq_iff k j)

  pub lookup-sorted : (j : Text) (d : Dict V) → NodupKeys d → lookup j (sorted d) ≡ lookup j d
  unfolding sorted lookup
  lookup-sorted j [] n = refl
  lookup-sorted j ((k, v) ∷ d) n =
      ground (arith, lookup-insert_sorted k j v (sorted d), contains-sorted k d, lookup-sorted j d)
