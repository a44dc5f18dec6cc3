-- ===== src/Base/Slices.antt =====
-- Parts of a list: an item, the last item, and what stands before and behind a place.
use Prim.Native.Nat.{ℕ, zero, suc, ◌+◌, ◌-◌, ◌≤◌}
use mathlib.Core.Path.{◌≡◌, refl, ap}
use mathlib.Core.Option.{Option, none, some}
use mathlib.Core.List.{List, [], ◌∷◌, ◌++◌}
use native.Mathlib.Omega.{arith}
use swift_cidr_admission.Base.Lists.{length, get_elem?, take, drop}

module _ {ℓ} {A : Type ℓ} where
  -- xs.last
  abbrev pub last? : List A → Option A
  last? [] = none
  last? (x ∷ []) = some x
  last? (x ∷ y ∷ xs) = last? (y ∷ xs)

  pub take-append-drop : (n : ℕ) (xs : List A) → take n xs ++ drop n xs ≡ xs
  take-append-drop zero xs = refl
  take-append-drop (suc n) [] = refl
  take-append-drop (suc n) (x ∷ xs) = ap (λ r. x ∷ r) (take-append-drop n xs)

  pub drop_of_get_elem? :
      (n : ℕ) (xs : List A) (x : A) → get_elem? xs n ≡ some x → drop n xs ≡ x ∷ drop (suc n) xs
  drop_of_get_elem? n [] x h = absurd (ground (arith, h))
  drop_of_get_elem? zero (y ∷ xs) x h = ground (arith, h)
  drop_of_get_elem? (suc n) (y ∷ xs) x h = drop_of_get_elem? n xs x h

  pub init_last :
      (xs : List A) (x : A) → last? xs ≡ some x → xs ≡ take (length xs - 1) xs ++ (x ∷ [])
  init_last [] x h = absurd (ground (arith, h))
  init_last (y ∷ []) x h = ground (arith, h)
  init_last (y ∷ z ∷ xs) x h =
      let e : length (y ∷ z ∷ xs) - 1 ≡ suc (length (z ∷ xs) - 1) = omega arith in
      rw e (ap (λ r. y ∷ r) (init_last (z ∷ xs) x h))

  pub length-take : (n : ℕ) (xs : List A) → n ≤ length xs → length (take n xs) ≡ n
  length-take zero xs h = refl
  length-take (suc n) [] h = absurd (omega (arith, h))
  length-take (suc n) (x ∷ xs) h = ap suc (length-take n xs (omega (arith, h)))

  pub drop-append : (n : ℕ) (xs ys : List A) → n ≤ length xs → drop n (xs ++ ys) ≡ drop n xs ++ ys
  drop-append zero xs ys h = refl
  drop-append (suc n) [] ys h = absurd (omega (arith, h))
  drop-append (suc n) (x ∷ xs) ys h = drop-append n xs ys (omega (arith, h))

  pub get_elem?-append :
      (n : ℕ) (xs ys : List A) (k : ℕ)
      → length xs ≡ n
      → get_elem? (xs ++ ys) (n + k) ≡ get_elem? ys k
  get_elem?-append n [] ys k h = ap (get_elem? ys) (omega (arith, h))
  get_elem?-append zero (x ∷ xs) ys k h = absurd (omega (arith, h))
  get_elem?-append (suc n) (x ∷ xs) ys k h =
      let e : suc n + k ≡ suc (n + k) = omega arith in
      rw e (get_elem?-append n xs ys k (omega (arith, h)))

  pub take-append : (n : ℕ) (xs ys : List A) → length xs ≡ n → take n (xs ++ ys) ≡ xs
  take-append zero [] ys h = refl
  take-append (suc n) [] ys h = absurd (omega (arith, h))
  take-append zero (x ∷ xs) ys h = absurd (omega (arith, h))
  take-append (suc n) (x ∷ xs) ys h = ap (λ r. x ∷ r) (take-append n xs ys (omega (arith, h)))

  pub drop-append_exact : (n : ℕ) (xs ys : List A) → length xs ≡ n → drop n (xs ++ ys) ≡ ys
  drop-append_exact zero [] ys h = refl
  drop-append_exact (suc n) [] ys h = absurd (omega (arith, h))
  drop-append_exact zero (x ∷ xs) ys h = absurd (omega (arith, h))
  drop-append_exact (suc n) (x ∷ xs) ys h = drop-append_exact n xs ys (omega (arith, h))

  pub last?-append : (xs : List A) (x : A) → last? (xs ++ (x ∷ [])) ≡ some x
  last?-append [] x = refl
  last?-append (y ∷ []) x = refl
  last?-append (y ∷ z ∷ xs) x = last?-append (z ∷ xs) x
