-- ===== src/Capture/Workspace/Equality.antt =====
-- `==` of the values that prepare.py and rerun.py read: arrays item by item, and objects key by key in any order.
use mathlib.Core.Option.{some}
use swift_cidr_admission.Base.{
  ◌==◌, ==_iff, ◌≡◌, refl, sym, ap, subst, Bool, true, false, &&_split, Option-cases, inl, inr,
  Text, text_eq_iff, text_eq_refl, arith,
}
use swift_cidr_admission.Json.{
  Json, Items, Members, null, boolean, number, string, array, object, nil, cons, end, member, count,
  get_key,
}
use swift_cidr_admission.Capture.Workspace.{bool_eq, json_eq, items_eq, members_within}

mutual
  pub data Same : Json → Json → Type 0 where
    same_null : Same null null
    same_boolean : (b : Bool) → Same (boolean b) (boolean b)
    same_number : (t : Text) → Same (number t) (number t)
    same_string : (t : Text) → Same (string t) (string t)
    same_array : {vs ws : Items} → SameItems vs ws → Same (array vs) (array ws)
    same_object : {m n : Members} → count m ≡ count n → Within m n → Same (object m) (object n)

  pub data SameItems : Items → Items → Type 0 where
    same_nil : SameItems nil nil
    same_cons :
        {v w : Json} {vs ws : Items}
        → Same v w
        → SameItems vs ws
        → SameItems (cons v vs) (cons w ws)

  -- Every member stands in the other object with the same value.
  pub data Within : Members → Members → Type 0 where
    within_end : {n : Members} → Within end n
    within_member :
        {k : Text} {v w : Json} {m n : Members}
        → get_key k n ≡ some w
        → Same v w
        → Within m n
        → Within (member k v m) n

bool_eq_sound : (a b : Bool) → bool_eq a b ≡ true → a ≡ b
unfolding bool_eq
bool_eq_sound true b h = sym h
bool_eq_sound false true h = absurd (ground (arith, h))
bool_eq_sound false false h = refl

mutual
  unfolding json_eq items_eq members_within

  pub json_eq-Same : (v w : Json) → json_eq v w ≡ true → Same v w
  json_eq-Same null null h = same_null
  json_eq-Same (boolean a) (boolean b) h =
      subst (λ x. Same (boolean a) (boolean x)) (bool_eq_sound a b h) (same_boolean a)
  json_eq-Same (number t) (number u) h =
      subst (λ x. Same (number t) (number x)) ((text_eq_iff t u).0 h) (same_number t)
  json_eq-Same (string t) (string u) h =
      subst (λ x. Same (string t) (string x)) ((text_eq_iff t u).0 h) (same_string t)
  json_eq-Same (array vs) (array ws) h = same_array (items_eq-SameItems vs ws h)
  json_eq-Same (object m) (object n) h =
      let (size, inside) = &&_split (count m == count n) (members_within m n) h in
      same_object ((==_iff (count m) (count n)).0 size) (members_within-Within m n inside)
  json_eq-Same _ _ h = absurd (ground (arith, h))

  items_eq-SameItems : (vs ws : Items) → items_eq vs ws ≡ true → SameItems vs ws
  items_eq-SameItems nil nil h = same_nil
  items_eq-SameItems (cons v vs) (cons w ws) h =
      let (one, rest) = &&_split (json_eq v w) (items_eq vs ws) h in
      same_cons (json_eq-Same v w one) (items_eq-SameItems vs ws rest)
  items_eq-SameItems _ _ h = absurd (ground (arith, h))

  members_within-Within : (m n : Members) → members_within m n ≡ true → Within m n
  members_within-Within end n h = within_end
  members_within-Within (member k v m) n h = elim (Option-cases (get_key k n)) [
    | inl e ↦ absurd (ground (arith, h, e))
    | inr (w, e) ↦
        let (one, rest) = &&_split (json_eq v w) (members_within m n) (ground (arith, h, e)) in
        within_member e (json_eq-Same v w one) (members_within-Within m n rest)
  ]

-- What equals a text is that text.
pub json_eq_string : (v : Json) (t : Text) → json_eq v (string t) ≡ true → v ≡ string t
unfolding json_eq
json_eq_string (string u) t h = ap string ((text_eq_iff u t).0 h)
json_eq_string null t h = absurd (ground (arith, h))
json_eq_string (boolean b) t h = absurd (ground (arith, h))
json_eq_string (number u) t h = absurd (ground (arith, h))
json_eq_string (array vs) t h = absurd (ground (arith, h))
json_eq_string (object m) t h = absurd (ground (arith, h))

pub string-json_eq : (t : Text) (v : Json) → json_eq (string t) v ≡ true → v ≡ string t
unfolding json_eq
string-json_eq t (string u) h = ap string (sym ((text_eq_iff t u).0 h))
string-json_eq t null h = absurd (ground (arith, h))
string-json_eq t (boolean b) h = absurd (ground (arith, h))
string-json_eq t (number u) h = absurd (ground (arith, h))
string-json_eq t (array vs) h = absurd (ground (arith, h))
string-json_eq t (object m) h = absurd (ground (arith, h))

pub not-json_eq_string : (v : Json) (t : Text) → json_eq v (string t) ≡ false → ¬ (v ≡ string t)
unfolding json_eq
not-json_eq_string v t h e =
    let other : json_eq (string t) (string t) ≡ false =
      subst (λ x. json_eq x (string t) ≡ false) e h in
    absurd (ground (arith, other, text_eq_refl t))
