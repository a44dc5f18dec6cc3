-- ===== src/Publication/Redaction/Shape.antt =====
-- Redaction changes texts and nothing else of a JSON value.
use swift_cidr_admission.Base.{
  suc, ◌+◌, ◌≤◌, ◌≡◌, refl, ap, ◌∙◌, true, false, Text, [], ok, bind_inversion, check-eq-ok,
  value_error, ◌==◌, arith, if◌then◌else◌,
}
use swift_cidr_admission.Json.{
  Json, Items, Members, null, boolean, number, string, array, object, nil, cons, end, member, count,
  set_key, has_key,
}
use swift_cidr_admission.Publication.Redaction.{redact_json, redact_items, redact_members}

-- The value with every text, a key too, put to the empty one.
unfoldable mutual
  pub shape : Json → Json
  shape null = null
  shape (boolean b) = boolean b
  shape (number t) = number t
  shape (string t) = string []
  shape (array vs) = array (shape_items vs)
  shape (object m) = object (shape_members m)

  pub shape_items : Items → Items
  shape_items nil = nil
  shape_items (cons v vs) = cons (shape v) (shape_items vs)

  pub shape_members : Members → Members
  shape_members end = end
  shape_members (member k v m) = member [] (shape v) (shape_members m)

join : Members → Members → Members
join end n = n
join (member k v m) n = member k v (join m n)

join-end : (m : Members) → join m end ≡ m
unfolding join
join-end end = refl
join-end (member k v m) = ap (member k v) (join-end m)

join_assoc : (l m n : Members) → join (join l m) n ≡ join l (join m n)
unfolding join
join_assoc end m n = refl
join_assoc (member k v l) m n = ap (member k v) (join_assoc l m n)

count-set_key :
    (k : Text) (v : Json) (m : Members)
    → count (set_key k v m) ≡ (if has_key k m then count m else suc (count m))
unfolding count set_key has_key
count-set_key k v end = refl
count-set_key k v (member j w m) = ground (arith, count-set_key k v m)

shape-set_key :
    (k : Text) (v : Json) (m : Members)
    → has_key k m ≡ false
    → shape_members (set_key k v m) ≡ join (shape_members m) (member [] (shape v) end)
unfolding set_key has_key shape join
shape-set_key k v end h = refl
shape-set_key k v (member j w m) h = ground (arith, shape-set_key k v m)

same_count : (r m : Members) → (count r == count m) ≡ true → count r ≡ count end + count m
unfolding count
same_count r m h = ground arith

module _ (redact : Text → Text) where
  count-redact_members :
      (m acc : Members) {r : Members}
      → redact_members redact m acc ≡ ok r
      → count r ≤ count acc + count m
  unfolding redact_json count
  count-redact_members end acc h = ground arith
  count-redact_members (member k v m) acc {r} h =
      let (w, p, q) = bind_inversion (redact_json redact v) _ h in
      ground (
        arith,
        count-redact_members m (set_key (redact k) w acc) {r = r} q,
        count-set_key (redact k) w acc,
      )

  fresh_key :
      (k : Text) (w : Json) (m acc : Members) {r : Members}
      → redact_members redact m (set_key (redact k) w acc) ≡ ok r
      → count r ≡ count acc + suc (count m)
      → (has_key (redact k) acc ≡ false) × (count r ≡ count (set_key (redact k) w acc) + count m)
  fresh_key k w m acc {r} h e = ground (
    arith,
    count-redact_members m (set_key (redact k) w acc) {r = r} h,
    count-set_key (redact k) w acc,
  )

  mutual
    unfolding redact_json shape count join

    shape-redact_value : (v : Json) {w : Json} → redact_json redact v ≡ ok w → shape w ≡ shape v
    shape-redact_value null h = ground (arith, h)
    shape-redact_value (boolean b) h = ground (arith, h)
    shape-redact_value (number t) h = ground (arith, h)
    shape-redact_value (string t) h = ground (arith, h)
    shape-redact_value (array vs) h =
        let (ws, p, q) = bind_inversion (redact_items redact vs) _ h in
        ground (arith, shape-redact_items vs {ws = ws} p, q)
    shape-redact_value (object m) h =
        let (r, p, q) = bind_inversion (redact_members redact m end) _ h in
        let (e, f) = check-eq-ok (count r == count m) value_error _ (ok (object r)) q in
        ground (arith, shape-redact_members m end {r = r} p (same_count r m e), f)

    shape-redact_items :
        (vs : Items) {ws : Items} → redact_items redact vs ≡ ok ws → shape_items ws ≡ shape_items vs
    shape-redact_items nil h = ground (arith, h)
    shape-redact_items (cons v vs) h =
        let (w, p, q) = bind_inversion (redact_json redact v) _ h in
        let (ws, p', q') = bind_inversion (redact_items redact vs) _ q in
        ground (arith, shape-redact_value v {w = w} p, shape-redact_items vs {ws = ws} p', q')

    shape-redact_members :
        (m acc : Members) {r : Members}
        → redact_members redact m acc ≡ ok r
        → count r ≡ count acc + count m
        → shape_members r ≡ join (shape_members acc) (shape_members m)
    shape-redact_members end acc h e = rw join-end (ground (arith, h))
    shape-redact_members (member k v m) acc {r} h e =
        let (w, p, q) = bind_inversion (redact_json redact v) _ h in
        let (new, e') = fresh_key k w m acc {r = r} q e in
        shape-redact_members m (set_key (redact k) w acc) q e'
        ∙ ap (λ t. join t (shape_members m)) (shape-set_key (redact k) w acc new)
        ∙ join_assoc (shape_members acc) (member [] (shape w) end) (shape_members m)
        ∙ ap (λ t. join (shape_members acc) (member [] t (shape_members m)))
            (shape-redact_value v p)

  -- Whatever `redact` does to texts: a value that `redact_json` returns differs from its argument in
  -- texts alone. Its numbers, constants, nesting, and the number and order of items and members, are
  -- those of the argument.
  pub shape-redact_json : (v : Json) {w : Json} → redact_json redact v ≡ ok w → shape w ≡ shape v
  shape-redact_json v h = shape-redact_value v h
