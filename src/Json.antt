-- ===== src/Json.antt =====
-- The values of Python's `json`, and how the tools read them. A number is kept as its literal: the
-- code copies numbers, and computes with none that it has redacted.
use mathlib.Core.Option.{Option, none, some}
use native.Mathlib.Decide.{ℕ_discrete}
use swift_cidr_admission.Base.{
  ℕ, suc, Bool, false, ◌||◌, List, [], ◌∷◌, map, Text, codes, text_eq, Result, ok, raise, key_error,
  type_error, if◌then◌else◌,
}

mutual
  pub data Json : Type 0 where
    null : Json
    boolean : Bool → Json
    number : Text → Json
    string : Text → Json
    array : Items → Json
    object : Members → Json

  pub data Items : Type 0 where
    nil : Items
    cons : Json → Items → Items

  -- A `dict`, in insertion order.
  pub data Members : Type 0 where
    end : Members
    member : Text → Json → Members → Members

-- len(value)
unfoldable pub count : Members → ℕ
count end = 0
count (member k v m) = suc (count m)

-- key in value
unfoldable pub has_key : Text → Members → Bool
has_key k end = false
has_key k (member j v m) = text_eq j k || has_key k m

-- value[key] = item
unfoldable pub set_key : Text → Json → Members → Members
set_key k v end = member k v end
set_key k v (member j w m) = if text_eq j k then member j v m else member j w (set_key k v m)

-- value.get(key)
unfoldable pub get_key : Text → Members → Option Json
get_key k end = none
get_key k (member j v m) = if text_eq j k then some v else get_key k m

unfoldable pub to_items : List Json → Items
to_items [] = nil
to_items (v ∷ vs) = cons v (to_items vs)

unfoldable pub of_items : Items → List Json
of_items nil = []
of_items (cons v vs) = v ∷ of_items vs

-- `before == after`
pub Json-discrete : Discrete Json
Json-discrete = hlevel (ℕ_discrete)

-- value[key]
unfoldable pub field : Text → Json → Result Json
field key (object m) = elim (get_key key m) [ some v ↦ ok v | none ↦ raise key_error key ]
field key _ = raise type_error (codes "indices must be integers or slices, not str")

keys_of : Members → List Json
keys_of end = []
keys_of (member k v m) = string k ∷ keys_of m

-- for item in value
unfoldable pub iterate : Json → Result (List Json)
unfolding keys_of
iterate (array vs) = ok (of_items vs)
iterate (object m) = ok (keys_of m)
iterate (string t) = ok (map (λ c. string (c ∷ [])) t)
iterate _ = raise type_error (codes "object is not iterable")
