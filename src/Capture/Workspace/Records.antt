-- ===== src/Capture/Workspace/Records.antt =====
-- The dependencies, pins and members that the checks of a workspace look for, described by themselves.
use swift_cidr_admission.Base.{
  ◌≡◌, ◌≢◌, refl, sym, ◌∙◌, ap, subst, Bool-cases, inl, inr, true, ◌⊎◌, List, [], ◌∷◌, ◌++◌, Text,
  codes, text_eq, text_eq_iff, Result, ok, ◌>>=◌, All, bind_inversion, ok-injective, arith,
}
use swift_cidr_admission.Base.Dict.{Dict}
use swift_cidr_admission.Json.{
  Json, Members, null, boolean, number, string, array, object, end, member, field, iterate,
}
use swift_cidr_admission.Capture.Workspace.{
  json_eq, entries, find_edited, edited_of, other_pins, is_lock,
}
use swift_cidr_admission.Capture.Workspace.Equality.{json_eq_string, not-json_eq_string}

abbrev pub swift_cidr : Json
swift_cidr = string (codes "swift-cidr")

-- The pins of the first list, in their order, less those of swift-cidr.
pub data KeepsOthers : List Json → List Json → Type 0 where
  keeps_none : KeepsOthers [] []
  leaves_out :
      {pin : Json} {pins kept : List Json}
      → field (codes "identity") pin ≡ ok swift_cidr
      → KeepsOthers pins kept
      → KeepsOthers (pin ∷ pins) kept
  keeps :
      {pin identity : Json} {pins kept : List Json}
      → field (codes "identity") pin ≡ ok identity
      → identity ≢ swift_cidr
      → KeepsOthers pins kept
      → KeepsOthers (pin ∷ pins) (pin ∷ kept)

pub other_pins-KeepsOthers :
    (pins : List Json) {kept : List Json} → other_pins pins ≡ ok kept → KeepsOthers pins kept
unfolding other_pins
other_pins-KeepsOthers [] h = subst (KeepsOthers []) (ok-injective h) keeps_none
other_pins-KeepsOthers (pin ∷ pins) {kept} h =
    let (identity, e, h1) = bind_inversion (field (codes "identity") pin) _ h in
    let (rest, r, h2) = bind_inversion (other_pins pins) _ h1 in
    elim (Bool-cases (json_eq identity swift_cidr)) [
      | inl same ↦
          let all : rest ≡ kept = ground (arith, h2, same) in
          leaves_out (e ∙ ap ok (json_eq_string identity (codes "swift-cidr") same))
            (subst (KeepsOthers pins) all (other_pins-KeepsOthers pins r))
      | inr other ↦
          let all : pin ∷ rest ≡ kept = ground (arith, h2, other) in
          subst (KeepsOthers (pin ∷ pins)) all (
            keeps e (not-json_eq_string identity (codes "swift-cidr") other)
              (other_pins-KeepsOthers pins r))
    ]

abbrev identity_of : Json → Result Json
identity_of dependency = field (codes "packageRef") dependency >>= field (codes "identity")

-- The dependency is of another package.
abbrev pub IsOther : Json → Type 0
IsOther dependency =
    (identity : Json) × ((field (codes "packageRef") dependency >>= field (codes "identity"))
      ≡ ok identity)
    × (identity ≢ swift_cidr)

-- The dependency is the first in the state that is swift-cidr.
abbrev pub IsDependency : Json → Json → Type 0
IsDependency state dependency =
    (before : List Json) × (after : List Json) × ((field (codes "object") state
        >>= field (codes "dependencies")
        >>= iterate)
      ≡ ok (before ++ (dependency ∷ after)))
    × All IsOther before
    × ((field (codes "packageRef") dependency >>= field (codes "identity")) ≡ ok swift_cidr)

find_edited_sound :
    (dependencies : List Json) {dependency : Json}
    → find_edited dependencies ≡ ok dependency
    → (before : List Json) × (after : List Json) × (dependencies ≡ before ++ (dependency ∷ after))
      × All IsOther before
      × (identity_of dependency ≡ ok swift_cidr)
unfolding find_edited
find_edited_sound [] h = absurd (ground (arith, h))
find_edited_sound (d ∷ ds) {dependency} h =
    let (identity, e, h1) =
      bind_inversion (field (codes "packageRef") d >>= field (codes "identity")) _ h in
    elim (Bool-cases (json_eq identity swift_cidr)) [
      | inl same ↦
          let found : d ≡ dependency = ground (arith, h1, same) in
          (
            [],
            ds,
            ap (λ x. x ∷ ds) found,
            tt,
            subst (λ x. identity_of x ≡ ok swift_cidr) found
                (e ∙ ap ok (json_eq_string identity (codes "swift-cidr") same)),
          )
      | inr other ↦
          let rest : find_edited ds ≡ ok dependency = ground (arith, h1, other) in
          let (before, after, split, others, it) = find_edited_sound ds rest in
          (
            d ∷ before,
            after,
            ap (λ x. d ∷ x) split,
            ((identity, e, not-json_eq_string identity (codes "swift-cidr") other), others),
            it,
          )
    ]

pub edited_of-IsDependency :
    (state : Json) {dependency : Json}
    → edited_of state ≡ ok dependency
    → IsDependency state dependency
unfolding edited_of
edited_of-IsDependency state h =
    let (all, e, h1) =
      bind_inversion (field (codes "object") state >>= field (codes "dependencies") >>= iterate)
        find_edited h in
    let (before, after, split, others, it) = find_edited_sound all h1 in
    (before, after, e ∙ ap ok split, others, it)

-- Every member has the property.
abbrev pub AllMembers : (Text × Json → Type 0) → Members → Type 0
AllMembers P end = Unit
AllMembers P (member k v m) = P (k, v) × AllMembers P m

entries-AllMembers :
    (P : Text × Json → Type 0) (m : Members) {es : Dict Json}
    → entries (object m) ≡ ok es
    → All P es
    → AllMembers P m
unfolding entries
entries-AllMembers P end h all = tt
entries-AllMembers P (member k v m) h all =
    let (rest, r, h1) = bind_inversion (entries (object m)) _ h in
    let both : All P ((k, v) ∷ rest) = subst (All P) (sym (ok-injective h1)) all in
    (both.0, entries-AllMembers P m r (both.1))

-- What holds for all entries of a value holds for all members of an object.
pub entries_sound :
    (P : Text × Json → Type 0) (v : Json) {es : Dict Json}
    → entries v ≡ ok es
    → All P es
    → (m : Members) × (v ≡ object m) × AllMembers P m
unfolding entries
entries_sound P (object m) h all = (m, refl, entries-AllMembers P m h all)
entries_sound P null h all = absurd (ground (arith, h))
entries_sound P (boolean b) h all = absurd (ground (arith, h))
entries_sound P (number t) h all = absurd (ground (arith, h))
entries_sound P (string t) h all = absurd (ground (arith, h))
entries_sound P (array vs) h all = absurd (ground (arith, h))

-- The names of the two lock files.
abbrev pub benchmark_lock : Text
benchmark_lock = codes "swift-cidr-admission/Benchmarks/Package.resolved"

abbrev pub root_lock : Text
root_lock = codes "swift-cidr-admission/Package.resolved"

pub is_lock_sound : (rel : Text) → is_lock rel ≡ true → (rel ≡ benchmark_lock) ⊎ (rel ≡ root_lock)
unfolding is_lock
is_lock_sound rel h = elim (Bool-cases (text_eq rel benchmark_lock)) [
  | inl e ↦ inl ((text_eq_iff rel benchmark_lock).0 e)
  | inr e ↦ inr ((text_eq_iff rel root_lock).0 (ground (arith, h, e)))
]
