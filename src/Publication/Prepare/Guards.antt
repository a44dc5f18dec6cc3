-- ===== src/Publication/Prepare/Guards.antt =====
-- The conditions under which `prepare` of prepare-benchmark-publication.py goes on.
use swift_cidr_admission.Base.{
  ◌≡◌, refl, ap, ◌⊎◌, inl, inr, Option, Option-cases, none, some, codes, Bool, true, false, [], ◌∷◌,
  ◌++◌, Text, ok, All, arith,
}
use swift_cidr_admission.Files.{
  FilePath, FileSystem, Node, folder, file, unreadable, link, node_at, relative_to,
}
use swift_cidr_admission.Files.Paths.{IsApart}
use swift_cidr_admission.Publication.Bundle.{bundles}
use swift_cidr_admission.Publication.Prepare.{exists, is_relative_to, guard}
use swift_cidr_admission.Capture.World.{World, for_each}
use swift_cidr_admission.Capture.Reading.{for_each_sound}

pub guard_sound :
    (c : Bool) (message : Text) (w w' : World)
    → guard c message w ≡ (ok tt, w')
    → (c ≡ false) × (w ≡ w')
unfolding guard
guard_sound true message w w' h = absurd (ground (arith, h))
guard_sound false message w w' h = (refl, ap (λ r. r.1) h)

-- Nothing stands at the path, or a link to nothing.
abbrev pub IsFree : FilePath → FileSystem → Type 0
IsFree path fs = (node_at path fs ≡ none) ⊎ (node_at path fs ≡ some (link false))

pub exists-IsFree : (path : FilePath) (fs : FileSystem) → exists path fs ≡ false → IsFree path fs
unfolding exists
exists-IsFree path fs h = free_turn (node_at path fs) h
  where
    free_turn :
        (o : Option Node)
        → elim o [ none ↦ false | some (link alive) ↦ alive | some _ ↦ true ] ≡ false
        → (o ≡ none) ⊎ (o ≡ some (link false))
    free_turn none h = inl refl
    free_turn (some (link alive)) h = inr (ap (λ a. some (link a)) h)
    free_turn (some folder) h = absurd (ground (arith, h))
    free_turn (some (file bytes)) h = absurd (ground (arith, h))
    free_turn (some unreadable) h = absurd (ground (arith, h))

not-is_relative_to : (root path : FilePath) → is_relative_to root path ≡ false → IsApart root path
unfolding is_relative_to
not-is_relative_to root path h = elim (Option-cases (relative_to root path)) [
  | inl e ↦ e
  | inr (rest, e) ↦ absurd (ground (arith, h, e))
]

module _ (resolve : FileSystem → FilePath → FilePath) (source destination : FilePath) where
  pub bundle_guards_sound :
      (w : World) {w' : World}
      → for_each bundles
          (λ name v.
            guard
              (is_relative_to (resolve v.fs (source ++ (name ∷ []))) (resolve v.fs destination))
              (codes "Destination cannot be inside an original capture")
              v)
          w
        ≡ (ok tt, w')
      → All
          (λ name. IsApart (resolve w.fs (source ++ (name ∷ []))) (resolve w.fs destination))
          bundles
        × (w ≡ w')
  bundle_guards_sound w h =
      for_each_sound
        (λ fs name. IsApart (resolve fs (source ++ (name ∷ []))) (resolve fs destination)) _
        (λ name v v' k.
          let folder = resolve v.fs (source ++ (name ∷ [])) in
          let (outer, same) =
            guard_sound (is_relative_to folder (resolve v.fs destination)) _ v v' k in
          (not-is_relative_to folder (resolve v.fs destination) outer, same))
        bundles w h
