-- ===== src/Publication/Prepare/Moving.antt =====
-- Files that are renamed or removed by prepare-benchmark-publication.py, and files beside them.
use swift_cidr_admission.Base.{
  ◌≡◌, refl, sym, ◌∙◌, ap, subst, false, Bool-cases, Option-cases, inl, inr, [], ◌∷◌, ◌++◌, none,
  some, arith,
}
use swift_cidr_admission.Files.{FilePath, FileSystem, Node, path_eq, relative_to, node_at}
use swift_cidr_admission.Files.Paths.{
  IsApart, relative_to_split, relative_to-append, IsApart-path_eq, path_eq-append, path_eq→eq,
}
use swift_cidr_admission.Publication.Prepare.{is_relative_to, remove_tree, moved, rename}
use swift_cidr_admission.Capture.Keeping.{
  Holds, Holds-behind, Holds-rest, Holds-cons, node_at_here, node_at_later,
}

-- A path that is not below the folder is none of those below it.
not_below : (root q rest : FilePath) → relative_to root q ≡ none → path_eq q (root ++ rest) ≡ false
not_below root q rest h = elim (Bool-cases (path_eq q (root ++ rest))) [
  | inl e ↦
      let found : relative_to root q ≡ some rest =
        ap (relative_to root) (path_eq→eq q (root ++ rest) e) ∙ relative_to-append root rest in
      absurd (ground (arith, h, found))
  | inr e ↦ e
]

-- Nothing is left of a folder that is removed.
pub node_at-remove_tree :
    (root rest : FilePath) (fs : FileSystem) → node_at (root ++ rest) (remove_tree root fs) ≡ none
unfolding remove_tree is_relative_to node_at
node_at-remove_tree root rest [] = refl
node_at-remove_tree root rest ((q, m) ∷ fs) = elim (Option-cases (relative_to root q)) [
  | inl e ↦
      rw (e, remove_tree, is_relative_to)
        (node_at_later (root ++ rest) m q m (remove_tree root fs) (not_below root q rest e)
          ∙ node_at-remove_tree root rest fs)
  | inr (r, e) ↦ rw (e, remove_tree, is_relative_to) (node_at-remove_tree root rest fs)
]

module _ (p : FilePath) (n : Node) where
  path_eq_apart :
      (root q rest : FilePath)
      → IsApart root p
      → relative_to root q ≡ some rest
      → path_eq q p ≡ false
  path_eq_apart root q rest apart e =
      subst (λ x. path_eq x p ≡ false) (sym (relative_to_split root q rest e))
        (IsApart-path_eq root rest p apart)

  pub Holds-remove_tree :
      (root : FilePath) (fs : FileSystem)
      → IsApart root p
      → Holds p n fs
      → Holds p n (remove_tree root fs)
  unfolding remove_tree is_relative_to
  Holds-remove_tree root [] apart held = held
  Holds-remove_tree root ((q, m) ∷ fs) apart held = elim (Option-cases (relative_to root q)) [
    | inl e ↦
        rw (e, remove_tree, is_relative_to)
          (Holds-cons p n q m fs (remove_tree root fs) (Holds-remove_tree root fs apart) held)
    | inr (rest, e) ↦
        rw (e, remove_tree, is_relative_to)
          (Holds-remove_tree root fs apart
            (Holds-rest p n q m fs (path_eq_apart root q rest apart e) held))
  ]

  Holds-moved :
      (at destination : FilePath) (fs others : FileSystem)
      → IsApart destination p
      → Holds p n others
      → Holds p n (moved at destination fs ++ others)
  unfolding moved
  Holds-moved at destination [] others free held = held
  Holds-moved at destination ((q, m) ∷ fs) others free held =
      elim (Option-cases (relative_to at q)) [
        | inl e ↦ rw (e, moved) (Holds-moved at destination fs others free held)
        | inr (rest, e) ↦
            rw (e, moved)
              (Holds-behind p n (destination ++ rest) m (moved at destination fs ++ others)
                (IsApart-path_eq destination rest p free)
                (Holds-moved at destination fs others free held))
      ]

  pub Holds-rename :
      (at destination : FilePath) (fs : FileSystem)
      → IsApart at p
      → IsApart destination p
      → Holds p n fs
      → Holds p n (rename at destination fs)
  unfolding rename
  Holds-rename at destination fs apart free held =
      Holds-moved at destination fs (remove_tree at fs) free (Holds-remove_tree at fs apart held)

module _ (at destination rest : FilePath) (n : Node) where
  Holds-arrived :
      (fs others : FileSystem)
      → Holds (at ++ rest) n fs
      → Holds (destination ++ rest) n (moved at destination fs ++ others)
  unfolding moved node_at
  Holds-arrived [] others held = absurd (ground (arith, held))
  Holds-arrived ((q, m) ∷ fs) others held = elim (Option-cases (relative_to at q)) [
    | inl e ↦
        rw (e, moved)
          (Holds-arrived fs others (Holds-rest (at ++ rest) n q m fs (not_below at q rest e) held))
    | inr (r, e) ↦
        rw (e, moved)
          (let here : q ≡ at ++ r = relative_to_split at q r e in
            let same : path_eq (destination ++ r) (destination ++ rest) ≡ path_eq q (at ++ rest) =
              path_eq-append destination r rest
              ∙ (sym (path_eq-append at r rest) ∙ ap (λ x. path_eq x (at ++ rest)) (sym here)) in
            elim (Bool-cases (path_eq q (at ++ rest))) [
              | inl f ↦
                  node_at_here (destination ++ rest) n (destination ++ r) m
                    (moved at destination fs ++ others) (same ∙ f)
                  ∙ (sym (node_at_here (at ++ rest) n q m fs f) ∙ held)
              | inr f ↦
                  Holds-behind (destination ++ rest) n (destination ++ r) m
                    (moved at destination fs ++ others) (same ∙ f)
                    (Holds-arrived fs others (Holds-rest (at ++ rest) n q m fs f held))
            ])
  ]

  -- What stands below the folder stands below its new place.
  pub Holds-renamed :
      (fs : FileSystem)
      → Holds (at ++ rest) n fs
      → Holds (destination ++ rest) n (rename at destination fs)
  unfolding rename
  Holds-renamed fs held = Holds-arrived fs (remove_tree at fs) held
