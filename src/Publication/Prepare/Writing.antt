-- ===== src/Publication/Prepare/Writing.antt =====
-- The loop of `prepare` that writes the files of a publication.
use swift_cidr_admission.Base.{
  ◌≡◌, refl, sym, ◌∙◌, ap, subst, Bool, true, false, Bool-cases, inl, inr, List, [], ◌∷◌, ◌++◌,
  Text, text_eq_refl, Result, ok, some, All, arith, raise, os_error, codes, if◌then◌else◌,
}
use swift_cidr_admission.Base.Dict.{Dict}
use swift_cidr_admission.Files.{FilePath, FileSystem, file, path_eq, node_at}
use swift_cidr_admission.Files.Paths.{path_eq-append}
use swift_cidr_admission.Runtime.{Runtime, Bytes}
use swift_cidr_admission.Publication.Bundle.Names.{IsRelative, AreRelative}
use swift_cidr_admission.Publication.Prepare.{stage_file}
use swift_cidr_admission.Capture.World.{
  World, for_each, parent, put_node, is_folder, make_folders, write_bytes,
}
use swift_cidr_admission.Capture.Shell.{under}
use swift_cidr_admission.Capture.Inversion.{then_inversion}
use swift_cidr_admission.Files.{Node}
use swift_cidr_admission.Capture.Keeping.{
  Holds, Keeps, Keeps-then, Keeps-for_each, Keeps-make_folders, Keeps-write_bytes, node_at_here,
  node_at_later, put_node_here, put_node_later,
}

path_eq_refl : (p : FilePath) → path_eq p p ≡ true
unfolding path_eq
path_eq_refl [] = refl
path_eq_refl (c ∷ p) = rw (text_eq_refl c) (path_eq_refl p)

Holds-put_node_here : (p : FilePath) (n : Node) (fs : FileSystem) → Holds p n (put_node p n fs)
unfolding put_node
Holds-put_node_here p n [] = node_at_here p n p n [] (path_eq_refl p)
Holds-put_node_here p n ((q, m) ∷ fs) = elim (Bool-cases (path_eq q p)) [
  | inl e ↦ subst (Holds p n) (sym (put_node_here p n q m fs e)) (node_at_here p n q n fs e)
  | inr e ↦
      subst (Holds p n) (sym (put_node_later p n q m fs e))
        (node_at_later p n q m (put_node p n fs) e ∙ Holds-put_node_here p n fs)
]

write_bytes_turn :
    (path : FilePath) (bytes : Bytes) (is_there can_write : Bool) (w : World) {w' : World}
    → ◌≡◌ {A = Result (Unit {0}) × World}
        (if is_there
          then (raise os_error (codes "Is a directory"), w)
          else if can_write
          then (ok tt, record w { fs = put_node path (file bytes) w.fs })
          else (raise os_error (codes "No such file or directory"), w))
        (ok tt, w')
    → Holds path (file bytes) w'.fs
write_bytes_turn path bytes true can_write w h = absurd (ground (arith, h))
write_bytes_turn path bytes false true w h =
    subst (Holds path (file bytes)) (ap (λ r. (r.1).fs) h)
      (Holds-put_node_here path (file bytes) w.fs)
write_bytes_turn path bytes false false w h = absurd (ground (arith, h))

-- The file is there when it has been written.
write_bytes-Holds :
    (path : FilePath) (bytes : Bytes) (w : World) {w' : World}
    → write_bytes path bytes w ≡ (ok tt, w')
    → Holds path (file bytes) w'.fs
unfolding write_bytes
write_bytes-Holds path bytes w h =
    write_bytes_turn path bytes (is_folder path w.fs) (is_folder (parent path) w.fs) w h

pub under_relative :
    (at : FilePath) (name : Text) → IsRelative name → under at name ≡ at ++ under [] name
unfolding under
under_relative at name relative = rw (relative, under) refl

-- No two names of the dictionary are of the same path.
abbrev pub HaveDistinctPaths : Dict Bytes → Type 0
HaveDistinctPaths [] = Unit
HaveDistinctPaths (e ∷ output) =
    All (λ other. path_eq (under [] other.0) (under [] e.0) ≡ false) output
    × HaveDistinctPaths output

-- Every file of the dictionary stands below the folder, with its bytes.
abbrev pub AreThere : FilePath → FileSystem → Dict Bytes → Type 0
AreThere at fs output = All (λ e. node_at (under at e.0) fs ≡ some (file e.1)) output

All-both :
    {A : Type 0} (P Q : A → Type 0) (xs : List A) → All P xs → All Q xs → All (λ x. P x × Q x) xs
All-both P Q [] p q = tt
All-both P Q (x ∷ xs) p q = ((p.0, q.0), All-both P Q xs (p.1) (q.1))

distinct_below :
    (at : FilePath) (one other : Text)
    → IsRelative one
    → IsRelative other
    → path_eq (under [] one) (under [] other) ≡ false
    → path_eq (under at one) (under at other) ≡ false
distinct_below at one other h k e =
    ap (λ p. path_eq p (under at other)) (under_relative at one h)
    ∙ (ap (path_eq (at ++ under [] one)) (under_relative at other k)
        ∙ (path_eq-append at (under [] one) (under [] other) ∙ e))

module _ (rt : Runtime) (readme : Text) (resolve : FileSystem → FilePath → FilePath)
    (source destination : FilePath) where
  pub Keeps-stage_file :
      (p : FilePath) (n : Node) (at : FilePath) (item : Text × Bytes)
      → path_eq (under at (item.0)) p ≡ false
      → Keeps p n (stage_file rt readme resolve source destination at item)
  unfolding stage_file
  Keeps-stage_file p n at (name, bytes) other =
      Keeps-then p n (make_folders [] (parent (under at name))) (write_bytes (under at name) bytes)
        (Keeps-make_folders p n [] (parent (under at name)))
        (Keeps-write_bytes p n (under at name) bytes other)

  stage_file-Holds :
      (at : FilePath) (name : Text) (bytes : Bytes) (w : World) {w' : World}
      → stage_file rt readme resolve source destination at (name, bytes) w ≡ (ok tt, w')
      → Holds (under at name) (file bytes) w'.fs
  unfolding stage_file
  stage_file-Holds at name bytes w h =
      let (_, w1, _, k) =
        then_inversion (make_folders [] (parent (under at name)))
          (write_bytes (under at name) bytes) w h in
      write_bytes-Holds (under at name) bytes w1 k

  -- After the loop every file is there, since none is written over.
  pub for_each-AreThere :
      (at : FilePath) (output : Dict Bytes) (w : World) {w' : World}
      → AreRelative output
      → HaveDistinctPaths output
      → for_each output (stage_file rt readme resolve source destination at) w ≡ (ok tt, w')
      → AreThere at w'.fs output
  unfolding for_each
  for_each-AreThere at [] w relative distinct h = tt
  for_each-AreThere at ((name, bytes) ∷ output) w relative distinct h =
      let body = stage_file rt readme resolve source destination at in
      let (_, w1, p, q) = then_inversion (body (name, bytes)) (for_each output body) w h in
      let P = λ (e : Text × Bytes).
        IsRelative (e.0) × (path_eq (under [] (e.0)) (under [] name) ≡ false) in
      let kept : Holds (under at name) (file bytes) ((for_each output body w1).1).fs =
        Keeps-for_each (under at name) (file bytes) P output body
          (All-both (λ e. IsRelative (e.0)) (λ e. path_eq (under [] (e.0)) (under [] name) ≡ false)
            output (relative.1) (distinct.0))
          (λ item h.
            Keeps-stage_file (under at name) (file bytes) at item
              (distinct_below at (item.0) name (h.0) (relative.0) (h.1)))
          w1 (stage_file-Holds at name bytes w p) in
      (
        subst (λ fs. Holds (under at name) (file bytes) fs) (ap (λ r. (r.1).fs) q) kept,
        for_each-AreThere at output w1 (relative.1) (distinct.1) q,
      )
