-- ===== src/Capture/Keeping.antt =====
-- Actions that leave the node at a path as it is, on every outcome.
use swift_cidr_admission.Base.{
  ◌≡◌, refl, sym, ◌∙◌, ap, subst, Bool, true, false, Bool-cases, inl, inr, List, [], ◌∷◌, ◌++◌,
  codes, Result, ok, err, raise, os_error, Option, none, some, All, arith, if◌then◌else◌,
}
use swift_cidr_admission.Files.{
  FilePath, FileSystem, Node, folder, file, unreadable, link, path_eq, node_at,
}
use swift_cidr_admission.Files.Paths.{path_eq→eq}
use swift_cidr_admission.Runtime.{Bytes}
use swift_cidr_admission.Capture.World.{
  World, Action, ◌>=>◌, ◌>->◌, resume, for_each, parent, put_node, is_folder, make_folders,
  make_new_folder, write_bytes,
}

module _ (q : FilePath) (m : Node) (r : FilePath) (k : Node) (fs : FileSystem) where
  pub put_node_here : path_eq r q ≡ true → put_node q m ((r, k) ∷ fs) ≡ (r, m) ∷ fs
  unfolding put_node
  put_node_here e = rw (e, put_node) refl

  pub put_node_later : path_eq r q ≡ false → put_node q m ((r, k) ∷ fs) ≡ (r, k) ∷ put_node q m fs
  unfolding put_node
  put_node_later e = rw (e, put_node) refl

pub no_condition : {A : Type 0} (items : List A) → All (λ a. Unit {0}) items
no_condition [] = tt
no_condition (a ∷ items) = (tt, no_condition items)

module _ (p : FilePath) (n : Node) where
  -- The node stands at the path.
  abbrev pub Holds : FileSystem → Type 0
  Holds fs = node_at p fs ≡ some n

  abbrev pub HoldsAfter : Result (Unit {0}) × World → Type 0
  HoldsAfter outcome = Holds (outcome.1).fs

  -- The action leaves the node at the path, on every outcome.
  abbrev pub Keeps : {A : Type 0} → Action A → Type 0
  Keeps action = (w : World) → Holds w.fs → Holds ((action w).1).fs

  resume-Keeps :
      {A B : Type 0} (P : A → Type 0) (r : Result A) (next : A → Action B)
      → ((a : A) → r ≡ ok a → P a)
      → ((a : A) → P a → Keeps (next a))
      → Keeps (resume r next)
  resume-Keeps P (ok a) next h k w held = k a (h a refl) w held
  resume-Keeps P (err e) next h k w held = held

  pub Keeps-step :
      {A B : Type 0} (P : A → Type 0) (first : Action A) (next : A → Action B)
      → ((w : World) (a : A) → (first w).0 ≡ ok a → P a)
      → Keeps first
      → ((a : A) → P a → Keeps (next a))
      → Keeps (first >=> next)
  unfolding ◌>=>◌
  Keeps-step P first next h j k w held =
      resume-Keeps P ((first w).0) next (h w) k ((first w).1) (j w held)

  pub Keeps-then :
      {A B : Type 0} (first : Action A) (next : Action B)
      → Keeps first
      → Keeps next
      → Keeps (first >-> next)
  unfolding ◌>->◌
  Keeps-then first next j k w held =
      resume-Keeps (λ a. Unit {0}) ((first w).0) (λ a. next) (λ a e. tt) (λ a t. k) ((first w).1)
        (j w held)

  pub Keeps-for_each :
      {A : Type 0} (P : A → Type 0) (items : List A) (body : A → Action (Unit {0}))
      → All P items
      → ((a : A) → P a → Keeps (body a))
      → Keeps (for_each items body)
  unfolding for_each
  Keeps-for_each P [] body h k = λ w held. held
  Keeps-for_each P (a ∷ items) body h k =
      Keeps-then (body a) (for_each items body) (k a (h.0)) (Keeps-for_each P items body (h.1) k)

  module _ (q : FilePath) (m : Node) where
    pub node_at_here : (fs : FileSystem) → path_eq q p ≡ true → node_at p ((q, m) ∷ fs) ≡ some m
    unfolding node_at
    node_at_here fs e = rw (e, node_at) refl

    pub node_at_later :
        (fs : FileSystem) → path_eq q p ≡ false → node_at p ((q, m) ∷ fs) ≡ node_at p fs
    unfolding node_at
    node_at_later fs e = rw (e, node_at) refl

    -- Another entry in front changes nothing.
    pub Holds-behind : (fs : FileSystem) → path_eq q p ≡ false → Holds fs → Holds ((q, m) ∷ fs)
    Holds-behind fs e held = node_at_later fs e ∙ held

    pub Holds-rest : (fs : FileSystem) → path_eq q p ≡ false → Holds ((q, m) ∷ fs) → Holds fs
    Holds-rest fs e held = sym (node_at_later fs e) ∙ held

    pub Holds-cons :
        (fs changed : FileSystem)
        → (Holds fs → Holds changed)
        → Holds ((q, m) ∷ fs)
        → Holds ((q, m) ∷ changed)
    Holds-cons fs changed h held = elim (Bool-cases (path_eq q p)) [
      | inl e ↦ node_at_here changed e ∙ (sym (node_at_here fs e) ∙ held)
      | inr e ↦ Holds-behind changed e (h (Holds-rest fs e held))
    ]

  pub Holds-put_node :
      (q : FilePath) (m : Node) (fs : FileSystem)
      → path_eq q p ≡ false
      → Holds fs
      → Holds (put_node q m fs)
  unfolding put_node
  Holds-put_node q m [] other held = Holds-behind q m [] other held
  Holds-put_node q m ((r, k) ∷ fs) other held = elim (Bool-cases (path_eq r q)) [
    | inl e ↦
        let apart : path_eq r p ≡ false =
          subst (λ x. path_eq x p ≡ false) (sym (path_eq→eq r q e)) other in
        subst Holds (sym (put_node_here q m r k fs e))
          (Holds-behind r m fs apart (Holds-rest r k fs apart held))
    | inr e ↦
        subst Holds (sym (put_node_later q m r k fs e))
          (Holds-cons r k fs (put_node q m fs) (Holds-put_node q m fs other) held)
  ]

  -- A path where no node stands is another one.
  absent_elsewhere :
      (q : FilePath) (fs : FileSystem) → node_at q fs ≡ none → Holds fs → path_eq q p ≡ false
  absent_elsewhere q fs absent held = elim (Bool-cases (path_eq q p)) [
    | inl e ↦
        let there : node_at q fs ≡ some n = ap (λ x. node_at x fs) (path_eq→eq q p e) ∙ held in
        absurd (ground (arith, absent, there))
    | inr e ↦ e
  ]

  make_folders_turn :
      (here path : FilePath) (o : Option Node) (w : World)
      → node_at here w.fs ≡ o
      → Keeps (make_folders here path)
      → Holds w.fs
      → HoldsAfter (elim o [
        | none ↦ make_folders here path (record w { fs = put_node here folder w.fs })
        | some folder ↦ make_folders here path w
        | some _ ↦ (raise os_error (codes "Not a directory"), w)
      ])
  make_folders_turn here path none w e keeps held =
      keeps (record w { fs = put_node here folder w.fs })
        (Holds-put_node here folder w.fs (absent_elsewhere here w.fs e held) held)
  make_folders_turn here path (some folder) w e keeps held = keeps w held
  make_folders_turn here path (some (file bytes)) w e keeps held = held
  make_folders_turn here path (some unreadable) w e keeps held = held
  make_folders_turn here path (some (link alive)) w e keeps held = held

  pub Keeps-make_folders : (at path : FilePath) → Keeps (make_folders at path)
  unfolding make_folders
  Keeps-make_folders at [] = λ w held. held
  Keeps-make_folders at (part ∷ path) = λ w held.
      let here = at ++ (part ∷ []) in
      make_folders_turn here path (node_at here w.fs) w refl (Keeps-make_folders here path) held

  make_new_folder_turn :
      (path : FilePath) (o : Option Node) (w : World)
      → Holds w.fs
      → HoldsAfter (elim o [
        | some k ↦ (raise os_error (codes "File exists"), w)
        | none ↦ make_folders [] path w
      ])
  make_new_folder_turn path none w held = Keeps-make_folders [] path w held
  make_new_folder_turn path (some k) w held = held

  pub Keeps-make_new_folder : (path : FilePath) → Keeps (make_new_folder path)
  unfolding make_new_folder
  Keeps-make_new_folder path w held = make_new_folder_turn path (node_at path w.fs) w held

  write_turn :
      (path : FilePath) (bytes : Bytes) (is_there can_write : Bool) (w : World)
      → path_eq path p ≡ false
      → Holds w.fs
      → HoldsAfter (
          if is_there
          then (raise os_error (codes "Is a directory"), w)
          else if can_write
          then (ok tt, record w { fs = put_node path (file bytes) w.fs })
          else (raise os_error (codes "No such file or directory"), w))
  write_turn path bytes true can_write w other held = held
  write_turn path bytes false true w other held = Holds-put_node path (file bytes) w.fs other held
  write_turn path bytes false false w other held = held

  pub Keeps-write_bytes :
      (path : FilePath) (bytes : Bytes) → path_eq path p ≡ false → Keeps (write_bytes path bytes)
  unfolding write_bytes
  Keeps-write_bytes path bytes other w held =
      write_turn path bytes (is_folder path w.fs) (is_folder (parent path) w.fs) w other held
