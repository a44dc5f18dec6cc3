-- ===== src/Capture/Workspace/Account.antt =====
-- What each check of a workspace, in prepare.py and in rerun.py, makes sure of.
use swift_cidr_admission.Base.{
  ◌≡◌, refl, sym, ◌∙◌, ap, subst, Bool, true, false, not, String, bind_inversion, ◌&&◌, List, [],
  ◌∷◌, ◌++◌, Text, codes, ok, ◌>>=◌, if◌then◌else◌, inl, inr, ℕ, ◌⊎◌, ok-injective, &&_split,
}
use swift_cidr_admission.Json.{
  Json, Members, object, member, end, string, array, field, iterate, to_items,
}
use swift_cidr_admission.Files.{FilePath, FileSystem, node_at}
use swift_cidr_admission.Runtime.{Runtime}
use swift_cidr_admission.Capture.World.{World, affirm, read_json, sha, file_bytes, path_text}
use swift_cidr_admission.Capture.Reading.{json_at, read_json_lem, sha_lem, for_each_sound}
use swift_cidr_admission.Capture.Inversion.{
  affirm_end, step_inversion, lift_inversion, affirm_inversion,
}
use swift_cidr_admission.Capture.Shell.{under, occurs_in}
use swift_cidr_admission.Base.Strings.{starts_with, text_eq}
use swift_cidr_admission.Capture.Workspace.Equality.{
  Same, json_eq-Same, json_eq_string, string-json_eq,
}
use swift_cidr_admission.Capture.Workspace.Records.{
  KeepsOthers, other_pins-KeepsOthers, IsDependency, edited_of-IsDependency, AllMembers,
  entries_sound, benchmark_lock, root_lock, is_lock_sound,
}
use swift_cidr_admission.Capture.Workspace.{
  json_eq, entries, edited_of, edited_state, other_pins, revision, revision_of, is_lock,
  original_of, check_pins, check_source, check_sources, check_edited,
}

-- The recorded digest is that of the file.
abbrev pub HasDigest : Runtime → FileSystem → FilePath → Json → Type 0
HasDigest rt fs path checksum =
    (bytes : List ℕ) × (file_bytes (node_at path fs) ≡ ok bytes)
    × (checksum ≡ string (rt.sha256 bytes))

-- The pins of the lock file are those of the file of recorded dependencies, in their order, less those of swift-cidr.
abbrev pub HasOtherPins : Runtime → FileSystem → FilePath → FilePath → Type 0
HasOtherPins rt fs recorded lock =
    (original : Json) × (effective : Json) × (pins : Json) × (all : List Json) × (kept : List Json)
    × (json_at rt recorded fs ≡ ok original)
    × ((field (codes "pins") original >>= iterate) ≡ ok all)
    × KeepsOthers all kept
    × (json_at rt lock fs ≡ ok effective)
    × (field (codes "pins") effective ≡ ok pins)
    × Same pins (array (to_items kept))

abbrev pub dependencies_of : FilePath → String → FilePath
dependencies_of out name = out ++ (codes name ∷ [])

abbrev pub IsRecorded : Runtime → FilePath → FilePath → FileSystem → Text × Json → Type 0
IsRecorded rt out root fs (rel, checksum) =
    HasDigest rt fs (under root rel) checksum
    ⊎ (((rel ≡ benchmark_lock)
          × HasOtherPins rt fs (dependencies_of out "original-benchmark-dependencies.json")
              (under root rel))
        ⊎ ((rel ≡ root_lock)
            × HasOtherPins rt fs (dependencies_of out "original-root-dependencies.json")
                (under root rel)))

abbrev pub sources_file : FilePath → Text → FilePath
sources_file out variant = out ++ ((variant ++ codes "-sources.json") ∷ [])

abbrev pub state_file : FilePath → Text → FilePath
state_file root folder =
    under root (codes "swift-cidr-admission/" ++ (folder ++ codes "/.build/workspace-state.json"))

-- Every member of the variant's file of sources is as it was recorded.
abbrev pub SourcesRecorded : Runtime → FilePath → FilePath → FileSystem → Text → Type 0
SourcesRecorded rt out root fs variant =
    (sources : Members) × (json_at rt (sources_file out variant) fs ≡ ok (object sources))
    × AllMembers (IsRecorded rt out root fs) sources

-- The first dependency of the package's state that is swift-cidr is the checkout below the root, edited, and based on the base commit.
abbrev pub IsEdited : Runtime → FilePath → FileSystem → Text → Json → Type 0
IsEdited rt root fs folder state =
    (edited : Json) × (now : Json) × (json_at rt (state_file root folder) fs ≡ ok state)
    × IsDependency state edited
    × (field (codes "state") edited ≡ ok now)
    × Same now (
        object (
          member (codes "name") (string (codes "edited"))
            (member (codes "path") (string (path_text (under root (codes "swift-cidr")))) end)))
    × ((field (codes "basedOn") edited
          >>= field (codes "state")
          >>= field (codes "checkoutState")
          >>= field (codes "revision"))
        ≡ ok (string (codes "cdc2e592beb9095875bc42fc4c269396b20d99e3")))

module _ (rt : Runtime) (out root : FilePath) where
  check_pins_sound :
      (rel : Text) (w : World) {w' : World}
      → check_pins rt out root rel w ≡ (ok tt, w')
      → HasOtherPins rt w.fs (original_of rt out root rel) (under root rel) × (w ≡ w')
  unfolding check_pins
  check_pins_sound rel w h =
      let (original, w1, p, h1) =
        step_inversion (read_json rt (original_of rt out root rel)) _ w h in
      let (effective, w2, q, h2) = step_inversion (read_json rt (under root rel)) _ w1 h1 in
      let (pins, e, h3) = lift_inversion (field (codes "pins") effective) _ w2 h2 in
      let (kept, k, h4) =
        lift_inversion (field (codes "pins") original >>= iterate >>= other_pins) _ w2 h3 in
      let (all, a, o) = bind_inversion (field (codes "pins") original >>= iterate) other_pins k in
      let first = read_json_lem rt (original_of rt out root rel) w p in
      let second = read_json_lem rt (under root rel) w1 q in
      let last = affirm_end (json_eq pins (array (to_items kept))) [] w2 h4 in
      (
        (
          original,
          effective,
          pins,
          all,
          kept,
          first.0,
          a,
          other_pins-KeepsOthers all o,
          subst (λ v. json_at rt (under root rel) v.fs ≡ ok effective) (sym (first.1)) (second.0),
          e,
          json_eq-Same pins (array (to_items kept)) (last.0),
        ),
        first.1 ∙ (second.1 ∙ last.1),
      )

  original_of-benchmark_lock :
      original_of rt out root benchmark_lock
      ≡ dependencies_of out "original-benchmark-dependencies.json"
  unfolding original_of occurs_in starts_with text_eq
  original_of-benchmark_lock = refl

  original_of-root_lock :
      original_of rt out root root_lock ≡ dependencies_of out "original-root-dependencies.json"
  unfolding original_of occurs_in starts_with text_eq
  original_of-root_lock = refl

  lock-IsRecorded :
      (fs : FileSystem) (rel : Text) (checksum : Json)
      → (rel ≡ benchmark_lock) ⊎ (rel ≡ root_lock)
      → HasOtherPins rt fs (original_of rt out root rel) (under root rel)
      → IsRecorded rt out root fs (rel, checksum)
  lock-IsRecorded fs rel checksum (inl e) pins = inr (
      inl (
        e,
        subst (λ o. HasOtherPins rt fs o (under root rel))
            (ap (original_of rt out root) e ∙ original_of-benchmark_lock) pins,
      ))
  lock-IsRecorded fs rel checksum (inr e) pins = inr (
      inr (
        e,
        subst (λ o. HasOtherPins rt fs o (under root rel))
            (ap (original_of rt out root) e ∙ original_of-root_lock) pins,
      ))

  source_round :
      (rel : Text) (checksum : Json) (digest : Text) (pinned : Bool) (w : World) {w' : World}
      → ((is_lock rel && not (json_eq (string digest) checksum)) ≡ pinned)
      → (if pinned
            then check_pins rt out root rel
            else affirm (json_eq (string digest) checksum) rel)
          w
        ≡ (ok tt, w')
      → ((checksum ≡ string digest) ⊎ IsRecorded rt out root w.fs (rel, checksum)) × (w ≡ w')
  source_round rel checksum digest true w e h =
      let (pins, kept) = check_pins_sound rel w h in
      let lock = (&&_split (is_lock rel) (not (json_eq (string digest) checksum)) e).0 in
      (inr (lock-IsRecorded w.fs rel checksum (is_lock_sound rel lock) pins), kept)
  source_round rel checksum digest false w e h =
      let (same, kept) = affirm_end (json_eq (string digest) checksum) rel w h in
      (inl (string-json_eq digest checksum same), kept)

  check_source_sound :
      (entry : Text × Json) (w w' : World)
      → check_source rt out root entry w ≡ (ok tt, w')
      → IsRecorded rt out root w.fs entry × (w ≡ w')
  unfolding check_source
  check_source_sound (rel, checksum) w w' h =
      let (digest, w1, p, k) = step_inversion (sha rt (under root rel)) _ w h in
      let (bytes, read, d, e) = sha_lem rt (under root rel) w p in
      let (cases, f) = source_round rel checksum digest _ w1 refl k in
      (
        elim cases [
          | inl same ↦ inl (bytes, read, same ∙ ap string (sym d))
          | inr recorded ↦ subst (λ v. IsRecorded rt out root v.fs (rel, checksum)) (sym e) recorded
        ],
        e ∙ f,
      )

  pub check_sources_sound :
      (variant : Text) (w : World) {w' : World}
      → check_sources rt out root variant w ≡ (ok tt, w')
      → SourcesRecorded rt out root w.fs variant × (w ≡ w')
  unfolding check_sources
  check_sources_sound variant w h =
      let (expected, w1, p, h1) = step_inversion (read_json rt (sources_file out variant)) _ w h in
      let (sources, q, h2) = lift_inversion (entries expected) _ w1 h1 in
      let read = read_json_lem rt (sources_file out variant) w p in
      let (all, e) =
        for_each_sound (IsRecorded rt out root) (check_source rt out root) check_source_sound
          sources w1 h2 in
      let (members, is_object, each) =
        entries_sound (IsRecorded rt out root w1.fs) expected q all in
      (
        (
          members,
          read.0 ∙ ap ok is_object,
          subst (λ v. AllMembers (IsRecorded rt out root v.fs) members) (sym (read.1)) each,
        ),
        read.1 ∙ e,
      )

  pub check_edited_sound :
      (folder : Text) (w : World) {state : Json} {w' : World}
      → check_edited rt out root folder w ≡ (ok state, w')
      → IsEdited rt root w.fs folder state × (w ≡ w')
  unfolding check_edited edited_state revision_of
  check_edited_sound folder w h =
      let (state, w1, p, h1) = step_inversion (read_json rt (state_file root folder)) _ w h in
      let (edited, e, h2) = lift_inversion (edited_of state) _ w1 h1 in
      let (now, s, h3) = lift_inversion (field (codes "state") edited) _ w1 h2 in
      let (same, h4) =
        affirm_inversion (json_eq now (edited_state (under root (codes "swift-cidr")))) _ _ w1 h3 in
      let (base, b, h5) = lift_inversion (revision_of edited) _ w1 h4 in
      let (same', h6) = affirm_inversion (json_eq base revision) _ _ w1 h5 in
      let read = read_json_lem rt (state_file root folder) w p in
      (
        (
          edited,
          now,
          subst (λ s. json_at rt (state_file root folder) w.fs ≡ ok s)
              (ok-injective (ap (λ r. r.0) h6)) (read.0),
          subst (λ s. IsDependency s edited) (ok-injective (ap (λ r. r.0) h6))
              (edited_of-IsDependency state e),
          s,
          json_eq-Same now (edited_state (under root (codes "swift-cidr"))) same,
          b ∙ ap ok (json_eq_string base (codes "cdc2e592beb9095875bc42fc4c269396b20d99e3") same'),
        ),
        read.1 ∙ ap (λ r. r.1) h6,
      )
