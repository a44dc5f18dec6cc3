-- ===== src/Capture/Workspace.antt =====
-- `check_workspace` of prepare.py and of rerun.py: the sources, the dependencies and the binaries of a
-- variant are what was recorded.
pub mod Equality
pub mod Records
pub mod Account
pub mod Soundness
use mathlib.Core.Option.{Option, none, some}
use swift_cidr_admission.Base.{
  Bool, true, false, not, ◌&&◌, ◌||◌, ◌==◌, List, [], ◌∷◌, ◌++◌, Text, codes, text_eq, Result, ok,
  err, raise, stop_iteration, type_error, ◌>>=◌, if◌then◌else◌, any,
}
use swift_cidr_admission.Base.Dict.{Dict}
use swift_cidr_admission.Json.{
  Json, Items, Members, null, boolean, number, string, array, object, nil, cons, end, member, count,
  get_key, field, iterate, to_items,
}
use swift_cidr_admission.Files.{FilePath}
use swift_cidr_admission.Runtime.{Runtime}
use swift_cidr_admission.Capture.World.{
  Action, ◌>=>◌, ◌>->◌, pure, lift, affirm, for_each, read_json, sha, path_text,
}
use swift_cidr_admission.Capture.Shell.{occurs_in, under}

bool_eq : Bool → Bool → Bool
bool_eq true b = b
bool_eq false b = not b

unfoldable mutual
  unfolding bool_eq

  -- a == b, numbers by their literals
  pub json_eq : Json → Json → Bool
  json_eq null null = true
  json_eq (boolean a) (boolean b) = bool_eq a b
  json_eq (number a) (number b) = text_eq a b
  json_eq (string a) (string b) = text_eq a b
  json_eq (array a) (array b) = items_eq a b
  json_eq (object m) (object n) = count m == count n && members_within m n
  json_eq _ _ = false

  items_eq : Items → Items → Bool
  items_eq nil nil = true
  items_eq (cons a vs) (cons b ws) = json_eq a b && items_eq vs ws
  items_eq _ _ = false

  -- The order of the keys does not count.
  members_within : Members → Members → Bool
  members_within end n = true
  members_within (member k v m) n =
      elim (get_key k n) [ some w ↦ json_eq v w | none ↦ false ] && members_within m n

-- value.items()
unfoldable pub entries : Json → Result (Dict Json)
entries (object end) = ok []
entries (object (member k v m)) = entries (object m) >>= λ rest. ok ((k, v) ∷ rest)
entries _ = raise type_error (codes "object has no attribute 'items'")

-- The first dependency that is swift-cidr.
find_edited : List Json → Result Json
find_edited [] = raise stop_iteration []
find_edited (d ∷ ds) =
    let rest = find_edited ds in
    field (codes "packageRef") d >>= field (codes "identity") >>= λ identity.
    if json_eq identity (string (codes "swift-cidr")) then ok d else rest

unfoldable pub edited_of : Json → Result Json
unfolding find_edited
edited_of state =
    field (codes "object") state >>= field (codes "dependencies") >>= iterate >>= find_edited

-- [p for p in pins if p['identity'] != 'swift-cidr']
unfoldable pub other_pins : List Json → Result (List Json)
other_pins [] = ok []
other_pins (p ∷ ps) =
    let rest = other_pins ps in
    field (codes "identity") p >>= λ identity.
    rest >>= λ pins. ok (if json_eq identity (string (codes "swift-cidr")) then pins else p ∷ pins)

-- {'name': 'edited', 'path': path}
unfoldable pub edited_state : FilePath → Json
edited_state path = object (
    member (codes "name") (string (codes "edited"))
      (member (codes "path") (string (path_text path)) end))

abbrev pub revision : Json
revision = string (codes "cdc2e592beb9095875bc42fc4c269396b20d99e3")

-- The names of the files of pins, which SwiftPM rewrites.
unfoldable pub is_lock : Text → Bool
is_lock rel =
    text_eq rel (codes "swift-cidr-admission/Benchmarks/Package.resolved")
    || text_eq rel (codes "swift-cidr-admission/Package.resolved")

unfoldable pub revision_of : Json → Result Json
revision_of edited =
    field (codes "basedOn") edited
    >>= field (codes "state")
    >>= field (codes "checkoutState")
    >>= field (codes "revision")

module _ (rt : Runtime) (out root : FilePath) where
  -- The recorded dependencies of the folder.
  unfoldable pub original_of : Text → FilePath
  original_of rel =
      out
      ++ ((codes "original-"
            ++ ((if occurs_in (codes "/Benchmarks/") rel then codes "benchmark" else codes "root")
                ++ codes "-dependencies.json"))
          ∷ [])

  unfoldable pub check_pins : Text → Action (Unit {0})
  check_pins rel = read_json rt (original_of rel) >=> λ original.
      read_json rt (under root rel) >=> λ effective.
      lift (field (codes "pins") effective) >=> λ pins.
      lift (field (codes "pins") original >>= iterate >>= other_pins) >=> λ kept.
      affirm (json_eq pins (array (to_items kept))) []

  -- One turn of the loop over the recorded sources.
  unfoldable pub check_source : Text × Json → Action (Unit {0})
  unfolding check_pins
  check_source (rel, checksum) = sha rt (under root rel) >=> λ digest.
      if is_lock rel && not (json_eq (string digest) checksum)
      then check_pins rel
      else affirm (json_eq (string digest) checksum) rel

  unfoldable pub check_sources : Text → Action (Unit {0})
  check_sources variant =
      read_json rt (out ++ ((variant ++ codes "-sources.json") ∷ [])) >=> λ expected.
      lift (entries expected) >=> λ sources. for_each sources check_source

  -- The folder in the folder `folder` uses the edited checkout at the base commit.
  unfoldable pub check_edited : Text → Action Json
  check_edited folder =
      read_json rt (
        under root
          (codes "swift-cidr-admission/" ++ (folder ++ codes "/.build/workspace-state.json")))
      >=> λ state. lift (edited_of state) >=> λ edited.
          lift (field (codes "state") edited) >=> λ now.
          affirm (json_eq now (edited_state (under root (codes "swift-cidr")))) []
          >-> (lift (revision_of edited) >=> λ base.
              affirm (json_eq base revision) [] >-> pure state)

-- One turn of the loop over the recorded binaries, whose paths are absolute.
unfoldable pub check_binary : Runtime → Text × Json → Action (Unit {0})
check_binary rt (path, checksum) =
    sha rt (under [] path) >=> λ digest. affirm (json_eq (string digest) checksum) path

-- check_workspace of rerun.py, where every variant has its own root.
unfoldable pub check_variant :
    Runtime → FilePath → (Text → Result FilePath) → Text → Action (Unit {0})
check_variant rt out root_of variant = lift (root_of variant) >=> λ root.
    check_sources rt out root variant
    >-> (check_edited rt out root (codes "Benchmarks") >=> λ state.
        read_json rt (out ++ (codes "binaries.json" ∷ [])) >=> λ binaries.
        lift (entries binaries) >=> λ paths. for_each paths (check_binary rt))

-- check_workspace of prepare.py
unfoldable pub check_package : Runtime → FilePath → Text → Text → Action Json
check_package rt work variant folder =
    let root = work ++ (variant ∷ []) in
    let out = work ++ (codes "evidence" ∷ []) in
    check_edited rt out root folder >=> λ state. check_sources rt out root variant >-> pure state
