-- ===== src/Capture/Reading.antt =====
-- What the actions that only read give, and that they change nothing.
use swift_cidr_admission.Base.{
  ℕ, ok-injective, ◌≡◌, sym, ◌∙◌, ap, subst, List, [], ◌∷◌, Text, Result, ok, ◌>>=◌, All,
}
use swift_cidr_admission.Json.{Json}
use swift_cidr_admission.Files.{FilePath, FileSystem, node_at}
use swift_cidr_admission.Runtime.{Runtime}
use swift_cidr_admission.Capture.World.{
  World, Action, pure, lift, for_each, read_json, read_text, read_bytes, sha, file_bytes,
}
use swift_cidr_admission.Capture.Inversion.{step_inversion, then_inversion}

-- The JSON value that a file holds.
abbrev pub json_at : Runtime → List Text → FileSystem → Result Json
json_at rt path fs = file_bytes (node_at path fs) >>= rt.decode >>= rt.json_loads

-- Reading a file of JSON gives what it holds, and changes nothing.
pub read_json_lem :
    (rt : Runtime) (path : List Text) (w : World) {v : Json} {w' : World}
    → read_json rt path w ≡ (ok v, w')
    → (json_at rt path w.fs ≡ ok v) × (w ≡ w')
unfolding read_json read_text read_bytes
read_json_lem rt path w {v} h =
    let (text, w1, p, k) =
      step_inversion (read_text rt path) (λ text. lift (rt.json_loads text)) w h in
    let (bytes, w2, q, l) =
      step_inversion (read_bytes path) (λ bytes. lift (rt.decode bytes)) w p in
    (
      ap (λ r. r >>= rt.decode >>= rt.json_loads) (ap (λ r. r.0) q)
          ∙ (ap (λ r. r >>= rt.json_loads) (ap (λ r. r.0) l) ∙ ap (λ r. r.0) k),
      ap (λ r. r.1) q ∙ (ap (λ r. r.1) l ∙ ap (λ r. r.1) k),
    )

pub sha_lem :
    (rt : Runtime) (path : FilePath) (w : World) {d : Text} {w' : World}
    → sha rt path w ≡ (ok d, w')
    → (bytes : List ℕ) × (file_bytes (node_at path w.fs) ≡ ok bytes)
      × (rt.sha256 bytes ≡ d)
      × (w ≡ w')
unfolding sha read_bytes
sha_lem rt path w h =
    let (bytes, w1, p, k) =
      step_inversion (read_bytes path) (λ bytes. pure (rt.sha256 bytes)) w h in
    (bytes, ap (λ r. r.0) p, ok-injective (ap (λ r. r.0) k), ap (λ r. r.1) p ∙ ap (λ r. r.1) k)

-- A loop whose turns check something and change nothing has checked it for all items.
pub for_each_sound :
    {A : Type 0} (P : FileSystem → A → Type 0) (body : A → Action (Unit {0}))
    (each : (x : A) (w w' : World) → body x w ≡ (ok tt, w') → P w.fs x × (w ≡ w')) (xs : List A)
    (w : World) {w' : World}
    → for_each xs body w ≡ (ok tt, w')
    → All (P w.fs) xs × (w ≡ w')
unfolding for_each
for_each_sound P body each [] w h = (tt, ap (λ r. r.1) h)
for_each_sound P body each (x ∷ xs) w h =
    let (_, w1, p, k) = then_inversion (body x) (for_each xs body) w h in
    let (now, e) = each x w w1 p in
    let (rest, f) = for_each_sound P body each xs w1 k in
    ((now, subst (λ v. All (P v.fs) xs) (sym e) rest), e ∙ f)
