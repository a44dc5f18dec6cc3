-- ===== src/Publication/Transform/Safety.antt =====
-- What `transform` never lets through, and what it leaves alone.
use swift_cidr_admission.Base.{
  ◌≡◌, refl, ap, text_eq_refl, ok, Text, Result, codes, text_eq, text_eq_iff, ◌>>=◌, bind_inversion,
  false, if◌then◌else◌, Bool-cases, inl, inr, arith, ◌>>◌,
}
use swift_cidr_admission.Regex.{search}
use swift_cidr_admission.Regex.Relation.{sub_of_no_match}
use swift_cidr_admission.Runtime.{Runtime, Bytes, IsLawful}
use swift_cidr_admission.Publication.Patterns.{home, temp, host, linux_host, secrets}
use swift_cidr_admission.Publication.Redaction.{redact}
use swift_cidr_admission.Publication.Privacy.{check_privacy, identifies}
use swift_cidr_admission.Publication.Transform.{
  transform, payload_of, is_zipped, is_json, is_csv, seal, logical_name, rewrite, with_notice,
}

>>-eq-ok :
    {B : Type 0} (m : Result (Unit {0})) (r : Result B) {b : B}
    → (m >> r) ≡ ok b
    → (m ≡ ok tt) × (r ≡ ok b)
>>-eq-ok (ok tt) r h = (refl, h)
>>-eq-ok (Result.err e) r h = absurd (ground arith)

module _ (rt : Runtime) (L : IsLawful rt) where
  -- Sealed bytes hold the checked payload again.
  payload-seal :
      (name : Text) (bytes payload result : Bytes)
      → payload_of rt name bytes ≡ ok payload
      → payload_of rt name (seal rt (is_zipped name) bytes payload result) ≡ ok result
  unfolding seal payload_of
  payload-seal name bytes payload result h = elim (Bool-cases (text_eq result payload)) [
    | inl e ↦ ground (arith, text_eq_iff result payload)
    | inr e ↦ ground (arith, L.decompress-compress result)
  ]

  sealed-IsPrivate :
      (name : Text) (bytes payload result : Bytes) {out : Bytes}
      → payload_of rt name bytes ≡ ok payload
      → check_privacy rt result ≡ ok tt
      → ok (seal rt (is_zipped name) bytes payload result) ≡ ok out
      → (payload_of rt name out >>= check_privacy rt) ≡ ok tt
  sealed-IsPrivate name bytes payload result {out} p safe e =
      let q : payload_of rt name out ≡ ok result =
        ground (arith, payload-seal name bytes payload result p) in
      rw q safe

  -- Under the codecs' laws: the payload of every artifact that `transform` returns, decompressed
  -- where the name ends in `.gz`, passes `check_privacy`.
  pub transform-IsPrivate :
      (name : Text) (bytes : Bytes) {out : Bytes}
      → transform rt name bytes ≡ ok out
      → (payload_of rt name out >>= check_privacy rt) ≡ ok tt
  unfolding transform
  transform-IsPrivate name bytes h =
      let (payload, p, h) = bind_inversion (payload_of rt name bytes) _ h in
      let (text, q, h) = bind_inversion (rt.decode payload) _ h in
      let (redacted, r, h) =
        bind_inversion (rewrite rt (is_zipped name) (logical_name name) text) _ h in
      let (final, s, h) =
        bind_inversion
          (if text_eq name (codes "README.md") then with_notice redacted else ok redacted) _ h in
      let (result, u, h) = bind_inversion (rt.encode final) _ h in
      let (safe, e) = >>-eq-ok (check_privacy rt result) _ h in
      sealed-IsPrivate name bytes payload result p safe e

module _ (rt : Runtime) where
  -- A text in which none of the four redacted patterns occurs is its own redaction.
  redact_of_clean :
      (t : Text) → search home t ≡ false → identifies rt.is_word t ≡ false → redact rt.is_word t ≡ t
  unfolding redact identifies
  redact_of_clean t h k = rw (sub_of_no_match home (codes "REDACTED_HOME") t h) (
      rw (sub_of_no_match temp (codes "REDACTED_TMP") t (ground arith)) (
        rw (sub_of_no_match (host rt.is_word) (codes "benchmark-host") t (ground arith))
          (sub_of_no_match linux_host (codes "linux-validation-host") t (ground arith))))

-- An artifact that is neither the README nor, behind its compression, JSON or CSV.
pub record IsPlain (name : Text) : Type 0 where
  pub not_readme : text_eq name (codes "README.md") ≡ false
  pub not_json : is_json (logical_name name) ≡ false
  pub not_csv : is_csv (logical_name name) ≡ false

-- No pattern of the tool occurs in the text.
pub record IsClean (rt : Runtime) (t : Text) : Type 0 where
  pub no_home : search home t ≡ false
  pub no_identity : identifies rt.is_word t ≡ false
  pub no_secret : search secrets t ≡ false

check_privacy_of_clean :
    (rt : Runtime) (payload : Bytes) (t : Text)
    → rt.decode payload ≡ ok t
    → IsClean rt t
    → check_privacy rt payload ≡ ok tt
unfolding check_privacy
check_privacy_of_clean rt payload t d c = ground (arith, d, c.no_identity, c.no_secret)

rewrite_of_clean :
    (rt : Runtime) (name t : Text)
    → IsPlain name
    → IsClean rt t
    → rewrite rt (is_zipped name) (logical_name name) t ≡ ok t
unfolding rewrite
rewrite_of_clean rt name t p c =
    rw (p.not_json, p.not_csv) (ap ok (redact_of_clean rt t c.no_home c.no_identity))

-- An artifact whose payload decodes to a text in which no pattern of the tool occurs, and that is
-- neither the README nor JSON nor CSV behind its compression, is published as it is, byte for
-- byte.
pub transform_of_clean :
    (rt : Runtime)
    → IsLawful rt
    → (name : Text) (bytes payload : Bytes) (t : Text) → IsPlain name
    → payload_of rt name bytes ≡ ok payload
    → rt.decode payload ≡ ok t
    → IsClean rt t
    → transform rt name bytes ≡ ok bytes
unfolding transform seal
transform_of_clean rt L name bytes payload t p h d c = ground (
  arith,
  rewrite_of_clean rt name t p c,
  L.encode-decode payload t d,
  check_privacy_of_clean rt payload t d c,
  text_eq_refl payload,
)
