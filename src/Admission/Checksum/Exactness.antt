-- ===== src/Admission/Checksum/Exactness.antt =====
-- The one checksum file that `verify` accepts for a source.
use mathlib.Core.List.{append_assoc}
use swift_cidr_admission.Base.{
  ℕ, ◌+◌, ◌-◌, ◌*◌, ◌/◌, ◌%◌, ◌<◌, ◌≤◌, leb, leb→le, le→leb, ◌≡◌, ◌≢◌, ◌↔◌, refl, sym, ◌∙◌, ap,
  subst, true, &&_split, [], ◌∷◌, ◌++◌, Text, text_eq, text_eq_iff, Option, none, some, All, all,
  length, length-append, take, drop, get_elem?, arith,
}
use swift_cidr_admission.Base.Slices.{
  last?, take-append-drop, drop_of_get_elem?, init_last, length-take, drop-append, get_elem?-append,
  take-append, drop-append_exact, last?-append,
}
use swift_cidr_admission.Runtime.{Bytes}
use swift_cidr_admission.Admission.Policy.{AdmissionRuleSet}
use swift_cidr_admission.Admission.Errors.{checksum_malformed, gives, throws, guarding-gives}
use swift_cidr_admission.Admission.Platform.{Platform, PlatformIsLawful}
use swift_cidr_admission.Admission.Checksum.{
  is_lowercase_hexadecimal, digit, hexadecimal, stands_at, is_record, filename_of, is_filename,
  hexadecimal_digest, compare_record, verify,
}

stands_at_iff : (o : Option ℕ) (b : ℕ) → stands_at o b ≡ true → o ≡ some b
unfolding stands_at
stands_at_iff none b h = absurd (ground (arith, h))
stands_at_iff (some c) b h = ground (arith, h)

length-hexadecimal : (d : Bytes) → length (hexadecimal d) ≡ 2 * length d
unfolding hexadecimal
length-hexadecimal [] = refl
length-hexadecimal (b ∷ d) = omega (arith, length-hexadecimal d)

digit_is_lowercase : (n : ℕ) → n < 16 → is_lowercase_hexadecimal (digit n) ≡ true
unfolding digit is_lowercase_hexadecimal
digit_is_lowercase n h = ground arith

hexadecimal_is_lowercase :
    (d : Bytes) → All (λ n. n < 256) d → all is_lowercase_hexadecimal (hexadecimal d) ≡ true
unfolding hexadecimal
hexadecimal_is_lowercase [] h = refl
hexadecimal_is_lowercase (b ∷ d) h = ground (
  arith,
  digit_is_lowercase (b / 16) (omega (arith, h.0)),
  digit_is_lowercase (b % 16) (omega arith),
  hexadecimal_is_lowercase d (h.1),
)

-- The parts of a checksum file of the right form.
record_split :
    (bytes : Bytes)
    → is_record bytes ≡ true
    → bytes ≡ take 64 bytes ++ (32 ∷ 32 ∷ (filename_of bytes ++ (10 ∷ [])))
unfolding is_record filename_of
record_split bytes h =
    let (h1, hex) = &&_split _ (all is_lowercase_hexadecimal (take 64 bytes)) h in
    let (h2, last) = &&_split _ (stands_at (last? bytes) 0x0A) h1 in
    let (h3, second) = &&_split _ (stands_at (get_elem? bytes 65) 0x20) h2 in
    let (long, first) = &&_split (leb 67 (length bytes)) (stands_at (get_elem? bytes 64) 0x20) h3 in
    let initial = take (length bytes - 1) bytes in
    let enough : 67 ≤ length bytes = leb→le 67 (length bytes) long in
    let ended : bytes ≡ initial ++ (10 ∷ []) =
      init_last bytes 10 (stands_at_iff (last? bytes) 10 last) in
    let size : length initial ≡ length bytes - 1 =
      length-take (length bytes - 1) bytes (omega arith) in
    let rest : drop 66 bytes ≡ drop 66 initial ++ (10 ∷ []) =
      ap (drop 66) ended ∙ drop-append 66 initial (10 ∷ []) (omega (arith, size, enough)) in
    sym (take-append-drop 64 bytes)
    ∙ ap (λ r. take 64 bytes ++ r)
        (drop_of_get_elem? 64 bytes 32 (stands_at_iff (get_elem? bytes 64) 32 first)
          ∙ ap (λ r. 32 ∷ r)
              (drop_of_get_elem? 65 bytes 32 (stands_at_iff (get_elem? bytes 65) 32 second)
                ∙ ap (λ r. 32 ∷ r) rest))

module _ (hex name : Bytes) (size : length hex ≡ 64) where
  abbrev laid_out : Bytes
  laid_out = hex ++ (32 ∷ 32 ∷ (name ++ (10 ∷ [])))

  abbrev front : Bytes
  front = (hex ++ (32 ∷ 32 ∷ [])) ++ name

  laid_out-front : laid_out ≡ front ++ (10 ∷ [])
  laid_out-front = sym (
      append_assoc (hex ++ (32 ∷ 32 ∷ [])) name (10 ∷ [])
      ∙ append_assoc hex (32 ∷ 32 ∷ []) (name ++ (10 ∷ [])))

  length-laid_out : length laid_out ≡ length front + 1
  length-laid_out = ap length laid_out-front ∙ length-append front (10 ∷ [])

  length-front : length front ≡ 66 + length name
  length-front =
      omega
        (arith, length-append (hex ++ (32 ∷ 32 ∷ [])) name, length-append hex (32 ∷ 32 ∷ []), size)

  filename_of-laid_out : filename_of laid_out ≡ name
  unfolding filename_of
  filename_of-laid_out =
      let e : length laid_out - 1 ≡ length front = omega (arith, length-laid_out) in
      ap (λ k. drop 66 (take k laid_out)) e
      ∙ (ap (λ bs. drop 66 (take (length front) bs)) laid_out-front
          ∙ (ap (drop 66) (take-append (length front) front (10 ∷ []) refl)
              ∙ drop-append_exact 66 (hex ++ (32 ∷ 32 ∷ [])) name
                  (omega (arith, length-append hex (32 ∷ 32 ∷ []), size))))

  is_record-laid_out :
      (0 < length name) → all is_lowercase_hexadecimal hex ≡ true → is_record laid_out ≡ true
  unfolding is_record stands_at
  is_record-laid_out some_name lower = ground (
    arith,
    le→leb 67 (length laid_out) (omega (arith, length-laid_out, length-front, some_name)),
    get_elem?-append 64 hex (32 ∷ 32 ∷ (name ++ (10 ∷ []))) 0 size,
    get_elem?-append 64 hex (32 ∷ 32 ∷ (name ++ (10 ∷ []))) 1 size,
    ap last? laid_out-front ∙ last?-append front 10,
    take-append 64 hex (32 ∷ 32 ∷ (name ++ (10 ∷ []))) size,
    lower,
  )

is_filename_size : (name : Bytes) → is_filename name ≡ true → 0 < length name
unfolding is_filename
is_filename_size name h = ground (arith, h)

module _ (p : Platform) where
  -- The checksum file of a source: its digest in lower-case hexadecimal, two spaces, its name, and a line feed.
  abbrev pub record_of : Bytes → Text → Bytes
  record_of source basename =
      hexadecimal_digest p source ++ (32 ∷ 32 ∷ (p.utf8 basename ++ (10 ∷ [])))

module _ (p : Platform) (lawful : PlatformIsLawful p) where
  module _ (source : Bytes) (path basename : Text) (bytes : Bytes) (checksum_path : Text)
      (rule_set : AdmissionRuleSet) where
    accept :
        (name : Option Text)
        → (p.decode_utf8 (filename_of bytes) ≡ name)
        → (elim name [
          | none ↦ throws (checksum_malformed rule_set path checksum_path)
          | some t ↦ compare_record p source path basename bytes checksum_path rule_set t
        ])
          ≡ gives tt
        → (filename_of bytes ≡ p.utf8 basename) × (take 64 bytes ≡ hexadecimal_digest p source)
    unfolding compare_record
    accept none e h = absurd (ground (arith, h))
    accept (some t) e h =
        let (name, k) = guarding-gives (text_eq (filename_of bytes) (p.utf8 basename)) _ _ h in
        let (digest, l) =
          guarding-gives (text_eq (take 64 bytes) (hexadecimal_digest p source)) _ _ k in
        ((text_eq_iff _ _).0 name, (text_eq_iff _ _).0 digest)

    verify_sound :
        verify p source path basename bytes checksum_path rule_set ≡ gives tt
        → (bytes ≡ record_of p source basename) × (is_filename (p.utf8 basename) ≡ true)
    unfolding verify
    verify_sound h =
        let (form, k) = guarding-gives (is_record bytes) _ _ h in
        let (named, l) = guarding-gives (is_filename (filename_of bytes)) _ _ k in
        let (name, digest) = accept (p.decode_utf8 (filename_of bytes)) refl l in
        (
          record_split bytes form
              ∙ (ap (λ d. d ++ (32 ∷ 32 ∷ (filename_of bytes ++ (10 ∷ [])))) digest
                  ∙ ap (λ n. hexadecimal_digest p source ++ (32 ∷ 32 ∷ (n ++ (10 ∷ [])))) name),
          subst (λ n. is_filename n ≡ true) name named,
        )

    approve :
        (name : Option Text)
        → (name ≢ none)
        → (filename_of bytes ≡ p.utf8 basename)
        → (take 64 bytes ≡ hexadecimal_digest p source)
        → (elim name [
          | none ↦ throws (checksum_malformed rule_set path checksum_path)
          | some t ↦ compare_record p source path basename bytes checksum_path rule_set t
        ])
          ≡ gives tt
    unfolding compare_record
    approve none decoded name digest = absurd (decoded refl)
    approve (some t) decoded name digest = ground (
      arith,
      (text_eq_iff (filename_of bytes) (p.utf8 basename)).1 name,
      (text_eq_iff (take 64 bytes) (hexadecimal_digest p source)).1 digest,
    )

    digest_size : length (hexadecimal_digest p source) ≡ 64
    unfolding hexadecimal_digest
    digest_size = omega (arith, length-hexadecimal (p.sha256 source), lawful.digest_length source)

    digest_is_lowercase : all is_lowercase_hexadecimal (hexadecimal_digest p source) ≡ true
    unfolding hexadecimal_digest
    digest_is_lowercase = hexadecimal_is_lowercase (p.sha256 source) (lawful.digest_bytes source)

    verify_complete :
        (bytes ≡ record_of p source basename)
        → is_filename (p.utf8 basename) ≡ true
        → verify p source path basename bytes checksum_path rule_set ≡ gives tt
    unfolding verify
    verify_complete e named =
        let hex = hexadecimal_digest p source in
        let name = p.utf8 basename in
        let form : is_record bytes ≡ true =
          ap is_record e
          ∙ is_record-laid_out hex name digest_size (is_filename_size name named)
              digest_is_lowercase in
        let same : filename_of bytes ≡ name =
          ap filename_of e ∙ filename_of-laid_out hex name digest_size in
        let digest : take 64 bytes ≡ hex =
          ap (take 64) e ∙ take-append 64 hex (32 ∷ 32 ∷ (name ++ (10 ∷ []))) digest_size in
        ground (
          arith,
          form,
          ap is_filename same ∙ named,
          approve (p.decode_utf8 (filename_of bytes))
              (subst (λ n. p.decode_utf8 n ≢ none) (sym same) (lawful.decodes basename)) same
              digest,
        )

    -- `verify` accepts exactly one checksum file: the digest of the source, two spaces, the name of the source file, and a line feed; and only if that name is not empty and has no line break.
    pub verify_iff :
        (verify p source path basename bytes checksum_path rule_set ≡ gives tt)
        ↔ ((bytes ≡ record_of p source basename) × (is_filename (p.utf8 basename) ≡ true))
    verify_iff = (verify_sound, λ h. verify_complete (h.0) (h.1))
