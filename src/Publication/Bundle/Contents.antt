-- ===== src/Publication/Bundle/Contents.antt =====
-- What a bundle holds under each name.
use mathlib.Core.Option.{some}
use swift_cidr_admission.Base.{
  ◌≡◌, ◌≢◌, ◌⊎◌, subst, Result, err, refl, ◌∙◌, sym, ap, true, false, List, [], ◌∷◌, ◌++◌, Text,
  codes, text_eq, text_eq_iff, text_eq_refl, text_eq_sym, ok, bind_inversion, ok-injective, arith,
  Bool-cases, inl, inr,
}
use swift_cidr_admission.Base.Dict.{
  Dict, lookup, contains, insert, NodupKeys, lookup-insert, contains_of_lookup,
}
use swift_cidr_admission.Json.{Json}
use swift_cidr_admission.Runtime.{Runtime, Bytes}
use swift_cidr_admission.Publication.Bundle.{
  sums, mapping_name, target_of, located, published_bytes, row_json, publish_files, bundle_of,
}
use swift_cidr_admission.Publication.Transform.{transform}
use swift_cidr_admission.Publication.Bundle.Manifests.{bundle_of-Parts, target_of-fresh}

abbrev pub original_sums : Text
original_sums = codes "ORIGINAL-SHA256SUMS"

target_of-sums : (n : Text) → text_eq n sums ≡ true → target_of n ≡ original_sums
unfolding target_of
target_of-sums n h = rw h

target_of_other : (n : Text) → text_eq n sums ≡ false → target_of n ≡ n
unfolding target_of
target_of_other n h = rw h

target_of-injective :
    (n m : Text)
    → text_eq n original_sums ≡ false
    → text_eq m original_sums ≡ false
    → text_eq (target_of n) (target_of m) ≡ true
    → text_eq n m ≡ true
target_of-injective n m h k e = elim (Bool-cases (text_eq n sums)) [
  | inl a ↦ elim (Bool-cases (text_eq m sums)) [
    | inl b ↦ ground (arith, text_eq_iff n m, text_eq_iff n sums, text_eq_iff m sums)
    | inr b ↦ ground (arith, target_of-sums n a, target_of_other m b, text_eq_sym original_sums m)
  ]
  | inr a ↦ elim (Bool-cases (text_eq m sums)) [
    | inl b ↦ ground (arith, target_of_other n a, target_of-sums m b)
    | inr b ↦ ground (arith, target_of_other n a, target_of_other m b)
  ]
]

original_sums-ne-mapping_name : text_eq mapping_name original_sums ≡ false
unfolding text_eq
original_sums-ne-mapping_name = refl

target_of-ne-mapping_name :
    (original : Dict Bytes) (name : Text) {bytes : Bytes}
    → contains mapping_name original ≡ false
    → lookup name original ≡ some bytes
    → text_eq mapping_name (target_of name) ≡ false
target_of-ne-mapping_name original name {bytes} g l =
    let there = contains_of_lookup name original {v = bytes} l in
    elim (Bool-cases (text_eq name sums)) [
      | inl a ↦ rw (target_of-sums name a) original_sums-ne-mapping_name
      | inr a ↦ ground (arith, target_of_other name a, text_eq_iff mapping_name name)
    ]

module _ (rt : Runtime) (source : Text) where
  -- What is there stays, unless a later file has its name for a target.
  publish_files-keeps :
      (original output : Dict Bytes) (rows : List Json) {out : Dict Bytes} {rows' : List Json}
      (name : Text)
      → text_eq name original_sums ≡ false
      → contains original_sums original ≡ false
      → contains name original ≡ false
      → publish_files rt source original output rows ≡ ok (out, rows')
      → lookup (target_of name) out ≡ lookup (target_of name) output
  unfolding publish_files contains
  publish_files-keeps [] output rows {out} name k f a h =
      ap (λ (r : Dict Bytes × List Json). lookup (target_of name) r.0) (sym (ok-injective h))
  publish_files-keeps ((n, b) ∷ original) output rows name k f a h =
      let (pb, p, q) = bind_inversion (published_bytes rt source n b) _ h in
      publish_files-keeps original (insert (target_of n) pb output)
        (rows ++ (row_json rt n b pb ∷ [])) name k (ground arith) (ground arith) q
      ∙ ground (
        arith,
        lookup-insert (target_of n) (target_of name) pb output,
        target_of-injective n name,
      )

  publish_files-publishes :
      (original output : Dict Bytes) (rows : List Json) {out : Dict Bytes} {rows' : List Json}
      (name : Text) {bytes : Bytes}
      → NodupKeys original
      → contains original_sums original ≡ false
      → lookup name original ≡ some bytes
      → publish_files rt source original output rows ≡ ok (out, rows')
      → (pb : Bytes) × (published_bytes rt source name bytes ≡ ok pb)
        × (lookup (target_of name) out ≡ some pb)
  unfolding publish_files contains lookup
  publish_files-publishes [] output rows name n f l h = absurd (ground arith)
  publish_files-publishes ((m, b) ∷ original) output rows {out} {rows'} name {bytes} n f l h =
      let (pb, p, q) = bind_inversion (published_bytes rt source m b) _ h in
      elim (Bool-cases (text_eq m name)) [
        | inl e ↦
            let found : lookup (target_of m) out ≡ some pb =
              publish_files-keeps original (insert (target_of m) pb output)
                (rows ++ (row_json rt m b pb ∷ [])) m (ground arith) (ground arith) n.0 q
              ∙ ground (
                arith,
                lookup-insert (target_of m) (target_of m) pb output,
                text_eq_refl (target_of m),
              ) in
            let same = (text_eq_iff m name).0 e in
            (pb, ground (arith, same, p, l), rw (← same) found)
        | inr e ↦
            publish_files-publishes original (insert (target_of m) pb output)
              (rows ++ (row_json rt m b pb ∷ [])) name n.1 (ground arith) (ground arith) q
      ]

  located_inversion :
      {A : Type 0} (name : Text) (result : Result A) {a : A}
      → located source name result ≡ ok a
      → result ≡ ok a
  unfolding located
  located_inversion name (ok a) h = h
  located_inversion name (err e) h = absurd (ground (arith, h))

  -- What the bundle has of the file: a manifest as it was, under its new name, and any other file under its own, as `transform` made it.
  abbrev pub IsPublished : Dict Bytes → Text → Bytes → Type 0
  IsPublished output name bytes =
      ((name ≡ sums) × (lookup original_sums output ≡ some bytes))
      ⊎ ((name ≢ sums)
          × ((pb : Bytes) × (transform rt name bytes ≡ ok pb) × (lookup name output ≡ some pb)))

  published_bytes-IsPublished :
      (output : Dict Bytes) (name : Text) (bytes pb : Bytes)
      → published_bytes rt source name bytes ≡ ok pb
      → lookup (target_of name) output ≡ some pb
      → IsPublished output name bytes
  unfolding published_bytes
  published_bytes-IsPublished output name bytes pb h l = elim (Bool-cases (text_eq name sums)) [
    | inl e ↦
        let same : ok bytes ≡ ok pb = located_inversion name (ok bytes) (ground (arith, h, e)) in
        inl (
          (text_eq_iff name sums).0 e,
          subst (λ t. lookup t output ≡ some bytes) (target_of-sums name e)
              (l ∙ ap some (sym (ok-injective same))),
        )
    | inr e ↦ inr (
      λ same. ground (arith, text_eq_iff name sums),
      (
        pb,
        located_inversion name (transform rt name bytes) (ground (arith, h, e)),
        subst (λ t. lookup t output ≡ some pb) (target_of_other name e) l,
      ),
    )
  ]

  -- Of original files that have neither of the two names that the tool adds, every one is in the
  -- bundle: SHA256SUMS with its own bytes under the name ORIGINAL-SHA256SUMS, any other under its
  -- own name with the bytes that `transform` made of it.
  pub bundle_of-publishes :
      (original : Dict Bytes) {output : Dict Bytes} (name : Text) {bytes : Bytes}
      → NodupKeys original
      → contains original_sums original ≡ false
      → contains mapping_name original ≡ false
      → lookup name original ≡ some bytes
      → bundle_of rt source original ≡ ok output
      → IsPublished output name bytes
  bundle_of-publishes original {output} name {bytes} n f g l h =
      let b = bundle_of-Parts rt source original h in
      let (pb, p, q) = publish_files-publishes original [] [] name n f l b.published in
      published_bytes-IsPublished output name bytes pb p (
        ap (lookup (target_of name)) (sym b.whole)
        ∙ ground (
          arith,
          q,
          lookup-insert sums (target_of name) b.manifest (insert mapping_name b.mapping b.out),
          lookup-insert mapping_name (target_of name) b.mapping b.out,
          target_of-fresh name,
          text_eq_sym sums (target_of name),
          target_of-ne-mapping_name original name {bytes = bytes} g l,
        ))
