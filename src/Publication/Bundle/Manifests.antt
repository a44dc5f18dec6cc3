-- ===== src/Publication/Bundle/Manifests.antt =====
-- The manifests of a bundle and of the whole publication pass their check.
use swift_cidr_admission.Base.{
  ◌≡◌, refl, ap, true, false, List, [], ◌∷◌, ◌++◌, Text, text_eq, ok, bind_inversion, ok-injective,
  arith, Bool-cases, inl, inr,
}
use swift_cidr_admission.Base.Dict.{
  Dict, contains, insert, NodupKeys, contains-insert, insert-NodupKeys,
}
use swift_cidr_admission.Json.{Json}
use swift_cidr_admission.Runtime.{Runtime, Bytes, IsLawful, indented_ascii}
use swift_cidr_admission.Publication.Lines.{is_break, components, climbs}
use swift_cidr_admission.Publication.Patterns.{is_space}
use swift_cidr_admission.Publication.Manifest.{check_manifest, checksum_manifest}
use swift_cidr_admission.Publication.Manifest.Acceptance.{
  listable, Listable, check_manifest-checksum_manifest,
}
use swift_cidr_admission.Publication.Bundle.{
  sums, mapping_name, target_of, published_bytes, row_json, publish_files, mapping_json, bundle_of,
}

insert-Listable :
    (k : Text) (b : Bytes) (d : Dict Bytes)
    → listable k ≡ true
    → Listable d
    → Listable (insert k b d)
unfolding insert
insert-Listable k b [] h g = (h, tt)
insert-Listable k b ((j, w) ∷ d) h g = ground (arith, insert-Listable k b d h)

-- An output that a manifest can be made for: named apart, by names that a line can carry, none of
-- them the manifest's.
record IsOutput (d : Dict Bytes) : Type 0 where
  nodup : NodupKeys d
  named : Listable d
  fresh : contains sums d ≡ false

insert-IsOutput :
    (k : Text) (b : Bytes) (d : Dict Bytes)
    → listable k ≡ true
    → text_eq k sums ≡ false
    → IsOutput d
    → IsOutput (insert k b d)
insert-IsOutput k b d h e o = record {
  nodup = insert-NodupKeys k b d o.nodup;
  named = insert-Listable k b d h o.named;
  fresh = ground (arith, contains-insert k sums b d, o.fresh);
}

target_of-listable : (name : Text) → listable name ≡ true → listable (target_of name) ≡ true
unfolding target_of listable climbs is_break is_space components text_eq
target_of-listable name h = elim (Bool-cases (text_eq name sums)) [
  | inl e ↦ rw e refl
  | inr e ↦ rw e h
]

pub target_of-fresh : (name : Text) → text_eq (target_of name) sums ≡ false
unfolding target_of text_eq
target_of-fresh name = elim (Bool-cases (text_eq name sums)) [ inl e ↦ rw e refl | inr e ↦ rw e e ]

publish_files-IsOutput :
    (rt : Runtime) (source : Text) (original output : Dict Bytes) (rows : List Json)
    {out : Dict Bytes} {rows' : List Json}
    → Listable original
    → IsOutput output
    → publish_files rt source original output rows ≡ ok (out, rows')
    → IsOutput out
unfolding publish_files
publish_files-IsOutput rt source [] output rows g o h =
    rw (← ap (λ (r : Dict Bytes × List Json). r.0) (ok-injective h)) o
publish_files-IsOutput rt source ((name, bytes) ∷ original) output rows g o h =
    let (published, p, q) = bind_inversion (published_bytes rt source name bytes) _ h in
    publish_files-IsOutput rt source original (insert (target_of name) published output)
      (rows ++ (row_json rt name bytes published ∷ [])) g.1
      (insert-IsOutput (target_of name) published output (target_of-listable name g.0)
        (target_of-fresh name) o)
      q

mapping_name-listable : listable mapping_name ≡ true
unfolding listable climbs is_break is_space components text_eq
mapping_name-listable = refl

mapping_name-fresh : text_eq mapping_name sums ≡ false
unfolding text_eq
mapping_name-fresh = refl

empty-IsOutput : IsOutput []
unfolding contains
empty-IsOutput = record { nodup = tt; named = tt; fresh = refl }

-- What a bundle is made of.
pub record Parts (rt : Runtime) (source : Text) (original output : Dict Bytes) : Type 0 where
  pub out : Dict Bytes
  pub rows : List Json
  pub mapping : Bytes
  pub manifest : Bytes
  pub checked : check_manifest rt original sums ≡ ok tt
  pub published : publish_files rt source original [] [] ≡ ok (out, rows)
  pub encoded :
      rt.encode (rt.json_dumps indented_ascii (mapping_json source rows) ++ (10 ∷ [])) ≡ ok mapping
  pub listed : checksum_manifest rt (insert mapping_name mapping out) ≡ ok manifest
  pub whole : insert sums manifest (insert mapping_name mapping out) ≡ output

pub bundle_of-Parts :
    (rt : Runtime) (source : Text) (original : Dict Bytes) {output : Dict Bytes}
    → bundle_of rt source original ≡ ok output
    → Parts rt source original output
unfolding bundle_of
bundle_of-Parts rt source original h =
    let (u, c, h) = bind_inversion (check_manifest rt original sums) _ h in
    let (r, p, h) = bind_inversion (publish_files rt source original [] []) _ h in
    let (mapping, e, h) =
      bind_inversion
        (rt.encode (rt.json_dumps indented_ascii (mapping_json source r.1) ++ (10 ∷ []))) _ h in
    let (manifest, l, h) =
      bind_inversion (checksum_manifest rt (insert mapping_name mapping r.0)) _ h in
    record {
      out = r.0;
      rows = r.1;
      mapping = mapping;
      manifest = manifest;
      checked = c;
      published = p;
      encoded = e;
      listed = l;
      whole = ok-injective h;
    }

-- Under the codecs' laws: whatever `bundle_of` returns for files whose names a manifest line can
-- carry passes `check_manifest`.
pub check_manifest-bundle_of :
    (rt : Runtime)
    → IsLawful rt
    → (source : Text) (original : Dict Bytes) {output : Dict Bytes} → Listable original
    → bundle_of rt source original ≡ ok output
    → check_manifest rt output sums ≡ ok tt
check_manifest-bundle_of rt L source original {output} g h =
    let b = bundle_of-Parts rt source original h in
    let o =
      insert-IsOutput mapping_name b.mapping b.out mapping_name-listable mapping_name-fresh
        (publish_files-IsOutput rt source original [] [] g empty-IsOutput b.published) in
    rw (← b.whole) (
      check_manifest-checksum_manifest rt L sums (insert mapping_name b.mapping b.out) b.manifest
        o.nodup o.named o.fresh b.listed)
