-- ===== src/Publication/Manifest/Acceptance.antt =====
-- A manifest that `checksum_manifest` wrote passes `check_manifest`.
use mathlib.Core.List.{append_assoc, append-nil}
use swift_cidr_admission.Base.{
  ℕ, ◌≡◌, refl, ap, ◌∙◌, sym, Bool, true, false, not, ◌&&◌, ◌==◌, [], ◌∷◌, ◌++◌, Text, text_eq_iff,
  text_eq_refl, ok, arith, all, All, length, suc,
}
use swift_cidr_admission.Base.Strings.{remove_prefix}
use swift_cidr_admission.Base.Dict.{
  Dict, lookup, contains, insert, NodupKeys, contains-insert, lookup-insert, same,
}
use swift_cidr_admission.Base.Dict.Same.{same_of_lookup}
use swift_cidr_admission.Runtime.{Runtime, Bytes, IsLawful, is_hex}
use swift_cidr_admission.Publication.Patterns.{is_space}
use swift_cidr_admission.Publication.Lines.{is_break, split_lines, lines_from, is_absolute, climbs}
use swift_cidr_admission.Publication.Lines.RoundTrip.{
  IsLine, IsWord, lines_from-append, split_fields-line,
}
use swift_cidr_admission.Publication.Manifest.{
  sorted, insert_sorted, manifest_line, manifest_text, checksum_manifest, digests_except, get_item,
  read_entry, read_entries, expected_digests, check_manifest,
}
use swift_cidr_admission.Publication.Manifest.Sorted.{
  length-sorted, sorted-NodupKeys, lookup-sorted,
}
use swift_cidr_admission.Publication.Manifest.Detection.{digest_of}

-- A relative name that a manifest line can carry: it has no line end, begins neither with white
-- space nor with `*`, and does not climb by `..`.
unfoldable pub listable : Text → Bool
listable [] = false
listable (c ∷ s) =
    not (is_space c)
    && not (c == b'*')
    && not (c == b'/')
    && not (climbs (c ∷ s))
    && all (λ d. not (is_break d)) (c ∷ s)

-- The digest of every file.
digests : Runtime → Dict Bytes → Dict Text
digests rt [] = []
digests rt ((p, bytes) ∷ c) = (p, rt.sha256 bytes) ∷ digests rt c

hex-not-space : (c : ℕ) → is_hex c ≡ true → is_space c ≡ false
unfolding is_hex is_space
hex-not-space c h = ground arith

hex-not-break : (c : ℕ) → is_hex c ≡ true → is_break c ≡ false
unfolding is_hex is_break
hex-not-break c h = ground arith

hex-IsWord : (s : Text) → all is_hex s ≡ true → IsWord s
hex-IsWord [] h = refl
hex-IsWord (c ∷ s) h = ground (arith, hex-not-space c, hex-IsWord s)

hex-IsLine : (s : Text) → all is_hex s ≡ true → IsLine s
hex-IsLine [] h = refl
hex-IsLine (c ∷ s) h = ground (arith, hex-not-break c, hex-IsLine s)

IsLine-append : (s t : Text) → IsLine s → IsLine t → IsLine (s ++ t)
IsLine-append [] t h k = k
IsLine-append (c ∷ s) t h k = ground (arith, IsLine-append s t)

feed_line :
    (digest name rest : Text)
    → manifest_line digest name ++ rest ≡ (digest ++ (32 ∷ 32 ∷ name)) ++ (10 ∷ rest)
feed_line digest name rest = simp append_assoc

-- The line of a digest is the first line, and it has the digest and the name for its fields.
read_entry-line :
    (d : Dict Text) (digest name : Text)
    → length digest ≡ 64
    → all is_hex digest ≡ true
    → listable name ≡ true
    → contains name d ≡ false
    → read_entry d (digest ++ (32 ∷ 32 ∷ name)) ≡ ok (insert name digest d)
unfolding read_entry listable remove_prefix is_absolute
read_entry-line d [] name l h k a = absurd (omega arith)
read_entry-line d (x ∷ digest) [] l h k a = cc
read_entry-line d (x ∷ digest) (c ∷ s) l h k a =
    ground (arith, split_fields-line x digest c s (hex-IsWord (x ∷ digest) h))

insert_of_absent :
    (k v : Text) (d : Dict Text) → contains k d ≡ false → insert k v d ≡ d ++ ((k, v) ∷ [])
unfolding insert contains
insert_of_absent k v [] h = refl
insert_of_absent k v ((j, w) ∷ d) h = ground (arith, insert_of_absent k v d)

abbrev pub Listable : Dict Bytes → Type 0
Listable c = All (λ (e : Text × Bytes). listable e.0 ≡ true) c

module _ (rt : Runtime) (L : IsLawful rt) where
  name-IsLine : (name : Text) → listable name ≡ true → IsLine name
  unfolding listable
  name-IsLine [] h = refl
  name-IsLine (c ∷ s) h = ground arith

  lines-manifest_text :
      (name : Text) (b : Bytes) (c : Dict Bytes)
      → listable name ≡ true
      → lines_from false [] (manifest_text rt ((name, b) ∷ c))
        ≡ (rt.sha256 b ++ (32 ∷ 32 ∷ name)) ∷ lines_from false [] (manifest_text rt c)
  unfolding manifest_text is_break
  lines-manifest_text name b c h =
      ap (lines_from false []) (feed_line (rt.sha256 b) name (manifest_text rt c))
      ∙ lines_from-append [] (rt.sha256 b ++ (32 ∷ 32 ∷ name)) (manifest_text rt c) (
          IsLine-append (rt.sha256 b) (32 ∷ 32 ∷ name)
            (hex-IsLine (rt.sha256 b) (L.sha256_form b).1) (ground (arith, name-IsLine name h)))

  no_lines : lines_from false [] (manifest_text rt []) ≡ []
  unfolding lines_from manifest_text
  no_lines = refl

  read_entries-manifest_text :
      (c : Dict Bytes) (acc : Dict Text)
      → Listable c
      → NodupKeys c
      → ((k : Text) → contains k c ≡ true → contains k acc ≡ false)
      → read_entries acc (lines_from false [] (manifest_text rt c)) ≡ ok (acc ++ digests rt c)
  unfolding digests read_entries manifest_text contains
  read_entries-manifest_text [] acc g n a = rw (no_lines, append-nil) refl
  read_entries-manifest_text ((name, b) ∷ c) acc g n a =
      let absent = a name (ground (arith, text_eq_refl name)) in
      let step =
        read_entry-line acc (rt.sha256 b) name (L.sha256_form b).0 (L.sha256_form b).1 g.0 absent in
      rw (lines-manifest_text name b c g.0, read_entries)
        (rw step (
          read_entries-manifest_text c (insert name (rt.sha256 b) acc) g.1 n.1 (λ k h.
            ground (arith, a k, contains-insert name k (rt.sha256 b) acc, text_eq_iff name k, n.0))
          ∙ ap (λ d. ok (d ++ digests rt c)) (insert_of_absent name (rt.sha256 b) acc absent)
          ∙ ap ok (append_assoc acc ((name, rt.sha256 b) ∷ []) (digests rt c))))

length-digests : (rt : Runtime) (c : Dict Bytes) → length (digests rt c) ≡ length c
unfolding digests
length-digests rt [] = refl
length-digests rt ((k, b) ∷ c) = ap suc (length-digests rt c)

contains-digests :
    (rt : Runtime) (k : Text) (c : Dict Bytes) → contains k (digests rt c) ≡ contains k c
unfolding digests contains
contains-digests rt k [] = refl
contains-digests rt k ((j, b) ∷ c) = ground (arith, contains-digests rt k c)

digests-NodupKeys : (rt : Runtime) (c : Dict Bytes) → NodupKeys c → NodupKeys (digests rt c)
unfolding digests
digests-NodupKeys rt [] n = tt
digests-NodupKeys rt ((k, b) ∷ c) n =
    ground (arith, contains-digests rt k c, digests-NodupKeys rt c)

lookup-digests :
    (rt : Runtime) (k : Text) (c : Dict Bytes) → lookup k (digests rt c) ≡ digest_of rt (lookup k c)
unfolding digests lookup
lookup-digests rt k [] = refl
lookup-digests rt k ((j, b) ∷ c) = ground (arith, lookup-digests rt k c)

digests_except-insert :
    (rt : Runtime) (name : Text) (m : Bytes) (c : Dict Bytes)
    → contains name c ≡ false
    → digests_except rt name (insert name m c) ≡ digests rt c
unfolding digests_except digests insert contains
digests_except-insert rt name m [] h = ground (arith, text_eq_refl name)
digests_except-insert rt name m ((j, b) ∷ c) h =
    ground (arith, digests_except-insert rt name m c, text_eq_iff j name)

get_item-insert :
    (name : Text) (m : Bytes) (c : Dict Bytes) → get_item name (insert name m c) ≡ ok m
unfolding get_item
get_item-insert name m c = ground (arith, lookup-insert name name m c, text_eq_refl name)

same-digests :
    (rt : Runtime) (c : Dict Bytes)
    → NodupKeys c
    → same (digests rt (sorted c)) (digests rt c) ≡ true
same-digests rt c n =
    same_of_lookup (digests rt (sorted c)) (digests rt c)
      (digests-NodupKeys rt (sorted c) (sorted-NodupKeys c n))
      (omega (arith, length-digests rt c, length-digests rt (sorted c), length-sorted c))
      (λ k.
        lookup-digests rt k (sorted c)
        ∙ ap (digest_of rt) (lookup-sorted k c n)
        ∙ sym (lookup-digests rt k c))

insert_sorted-Listable :
    (k : Text) (b : Bytes) (c : Dict Bytes)
    → listable k ≡ true
    → Listable c
    → Listable (insert_sorted k b c)
unfolding insert_sorted
insert_sorted-Listable k b [] h g = (h, tt)
insert_sorted-Listable k b ((j, w) ∷ c) h g = ground (arith, insert_sorted-Listable k b c h)

sorted-Listable : (c : Dict Bytes) → Listable c → Listable (sorted c)
unfolding sorted
sorted-Listable [] g = tt
sorted-Listable ((k, b) ∷ c) g = insert_sorted-Listable k b (sorted c) g.0 (sorted-Listable c g.1)

absent_in_empty : (k : Text) → contains {V = Text} k [] ≡ false
unfolding contains
absent_in_empty k = refl

-- Under the codecs' laws: files whose names a manifest line can carry, with the manifest that
-- `checksum_manifest` makes of them put beside them under a new name, pass `check_manifest` at that
-- name.
pub check_manifest-checksum_manifest :
    (rt : Runtime)
    → IsLawful rt
    → (name : Text) (c : Dict Bytes) (m : Bytes) → NodupKeys c
    → Listable c
    → contains name c ≡ false
    → checksum_manifest rt c ≡ ok m
    → check_manifest rt (insert name m c) name ≡ ok tt
unfolding check_manifest expected_digests checksum_manifest split_lines
check_manifest-checksum_manifest rt L name c m n g a h = rw (get_item-insert name m c) (
    rw (L.decode-encode (manifest_text rt (sorted c)) m h) (
      rw
        (read_entries-manifest_text rt L (sorted c) [] (sorted-Listable c g) (sorted-NodupKeys c n)
          (λ k p. absent_in_empty k))
        (rw (digests_except-insert rt name m c a) (rw (same-digests rt c n) refl))))
