-- ===== src/Admission/FileAccess/Reading.antt =====
-- What openAndReadRegularFile reads, and that it returns.
use mathlib.Core.List.{append_assoc, append-nil}
use swift_cidr_admission.Base.{
  ℕ, zero, suc, ◌+◌, ◌≤◌, ◌==◌, ==_iff, ◌≡◌, refl, sym, ◌∙◌, ap, subst, true, Bool-cases, inl, inr,
  [], ◌∷◌, ◌++◌, Text, Option, none, some, arith,
}
use swift_cidr_admission.Runtime.{Bytes}
use swift_cidr_admission.Admission.Errors.{Attempt, gives, throws}
use swift_cidr_admission.Admission.Platform.{Url}
use swift_cidr_admission.Admission.Loader.{content}
use swift_cidr_admission.Admission.FileAccess.{
  Posix, PosixFileAccessError, is_regular, read_result, after_read, read_loop, read_regular, opened,
  open_and_read_regular_file,
}

module _ (posix : Posix) (descriptor : ℕ) where
  -- From the n-th call of `read` on, the file has these bytes: chunks, with interrupted calls anywhere, up to the call that finds the end.
  pub data ReadsFrom : ℕ → Bytes → Type 0 where
    at_end : {n : ℕ} → posix.read descriptor n ≡ gives [] → ReadsFrom n []
    chunk :
        (byte : ℕ) (bytes rest : Bytes) {n : ℕ}
        → posix.read descriptor n ≡ gives (byte ∷ bytes)
        → ReadsFrom (n + 1) rest
        → ReadsFrom n ((byte ∷ bytes) ++ rest)
    interrupted :
        {n : ℕ} {rest : Bytes}
        → posix.read descriptor n ≡ throws posix.eintr
        → ReadsFrom (n + 1) rest
        → ReadsFrom n rest

  -- How many calls of `read` that takes.
  abbrev pub reads : {n : ℕ} {bytes : Bytes} → ReadsFrom n bytes → ℕ
  reads (at_end h) = 1
  reads (chunk byte bytes rest h more) = suc (reads more)
  reads (interrupted h more) = suc (reads more)

  pub read_loop_complete :
      {n : ℕ} {bytes : Bytes} (from : ReadsFrom n bytes) (fuel : ℕ) (buffered : Bytes)
      → reads from ≤ fuel
      → read_loop posix fuel descriptor n buffered ≡ some (gives (buffered ++ bytes))
  unfolding read_loop after_read
  read_loop_complete (at_end h) zero buffered enough = absurd (omega (arith, enough))
  read_loop_complete (at_end h) (suc fuel) buffered enough =
      rw (h, read_loop) (ap (λ b. some (gives b)) (sym (append-nil buffered)))
  read_loop_complete (chunk byte bytes rest h more) zero buffered enough =
      absurd (omega (arith, enough))
  read_loop_complete {n} (chunk byte bytes rest h more) (suc fuel) buffered enough =
      rw (h, read_loop)
        (read_loop_complete more fuel (buffered ++ (byte ∷ bytes)) (omega (arith, enough))
          ∙ ap (λ b. some (gives b)) (append_assoc buffered (byte ∷ bytes) rest))
  read_loop_complete (interrupted h more) zero buffered enough = absurd (omega (arith, enough))
  read_loop_complete (interrupted h more) (suc fuel) buffered enough =
      let same : (posix.eintr == posix.eintr) ≡ true = ground arith in
      rw (h, read_loop, same) (read_loop_complete more fuel buffered (omega (arith, enough)))

  after_read_sound :
      (fuel n : ℕ) (buffered result : Bytes) (r : Attempt ℕ Bytes)
      → posix.read descriptor n ≡ r
      → ((before : Bytes)
          → read_loop posix fuel descriptor (n + 1) before ≡ some (gives result)
          → (bytes : Bytes) × ReadsFrom (n + 1) bytes × (result ≡ before ++ bytes))
      → after_read posix r buffered (read_loop posix fuel descriptor (n + 1)) ≡ some (gives result)
      → (bytes : Bytes) × ReadsFrom n bytes × (result ≡ buffered ++ bytes)
  unfolding after_read
  after_read_sound fuel n buffered result (gives []) h later e =
      ([], at_end h, ground (arith, e, append-nil buffered))
  after_read_sound fuel n buffered result (gives (byte ∷ bytes)) h later e =
      let (rest, from, same) = later (buffered ++ (byte ∷ bytes)) e in
      (
        (byte ∷ bytes) ++ rest,
        chunk byte bytes rest h from,
        same ∙ append_assoc buffered (byte ∷ bytes) rest,
      )
  after_read_sound fuel n buffered result (throws e) h later k =
      elim (Bool-cases (e == posix.eintr)) [
        | inl same ↦
            let (bytes, from, split) = later buffered (ground (arith, k, same)) in
            (bytes, interrupted (h ∙ ap throws ((==_iff e posix.eintr).0 same)) from, split)
        | inr other ↦ absurd (ground (arith, k, other))
      ]

  read_loop_sound :
      (fuel n : ℕ) (buffered result : Bytes)
      → read_loop posix fuel descriptor n buffered ≡ some (gives result)
      → (bytes : Bytes) × ReadsFrom n bytes × (result ≡ buffered ++ bytes)
  unfolding read_loop
  read_loop_sound zero n buffered result h = absurd (ground (arith, h))
  read_loop_sound (suc fuel) n buffered result h =
      after_read_sound fuel n buffered result (posix.read descriptor n) refl
        (λ before. read_loop_sound fuel (n + 1) before result) h

module _ (posix : Posix) where
  -- The URL leads to this descriptor of a regular file.
  abbrev pub Opens : Url → ℕ → Type 0
  Opens url descriptor =
      (path : Text) × (mode : ℕ) × (posix.file_system_representation url ≡ some path)
      × (posix.open_file path ≡ gives descriptor)
      × (posix.file_status descriptor ≡ gives mode)
      × (is_regular mode ≡ true)

  represented :
      (fuel : ℕ) (url : Url) (path : Text)
      → posix.file_system_representation url ≡ some path
      → open_and_read_regular_file posix fuel url ≡ opened posix fuel (posix.open_file path)
  unfolding open_and_read_regular_file
  represented fuel url path e = rw (e, open_and_read_regular_file) refl

  -- A regular file is read to its end and closed, whatever the sizes of the chunks and however often its reads are interrupted, provided that the end comes: with fuel for these reads, the call returns all its bytes.
  pub open_and_read_finishes :
      (url : Url) (descriptor : ℕ) (bytes : Bytes) (from : ReadsFrom posix descriptor 0 bytes)
      (fuel : ℕ)
      → Opens url descriptor
      → reads posix descriptor from ≤ fuel
      → open_and_read_regular_file posix fuel url
        ≡ record { result = some (gives (content bytes)); closed = descriptor ∷ [] }
  unfolding opened read_regular read_result
  open_and_read_finishes url descriptor bytes from fuel (path, mode, named, opens, status, regular)
        enough =
      represented fuel url path named
      ∙ (ap (opened posix fuel) opens
          ∙ rw
              (
                status,
                read_regular,
                regular,
                read_loop_complete posix descriptor from fuel [] enough,
              )
              refl)

  read_result_content :
      (r : Option (Attempt PosixFileAccessError Bytes)) (bytes : Bytes)
      → read_result r ≡ some (gives (content bytes))
      → r ≡ some (gives bytes)
  unfolding read_result
  read_result_content none bytes h = absurd (ground (arith, h))
  read_result_content (some (throws e)) bytes h = absurd (ground (arith, h))
  read_result_content (some (gives b)) bytes h = ground (arith, h)

  read_regular_sound :
      (fuel descriptor : ℕ) (status : Attempt ℕ ℕ) (bytes : Bytes)
      → read_regular posix fuel descriptor status ≡ some (gives (content bytes))
      → (mode : ℕ) × (status ≡ gives mode)
        × (is_regular mode ≡ true)
        × ReadsFrom posix descriptor 0 bytes
  unfolding read_regular
  read_regular_sound fuel descriptor (throws e) bytes h = absurd (ground (arith, h))
  read_regular_sound fuel descriptor (gives mode) bytes h = elim (Bool-cases (is_regular mode)) [
    | inl e ↦
        let read : read_loop posix fuel descriptor 0 [] ≡ some (gives bytes) =
          read_result_content (read_loop posix fuel descriptor 0 []) bytes (ground (arith, h, e)) in
        let (found, from, same) = read_loop_sound posix descriptor fuel 0 [] bytes read in
        (mode, refl, e, subst (ReadsFrom posix descriptor 0) (sym same) from)
    | inr e ↦ absurd (ground (arith, h, e))
  ]

  opened_sound :
      (fuel : ℕ) (o : Attempt ℕ ℕ) (bytes : Bytes)
      → (opened posix fuel o).result ≡ some (gives (content bytes))
      → (descriptor : ℕ) × (o ≡ gives descriptor)
        × (read_regular posix fuel descriptor (posix.file_status descriptor)
            ≡ some (gives (content bytes)))
        × ((opened posix fuel o).closed ≡ descriptor ∷ [])
  unfolding opened
  opened_sound fuel (throws e) bytes h = absurd (ground (arith, h))
  opened_sound fuel (gives descriptor) bytes h = (descriptor, refl, h, refl)

  represented_sound :
      (fuel : ℕ) (url : Url) (bytes : Bytes) (o : Option Text)
      → posix.file_system_representation url ≡ o
      → (open_and_read_regular_file posix fuel url).result ≡ some (gives (content bytes))
      → (path : Text) × (o ≡ some path)
        × (open_and_read_regular_file posix fuel url ≡ opened posix fuel (posix.open_file path))
  unfolding open_and_read_regular_file
  represented_sound fuel url bytes none e h = absurd (ground (arith, h, e))
  represented_sound fuel url bytes (some path) e h = (path, refl, represented fuel url path e)

  -- Bytes that the call returns are those of a regular file, read from its first byte to its end through one descriptor, which is closed: no chunk is lost, repeated or replaced when a read is interrupted.
  pub open_and_read_sound :
      (url : Url) (fuel : ℕ) (bytes : Bytes)
      → (open_and_read_regular_file posix fuel url).result ≡ some (gives (content bytes))
      → (descriptor : ℕ) × Opens url descriptor
        × ReadsFrom posix descriptor 0 bytes
        × ((open_and_read_regular_file posix fuel url).closed ≡ descriptor ∷ [])
  open_and_read_sound url fuel bytes h =
      let (path, named, same) =
        represented_sound fuel url bytes (posix.file_system_representation url) refl h in
      let (descriptor, opens, read, closes) =
        opened_sound fuel (posix.open_file path) bytes (sym (ap (λ r. r.result) same) ∙ h) in
      let (mode, status, regular, from) =
        read_regular_sound fuel descriptor (posix.file_status descriptor) bytes read in
      (
        descriptor,
        (path, mode, named, opens, status, regular),
        from,
        ap (λ r. r.closed) same ∙ closes,
      )
