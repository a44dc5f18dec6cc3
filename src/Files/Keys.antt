-- ===== src/Files/Keys.antt =====
-- The names in what `files` of scripts/prepare-benchmark-publication.py reads.
use swift_cidr_admission.Base.{
  ◌≡◌, subst, Bool, true, false, [], ◌∷◌, Result, ok, raise, ErrorClass, Text, ok-injective, arith,
  if◌then◌else◌, ◌||◌, any, codes,
}
use swift_cidr_admission.Base.Dict.{Dict, insert, NodupKeys, insert-NodupKeys}
use swift_cidr_admission.Runtime.{Bytes}
use swift_cidr_admission.Files.{
  FilePath, FileSystem, folder, file, unreadable, link, as_posix, read_files, files, sorted_paths,
  below, is_link, is_link_at, node_at, Node,
}

read_files-NodupKeys :
    (fs : FileSystem) (d : Dict Bytes) {content : Dict Bytes}
    → NodupKeys d
    → read_files d fs ≡ ok content
    → NodupKeys content
unfolding read_files
read_files-NodupKeys [] d n h = subst NodupKeys (ok-injective h) n
read_files-NodupKeys ((p, folder) ∷ fs) d n h = read_files-NodupKeys fs d n h
read_files-NodupKeys ((p, file bytes) ∷ fs) d n h =
    read_files-NodupKeys fs (insert (as_posix p) bytes d) (insert-NodupKeys (as_posix p) bytes d n)
      h
read_files-NodupKeys ((p, unreadable) ∷ fs) d n h = absurd (ground (arith, h))
read_files-NodupKeys ((p, link alive) ∷ fs) d n h = read_files-NodupKeys fs d n h

otherwise_ok :
    {A : Type 0} (condition : Bool) (c : ErrorClass) (message : Text) (next : Result A) {a : A}
    → (if condition then raise c message else next) ≡ ok a
    → next ≡ ok a
otherwise_ok true c message next h = absurd (ground (arith, h))
otherwise_ok false c message next h = h

-- No name stands twice.
pub files-NodupKeys :
    (fs : FileSystem) (root : FilePath) {content : Dict Bytes}
    → files fs root ≡ ok content
    → NodupKeys content
unfolding files
files-NodupKeys fs root h =
    let paths = sorted_paths (below root fs) in
    read_files-NodupKeys paths [] tt (
      otherwise_ok
        (any (λ (e : FilePath × Node). is_link e.1) paths || is_link_at (node_at root fs))
        ErrorClass.value_error (codes "Symlinks are not supported in capture bundles")
        (read_files [] paths) h)
