-- ===== src/Runtime.antt =====
-- What the tools take from the Python runtime as given: the Unicode tables, the codecs, SHA-256,
-- zlib, and the readers and writers of JSON and CSV.
use swift_cidr_admission.Base.{
  ℕ, Bool, true, ◌≡◌, ◌&&◌, ◌||◌, leb, List, Text, Result, ok, all, length,
}
use swift_cidr_admission.Json.{Json}

abbrev pub Bytes : Type 0
Bytes = List ℕ

-- The arguments of `json.dumps`: `ensure_ascii=False` with compact separators or an indent of two,
-- the plain indent of two, and the same with sorted keys.
pub data Formatting : Type 0 where
  compact indented indented_ascii indented_sorted : Formatting

pub record Runtime : Type 0 where
  -- `str.isalnum` or `_`, for one character: what `\w` matches.
  pub is_word : ℕ → Bool
  -- str.encode() and bytes.decode(), in UTF-8.
  pub encode : Text → Result Bytes
  pub decode : Bytes → Result Text
  -- hashlib.sha256(data).hexdigest()
  pub sha256 : Bytes → Text
  -- gzip.compress(data, compresslevel=9, mtime=0) and gzip.decompress(data)
  pub compress : Bytes → Bytes
  pub decompress : Bytes → Result Bytes
  pub json_loads : Text → Result Json
  pub json_dumps : Formatting → Json → Text
  -- list(csv.reader(io.StringIO(text, newline=""))), and the text of a csv.writer whose lines end
  -- in a line feed.
  pub csv_rows : Text → Result (List (List Text))
  pub csv_text : List (List Text) → Text

-- A hexadecimal digit, in lower case.
unfoldable pub is_hex : ℕ → Bool
is_hex c = (leb b'0' c && leb c b'9') || (leb b'a' c && leb c b'f')

-- The documented round trips, and the form of `hexdigest()`.
pub record IsLawful (rt : Runtime) : Type 0 where
  pub decode-encode : (t : Text) (b : Bytes) → rt.encode t ≡ ok b → rt.decode b ≡ ok t
  pub encode-decode : (b : Bytes) (t : Text) → rt.decode b ≡ ok t → rt.encode t ≡ ok b
  pub decompress-compress : (b : Bytes) → rt.decompress (rt.compress b) ≡ ok b
  pub sha256_form : (b : Bytes) → (length (rt.sha256 b) ≡ 64) × (all is_hex (rt.sha256 b) ≡ true)
