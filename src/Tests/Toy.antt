-- ===== src/Tests/Toy.antt =====
-- A runtime small enough to run: texts are their own bytes, and a digest is a check sum.
use mathlib.Core.Bool.{◌||◌, ◌&&◌}
use swift_cidr_admission.Base.{
  ℕ, suc, zero, ◌+◌, ◌%◌, ◌≡◌, refl, Bool, true, [], ◌∷◌, Text, codes, Result, ok, raise, leb, ◌==◌,
  eof_error, all, arith,
}
use swift_cidr_admission.Json.{Json, object, member, end, array, nil}
use swift_cidr_admission.Runtime.{Runtime, Bytes, IsLawful, is_hex}

abbrev sum : Bytes → ℕ
sum [] = 0
sum (c ∷ b) = c + sum b

abbrev zeros : ℕ → Text
zeros zero = []
zeros (suc n) = b'0' ∷ zeros n

abbrev check_sum : Bytes → Text
check_sum b = (b'0' + sum b % 10) ∷ zeros 63

abbrev unzip : Bytes → Result Bytes
unzip [] = raise eof_error []
unzip (c ∷ b) = ok b

abbrev ascii_word : ℕ → Bool
ascii_word c =
    (leb b'0' c && leb c b'9')
    || (leb b'A' c && leb c b'Z')
    || (leb b'a' c && leb c b'z')
    || c == b'_'

abbrev no_rows : Json
no_rows = object (member (codes "files") (array nil) end)

abbrev pub toy : Runtime
toy = record {
  is_word = ascii_word;
  encode = λ t. ok t;
  decode = λ b. ok b;
  sha256 = check_sum;
  compress = λ b. 0 ∷ b;
  decompress = unzip;
  json_loads = λ t. ok no_rows;
  json_dumps = λ f v. codes "{}";
  csv_rows = λ t. ok ((t ∷ []) ∷ []);
  csv_text = λ rows. [];
}

check_sum-IsHex : (b : Bytes) → all is_hex (check_sum b) ≡ true
unfolding is_hex
check_sum-IsHex b = ground arith

pub toy-IsLawful : IsLawful toy
toy-IsLawful = record {
  decode-encode = λ t b h. cc;
  encode-decode = λ b t h. cc;
  decompress-compress = λ b. refl;
  sha256_form = λ b. (refl, check_sum-IsHex b);
}
