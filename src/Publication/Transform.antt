-- ===== src/Publication/Transform.antt =====
-- `transform`: one artifact's published bytes.
pub mod Safety
use swift_cidr_admission.Base.{
  ℕ, zero, suc, ◌-◌, Bool, true, false, ◌||◌, List, [], ◌∷◌, ◌++◌, map, Text, codes, text_eq,
  Result, ok, raise, check, value_error, ◌>>=◌, ◌>>◌, ◌==◌, if◌then◌else◌, length, take,
}
use swift_cidr_admission.Base.Strings.{ends_with}
use mathlib.Core.Logic.{ite}
use native.Mathlib.Decide.{ℕ_discrete}
use swift_cidr_admission.Regex.{sub, lit}
use swift_cidr_admission.Json.{Json, Json-discrete}
use swift_cidr_admission.Runtime.{Runtime, Bytes, Formatting, compact, indented}
use swift_cidr_admission.Publication.Redaction.{redact, redact_json}
use swift_cidr_admission.Publication.Privacy.{check_privacy}

-- name.endswith(".gz")
unfoldable pub is_zipped : Text → Bool
is_zipped name = ends_with name (codes ".gz")

-- name[:-3] if zipped else name
unfoldable pub logical_name : Text → Text
unfolding is_zipped
logical_name name = if is_zipped name then take (length name - 3) name else name

unfoldable pub is_json : Text → Bool
is_json logical = ends_with logical (codes ".json")

unfoldable pub is_csv : Text → Bool
is_csv logical =
    ends_with logical (codes ".csv") || ends_with logical (codes "export-influx.stdout.log")

-- The elements of `text.split("\n", 1)`, if there are two.
unfoldable pub split_line : Text → Result (Text × Text)
split_line [] = raise value_error (codes "not enough values to unpack (expected 2, got 1)")
split_line (c ∷ t) = elim (c == 10) [
  | true ↦ ok ([], t)
  | false ↦ split_line t >>= λ (heading, remainder). ok (c ∷ heading, remainder)
]

abbrev pub notice : Text
notice =
    codes
      "\n\n> Sanitized historical copy; see [publication notes](../README.md). Embedded hashes and validation claims refer to the original capture.\n"

-- What a README gets. `str.replace` is `sub` by the text itself.
unfoldable pub with_notice : Text → Result Text
unfolding split_line
with_notice text = split_line text >>= λ (heading, remainder). ok (
    sub (lit (codes "](../../Sampling.md)")) (codes "](../../../Sampling.md)")
      (heading ++ (notice ++ remainder)))

pub rows-discrete : Discrete (List (List Text))
rows-discrete = hlevel (ℕ_discrete)

module _ (rt : Runtime) where
  unfoldable pub redact_document : Bool → Text → Result Text
  redact_document zipped text = rt.json_loads text >>= λ before.
      redact_json (redact rt.is_word) before >>= λ after. ok (
        ite (Json-discrete before after) text
          (rt.json_dumps (if zipped then compact else indented) after ++ (10 ∷ [])))

  unfoldable pub redact_table : Text → Result Text
  redact_table text = rt.csv_rows text >>= λ rows.
      let redacted = map (map (redact rt.is_word)) rows in
      ok (ite (rows-discrete rows redacted) text (rt.csv_text redacted))

  -- The branches on the logical name.
  unfoldable pub rewrite : Bool → Text → Text → Result Text
  unfolding is_json is_csv redact_document redact_table
  rewrite zipped logical text =
      if is_json logical
      then redact_document zipped text
      else if is_csv logical
      then redact_table text
      else ok (redact rt.is_word text)

  -- The bytes to check and the bytes to publish.
  unfoldable pub seal : Bool → Bytes → Bytes → Bytes → Bytes
  seal zipped original payload result =
      if text_eq result payload then original else if zipped then rt.compress result else result

  -- `gzip.decompress` where the name asks for it.
  unfoldable pub payload_of : Text → Bytes → Result Bytes
  unfolding is_zipped
  payload_of name bytes = if is_zipped name then rt.decompress bytes else ok bytes

  unfoldable pub transform : Text → Bytes → Result Bytes
  transform name bytes = payload_of name bytes >>= λ payload. rt.decode payload >>= λ text.
      rewrite (is_zipped name) (logical_name name) text >>= λ redacted.
      (if text_eq name (codes "README.md") then with_notice redacted else ok redacted) >>= λ final.
      rt.encode final >>= λ result.
      check_privacy rt result >> ok (seal (is_zipped name) bytes payload result)
