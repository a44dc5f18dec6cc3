-- ===== src/Publication/Redaction.antt =====
-- `redact` and `redact_json`.
pub mod Shape
use swift_cidr_admission.Base.{
  ℕ, Bool, Text, codes, ok, Result, raise, check, value_error, ◌>>=◌, ◌>>◌, ◌==◌,
}
use swift_cidr_admission.Regex.{sub}
use swift_cidr_admission.Json.{
  Json, Items, Members, null, boolean, number, string, array, object, nil, cons, end, member, count,
  set_key,
}
use swift_cidr_admission.Publication.Patterns.{home, temp, host, linux_host}

-- `word` is what `\w` matches.
unfoldable pub redact : (ℕ → Bool) → Text → Text
redact word text =
    let text = sub home (codes "REDACTED_HOME") text in
    let text = sub temp (codes "REDACTED_TMP") text in
    let text = sub (host word) (codes "benchmark-host") text in
    sub linux_host (codes "linux-validation-host") text

-- `redact_members` adds the redacted members of a `dict` to those that it has so far.
module _ (redact : Text → Text) where
  unfoldable mutual
    pub redact_json : Json → Result Json
    redact_json null = ok null
    redact_json (boolean b) = ok (boolean b)
    redact_json (number t) = ok (number t)
    redact_json (string t) = ok (string (redact t))
    redact_json (array vs) = redact_items vs >>= λ ws. ok (array ws)
    redact_json (object m) = redact_members m end >>= λ result.
        check (count result == count m) value_error (codes "Redaction would merge JSON keys")
        >> ok (object result)

    pub redact_items : Items → Result Items
    redact_items nil = ok nil
    redact_items (cons v vs) = redact_json v >>= λ w. redact_items vs >>= λ ws. ok (cons w ws)

    pub redact_members : Members → Members → Result Members
    redact_members end result = ok result
    redact_members (member k v m) result =
        redact_json v >>= λ w. redact_members m (set_key (redact k) w result)
