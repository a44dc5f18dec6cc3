-- ===== src/Publication/Patterns.antt =====
-- The seven patterns of scripts/prepare-benchmark-publication.py, from its assembled literals.
use swift_cidr_admission.Base.{ℕ, Bool, ◌&&◌, ◌||◌, not, [], ◌∷◌, Text, codes, leb, ◌==◌, any}
use swift_cidr_admission.Regex.{
  Regex, cls, seq, alt, ahead, boundary, eos, lit, opt, plus, times, at_least, one_of,
}

-- `\s` of a text pattern: the characters of Unicode's white space that `str.isspace` knows.
unfoldable pub is_space : ℕ → Bool
is_space c =
    (leb 9 c && leb c 13)
    || (leb 28 c && leb c 32)
    || c == 0x85
    || c == 0xa0
    || c == 0x1680
    || (leb 0x2000 c && leb c 0x200a)
    || c == 0x2028
    || c == 0x2029
    || c == 0x202f
    || c == 0x205f
    || c == 0x3000

-- A quote or a backslash.
is_quote : ℕ → Bool
is_quote c = c == 34 || c == 39 || c == 92

is_digit : ℕ → Bool
is_digit c = leb b'0' c && leb c b'9'

is_upper : ℕ → Bool
is_upper c = leb b'A' c && leb c b'Z'

is_lower : ℕ → Bool
is_lower c = leb b'a' c && leb c b'z'

is_letter_or_digit : ℕ → Bool
unfolding is_digit is_upper is_lower
is_letter_or_digit c = is_upper c || is_lower c || is_digit c

among : Text → ℕ → Bool
among s c = any (λ d. d == c) s

-- `[^/]+`
segment : Regex
segment = plus (λ c. not (c == b'/'))

-- HOME
unfoldable pub home : Regex
unfolding lit plus one_of is_quote is_space
home = seq (lit (codes "/")) (
    seq (one_of (lit (codes "Users")) (lit (codes "home") ∷ []))
      (seq (lit (codes "/")) (plus (λ c. not (c == b'/' || is_space c || is_quote c)))))

-- TEMP
unfoldable pub temp : Regex
unfolding lit opt plus one_of segment is_quote is_space among
temp = seq (lit (codes "/")) (
    seq (opt (lit (codes "private/"))) (
      seq (lit (codes "var/")) (
        seq
          (alt
            (seq (lit (codes "folders/")) (
              seq segment (
                seq (lit (codes "/"))
                  (seq segment (seq (lit (codes "/")) (cls (among (codes "TC"))))))))
            (lit (codes "tmp")))
          (ahead (
            one_of (lit (codes "/"))
              (cls (λ c. is_space c || is_quote c || c == b')') ∷ eos ∷ []))))))

-- PRIVATE
unfoldable pub private_path : Regex
unfolding lit one_of segment plus
private_path =
    one_of (lit (codes "/Users/")) (
      seq (lit (codes "/home/")) (seq segment (lit (codes "/"))) ∷ lit (codes "/private/var/") ∷ [])

-- HOST, for the characters that `\w` matches.
unfoldable pub host : (ℕ → Bool) → Regex
unfolding lit plus opt
host word = seq (boundary word) (
    seq (plus (λ c. word c || c == b'.' || c == b'-'))
      (seq (lit (codes "-MacBook-Pro")) (seq (opt (lit (codes ".local"))) (boundary word))))

-- LINUX_HOST
unfoldable pub linux_host : Regex
unfolding lit opt plus is_digit
linux_host =
    seq (lit (codes "swift-dev"))
      (opt (seq (lit (codes " (")) (seq (plus (λ c. is_digit c || c == b'.')) (lit (codes ")")))))

-- SECRETS
unfoldable pub secrets : Regex
unfolding lit opt one_of times at_least among is_letter_or_digit
secrets =
    one_of
      (seq (lit (codes "-----BEGIN ")) (
        seq
          (opt (
            one_of (lit (codes "OPENSSH ")) (
              lit (codes "RSA ")
              ∷ lit (codes "EC ")
              ∷ lit (codes "DSA ")
              ∷ lit (codes "ENCRYPTED ")
              ∷ [])))
          (lit (codes "PRIVATE KEY-----"))))
      (seq (one_of (lit (codes "AKIA")) (lit (codes "ASIA") ∷ []))
          (times 16 (λ c. is_digit c || is_upper c))
        ∷ seq (lit (codes "gh")) (
            seq (cls (among (codes "pousr")))
              (seq (lit (codes "_")) (at_least 20 is_letter_or_digit)))
        ∷ seq (lit (codes "github_pat_")) (at_least 20 (λ c. is_letter_or_digit c || c == b'_'))
        ∷ seq (lit (codes "xox")) (
            seq (cls (among (codes "baprs")))
              (seq (lit (codes "-")) (at_least 20 (λ c. is_letter_or_digit c || c == b'-'))))
        ∷ seq (lit (codes "sk-")) (
            seq (one_of (lit (codes "live")) (lit (codes "proj") ∷ [])) (
              seq (lit (codes "-"))
                (at_least 16 (λ c. is_letter_or_digit c || c == b'_' || c == b'-'))))
        ∷ [])
