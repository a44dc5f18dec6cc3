-- ===== src/Publication/Privacy.antt =====
-- `check_privacy`.
use swift_cidr_admission.Base.{
  ℕ, Bool, ◌||◌, not, Text, codes, Result, check, value_error, ◌>>=◌, ◌>>◌,
}
use swift_cidr_admission.Regex.{search}
use swift_cidr_admission.Runtime.{Runtime, Bytes}
use swift_cidr_admission.Publication.Patterns.{private_path, temp, host, linux_host, secrets}

-- The first test: a private path or a host.
unfoldable pub identifies : (ℕ → Bool) → Text → Bool
identifies word t =
    search private_path t || search temp t || search (host word) t || search linux_host t

unfoldable pub check_text : (ℕ → Bool) → Text → Result (Unit {0})
unfolding identifies
check_text word t =
    check (not (identifies word t)) value_error (codes "Unredacted private path or host identity")
    >> check (not (search secrets t)) value_error (codes "Credential marker requires manual review")

unfoldable pub check_privacy : Runtime → Bytes → Result (Unit {0})
unfolding check_text
check_privacy rt bytes = rt.decode bytes >>= λ text. check_text rt.is_word text
