-- ===== src/Publication/Readme.antt =====
-- The constant README of the publication tool: its lines.
use swift_cidr_admission.Base.{List, [], ◌∷◌, ◌++◌, Text, codes}

-- Each line with its line feed.
unfoldable pub text_of_lines : List Text → Text
text_of_lines [] = []
text_of_lines (line ∷ lines) = line ++ (codes "\n" ++ text_of_lines lines)

unfoldable pub readme : Text
readme = text_of_lines (
    codes "# Sanitized Benchmark Publication Copies"
    ∷ codes ""
    ∷ codes "These are derivatives of six dated October captures, not new measurements or"
    ∷ codes "a performance baseline for released 0.3.3. See the [capture index](../README.md)"
    ∷ codes "for the investigation's outcome and [sampling guide](../../Sampling.md) for"
    ∷ codes "percentile interpretation. Historical case names and numerical results remain"
    ∷ codes "unchanged, including the original full-suite CSV's overly broad percentile labels."
    ∷ codes "Use the sampling follow-up's `original-summary-relabeled.csv` for corrected labels."
    ∷ codes ""
    ∷ codes "## Provenance And Redaction"
    ∷ codes ""
    ∷ codes "- Original captures remain outside this directory, unchanged and ignored by Git."
    ∷ codes "- Home and per-user temporary paths become `REDACTED_HOME/` and `REDACTED_TMP/`."
    ∷ codes "  Machine hostnames become `benchmark-host` or `linux-validation-host`."
    ∷ codes "  The Linux validation host's address is removed with its host description;"
    ∷ codes "  benchmark IP fixtures, hardware, OS/compiler versions, and attribution remain."
    ∷ codes "- JSON strings and CSV fields are transformed with structured parsers; numerical"
    ∷ codes "  values are preserved. Changed gzip payloads are recompressed deterministically."
    ∷ codes "  Unchanged artifacts are copied byte-for-byte. Relative sampling links are"
    ∷ codes "  adjusted for this directory's extra nesting and capture READMEs get a notice."
    ∷ codes "- Each bundle's `ORIGINAL-SHA256SUMS` is the untouched original checksum manifest."
    ∷ codes "  `publication.json` maps every original file hash to its published file hash."
    ∷ codes "  `SHA256SUMS` checks the publication bytes, including this mapping. The root"
    ∷ codes "  `SHA256SUMS` also covers all bundles and their manifests."
    ∷ codes "- Embedded historical hashes, byte counts, commands, source paths, and validation"
    ∷ codes "  claims still refer to original captures. They are not silently rewritten to"
    ∷ codes "  claim validation of sanitized bytes. Archived scripts/patches are evidence,"
    ∷ codes "  not a turnkey reproduction workflow; redacted paths need local configuration."
    ∷ codes ""
    ∷ codes "Checksums detect byte changes, not producer authenticity. The automated privacy"
    ∷ codes "scan covers known path, host, and credential patterns; it is not a guarantee"
    ∷ codes "that arbitrary future captures contain no sensitive information."
    ∷ codes ""
    ∷ codes "## Verification"
    ∷ codes ""
    ∷ codes "From the repository root (Python 3.9 or later, standard library only):"
    ∷ codes ""
    ∷ codes "```bash"
    ∷ codes "python3 scripts/prepare-benchmark-publication.py --verify-published"
    ∷ codes "python3 -B -m unittest discover -s scripts/tests -p 'test_benchmark_publication.py'"
    ∷ codes "```"
    ∷ codes ""
    ∷ codes "Maintainers with the private originals can additionally run:"
    ∷ codes ""
    ∷ codes "```bash"
    ∷ codes "python3 scripts/prepare-benchmark-publication.py --verify"
    ∷ codes "```"
    ∷ codes ""
    ∷ codes "To regenerate, use `--destination` with a new empty location. The tool refuses"
    ∷ codes "to overwrite an existing destination, validates every original checksum first,"
    ∷ codes "and never modifies source captures. Regeneration is deterministic within the"
    ∷ codes "same Python/zlib runtime; cross-runtime compression bytes can differ."
    ∷ [])
