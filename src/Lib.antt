-- ===== src/Lib.antt =====
-- The library of swift-cidr-admission and its Python tooling: the admission of IP addresses by allow and
-- deny rules, the scripts that capture the benchmark results of the repository, and the tool that
-- publishes them.
--
-- Parts. The library (Sources/CIDRAdmission) makes a policy of rules, of a configuration, or of two
-- list files. A file is read once; its detached checksum, when it is required or present, is compared
-- with the bytes that were read, and these bytes are parsed to rules. A policy keeps its rules in
-- order for the detailed decision, and compiles them to exact coverage for the Boolean test. A capture
-- (Benchmarks/Results/Published/*/capture-scripts) builds variants of the library and runs rerun.py,
-- which for each run of a sequence checks the variant's workspace, waits until no compiler runs,
-- measures, exports, summarizes and checks the counts of the summary. The publication tool
-- (scripts/prepare-benchmark-publication.py) redacts the captures, lists the digests of what it
-- publishes, and verifies a published tree.
--
-- Files.
--   Base and its children: lists, texts as code points, dictionaries in insertion order, and Python's
--     exceptions as results.
--   Regex, Json, Runtime, Files: regular expressions by a matcher with its relation (the patterns use
--     classes, repetition, groups and look-behind), JSON values, what the Python runtime is trusted for,
--     and file trees.
--   Admission.Cidr, Platform, Errors: the types that the library takes from the package swift-cidr, from
--     Foundation and from Crypto, with their laws, and the errors that it throws. Admission.Messages: the
--     descriptions of the errors.
--   Admission.Rules, Characters: AdmissionRule.swift. Admission.Policy: IPAdmissionPolicy.swift and
--     IPAdmissionCoverageIndex.swift. Admission.Configuration: the configuration of a policy as JSON.
--   Admission.Checksum: the verifier of DetachedSHA256ChecksumVerifier.swift. Admission.ListText:
--     IPListTextParser.swift. Admission.Loader: the role loader and init(fileConfiguration:).
--     Admission.FileAccess: openAndReadRegularFile, over the system's calls; its child Live composes it
--     with the loader.
--   Publication.Patterns, Redaction, Privacy, Transform: HOME to SECRETS, redact, redact_json,
--     check_privacy and transform.
--   Publication.Lines, Manifest, Bundle, Verify: the parsing of a manifest, checksum_manifest and
--     check_manifest, publication_bundle and expected_publication, verify_published.
--   Publication.Readme: the constant README. Publication.Prepare: prepare and main, as actions on the
--     files; path.resolve() and the name of the temporary folder are parameters.
--   Capture.World: the state of a capture: its files, how many questions the machine has answered, and
--     what was printed. An action may raise; what it did before stays done.
--   Capture.Inversion, Reading, Keeping: what the outcome of an action tells of its steps.
--   Capture.Compilers: compiler_processes and wait_for_compilers.
--   Capture.Shell, Commands: the parts of re, shlex and pathlib that are used; timestamp, output,
--     compress, execute.
--   Capture.Experiment, Metadata, Workspace, Rerun: environment, SEQUENCE, the metadata,
--     check_workspace, capture_run and the main program, over a record of what the captures differ in.
--   Capture.Summarize and its children: summarize.py, the checks of the native results and of the exported
--     percentiles, the rows of the summary and the counts of coverage.json.
--   Capture.TwoPhase, LazyProjection, PeerProjection, PatchedCidr: the four captures.
--   Tests: concrete runs, and each theorem at an input that meets its hypotheses.
--
-- Parameters. Cidr has the address families: parsing and printing, containment, and coverage; its laws
-- say that an address is its bits, that the range of an address or of a network holds what they hold,
-- and that coverage is exact. Platform has UTF-8, SHA-256, the segmentation of text into characters,
-- the character sets and URLs; its laws are that the bytes of a text decode and that a digest has 32
-- bytes. FileAccess is what openAndRead finds at each of its calls, so that a file may change between
-- two calls; Posix has the system's calls and error numbers. Runtime has the Unicode tables, the
-- codecs, SHA-256, zlib, json and csv; its laws are the documented round trips. Host has the clock,
-- the processes, the commands and what they do to the files, and the environment. Decimals has
-- Python's decimal module. Floating-point numbers occur only as literals.
--
-- Bounds and fuel. The loop that reads a file runs on fuel, one turn for each call of read up to the
-- one that finds the end. wait_for_compilers runs on 182 rounds, enough for fifteen minutes of five-
-- second sleeps when the clock keeps to them. The digits of str(n) run on n + 1 steps. All other loops
-- are on lists. Numbers are without bound, as Python's
-- are; the library's are counts of lines, bytes and items, and address bits that it only compares. A
-- number of coverage.json is read as a natural number.
--
-- Not modelled: the command line of the publication tool, capture and prepare of prepare.py,
-- analyze.py and the scripts that set up, seal and finalize a capture; the tests, the examples and the
-- benchmarks of the library; the shell scripts.
pub mod Base
pub mod Regex
pub mod Json
pub mod Runtime
pub mod Files
pub mod Publication
pub mod Capture
pub mod Admission
mod Tests
