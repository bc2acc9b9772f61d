-- ===== src/Lib.antt =====
-- The Python tooling of Elisa-LSP: the scripts that fingerprint, verify and qualify a build.
--
-- The language server itself is written in Elisa and C. Around it stand Python scripts, which decide
-- whether an executable may be trusted: scripts/build_hashes.py fingerprints the build inputs and
-- makes the compiler's include closure, build.sh writes these into a manifest,
-- scripts/check_build_freshness.py compares a manifest with an executable, the live sources and the
-- immutable snapshot that was built, scripts/platform_validation.py runs the build, that check and
-- the tests on a host and labels it, scripts/compiler_upgrade_gate.py compares two compilers,
-- scripts/generate_diagnostic_codes.py makes the adapter of the compiler's diagnostic kinds, and
-- scripts/diagnostic_span_inventory.py counts where the compiler makes diagnostics. The tests talk to
-- the server through test/lsp_client.py, which decodes its stdout and records the messages.
--
-- Files and what they model:
--   Base             numbers, lists, Python's `str` as code points (Text), bytes and their encodings
--                    (Bytes), total orders and `sorted` (Sort), signed integers (Int), association lists
--                    keyed by texts (Tables)
--   Json             the values of `json.loads`
--   Markers          failed_test_names and failure_diagnostic_lines of
--                    scripts/compiler_upgrade_gate.py, failure_markers of
--                    scripts/platform_validation.py
--   Platform         command_record, platform_gate_status, read_manifest and main of
--                    scripts/platform_validation.py; Platform/Toolchain is its resolve_path,
--                    discover_compiler, git_value and toolchain_identity, Platform/Arguments is main
--                    from the parsed arguments on; Label and Named are about the exit status and the
--                    named tools, Identity about the hashes in the report
--   Upgrade          candidate_environments, full_qualification_requested, run, candidate_run and the
--                    verdict of main of scripts/compiler_upgrade_gate.py; Upgrade/Benchmarks is its
--                    compare_benchmarks and Upgrade/Benchmarks/Summary its summarize_benchmark,
--                    Upgrade/Qualified and Upgrade/Verdict are about its verdict
--   Codes            scripts/generate_diagnostic_codes.py; Codes/Checked is about the variants that it
--                    reads, Codes/Printed about the adapter that it writes
--   Inventory        build_inventory and main of scripts/diagnostic_span_inventory.py; Masking, Fields
--                    and Scan below it are its three text functions, Counts and Written are about
--                    what it counts and writes
--   Frames           the frames and headers of test/lsp_client.py; Frames/Decoder is its FrameDecoder and
--                    parse_stream, Frames/Ids and Frames/Session are _id_key, _record_frame and
--                    _pump_once of its LspSession, Frames/Waits is its wait_response, wait_notification
--                    and recv, Frames/Fragments and Frames/Writes its send_fragmented and _write_all, Frames/Requests
--                    its send, notify, request and initialize, Frames/Stderr its _drain_stderr and
--                    assert_no_stderr_errors; Marker, Rounds, Chunks, Printed, Stream, Bounded and
--                    Resumed are about the decoder, Distinct, Recorded, Pumped and Drained about the
--                    session
--   Hashes/Result    the exceptions of scripts/build_hashes.py, as values
--   Hashes/Files     _resolve_file, sha256_file, and the answers of the file system
--   Hashes/Digest    dependency_closure_sha256
--   Hashes/Trees     tree_digest, lsp_inputs_sha256, compiler_sources_sha256, build_pipeline_sha256
--   Hashes/Closure   _logical_path, _closure_records, dependency_closure_sha256_for_roots
--   Hashes/Directives, Hashes/Includes
--                    INCLUDE_DIRECTIVE_RE, _parser_include_paths, _recursive_include_paths
--   Hashes/Report    _compiler_report_paths, _conservative_source_paths, compiler_include_closure
--   Hashes/Command   main; Fields below it is about the line that build.sh reads
--   Hashes/GoBuild   parse_go_build_info, stage0_provenance; Split and Stated below it are about what a
--                    line states, Version, Matches and Search about the pattern of the version,
--                    Deciding, Loop and Latest about which lines count
--   Freshness        verify_live_include_closure and main of scripts/check_build_freshness.py;
--                    Freshness/Snapshot is its verify_source_snapshot; Layout, Accepts and
--                    Fresh are about what an accepted build has
--   Tests            runs at concrete inputs, on the small world of Tests/Fixture
--
-- How the code and the model correspond. A Python function is a function of the same name, less a
-- leading underscore. What may raise returns a value of a result type that has one constructor for
-- each `raise` (Hashes/Result) or one for each call of `reject` (Freshness/Verdict); the texts of
-- messages are left out. A `str` is its list of code points, so that UTF-8, hexadecimal digits and
-- line splitting are the real ones. A path is the list of its parts. A dictionary that the code
-- only fills in and reads by key is an association list or a function. `sorted` is insertion sort.
--
-- Parameters, never made up: the file system, `os.fsdecode` and SHA-256 (the record Files), what
-- `os.walk` and `lstat` answer (Disk), how a subprocess ends (Ran, CompilerRun), the JSON parser, the
-- private view that compiler_include_closure stages, `str` of a JSON value that is no text,
-- `str.lower`, `str.isalnum`, `str.isdecimal`, `json.dumps`, UTF-8 decoding in the test client
-- (Python, Reading), `re.search` (Reading), `json.dumps` (Dumps, and of a closure), what `select` and `os.write` answer
-- (Turn), `read_text`, floating-point numbers (Floats, Numbers), what the upgrade gate reads of a tree
-- (Machine), and what the host answers platform_validation.py about paths, git and clang (Tools).
-- The file system does not change while one function runs, and fails with an `OSError` only: a path
-- that Python refuses otherwise (a null byte in it) is left out.
--
-- Bounds and fuel. The include traversal recurs on the depth that the interpreter's recursion limit
-- leaves and fails with `recursion_error` at 0, as Python does; a depth above the number of files is
-- enough. The loop of FrameDecoder.feed runs on two rounds more
-- than the buffer has bytes; each round but the first removes a byte. A wait of the client runs over
-- the events that come before its deadline, and a write over the rounds that do. All other loops are structural. Lengths are written in 8 bytes, and an overflow is an error.
--
-- Not modelled: argument parsing and printing, the writing of reports, flatten_numbers (nothing calls
-- it), the manifest's fields and the times in the upgrade report, the copying of trees and of the
-- staged view (I/O), the benchmark and the tests under test/, and of the test client the start and
-- the end of the subprocess (abort, close, finish), the threads and the clock.
pub mod Base
pub mod Json
pub mod Markers
pub mod Platform
pub mod Upgrade
pub mod Codes
pub mod Inventory
pub mod Frames
pub mod Hashes
pub mod Freshness
mod Tests
