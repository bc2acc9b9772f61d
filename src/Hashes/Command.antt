-- ===== src/Hashes/Command.antt =====
-- main of scripts/build_hashes.py, from the parsed arguments on: what it prints and its exit status.
pub mod Fields
use elisa_lsp.Base.{ℕ, Bool, true, false, Option, none, some, [], ◌∷◌, ◌++◌, if◌then◌else◌}
use elisa_lsp.Base.Bytes.{Bytes}
use elisa_lsp.Base.Text.{Text}
use elisa_lsp.Json.{Value}
use elisa_lsp.Hashes.Result.{Error, overflow_error, recursion_error, Result, ok, err, ◌>>=◌}
use elisa_lsp.Hashes.Files.{Files, FilePath, sha256_file}
use elisa_lsp.Hashes.Trees.{lsp_inputs_sha256, compiler_sources_sha256, build_pipeline_sha256}
use elisa_lsp.Hashes.Report.{ClosureInfo, View, compiler_include_closure}

pub record Arguments : Type 0 where
  pub lsp_root : FilePath
  pub compiler_root : Option FilePath
  pub compiler_bin : Option FilePath
  pub entry : Text
  pub dependency_closure : Bool

-- What is on stdout in the end, and the exit status: 2 after `parser.error`, 1 after an exception.
pub record Ended : Type 0 where
  pub stdout : Text
  pub status : ℕ

abbrev pub tab : Text
tab = 0x09 ∷ []

abbrev pub newline : Text
newline = 0x0a ∷ []

-- `except (DependencyClosureError, OSError, ValueError)`
abbrev pub ends_usage : Error → Bool
ends_usage overflow_error = false
ends_usage recursion_error = false
ends_usage _ = true

-- What follows the hash of the inputs.
unfoldable pub other_hashes : Files → FilePath → FilePath → FilePath → Result Text
other_hashes fs lsp_root compiler_root compiler_bin = do
  sources ← compiler_sources_sha256 fs compiler_root
  binary ← sha256_file fs compiler_bin
  pipeline ← build_pipeline_sha256 fs lsp_root
  ok (tab ++ (sources ++ (tab ++ (binary ++ (tab ++ pipeline)))))

abbrev pub finished : Text → Result Text → Ended
finished inputs (ok rest) = record { stdout = inputs ++ (rest ++ newline); status = 0 }
finished inputs (err e) = record { stdout = inputs; status = 1 }

abbrev pub after_inputs : Files → Arguments → Text → Option FilePath → Option FilePath → Ended
after_inputs fs args inputs none none = record { stdout = inputs ++ newline; status = 0 }
after_inputs fs args inputs (some compiler_root) (some compiler_bin) =
    finished inputs (other_hashes fs args.lsp_root compiler_root compiler_bin)
after_inputs fs args inputs _ _ = record { stdout = inputs; status = 2 }

unfoldable pub print_hashes : Files → Arguments → Ended
unfolding other_hashes
print_hashes fs args = elim (lsp_inputs_sha256 fs args.lsp_root) [
  | err e ↦ record { stdout = []; status = 1 }
  | ok inputs ↦ after_inputs fs args inputs args.compiler_root args.compiler_bin
]

-- `dumps` is `json.dumps` of the closure.
module _ (fs : Files) (loads : Bytes → Option Value) (stage : FilePath → FilePath → Option View)
    (depth : ℕ) (dumps : ClosureInfo → Text) where
  abbrev pub reported : Result ClosureInfo → Ended
  reported (ok info) = record { stdout = dumps info ++ newline; status = 0 }
  reported (err e) = record { stdout = []; status = if ends_usage e then 2 else 1 }

  abbrev pub print_closure : Arguments → Option FilePath → Option FilePath → Ended
  print_closure args (some compiler_root) (some compiler_bin) = reported (
      compiler_include_closure fs loads stage depth args.lsp_root compiler_root compiler_bin
        args.entry)
  print_closure args _ _ = record { stdout = []; status = 2 }

  unfoldable pub main : Arguments → Ended
  unfolding print_hashes
  main args =
      if args.dependency_closure
      then print_closure args args.compiler_root args.compiler_bin
      else print_hashes fs args
