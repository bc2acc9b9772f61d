-- ===== src/Tests/Lines.antt =====
-- What scripts/build_hashes.py prints for the small world.
use elisa_lsp.Base.{false, none, some, [], ◌∷◌, ◌≡◌, refl}
use elisa_lsp.Base.Bytes.{
  encode, to_bytes8, big_endian, encode_char, from_hex, hex_value, is_all_hex, is_lower_hex, to_hex,
}
use elisa_lsp.Base.Text.{Text, codes, equal, contains}
use elisa_lsp.Hashes.Files.{FilePath}
use elisa_lsp.Base.Sort.{sort, lex_lt, text_lt, insert}
use elisa_lsp.Hashes.Files.{parts, suffix, relative_to, join, sha256_file, name, from_last_dot}
use elisa_lsp.Hashes.Trees.{
  lsp_inputs_sha256, compiler_sources_sha256, build_pipeline_sha256, tree_digest, tree_bytes,
  only_files, entry_bytes, pipeline_bytes,
}
use elisa_lsp.Hashes.Report.{ClosureInfo}
use elisa_lsp.Hashes.Command.{Arguments, main, other_hashes, print_hashes}
use elisa_lsp.Hashes.Command.Fields.{IsLine, main-IsLine}
use elisa_lsp.Tests.Fixture.{world}

abbrev root : FilePath
root = codes "lsp" ∷ []

abbrev compiler_root : FilePath
compiler_root = codes "compiler" ∷ []

abbrev compiler_bin : FilePath
compiler_bin = codes "elisac" ∷ []

abbrev args : Arguments
args = record {
  lsp_root = root;
  compiler_root = some compiler_root;
  compiler_bin = some compiler_bin;
  entry = codes "src/main.elisa";
  dependency_closure = false;
}

abbrev dumps : ClosureInfo → Text
dumps info = info.sha256

printed : (main world (λ b. none) (λ l c. none) 5 dumps args).status ≡ 0
unfolding main lsp_inputs_sha256 compiler_sources_sha256 build_pipeline_sha256 tree_digest
    tree_bytes sort only_files lex_lt text_lt parts equal contains suffix relative_to entry_bytes
    encode join to_bytes8 sha256_file big_endian encode_char from_hex hex_value is_all_hex
    is_lower_hex to_hex insert other_hashes print_hashes name from_last_dot pipeline_bytes
printed = refl

main-IsLine_example :
    IsLine world root compiler_root compiler_bin
      (main world (λ b. none) (λ l c. none) 5 dumps args).stdout
main-IsLine_example =
    main-IsLine world (λ b. none) (λ l c. none) 5 dumps args compiler_root compiler_bin refl refl
      refl printed
