-- ===== src/Tests/Provenance.antt =====
-- The build information of a concrete stage0 compiler.
use elisa_lsp.Base.{ℕ, Bool, true, false, ◌&&◌, none, some, leb, ◌++◌, ◌≡◌, refl, arith}
use elisa_lsp.Base.Int.{pos}
use elisa_lsp.Base.Text.{Text, codes, splitlines, equal, is_space}
use elisa_lsp.Base.Patterns.{span, after}
use elisa_lsp.Hashes.GoBuild.{parse_go_build_info, stage0_provenance, exited, stage0_rebuild_recipe}
use elisa_lsp.Hashes.GoBuild.Latest.{IsRead, parse_go_build_info-IsRead}

abbrev is_decimal : ℕ → Bool
is_decimal c = leb b'0' c && leb c b'9'

abbrev output : Text
output =
    codes "/x/elisac: go1.22.1\n\tpath\texample.org/elisac\n\tmod\tm\n\tbuild\tGOOS=linux\n"
    ++ codes "\tbuild\tvcs.modified=true\n\tbuild\tnone\n\tbuild\tGOOS=darwin\n"

output_read : stage0_provenance is_decimal (exited (pos 0) output) ≡ record {
  metadata_available = true;
  metadata_source = codes "go version -m";
  source_module = some (codes "example.org/elisac");
  source_revision = none;
  source_commit_time_utc = none;
  source_dirty_at_build = some true;
  go_version = some (codes "go1.22.1");
  goos = some (codes "darwin");
  goarch = none;
  rebuild_recipe = stage0_rebuild_recipe;
}
unfolding stage0_provenance equal is_space span after
output_read = refl

digits : (c : ℕ) → is_decimal c ≡ true → is_space c ≡ false
unfolding is_space
digits c h = ground arith

parse_go_build_info-IsRead_example :
    IsRead is_decimal (splitlines output) (parse_go_build_info is_decimal output)
parse_go_build_info-IsRead_example = parse_go_build_info-IsRead is_decimal digits output
