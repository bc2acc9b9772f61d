-- ===== src/Tests/Hosts.antt =====
-- A validation host, and the markers of an output, at concrete inputs.
use Prim.Native.Nat.{max}
use elisa_lsp.Base.{true, none, some, [], ◌∷◌, ◌++◌, ◌≡◌, ◌↔◌, refl, take}
use elisa_lsp.Base.Int.{pos}
use elisa_lsp.Base.Text.{Text, codes, equal, contains, splitlines, strip, starts_with}
use elisa_lsp.Json.{obj, end, str, field, get, is_text}
use elisa_lsp.Markers.{
  failed_test_names, failure_markers, failure_diagnostic_lines, name_of, diagnostic_of,
}
use elisa_lsp.Markers.Distinct.{distinct_onto}
use elisa_lsp.Markers.Kept.{failure_diagnostic_lines-eq-take}
use elisa_lsp.Platform.{
  completed, Host, Args, main, report, environment, read_manifest, command_record,
  platform_gate_status,
}
use elisa_lsp.Platform.Label.{IsValidated, main-zero_iff}

abbrev host : Host
host = record {
  system = codes "Linux";
  machine = codes "x86_64";
  environ = λ name. some (codes "1");
  run = λ command env timeout. completed (pos 0) (some (codes "ok"));
  elapsed = λ command. 5;
  manifest = some (obj (field (codes "os_arch") (str (codes "Linux/x86_64")) end));
}

abbrev args : Args
args = record {
  root = codes "/r";
  binary = codes "/r/build/elisa-lsp";
  manifest_path = codes "/r/build/manifest.json";
  compiler = some (codes "/c");
  frontend = none;
  build = true;
  tests = true;
  require_platform = some (codes "Linux");
  build_timeout = 900000;
  test_timeout = 1800000;
}

validated_host : main host args ≡ 0
unfolding main report environment read_manifest command_record platform_gate_status failure_markers
    distinct_onto splitlines strip starts_with contains equal get is_text
validated_host = refl

main-zero_iff_example : (main host args ≡ 0) ↔ IsValidated host args
main-zero_iff_example = main-zero_iff host args

abbrev output : Text
output = codes " FAILED: test/a.sh " ++ (10 ∷ codes "error: x") ++ (10 ∷ codes "FAILED: test/a.sh")

names : failed_test_names output ≡ codes "test/a.sh" ∷ []
unfolding failed_test_names distinct_onto name_of splitlines strip starts_with contains equal
names = refl

abbrev unchanged : Text → Text
unchanged t = t

failure_diagnostic_lines-eq-take_example :
    failure_diagnostic_lines unchanged output 40
    ≡ take (max 1 40) (distinct_onto (diagnostic_of unchanged) [] (splitlines output))
failure_diagnostic_lines-eq-take_example = failure_diagnostic_lines-eq-take unchanged output 40
