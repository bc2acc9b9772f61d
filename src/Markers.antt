-- ===== src/Markers.antt =====
-- The lines of a command's output that the reports keep: `failed_test_names` and
-- `failure_diagnostic_lines` of scripts/compiler_upgrade_gate.py, `failure_markers` of
-- scripts/platform_validation.py.
pub mod Distinct
pub mod Kept
use Distinct.{distinct_onto, push_new}
use elisa_lsp.Base.{
  ℕ, suc, Bool, true, false, not, ◌&&◌, ◌||◌, Option, none, some, List, [], ◌∷◌, length, take, drop,
  leb, if◌then◌else◌,
}
use elisa_lsp.Base.Text.{Text, codes, contains, starts_with, has_infix, strip, splitlines}

abbrev pub failed_prefix : Text
failed_prefix = codes "FAILED: "

-- The marker that a line of `run_all.sh` holds, if any.
unfoldable pub marker_of : Text → Option Text
marker_of line =
    let marker = strip line in if starts_with marker failed_prefix then some marker else none

unfoldable pub failure_markers : Text → List Text
unfolding marker_of
failure_markers output = take 100 (distinct_onto marker_of [] (splitlines output))

abbrev is_empty : Text → Bool
is_empty [] = true
is_empty (x ∷ xs) = false

-- The failed test that a line names, if any.
unfoldable pub name_of : Text → Option Text
name_of raw =
    let line = strip raw in
    if starts_with line failed_prefix
    then (let name = strip (drop (length failed_prefix) line) in
        if is_empty name then none else some name)
    else none

unfoldable pub failed_test_names : Text → List Text
unfolding name_of
failed_test_names output = distinct_onto name_of [] (splitlines output)

abbrev pub markers : List Text
markers =
    codes "error:"
    ∷ codes "backend could not produce"
    ∷ codes "backend declines made this unit unsafe"
    ∷ codes "object was not written"
    ∷ []

unfoldable pub any_infix : List Text → Text → Bool
any_infix [] t = false
any_infix (m ∷ ms) t = has_infix t m || any_infix ms t

-- `lower` stands for `str.lower`, whose Unicode tables the model leaves open.
module _ (lower : Text → Text) where
  unfoldable pub diagnostic_of : Text → Option Text
  unfolding any_infix
  diagnostic_of line =
      let clean = strip line in
      if not (is_empty clean) && any_infix markers (lower clean) then some clean else none

  -- `kept` holds the lines so far; the loop ends at the append that reaches the limit.
  diagnostic_onto : ℕ → List Text → List Text → List Text
  diagnostic_onto limit kept [] = kept
  diagnostic_onto limit kept (line ∷ rest) =
      let kept' = push_new (diagnostic_of line) kept in
      let more = diagnostic_onto limit kept' rest in
      if not (leb (length kept') (length kept)) && leb limit (length kept') then kept' else more

  unfoldable pub failure_diagnostic_lines : Text → ℕ → List Text
  unfolding diagnostic_onto diagnostic_of
  failure_diagnostic_lines output limit = diagnostic_onto limit [] (splitlines output)
