-- ===== src/Upgrade/Benchmarks/Summary.antt =====
-- summarize_benchmark of scripts/compiler_upgrade_gate.py: the p95 times of a benchmark's results.
pub mod Measured
pub mod Last
use elisa_lsp.Base.{Bool, true, false, Option, none, some, List, [], ◌∷◌, ◌++◌, map, if◌then◌else◌}
use elisa_lsp.Base.Bytes.{◌>>=◌}
use elisa_lsp.Base.Int.{ℤ}
use elisa_lsp.Base.Tables.{set_at}
use elisa_lsp.Base.Text.{Text, codes, equal}
use elisa_lsp.Json.{
  Value, null, bool, int, float, non_finite, str, arr, obj, Items, nil, cons, Fields, end, field,
  get, get_or, to_list, as_object,
}
use elisa_lsp.Upgrade.Benchmarks.{Floats, Times}

-- How numbers of a JSON text become floats, and how a value is formatted. An integer has no float if
-- it is too large, which raises `OverflowError`.
pub record Numbers (floats : Floats) : Type 0 where
  pub of_int : ℤ → Option floats.Float
  pub of_float : ℤ → ℤ → floats.Float
  pub thousand : floats.Float
  pub format : Value → Text

abbrev pub keys_of : Fields → List Value
keys_of end = []
keys_of (field k v rest) = str k ∷ keys_of rest

-- What `for x in value` goes over; nothing is `TypeError`.
abbrev pub iterated : Value → Option (List Value)
iterated (arr xs) = some (to_list xs)
iterated (obj fields) = some (keys_of fields)
iterated (str t) = some (map (λ c. str (c ∷ [])) t)
iterated _ = none

module _ (floats : Floats) where
  module _ (numbers : Numbers floats) where
    -- The finite float of a number that is no `bool`; the outer nothing is `OverflowError`.
    unfoldable pub finite_number : Value → Option (Option floats.Float)
    finite_number (int i) = do
      x ← numbers.of_int i
      some (if floats.is_finite x then some x else none)
    finite_number (float m e) =
        let x = numbers.of_float m e in some (if floats.is_finite x then some x else none)
    finite_number _ = some none

    -- `wall.get("p95") if isinstance(wall, dict) else None`
    abbrev pub p95_of : Value → Value
    p95_of (obj wall) = get wall (codes "p95")
    p95_of _ = null

    -- The value that one scenario measured, if it is a finite number. The outer nothing is a value
    -- without the method `get`, or `OverflowError`.
    unfoldable pub measured : Value → Option (Option floats.Float)
    unfolding get_or finite_number
    measured payload = do
      fields ← as_object payload
      summary ← as_object (get_or fields (codes "summary") (obj end))
      finite_number (p95_of (get_or summary (codes "wall_s") (obj end)))

    abbrev pub entry_key : Value → Text → Text
    entry_key size scenario = numbers.format size ++ (codes "." ++ (scenario ++ codes ".p95_ms"))

    abbrev pub entered : Value → Text → Option floats.Float → Times floats → Times floats
    entered size scenario none times = times
    entered size scenario (some p95) times =
        set_at times (entry_key size scenario) (floats.mul p95 numbers.thousand)

    unfoldable pub add_scenarios : Value → Fields → Times floats → Option (Times floats)
    unfolding measured set_at
    add_scenarios size end times = some times
    add_scenarios size (field scenario payload rest) times = do
      p95 ← measured payload
      add_scenarios size rest (entered size scenario p95 times)

    unfoldable pub add_case : Value → Times floats → Option (Times floats)
    unfolding get get_or add_scenarios
    add_case value times = do
      case_fields ← as_object value
      scenarios ← as_object (get_or case_fields (codes "scenarios") (obj end))
      add_scenarios (get case_fields (codes "functions")) scenarios times

    unfoldable pub add_cases : List Value → Times floats → Option (Times floats)
    unfolding add_case
    add_cases [] times = some times
    add_cases (value ∷ rest) times = do next ← add_case value times; add_cases rest next

    -- The times in the parsed results; nothing is an exception.
    unfoldable pub summarize_benchmark : Value → Option (Times floats)
    unfolding get_or add_cases
    summarize_benchmark results = do
      fields ← as_object results
      cases ← iterated (get_or fields (codes "cases") (arr nil))
      add_cases cases []
