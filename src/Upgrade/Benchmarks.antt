-- ===== src/Upgrade/Benchmarks.antt =====
-- compare_benchmarks of scripts/compiler_upgrade_gate.py, over the p95 times of two candidates.
pub mod Compared
pub mod Summary
use elisa_lsp.Base.{
  Bool, true, false, not, ◌&&◌, ◌||◌, Option, none, some, List, [], ◌∷◌, ◌++◌, map, if◌then◌else◌,
}
use elisa_lsp.Base.Bytes.{◌>>=◌}
use elisa_lsp.Base.Sort.{sort, text_lt}
use elisa_lsp.Base.Tables.{look_up}
use elisa_lsp.Base.Text.{Text, equal, contains}

-- Python's `float`, of which the comparison uses these operations.
pub record Floats : Type 1 where
  pub Float : Type 0
  pub is_finite : Float → Bool
  pub zero : Float
  pub one : Float
  pub add : Float → Float → Float
  pub mul : Float → Float → Float
  pub lt : Float → Float → Bool
  pub le : Float → Float → Bool

-- `set(a) - set(b)`
unfoldable pub minus : List Text → List Text → List Text
minus [] b = []
minus (k ∷ a) b = let rest = minus a b in if contains b k then rest else k ∷ rest

module _ (floats : Floats) where
  -- A dictionary from scenarios to milliseconds, in its order.
  abbrev pub Times : Type 0
  Times = List (Text × floats.Float)

  abbrev pub keys : Times → List Text
  keys times = map (λ item. item.0) times

  pub data Problem : Type 0 where
    no_baseline no_candidate : Problem
    scenario_mismatch : List Text → List Text → Problem
    invalid_values regression : Text → floats.Float → floats.Float → Problem

  abbrev pub is_invalid : floats.Float → floats.Float → Bool
  is_invalid before after =
      not (floats.is_finite before)
      || not (floats.is_finite after)
      || floats.le before floats.zero
      || floats.lt after floats.zero

  unfoldable pub compare_scenario : floats.Float → Text → floats.Float → floats.Float → List Problem
  compare_scenario max_regression key before after =
      if is_invalid before after
      then invalid_values key before after ∷ []
      else if floats.lt (floats.mul before (floats.add floats.one max_regression)) after
      then regression key before after ∷ []
      else []

  -- `none` is the `KeyError` of `new[key]`.
  unfoldable pub compare_scenarios : floats.Float → Times → Times → Option (List Problem)
  compare_scenarios max_regression [] new = some []
  compare_scenarios max_regression ((key, before) ∷ rest) new = do
    after ← look_up new key
    later ← compare_scenarios max_regression rest new
    some (compare_scenario max_regression key before after ++ later)

  -- `none` for a candidate is a record without times.
  unfoldable pub compare_benchmarks :
      Option Times → Option Times → floats.Float → Option (List Problem)
  compare_benchmarks none new max_regression = some (no_baseline ∷ [])
  compare_benchmarks (some []) new max_regression = some (no_baseline ∷ [])
  compare_benchmarks (some (o ∷ old)) none max_regression = some (no_candidate ∷ [])
  compare_benchmarks (some (o ∷ old)) (some []) max_regression = some (no_candidate ∷ [])
  compare_benchmarks (some (o ∷ old)) (some (n ∷ new)) max_regression =
      elim (minus (keys (o ∷ old)) (keys (n ∷ new)) ++ minus (keys (n ∷ new)) (keys (o ∷ old))) [
        | [] ↦ compare_scenarios max_regression (o ∷ old) (n ∷ new)
        | k ∷ ks ↦ some (
            scenario_mismatch (sort text_lt (minus (keys (o ∷ old)) (keys (n ∷ new))))
              (sort text_lt (minus (keys (n ∷ new)) (keys (o ∷ old))))
            ∷ [])
      ]
