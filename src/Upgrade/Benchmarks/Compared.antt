-- ===== src/Upgrade/Benchmarks/Compared.antt =====
-- When compare_benchmarks of scripts/compiler_upgrade_gate.py finds no problem.
use elisa_lsp.Base.{
  true, false, Option, none, some, List, [], ◌∷◌, ◌++◌, ◌≡◌, ◌≢◌, ◌↔◌, ◌⊎◌, refl, arith, All,
  Bool-cases, Option-cases, inl, inr, ap, ◌∙◌,
}
use elisa_lsp.Base.Bytes.{bind-eq-some}
use elisa_lsp.Base.Text.{Text, equal, equal_iff, equal_refl, contains}
use elisa_lsp.Base.Tables.{look_up}
use elisa_lsp.Upgrade.Benchmarks.{
  Floats, Times, keys, minus, is_invalid, compare_scenario, compare_scenarios, compare_benchmarks,
}

-- Every member of the first list is one of the second.
abbrev Within : List Text → List Text → Type 0
Within a b = (k : Text) → contains a k ≡ true → contains b k ≡ true

minus-Within : (a b : List Text) → minus a b ≡ [] → Within a b
unfolding minus contains
minus-Within [] b h k m = cc
minus-Within (x ∷ a) b h k m = elim (Bool-cases (contains b x)) [
  | inl e ↦ ground (arith, minus-Within a b (ground arith) k, equal_iff k x)
  | inr e ↦ ground arith
]

Within-minus : (a b : List Text) → Within a b → minus a b ≡ []
unfolding minus contains
Within-minus [] b h = refl
Within-minus (x ∷ a) b h =
    let here : contains b x ≡ true = h x (ground (arith, equal_refl x)) in
    let rest : minus a b ≡ [] = Within-minus a b (λ k m. h k (ground arith)) in ground arith

-- Two lists have the same members.
abbrev pub SameKeys : List Text → List Text → Type 0
SameKeys a b = (k : Text) → contains a k ≡ contains b k

minus-SameKeys : (a b : List Text) → (minus a b ++ minus b a ≡ []) ↔ SameKeys a b
minus-SameKeys a b = (
  λ h k.
      let l : minus a b ≡ [] = ground arith in
      let r : minus b a ≡ [] = ground arith in
      ground (arith, minus-Within a b l k, minus-Within b a r k),
  λ h.
      let l : minus a b ≡ [] = Within-minus a b (λ k m. cc (h k, m)) in
      let r : minus b a ≡ [] = Within-minus b a (λ k m. cc (h k, m)) in ground arith,
)

List-cases : (xs : List Text) → (xs ≡ []) ⊎ ((k : Text) × (ks : List Text) × (xs ≡ k ∷ ks))
List-cases [] = inl refl
List-cases (k ∷ ks) = inr (k, ks, refl)

module _ (floats : Floats) where
  look_up-found :
      (times : Times floats) (key : Text)
      → contains (keys floats times) key ≡ true
      → (t : floats.Float) × (look_up times key ≡ some t)
  unfolding look_up contains
  look_up-found [] key h = cc
  look_up-found ((k, t) ∷ rest) key h = elim (Bool-cases (equal k key)) [
    | inl e ↦ (t, ground arith)
    | inr e ↦
        let (u, found) =
          look_up-found rest key (ground (arith, equal_iff k key, equal_iff key k)) in
        (u, ground arith)
  ]

  -- Finite times, the first positive, the second not negative and not above the limit.
  abbrev pub IsAcceptable : floats.Float → floats.Float → floats.Float → Type 0
  IsAcceptable max_regression before after =
      (is_invalid floats before after ≡ false)
      × (floats.lt (floats.mul before (floats.add floats.one max_regression)) after ≡ false)

  -- The scenario has a second time, and the two are acceptable.
  abbrev pub Keeps : floats.Float → Times floats → Text × floats.Float → Type 0
  Keeps max_regression new item =
      (after : floats.Float) × (look_up new item.0 ≡ some after)
      × IsAcceptable max_regression item.1 after

  compare_scenario_iff :
      (max_regression : floats.Float) (key : Text) (before after : floats.Float)
      → (compare_scenario floats max_regression key before after ≡ [])
        ↔ IsAcceptable max_regression before after
  unfolding compare_scenario
  compare_scenario_iff m key before after = elim (Bool-cases (is_invalid floats before after)) [
    | inl e ↦ ground arith
    | inr e ↦ ground arith
  ]

  compare_scenarios_iff :
      (max_regression : floats.Float) (old new : Times floats)
      → (compare_scenarios floats max_regression old new ≡ some [])
        ↔ All (Keeps max_regression new) old
  unfolding compare_scenarios
  compare_scenarios_iff m [] new = (λ _. tt, λ _. refl)
  compare_scenarios_iff m ((key, before) ∷ rest) new = (
    λ h.
        let (after, found, h₁) = bind-eq-some (look_up new key) _ h in
        let (later, compared, h₂) = bind-eq-some (compare_scenarios floats m rest new) _ h₁ in
        let here : compare_scenario floats m key before after ≡ [] = ground arith in
        let there : later ≡ [] = ground arith in
        (
          (after, found, (compare_scenario_iff m key before after).0 here),
          (compare_scenarios_iff m rest new).0 (compared ∙ ap some there),
        ),
    λ ((after, found, fine), rest_fine). rw (
      found,
      (compare_scenarios_iff m rest new).1 rest_fine,
      (compare_scenario_iff m key before after).1 fine,
    ),
  )

  compare_scenarios-ne-none :
      (max_regression : floats.Float) (old new : Times floats)
      → Within (keys floats old) (keys floats new)
      → compare_scenarios floats max_regression old new ≢ none
  unfolding compare_scenarios contains
  compare_scenarios-ne-none m [] new w = λ e. cc
  compare_scenarios-ne-none m ((key, before) ∷ rest) new w = λ e.
      let (after, found) = look_up-found new key (w key (ground (arith, equal_refl key))) in
      let later = compare_scenarios-ne-none m rest new (λ k h. w k (ground arith)) in
      elim (Option-cases (compare_scenarios floats m rest new)) [
        | inl none_left ↦ later none_left
        | inr (ps, some_left) ↦ ground arith
      ]

  -- Both candidates have times, of the same scenarios, and each scenario keeps within the limit.
  pub record HasNoProblem (old new : Option (Times floats)) (max_regression : floats.Float)
      : Type 0 where
    pub before : Times floats
    pub after : Times floats
    pub is_old : old ≡ some before
    pub is_new : new ≡ some after
    pub not_empty : before ≢ []
    pub same_scenarios : SameKeys (keys floats before) (keys floats after)
    pub within_limit : All (Keeps max_regression after) before

  abbrev differing : Times floats → Times floats → List Text
  differing old new =
      minus (keys floats old) (keys floats new) ++ minus (keys floats new) (keys floats old)

  at_times :
      (old new : Times floats) (max_regression : floats.Float)
      → HasNoProblem (some old) (some new) max_regression
      → SameKeys (keys floats old) (keys floats new) × All (Keeps max_regression new) old
  at_times old new m p =
      let e : p.before ≡ old = cc (p.is_old) in
      let e' : p.after ≡ new = cc (p.is_new) in
      (rw (e, e') at p.same_scenarios, rw (e, e') at p.within_limit)

  no_new_key :
      (old : Times floats) (k : Text)
      → contains (keys floats old) k ≡ true
      → SameKeys (keys floats old) []
      → ⊥
  unfolding contains
  no_new_key old k h same = cc (same k, h)

  -- compare_benchmarks reports no problem exactly when both candidates have times, for the same
  -- scenarios and at least one, and each scenario has two finite times, the first positive, the
  -- second not negative and not above the first times one plus the allowed regression.
  pub compare_benchmarks_iff :
      (old new : Option (Times floats)) (max_regression : floats.Float)
      → (compare_benchmarks floats old new max_regression ≡ some [])
        ↔ HasNoProblem old new max_regression
  unfolding compare_benchmarks
  compare_benchmarks_iff none new m = (λ h. cc, λ p. cc (p.is_old))
  compare_benchmarks_iff (some []) new m = (λ h. cc, λ p. elim (p.not_empty (cc p.is_old)) [ ])
  compare_benchmarks_iff (some (o ∷ old)) none m = (λ h. cc, λ p. cc (p.is_new))
  compare_benchmarks_iff (some (o ∷ old)) (some []) m = (
    λ h. cc,
    λ p.
        let (same, fine) = at_times (o ∷ old) [] m p in
        elim (no_new_key (o ∷ old) o.0 (unfold contains in ground (arith, equal_refl o.0))
          same) [ ],
  )
  compare_benchmarks_iff (some (o ∷ old)) (some (n ∷ new)) m =
      elim (List-cases (differing (o ∷ old) (n ∷ new))) [
        | inl same ↦ (
          λ h. record {
            before = o ∷ old;
            after = n ∷ new;
            is_old = refl;
            is_new = refl;
            not_empty = λ e. cc;
            same_scenarios = (minus-SameKeys _ _).0 same;
            within_limit =
                (compare_scenarios_iff m (o ∷ old) (n ∷ new)).0
                  (rw (compare_benchmarks, same) at h);
          },
          λ p.
              let (_, fine) = at_times (o ∷ old) (n ∷ new) m p in
              rw (compare_benchmarks, same) ((compare_scenarios_iff m (o ∷ old) (n ∷ new)).1 fine),
        )
        | inr (k, ks, differ) ↦ (
          λ h. cc (rw (compare_benchmarks, differ) at h),
          λ p.
              let (same, fine) = at_times (o ∷ old) (n ∷ new) m p in
              cc (differ, (minus-SameKeys (keys floats (o ∷ old)) (keys floats (n ∷ new))).1 same),
        )
      ]

  -- No look-up of a scenario fails: compare_benchmarks returns its problems for any two candidates.
  pub compare_benchmarks-ne-none :
      (old new : Option (Times floats)) (max_regression : floats.Float)
      → compare_benchmarks floats old new max_regression ≢ none
  unfolding compare_benchmarks
  compare_benchmarks-ne-none none new m = λ e. cc
  compare_benchmarks-ne-none (some []) new m = λ e. cc
  compare_benchmarks-ne-none (some (o ∷ old)) none m = λ e. cc
  compare_benchmarks-ne-none (some (o ∷ old)) (some []) m = λ e. cc
  compare_benchmarks-ne-none (some (o ∷ old)) (some (n ∷ new)) m =
      elim (List-cases (differing (o ∷ old) (n ∷ new))) [
        | inl same ↦
            rw (compare_benchmarks, same)
              (compare_scenarios-ne-none m (o ∷ old) (n ∷ new) (λ k h.
                cc ((minus-SameKeys (keys floats (o ∷ old)) (keys floats (n ∷ new))).0 same k, h)))
        | inr (k, ks, differ) ↦ λ e. ground arith
      ]
