-- ===== src/Upgrade/Benchmarks/Summary/Last.antt =====
-- Which measurements of a benchmark's results become the times of its summary.
use elisa_lsp.Base.{
  Option, none, some, List, [], ◌∷◌, ◌++◌, ◌≡◌, refl, sym, ap, ◌∙◌, inl, inr, if◌then◌else◌,
  Bool-cases,
}
use elisa_lsp.Base.Bytes.{bind-eq-some}
use elisa_lsp.Base.Tables.{look_up, look_up-set_at, or_before, or_before_assoc, or_before-none}
use elisa_lsp.Base.Text.{Text, codes, equal}
use elisa_lsp.Json.{Value, obj, arr, nil, Fields, end, field, get, get_or, as_object}
use elisa_lsp.Upgrade.Benchmarks.{Floats, Times}
use elisa_lsp.Upgrade.Benchmarks.Summary.Measured.{
  HasP95, measured-HasP95, not-HasP95, as_object-eq-some,
}
use elisa_lsp.Upgrade.Benchmarks.Summary.{
  Numbers, iterated, measured, entry_key, entered, add_scenarios, add_case, add_cases,
  summarize_benchmark,
}

module _ (floats : Floats) (numbers : Numbers floats) where
  -- The milliseconds of the scenarios of a case, in their order, each under the size, the scenario
  -- and ".p95_ms".
  pub data ScenarioTimes (size : Value) : Fields → Times floats → Type 0 where
    ended : ScenarioTimes size end []
    timed :
        {scenario : Text} {payload : Value} {rest : Fields} {times : Times floats}
        (x : floats.Float)
        → HasP95 floats numbers payload x
        → ScenarioTimes size rest times
        → ScenarioTimes size (field scenario payload rest) (
            (
              numbers.format size ++ (codes "." ++ (scenario ++ codes ".p95_ms")),
              floats.mul x numbers.thousand,
            )
            ∷ times)
    untimed :
        {scenario : Text} {payload : Value} {rest : Fields} {times : Times floats}
        → ((x : floats.Float) → ¬ HasP95 floats numbers payload x)
        → ScenarioTimes size rest times
        → ScenarioTimes size (field scenario payload rest) times

  -- The milliseconds of all cases, in their order; a key may be there more than once.
  pub data CaseTimes : List Value → Times floats → Type 0 where
    no_case : CaseTimes [] []
    next_case :
        {value : Value} {rest : List Value} {all : Times floats} (case_fields scenarios : Fields)
        (here later : Times floats)
        → value ≡ obj case_fields
        → get_or case_fields (codes "scenarios") (obj end) ≡ obj scenarios
        → ScenarioTimes (get case_fields (codes "functions")) scenarios here
        → CaseTimes rest later
        → all ≡ here ++ later
        → CaseTimes (value ∷ rest) all

-- The value at the last place of a key.
abbrev pub last_at {ℓ} : {V : Type ℓ} → List (Text × V) → Text → Option V
last_at [] key = none
last_at ((k, v) ∷ rest) key = or_before (last_at rest key) (if equal k key then some v else none)

last_at-append {ℓ} :
    {V : Type ℓ} (xs ys : List (Text × V)) (key : Text)
    → last_at (xs ++ ys) key ≡ or_before (last_at ys key) (last_at xs key)
last_at-append [] ys key = sym (or_before-none (last_at ys key))
last_at-append ((k, v) ∷ xs) ys key =
    ap (λ o. or_before o (if equal k key then some v else none)) (last_at-append xs ys key)
    ∙ sym (or_before_assoc (last_at ys key) (last_at xs key) _)

module _ (floats : Floats) (numbers : Numbers floats) where
  -- From some times on, the table holds for each key the last of the new times, or what it held.
  abbrev Extends : Times floats → Times floats → Times floats → Type 0
  Extends old new added =
      (key : Text) → look_up new key ≡ or_before (last_at added key) (look_up old key)

  Extends-trans :
      (a b c xs ys : Times floats) → Extends a b xs → Extends b c ys → Extends a c (xs ++ ys)
  Extends-trans a b c xs ys p q key =
      q key
      ∙ (ap (or_before (last_at ys key)) (p key)
          ∙ (or_before_assoc (last_at ys key) (last_at xs key) (look_up a key)
              ∙ ap (λ o. or_before o (look_up a key)) (sym (last_at-append xs ys key))))

  -- The times of the scenarios from here on, with what they make of the table so far.
  Gathered : Value → Fields → Times floats → Times floats → Type 0
  Gathered size scenarios times result =
      (added : Times floats) × ScenarioTimes floats numbers size scenarios added
      × Extends times result added

  entered-Extends :
      (size : Value) (scenario : Text) (x : floats.Float) (times : Times floats)
      → Extends times
          (entered floats numbers size scenario (some x) times)
          ((entry_key floats numbers size scenario, floats.mul x numbers.thousand) ∷ [])
  entered-Extends size scenario x times key =
      let k = entry_key floats numbers size scenario in
      look_up-set_at times k (floats.mul x numbers.thousand) key
      ∙ elim (Bool-cases (equal k key)) [ inl e ↦ rw e | inr e ↦ rw e ]

  Gathered-field :
      (size : Value) (scenario : Text) (payload : Value) (rest : Fields)
      (times result : Times floats) (p95 : Option floats.Float)
      → measured floats numbers payload ≡ some p95
      → Gathered size rest (entered floats numbers size scenario p95 times) result
      → Gathered size (field scenario payload rest) times result
  unfolding Gathered
  Gathered-field size scenario payload rest times result none e (added, listed, extends) =
      (added, untimed (not-HasP95 floats numbers payload e) listed, extends)
  Gathered-field size scenario payload rest times result (some x) e (added, listed, extends) =
      let here : Times floats =
        (entry_key floats numbers size scenario, floats.mul x numbers.thousand) ∷ [] in
      (
        here ++ added,
        timed x (measured-HasP95 floats numbers payload x e) listed,
        Extends-trans times (entered floats numbers size scenario (some x) times) result here added
            (entered-Extends size scenario x times) extends,
      )

  add_scenarios-Gathered :
      (size : Value) (scenarios : Fields) (times : Times floats) (result : Times floats)
      → add_scenarios floats numbers size scenarios times ≡ some result
      → Gathered size scenarios times result
  unfolding add_scenarios Gathered
  add_scenarios-Gathered size end times result h =
      let same : times ≡ result = cc h in ([], ended, λ key. rw (← same) refl)
  add_scenarios-Gathered size (field scenario payload rest) times result h =
      let (p95, e, later) = bind-eq-some (measured floats numbers payload) _ h in
      let next = entered floats numbers size scenario p95 times in
      Gathered-field size scenario payload rest times result p95 e
        (add_scenarios-Gathered size rest next result later)

  add_cases-Extends :
      (values : List Value) (times result : Times floats)
      → add_cases floats numbers values times ≡ some result
      → (all : Times floats) × CaseTimes floats numbers values all × Extends times result all
  unfolding add_cases add_case Gathered
  add_cases-Extends [] times result h =
      let same : times ≡ result = cc h in ([], no_case, λ key. rw (← same) refl)
  add_cases-Extends (value ∷ rest) times result h =
      let (next, e, later) = bind-eq-some (add_case floats numbers value times) _ h in
      let (case_fields, f, h₁) = bind-eq-some (as_object value) _ e in
      let (scenarios, g, h₂) =
        bind-eq-some (as_object (get_or case_fields (codes "scenarios") (obj end))) _ h₁ in
      let size = get case_fields (codes "functions") in
      let (here, listed, extends) = add_scenarios-Gathered size scenarios times next h₂ in
      let (after, others, extends') = add_cases-Extends rest next result later in
      (
        here ++ after,
        next_case case_fields scenarios here after (as_object-eq-some value case_fields f)
            (as_object-eq-some _ scenarios g) listed others refl,
        Extends-trans times next result here after extends extends',
      )

  -- Where the results can be summarized, they are an object, and the summary holds for each key the
  -- milliseconds at the last place of that key among those of all cases, and no other key. A case
  -- lists, in order, each scenario that has a finite number as the p95 of its wall time in its
  -- summary, under the size, the scenario and ".p95_ms", and no other scenario.
  pub summarize_benchmark_exact :
      (results : Value) (times : Times floats)
      → summarize_benchmark floats numbers results ≡ some times
      → (fields : Fields) × (cases : List Value) × (all : Times floats) × (results ≡ obj fields)
        × (iterated (get_or fields (codes "cases") (arr nil)) ≡ some cases)
        × CaseTimes floats numbers cases all
        × ((key : Text) → look_up times key ≡ last_at all key)
  unfolding summarize_benchmark look_up
  summarize_benchmark_exact results times h =
      let (fields, e, h₁) = bind-eq-some (as_object results) _ h in
      let (cases, f, h₂) = bind-eq-some (iterated (get_or fields (codes "cases") (arr nil))) _ h₁ in
      let (all, listed, extends) = add_cases-Extends cases [] times h₂ in
      (
        fields,
        cases,
        all,
        as_object-eq-some results fields e,
        f,
        listed,
        λ key. extends key ∙ or_before-none (last_at all key),
      )
