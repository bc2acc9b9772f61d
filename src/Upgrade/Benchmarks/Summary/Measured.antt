-- ===== src/Upgrade/Benchmarks/Summary/Measured.antt =====
-- What summarize_benchmark of scripts/compiler_upgrade_gate.py measures of one scenario.
use elisa_lsp.Base.{true, none, some, ◌≡◌, refl, ap, ◌∙◌, inl, inr, if◌then◌else◌, Bool-cases}
use elisa_lsp.Base.Bytes.{bind-eq-some}
use elisa_lsp.Base.Text.{codes}
use elisa_lsp.Json.{Value, int, float, obj, Fields, end, get, get_or, as_object}
use elisa_lsp.Upgrade.Benchmarks.{Floats}
use elisa_lsp.Upgrade.Benchmarks.Summary.{Numbers, finite_number, p95_of, measured}

module _ (floats : Floats) (numbers : Numbers floats) where
  -- The float of a JSON number.
  abbrev pub IsFloat : Value → floats.Float → Type 0
  IsFloat (int i) x = numbers.of_int i ≡ some x
  IsFloat (float m e) x = numbers.of_float m e ≡ x
  IsFloat _ x = ⊥

  -- The summary of a scenario has a finite number as the p95 of its wall time.
  pub record HasP95 (payload : Value) (x : floats.Float) : Type 0 where
    pub payload_fields : Fields
    pub summary : Fields
    pub wall : Fields
    pub is_payload : payload ≡ obj payload_fields
    pub is_summary : get_or payload_fields (codes "summary") (obj end) ≡ obj summary
    pub is_wall : get_or summary (codes "wall_s") (obj end) ≡ obj wall
    pub is_float : IsFloat (get wall (codes "p95")) x
    pub finite : floats.is_finite x ≡ true

pub as_object-eq-some :
    (value : Value) (fields : Fields) → as_object value ≡ some fields → value ≡ obj fields
as_object-eq-some (obj fs) fields h = cc
as_object-eq-some v fields h = cc

module _ (floats : Floats) (numbers : Numbers floats) where
  abbrev IsFinite : Value → floats.Float → Type 0
  IsFinite v x = IsFloat floats numbers v x × (floats.is_finite x ≡ true)

  if_finite :
      (y x : floats.Float)
      → some (if floats.is_finite y then some y else none) ≡ some (some x)
      → (y ≡ x) × (floats.is_finite x ≡ true)
  if_finite y x h = elim (Bool-cases (floats.is_finite y)) [
    | inl e ↦
        let h' : some (some y) ≡ some (some x) = rw e at h in
        let same : y ≡ x = cc h' in (same, rw (← same) e)
    | inr e ↦ let h' : some none ≡ some (some x) = rw e at h in absurd (cc h')
  ]

  finite_number-IsFinite :
      (v : Value) (x : floats.Float) → finite_number floats numbers v ≡ some (some x) → IsFinite v x
  unfolding finite_number
  finite_number-IsFinite (int i) x h =
      let (y, e, k) = bind-eq-some (numbers.of_int i) _ h in
      let (same, finite) = if_finite y x k in (e ∙ ap some same, finite)
  finite_number-IsFinite (float m e) x h = if_finite (numbers.of_float m e) x h
  finite_number-IsFinite v x h = absurd (cc h)

  IsFinite-finite_number :
      (v : Value) (x : floats.Float) → IsFinite v x → finite_number floats numbers v ≡ some (some x)
  unfolding finite_number
  IsFinite-finite_number (int i) x (e, f) = rw (e, f)
  IsFinite-finite_number (float m k) x (e, f) = rw (e, f)
  IsFinite-finite_number v x (e, f) = absurd e

  p95_of-IsFinite :
      (w : Value) (x : floats.Float)
      → finite_number floats numbers (p95_of floats numbers w) ≡ some (some x)
      → (wall : Fields) × (w ≡ obj wall) × IsFinite (get wall (codes "p95")) x
  unfolding finite_number
  p95_of-IsFinite (obj wall) x h = (wall, refl, finite_number-IsFinite _ x h)
  p95_of-IsFinite w x h = absurd (cc h)

  pub measured-HasP95 :
      (payload : Value) (x : floats.Float)
      → measured floats numbers payload ≡ some (some x)
      → HasP95 floats numbers payload x
  unfolding measured
  measured-HasP95 payload x h =
      let (fields, e, h₁) = bind-eq-some (as_object payload) _ h in
      let (summary, f, h₂) =
        bind-eq-some (as_object (get_or fields (codes "summary") (obj end))) _ h₁ in
      let (wall, g, finite) = p95_of-IsFinite (get_or summary (codes "wall_s") (obj end)) x h₂ in
      record {
        payload_fields = fields;
        summary = summary;
        wall = wall;
        is_payload = as_object-eq-some payload fields e;
        is_summary = as_object-eq-some _ summary f;
        is_wall = g;
        is_float = finite.0;
        finite = finite.1;
      }

  HasP95-measured :
      (payload : Value) (x : floats.Float)
      → HasP95 floats numbers payload x
      → measured floats numbers payload ≡ some (some x)
  unfolding measured
  HasP95-measured payload x p =
      rw (p.is_payload, p.is_summary, p.is_wall) (IsFinite-finite_number _ x (p.is_float, p.finite))

  pub not-HasP95 :
      (payload : Value)
      → measured floats numbers payload ≡ some none
      → (x : floats.Float) → ¬ HasP95 floats numbers payload x
  not-HasP95 payload e x p = cc (e, HasP95-measured payload x p)
