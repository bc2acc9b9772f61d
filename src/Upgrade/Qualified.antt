-- ===== src/Upgrade/Qualified.antt =====
-- When scripts/compiler_upgrade_gate.py lets a candidate pass.
use elisa_lsp.Base.{
  Bool, true, false, not, ◌||◌, Option, none, some, List, ◌≡◌, refl, arith, Bool-cases, inl, inr,
  ap, ◌∙◌, if◌then◌else◌,
}
use elisa_lsp.Base.Bytes.{bind-eq-some}
use elisa_lsp.Base.Int.{pos, negsuc, is_nat}
use elisa_lsp.Base.Text.{Text}
use elisa_lsp.Json.{Value, Fields, obj, as_object}
use elisa_lsp.Platform.{
  Ran, completed, timeout_expired, os_error, Env, build_command, tests_command,
}
use elisa_lsp.Upgrade.Benchmarks.{Floats, Times}
use elisa_lsp.Upgrade.{
  summary, candidate_environments, RunRecord, Candidate, Options, Machine, CandidateRecord,
  benchmark_command, candidate_base, record_of, run_record, benchmark_phase, tests_phase,
  candidate_run, stopped, is_passed, passed, benchmark_failed, tests_failed, build_failed,
}

-- The process ended by itself with exit status 0, and its output was read.
abbrev pub ExitsZero : Ran → Type 0
ExitsZero r = (output : Text) × (r ≡ completed (pos 0) (some output))

run_record_zero :
    (lower : Text → Text) (command : List Text) (r : Ran) {record' : RunRecord}
    → run_record lower command r ≡ some record'
    → is_nat record'.returncode 0 ≡ true
    → ExitsZero r
unfolding run_record
run_record_zero lower command (completed (pos n) (some o)) e z = (o, ground arith)
run_record_zero lower command (completed (negsuc n) (some o)) e z = ground arith
run_record_zero lower command (completed n none) e z = cc
run_record_zero lower command (timeout_expired o e') e z = ground arith
run_record_zero lower command (os_error t) e z = cc

run_record_made :
    (lower : Text → Text) (command : List Text) (r : Ran)
    → ExitsZero r
    → (made : RunRecord) × (run_record lower command r ≡ some made)
      × (is_nat made.returncode 0 ≡ true)
unfolding run_record
run_record_made lower command r (o, e) = (record_of lower command (pos 0) false o, rw e, refl)

else_taken {ℓ} :
    {A : Type ℓ} (b : Bool) (x : A) {y z : A} → b ≡ false → (if b then x else y) ≡ z → y ≡ z
else_taken true x h e = cc
else_taken false x h e = e

else_gives {ℓ} :
    {A : Type ℓ} (b : Bool) (x : A) {y z : A} → b ≡ false → y ≡ z → (if b then x else y) ≡ z
else_gives true x h e = cc
else_gives false x h e = e

as_object-obj : (v : Value) {fields : Fields} → as_object v ≡ some fields → v ≡ obj fields
as_object-obj (obj fs) e = ground arith
as_object-obj v e = cc

module _ (floats : Floats) (machine : Machine floats) (options : Options floats) where
  abbrev pub build_env : Candidate → Env
  build_env c = (candidate_environments (candidate_base machine.environ c) c.backend_name).0

  abbrev pub test_env : Candidate → Env
  test_env c = (candidate_environments (candidate_base machine.environ c) c.backend_name).1

  -- The benchmark ran in the environment, and its times were read.
  pub record IsMeasured (c : Candidate) (env : Env) (times : Times floats) : Type 0 where
    pub benchmark_exits : ExitsZero (
        machine.run c.label
          (benchmark_command options.benchmark_sizes options.samples c.benchmark_path)
          env
          options.benchmark_timeout)
    pub written : machine.benchmark_written c.label ≡ true
    pub summarized : summary floats machine c.label ≡ some times

  benchmark_phase-IsMeasured :
      (c : Candidate) (env : Env) (build : RunRecord) (tests : Option RunRecord)
      {r : CandidateRecord floats}
      → options.skip_benchmark ≡ false
      → benchmark_phase floats machine options c env build tests ≡ some r
      → is_passed floats machine options r.status ≡ true
      → (times : Times floats) × (r.p95_ms ≡ some times) × IsMeasured c env times
  unfolding benchmark_phase stopped
  benchmark_phase-IsMeasured c env build tests {r} s e p =
      let command = benchmark_command options.benchmark_sizes options.samples c.benchmark_path in
      let ran = machine.run c.label command env options.benchmark_timeout in
      let (b, b_ran, e₁) =
        bind-eq-some (run_record machine.lower command ran) _ (else_taken _ _ s e) in
      elim (Bool-cases (not (is_nat b.returncode 0) || not (machine.benchmark_written c.label))) [
        | inl fails ↦
            let same : stopped floats machine options benchmark_failed build tests (some b) ≡ r =
              ground arith in
            cc (same, p)
        | inr fine ↦
            let (times, read, e₂) =
              bind-eq-some (summary floats machine c.label) _ (else_taken _ _ fine e₁) in
            (
              times,
              ground arith,
              record {
                benchmark_exits = run_record_zero machine.lower command ran b_ran (ground arith);
                written = ground arith;
                summarized = read;
              },
            )
      ]

  -- The candidate was built, tested and measured.
  pub record Qualifies (c : Candidate) : Type 0 where
    pub times : Times floats
    pub manifest : Fields
    pub build_exits :
        ExitsZero (machine.run c.label build_command (build_env c) options.build_timeout)
    pub is_built : machine.built c.label ≡ true
    pub manifest_read : machine.manifest c.label ≡ some (obj manifest)
    pub tests_exit : ExitsZero (machine.run c.label tests_command (test_env c) options.test_timeout)
    pub measured : IsMeasured c (test_env c) times

  tests_phase-IsTested :
      (c : Candidate) (env : Env) (build : RunRecord) {r : CandidateRecord floats}
      → options.skip_tests ≡ false
      → options.skip_benchmark ≡ false
      → tests_phase floats machine options c env build ≡ some r
      → is_passed floats machine options r.status ≡ true
      → ExitsZero (machine.run c.label tests_command env options.test_timeout)
        × ((times : Times floats) × (r.p95_ms ≡ some times) × IsMeasured c env times)
  unfolding tests_phase stopped
  tests_phase-IsTested c env build {r} s s' e p =
      let ran = machine.run c.label tests_command env options.test_timeout in
      let (t, t_ran, e₁) =
        bind-eq-some (run_record machine.lower tests_command ran) _ (else_taken _ _ s e) in
      elim (Bool-cases (not (is_nat t.returncode 0))) [
        | inr zero ↦ (
          run_record_zero machine.lower tests_command ran t_ran (ground arith),
          benchmark_phase-IsMeasured c env build (some t) s' (else_taken _ _ zero e₁) p,
        )
        | inl fails ↦
            let same : stopped floats machine options tests_failed build (some t) none ≡ r =
              ground arith in
            cc (same, p)
      ]

  pub candidate_run-Qualifies :
      (c : Candidate) {r : CandidateRecord floats}
      → options.skip_tests ≡ false
      → options.skip_benchmark ≡ false
      → candidate_run floats machine options c ≡ some r
      → is_passed floats machine options r.status ≡ true
      → (q : Qualifies c) × (r.p95_ms ≡ some q.times)
  unfolding candidate_run stopped
  candidate_run-Qualifies c {r} s s' e p =
      let ran = machine.run c.label build_command (build_env c) options.build_timeout in
      let (b, b_ran, e₁) = bind-eq-some (run_record machine.lower build_command ran) _ e in
      elim (Bool-cases (not (is_nat b.returncode 0) || not (machine.built c.label))) [
        | inl fails ↦
            let same : stopped floats machine options build_failed b none none ≡ r = ground arith in
            cc (same, p)
        | inr fine ↦
            let (v, read, e₂) =
              bind-eq-some (machine.manifest c.label) _ (else_taken _ _ fine e₁) in
            let (fields, is_object, e₃) = bind-eq-some (as_object v) _ e₂ in
            let (tested, later) = tests_phase-IsTested c (test_env c) b s s' e₃ p in
            let (times, timed, measured) = later in
            (
              record {
                times = times;
                manifest = fields;
                build_exits = run_record_zero machine.lower build_command ran b_ran (ground arith);
                is_built = ground arith;
                manifest_read = read ∙ ap some (as_object-obj v is_object);
                tests_exit = tested;
                measured = measured;
              },
              timed,
            )
      ]

  benchmark_phase-passed :
      (c : Candidate) (env : Env) (build : RunRecord) (tests : Option RunRecord)
      {times : Times floats}
      → options.skip_benchmark ≡ false
      → IsMeasured c env times
      → (r : CandidateRecord floats) × (benchmark_phase floats machine options c env build tests
          ≡ some r)
        × (r.status ≡ passed)
        × (r.p95_ms ≡ some times)
  unfolding benchmark_phase stopped
  benchmark_phase-passed c env build tests {times} s m =
      let (b, ran, zero) =
        run_record_made machine.lower
          (benchmark_command options.benchmark_sizes options.samples c.benchmark_path) _
          m.benchmark_exits in
      (
        record {
          status = passed;
          build = build;
          tests = tests;
          benchmark_run = some b;
          p95_ms = some times;
        },
        else_gives _ _ s (rw (ran, zero, m.written, m.summarized)),
        refl,
        refl,
      )

  tests_phase-passed :
      (c : Candidate) (env : Env) (build : RunRecord) {times : Times floats}
      → options.skip_tests ≡ false
      → options.skip_benchmark ≡ false
      → ExitsZero (machine.run c.label tests_command env options.test_timeout)
      → IsMeasured c env times
      → (r : CandidateRecord floats) × (tests_phase floats machine options c env build ≡ some r)
        × (r.status ≡ passed)
        × (r.p95_ms ≡ some times)
  unfolding tests_phase stopped
  tests_phase-passed c env build s s' exits m =
      let (tests, ran, zero) = run_record_made machine.lower tests_command _ exits in
      let (r, run, p, t) = benchmark_phase-passed c env build (some tests) s' m in
      (r, else_gives _ _ s (rw (ran, zero) run), p, t)

  pub Qualifies-candidate_run :
      (c : Candidate)
      → options.skip_tests ≡ false
      → options.skip_benchmark ≡ false
      → (q : Qualifies c)
      → (r : CandidateRecord floats) × (candidate_run floats machine options c ≡ some r)
        × (r.status ≡ passed)
        × (r.p95_ms ≡ some q.times)
  unfolding candidate_run stopped
  Qualifies-candidate_run c s s' q =
      let (build, ran, zero) = run_record_made machine.lower build_command _ q.build_exits in
      let (r, run, p, t) = tests_phase-passed c (test_env c) build s s' q.tests_exit q.measured in
      (r, rw (ran, zero, q.is_built, q.manifest_read) run, p, t)
