-- ===== src/Platform/Label.antt =====
-- When a host run of scripts/platform_validation.py may be called validated.
use mathlib.Core.List.{append-nil}
use elisa_lsp.Base.{
  ◌∙◌, Option-cases, ℕ, true, false, Option, none, some, List, [], ◌∷◌, ◌++◌, ◌≡◌, ◌↔◌, ◌⊎◌, inl,
  inr, refl, arith,
}
use elisa_lsp.Base.Int.{pos, negsuc}
use elisa_lsp.Base.Text.{Text, codes, equal, equal_iff, contains}
use elisa_lsp.Json.{obj, is_text, Value, null, Fields, get, str}
use elisa_lsp.Platform.{
  set_if, pop, Env, reported, is_unsupported, Ran, completed, timeout_expired, os_error,
  command_record, platform_gate_status, read_manifest, Host, Args, environment, build_command,
  tests_command, freshness_command, report, main, supported_systems, stage1_gate,
}
use elisa_lsp.Platform.{
  passed, phase_passed, wrong_platform, wrong_manifest, other_target, run_record,
}

-- The process ended by itself with exit status 0.
abbrev pub Succeeds : Ran → Type 0
Succeeds r = (stdout : Option Text) × (r ≡ completed (pos 0) stdout)

passed_iff :
    (command : List Text) (ms : ℕ) (r : Ran)
    → (passed (command_record command ms r) ≡ true) ↔ Succeeds r
unfolding passed command_record
passed_iff command ms (completed (pos n) o) = (λ h. (o, ground arith), λ s. ground arith)
passed_iff command ms (completed (negsuc n) o) = (λ h. cc, λ s. ground arith)
passed_iff command ms (timeout_expired o e) = (λ h. cc, λ s. ground arith)
passed_iff command ms (os_error t) = (λ h. cc, λ s. ground arith)

abbrev pub os_arch : Text
os_arch = codes "os_arch"

abbrev pub expected_target : Host → Text
expected_target host = host.system ++ (codes "/" ++ host.machine)

other_target_iff :
    (expected : Text) (v : Value)
    → (other_target expected v ≡ false) ↔ ((v ≡ null) ⊎ (v ≡ str expected))
unfolding other_target is_text
other_target_iff expected null = (λ _. inl refl, λ _. refl)
other_target_iff expected (str t) =
    (λ h. inr (ground (arith, equal_iff t expected)), λ h. ground (arith, equal_iff t expected))
other_target_iff expected v = (λ h. cc, λ h. ground arith)

-- The manifest's target, where the manifest is an object that has one, is the host's.
abbrev pub OnTarget : Host → Type 0
OnTarget host =
    (fields : Fields)
    → host.manifest ≡ some (obj fields)
    → (get fields os_arch ≡ null) ⊎ (get fields os_arch ≡ str (expected_target host))

module _ (host : Host) (args : Args) where
  wrong_platform_iff :
      (wrong_platform host args ≡ false)
      ↔ ((args.require_platform ≡ none) ⊎ (args.require_platform ≡ some host.system))
  unfolding wrong_platform
  wrong_platform_iff = elim (Option-cases args.require_platform) [
    | inl e ↦ (λ _. inl e, λ _. ground arith)
    | inr (p, e) ↦ (
      λ h. inr (ground (arith, equal_iff host.system p)),
      λ h. ground (arith, equal_iff host.system p),
    )
  ]

  OnTarget-iff :
      (m : Option Value)
      → host.manifest ≡ m
      → (wrong_manifest host (read_manifest m).0 ≡ false) ↔ OnTarget host
  unfolding wrong_manifest read_manifest
  OnTarget-iff none e = (λ _ fields h. cc, λ _. refl)
  OnTarget-iff (some (obj fs)) e = (
    λ h fields h'.
        let same : fs ≡ fields = cc in
        rw same at ((other_target_iff (expected_target host) (get fs os_arch)).0 h),
    λ h. (other_target_iff (expected_target host) (get fs os_arch)).1 (h fs e),
  )
  OnTarget-iff (some v) e = (λ _ fields h. cc, λ _. refl)

  -- The tests of `main`, as they stand in the code.
  main_zero_iff :
      (main host args ≡ 0)
      ↔ (args.build ≡ true)
        × (args.tests ≡ true)
        × (contains supported_systems host.system ≡ true)
        × (passed (run_record host build_command (environment host args) args.build_timeout) ≡ true)
        × (passed (run_record host (freshness_command args) (environment host args) 60000) ≡ true)
        × (passed (run_record host tests_command (environment host args) args.test_timeout) ≡ true)
        × (wrong_platform host args ≡ false)
        × (wrong_manifest host (read_manifest host.manifest).0 ≡ false)
  unfolding main report platform_gate_status phase_passed
  main_zero_iff = (λ h. ground arith, λ h. ground arith)

-- What has to hold of a host and a run for the label `validated`.
pub record IsValidated (host : Host) (args : Args) : Type 0 where
  pub build_asked : args.build ≡ true
  pub tests_asked : args.tests ≡ true
  pub candidate : contains supported_systems host.system ≡ true
  pub build_succeeds : Succeeds (host.run build_command (environment host args) args.build_timeout)
  pub is_fresh : Succeeds (host.run (freshness_command args) (environment host args) 60000)
  pub tests_succeed : Succeeds (host.run tests_command (environment host args) args.test_timeout)
  pub on_platform : (args.require_platform ≡ none) ⊎ (args.require_platform ≡ some host.system)
  pub on_target : OnTarget host

-- The program exits with 0 exactly when the build and the tests were both asked for, the host is
-- one of the supported systems and the required one if any, the build, the freshness check and the
-- tests each ended by themselves with status 0, and a manifest that names a target names the host.
pub main-zero_iff : (host : Host) (args : Args) → (main host args ≡ 0) ↔ IsValidated host args
unfolding run_record
main-zero_iff host args = (
  λ h.
      let (b, t, c, built, fresh, tested, platform, target) = (main_zero_iff host args).0 h in
      record {
        build_asked = b;
        tests_asked = t;
        candidate = c;
        build_succeeds = (passed_iff _ _ _).0 built;
        is_fresh = (passed_iff _ _ _).0 fresh;
        tests_succeed = (passed_iff _ _ _).0 tested;
        on_platform = (wrong_platform_iff host args).0 platform;
        on_target = (OnTarget-iff host args host.manifest refl).0 target;
      },
  λ v. (main_zero_iff host args).1 (
    v.build_asked,
    v.tests_asked,
    v.candidate,
    (passed_iff _ _ _).1 v.build_succeeds,
    (passed_iff _ _ _).1 v.is_fresh,
    (passed_iff _ _ _).1 v.tests_succeed,
    (wrong_platform_iff host args).1 v.on_platform,
    (OnTarget-iff host args host.manifest refl).1 v.on_target,
  ),
)

-- When the program exits with 0, the report lists no problem but the one, if any, that reading the
-- manifest met.
pub main_zero_errors :
    (host : Host) (args : Args)
    → main host args ≡ 0
    → (report host args).errors ≡ reported (read_manifest host.manifest).1
unfolding main report platform_gate_status phase_passed is_unsupported
main_zero_errors host args h = ground (arith, append-nil (reported (read_manifest host.manifest).1))

set_if_other :
    (key name : Text) (value : Option Text) (env : Env)
    → equal name key ≡ false
    → set_if key value env name ≡ env name
set_if_other key name none env h = refl
set_if_other key name (some v) env h = ground (arith, equal_iff name key, equal_iff key name)

environment_other :
    (host : Host) (args : Args) (name : Text)
    → contains (stage1_gate ∷ codes "ELISAC" ∷ codes "ELISA_COMPILER_ROOT" ∷ []) name ≡ false
    → environment host args name ≡ host.environ name
unfolding environment contains
environment_other host args name h =
    let popped = pop stage1_gate host.environ in
    let inner = set_if (codes "ELISAC") args.compiler popped in
    set_if_other (codes "ELISA_COMPILER_ROOT") name args.frontend inner (ground arith)
    ∙ (set_if_other (codes "ELISAC") name args.compiler popped (ground arith)
        ∙ ground (arith, equal_iff name stage1_gate, equal_iff stage1_gate name))

-- Whatever the caller's environment holds, the commands see no ELISA_LSP_ALLOW_STAGE1_GATE; they
-- see the compiler and the frontend given in ELISAC and ELISA_COMPILER_ROOT, and every variable but
-- these three unchanged.
pub environment_exact :
    (host : Host) (args : Args)
    → (environment host args stage1_gate ≡ none)
      × ((c : Text) → args.compiler ≡ some c → environment host args (codes "ELISAC") ≡ some c)
      × ((f : Text)
          → args.frontend ≡ some f
          → environment host args (codes "ELISA_COMPILER_ROOT") ≡ some f)
      × ((name : Text)
          → contains (stage1_gate ∷ codes "ELISAC" ∷ codes "ELISA_COMPILER_ROOT" ∷ []) name ≡ false
          → environment host args name ≡ host.environ name)
unfolding environment contains equal
environment_exact host args = (
  elim (Option-cases args.frontend) [
    | inl e ↦ elim (Option-cases args.compiler) [ inl d ↦ rw (e, d) | inr (c, d) ↦ rw (e, d) ]
    | inr (f, e) ↦ elim (Option-cases args.compiler) [ inl d ↦ rw (e, d) | inr (c, d) ↦ rw (e, d) ]
  ],
  λ c d. elim (Option-cases args.frontend) [ inl e ↦ rw (e, d) | inr (f, e) ↦ rw (e, d) ],
  λ f e. rw e,
  λ name h. environment_other host args name h,
)
