-- ===== src/Freshness/Verdict.antt =====
-- A check goes on with a value, rejects the build, or ends in an exception that nothing catches.
use elisa_lsp.Base.{arith, Bool, true, false, Option, none, some, ◌≡◌, refl, if◌then◌else◌}
use elisa_lsp.Hashes.Result.{Error, Result, ok, err, os_error, overflow_error}

-- One reason for each call of `reject`.
pub data Reason : Type 0 where
  manifest_unreadable wrong_schema other_artifact executable_missing : Reason
  artifact_unreadable artifact_differs lsp_unreadable lsp_inputs_differ : Reason
  no_pipeline pipeline_unreadable pipeline_differs : Reason
  no_snapshot relative_snapshot snapshot_unresolved snapshot_symlink snapshot_outside : Reason
  snapshot_layout snapshot_name staged_compiler_path snapshot_missing : Reason
  entry_unreadable entry_symlink file_writable directory_writable : Reason
  snapshot_unreadable staged_lsp_differs staged_compiler_differs : Reason
  no_closure malformed_closure closure_unreadable inconsistent_closure staged_closure_differs :
      Reason
  live_closure_unreadable live_closure_differs : Reason
  compiler_unreadable compiler_differs binary_unreadable binary_differs : Reason

pub data Check {ℓ} (A : Type ℓ) : Type ℓ where
  accept : A → Check A
  reject : Reason → Check A
  crash : Error → Check A

-- A check that rejects or crashes ends the chain.
abbrev pub ◌>>=◌ {ℓ κ} : {S : Type ℓ} {T : Type κ} → Check S → (S → Check T) → Check T
crash e >>= later = crash e
reject why >>= later = reject why
accept s >>= later = later s

abbrev pub ◌>>◌ {κ} : {T : Type κ} → Check (Unit {0}) → Check T → Check T
m >> later = m >>= λ _. later

infixl 5 ◌>>=◌ ◌>>◌
-- `if not test: reject(...)`
abbrev pub require : Bool → Reason → Check (Unit {0})
require true r = accept tt
require false r = reject r

abbrev pub require_some {ℓ} : {A : Type ℓ} → Option A → Reason → Check A
require_some (some a) r = accept a
require_some none r = reject r

-- `except OSError`
abbrev pub is_os_error : Error → Bool
is_os_error os_error = true
is_os_error _ = false

-- `except (KeyError, TypeError, ValueError, OSError, RuntimeError)`: all but the overflow, which is
-- an `ArithmeticError`.
abbrev pub is_caught : Error → Bool
is_caught overflow_error = false
is_caught _ = true

-- `try: ... except ...: reject(...)`
abbrev pub catching {ℓ} : {A : Type ℓ} → (Error → Bool) → Reason → Result A → Check A
catching caught r (ok a) = accept a
catching caught r (err e) = if caught e then reject r else crash e

pub bind-eq-accept {ℓ κ} :
    {S : Type ℓ} {T : Type κ} (check : Check S) (later : S → Check T) {t : T}
    → (check >>= later) ≡ accept t
    → (s : S) × (check ≡ accept s) × (later s ≡ accept t)
bind-eq-accept (crash e) later h = cc
bind-eq-accept (reject why) later h = cc
bind-eq-accept (accept s) later h = (s, refl, h)

pub require-eq-accept : (b : Bool) (r : Reason) {u : Unit {0}} → require b r ≡ accept u → b ≡ true
require-eq-accept true r h = refl
require-eq-accept false r h = cc

pub require_some-eq-accept {ℓ} :
    {A : Type ℓ} (o : Option A) (r : Reason) {a : A} → require_some o r ≡ accept a → o ≡ some a
require_some-eq-accept (some a) r h = cc
require_some-eq-accept none r h = cc

pub catching-eq-accept {ℓ} :
    {A : Type ℓ} (caught : Error → Bool) (r : Reason) (m : Result A) {a : A}
    → catching caught r m ≡ accept a
    → m ≡ ok a
catching-eq-accept caught r (ok a) h = cc
catching-eq-accept caught r (err e) h = ground arith

pub accept-injective {ℓ} : {A : Type ℓ} (a b : A) → accept a ≡ accept b → a ≡ b
accept-injective a b h = cc
