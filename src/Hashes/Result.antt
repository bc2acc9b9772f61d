-- ===== src/Hashes/Result.antt =====
-- What the functions of scripts/build_hashes.py raise.
use elisa_lsp.Base.{inr, inl, ◌⊎◌, Option, none, some, ◌≡◌, refl}

-- The first group is `DependencyClosureError`, then its two subclasses, then `OSError`,
-- `UnicodeEncodeError`, `OverflowError` and `ValueError`.
pub data Error : Type 0 where
  not_an_object invalid_record no_files duplicate_paths : Error
  unresolved not_a_file no_logical_path unknown_logical_path escapes_root content_changed : Error
  cyclic_include empty_include unreadable_source : Error
  compiler_unavailable : Error
  invalid_dependency : Error
  os_error unicode_error overflow_error value_error recursion_error : Error

-- A call returns or raises.
pub data Result {ℓ} (V : Type ℓ) : Type ℓ where
  err : Error → Result V
  ok : V → Result V

-- A missing value raises.
abbrev pub or_raise {ℓ} : {V : Type ℓ} → Option V → Error → Result V
or_raise (some v) raised = ok v
or_raise none raised = err raised

pub or_raise-eq-ok {ℓ} :
    {V : Type ℓ} (found : Option V) (raised : Error) {v : V}
    → or_raise found raised ≡ ok v
    → found ≡ some v
or_raise-eq-ok (some v) raised same = cc
or_raise-eq-ok none raised same = cc

-- The next call runs unless this one raised.
abbrev pub ◌>>=◌ {ℓ κ} : {V : Type ℓ} {W : Type κ} → Result V → (V → Result W) → Result W
err raised >>= next = err raised
ok v >>= next = next v

abbrev pub ◌>>◌ {κ} : {W : Type κ} → Result (Unit {0}) → Result W → Result W
call >> next = call >>= λ _. next

infixl 5 ◌>>=◌ ◌>>◌
pub bind-eq-ok {ℓ κ} :
    {V : Type ℓ} {W : Type κ} (call : Result V) (next : V → Result W) {w : W}
    → (call >>= next) ≡ ok w
    → (v : V) × (call ≡ ok v) × (next v ≡ ok w)
bind-eq-ok (err raised) next same = cc
bind-eq-ok (ok v) next same = (v, refl, same)

pub Result-cases {ℓ} :
    {V : Type ℓ} (r : Result V) → ((e : Error) × (r ≡ err e)) ⊎ ((v : V) × (r ≡ ok v))
Result-cases (err e) = inl (e, refl)
Result-cases (ok v) = inr (v, refl)
