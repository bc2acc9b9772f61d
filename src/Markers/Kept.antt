-- ===== src/Markers/Kept.antt =====
-- What the collectors of scripts/compiler_upgrade_gate.py and scripts/platform_validation.py keep.
use Prim.Native.Nat.{max}
use mathlib.Core.List.{append_assoc, append-nil}
use elisa_lsp.Base.{
  ℕ, zero, suc, ◌≤◌, ◌<◌, true, false, Option, none, some, List, [], ◌∷◌, ◌++◌, ◌≡◌, ◌⊎◌, inl, inr,
  refl, sym, ap, ◌∙◌, arith, length, length-append, length-take, take, take_all, Bool-cases,
}
use elisa_lsp.Base.Text.{Text, contains, splitlines}
use elisa_lsp.Markers.{
  marker_of, failure_markers, name_of, failed_test_names, diagnostic_of, diagnostic_onto,
  failure_diagnostic_lines,
}
use elisa_lsp.Markers.Distinct.{
  push_new, distinct_onto, is_nodup, yields, contains-distinct_onto, is_nodup-distinct_onto,
}

-- A name is in the list of failed tests exactly when some line of the output, after the prefix
-- "FAILED: " and with the space round it stripped, is that name; and no name stands twice.
pub failed_test_names_exact :
    (output : Text)
    → ((t : Text) → contains (failed_test_names output) t ≡ yields name_of t (splitlines output))
      × (is_nodup (failed_test_names output) ≡ true)
unfolding failed_test_names
failed_test_names_exact output = (
  λ t. unfold contains in contains-distinct_onto name_of t [] (splitlines output),
  is_nodup-distinct_onto name_of [] (splitlines output) (unfold is_nodup in refl),
)

contains-take :
    (n : ℕ) (t : Text) (xs : List Text) → contains xs t ≡ false → contains (take n xs) t ≡ false
unfolding contains
contains-take zero t xs h = refl
contains-take (suc n) t [] h = refl
contains-take (suc n) t (x ∷ xs) h = ground (arith, contains-take n t xs)

is_nodup-take : (n : ℕ) (xs : List Text) → is_nodup xs ≡ true → is_nodup (take n xs) ≡ true
unfolding is_nodup
is_nodup-take zero xs h = refl
is_nodup-take (suc n) [] h = refl
is_nodup-take (suc n) (x ∷ xs) h = ground (arith, is_nodup-take n xs, contains-take n x xs)

-- At most 100 markers are kept and none stands twice; a text that no line of the output yields is
-- not kept, and if at most 100 are distinct, each that a line yields is kept.
pub failure_markers_bounded :
    (output : Text)
    → (length (failure_markers output) ≤ 100)
      × (is_nodup (failure_markers output) ≡ true)
      × ((t : Text)
          → yields marker_of t (splitlines output) ≡ false
          → contains (failure_markers output) t ≡ false)
      × (length (distinct_onto marker_of [] (splitlines output)) ≤ 100
          → (t : Text)
          → contains (failure_markers output) t ≡ yields marker_of t (splitlines output))
unfolding failure_markers
failure_markers_bounded output =
    let found = distinct_onto marker_of [] (splitlines output) in
    let exact : (t : Text) → contains found t ≡ yields marker_of t (splitlines output) =
      λ t. unfold contains in contains-distinct_onto marker_of t [] (splitlines output) in
    (
      omega (arith, length-take 100 found),
      is_nodup-take 100 found
          (is_nodup-distinct_onto marker_of [] (splitlines output) (unfold is_nodup in refl)),
      λ t h. contains-take 100 t found (exact t ∙ h),
      λ h t. rw (take_all 100 found h) (exact t),
    )

length-push_new :
    (o : Option Text) (kept : List Text)
    → (push_new o kept ≡ kept) ⊎ (length (push_new o kept) ≡ suc (length kept))
unfolding push_new
length-push_new none kept = inl refl
length-push_new (some t) kept = elim (Bool-cases (contains kept t)) [
  | inl old ↦ inl (rw old)
  | inr new ↦ inr (rw new (omega (arith, length-append kept (t ∷ []))))
]

-- What is kept stays in front.
take-push_new :
    (o : Option Text) (kept more : List Text)
    → (xs : List Text) × (push_new o kept ++ more ≡ kept ++ xs)
unfolding push_new
take-push_new none kept more = (more, refl)
take-push_new (some t) kept more = elim (Bool-cases (contains kept t)) [
  | inl old ↦ (more, rw old)
  | inr new ↦ (t ∷ more, rw new (append_assoc kept (t ∷ []) more))
]

distinct_onto-extends :
    (f : Text → Option Text) (kept lines : List Text)
    → (xs : List Text) × (distinct_onto f kept lines ≡ kept ++ xs)
unfolding distinct_onto
distinct_onto-extends f kept [] = ([], sym (append-nil kept))
distinct_onto-extends f kept (line ∷ rest) =
    let (xs, e) = distinct_onto-extends f (push_new (f line) kept) rest in
    let (ys, e') = take-push_new (f line) kept xs in (ys, e ∙ e')

take-append_exact : (xs ys : List Text) → take (length xs) (xs ++ ys) ≡ xs
take-append_exact [] ys = refl
take-append_exact (x ∷ xs) ys = ap (λ r. x ∷ r) (take-append_exact xs ys)

take-distinct_onto :
    (f : Text → Option Text) (n : ℕ) (kept lines : List Text)
    → n ≡ length kept
    → take n (distinct_onto f kept lines) ≡ kept
take-distinct_onto f n kept lines e =
    let (xs, x) = distinct_onto-extends f kept lines in rw (e, x) (take-append_exact kept xs)

module _ (lower : Text → Text) where
  diagnostic_onto-take :
      (limit : ℕ) (kept lines : List Text)
      → length kept < max 1 limit
      → diagnostic_onto lower limit kept lines
        ≡ take (max 1 limit) (distinct_onto (diagnostic_of lower) kept lines)
  unfolding diagnostic_onto distinct_onto
  diagnostic_onto-take limit kept [] h = sym (take_all (max 1 limit) kept (omega arith))
  diagnostic_onto-take limit kept (line ∷ rest) h =
      let kept' = push_new (diagnostic_of lower line) kept in
      let full = take-distinct_onto (diagnostic_of lower) (max 1 limit) kept' rest in
      let ih = diagnostic_onto-take limit kept' rest in
      elim (length-push_new (diagnostic_of lower line) kept) [
        | inl same ↦ ground (arith, ap (length {0}) same, ih)
        | inr longer ↦ ground (arith, ih, full)
      ]

  -- Stopping at the limit keeps the first `limit` of the distinct diagnostic lines of the whole
  -- output, in their order; a limit of 0 acts as 1.
  pub failure_diagnostic_lines-eq-take :
      (output : Text) (limit : ℕ)
      → failure_diagnostic_lines lower output limit
        ≡ take (max 1 limit) (distinct_onto (diagnostic_of lower) [] (splitlines output))
  unfolding failure_diagnostic_lines
  failure_diagnostic_lines-eq-take output limit =
      diagnostic_onto-take limit [] (splitlines output) (omega arith)
