-- ===== src/Codes/Printed.antt =====
-- The adapter that scripts/generate_diagnostic_codes.py prints determines the variants, so that
-- `--check` accepts it for one enum only.
use mathlib.Core.List.{append_assoc, append_cancel_left}
use elisa_lsp.Base.{
  ℕ, Bool, true, false, Option, none, some, List, [], ◌∷◌, ◌++◌, drop, map, ◌==◌, ◌≡◌, ◌≢◌, ◌↔◌,
  ◌⊎◌, refl, sym, arith, ap, ◌∙◌, All, Bool-cases, inl, inr,
}
use elisa_lsp.Base.Text.{Text, codes, equal, equal_iff, equal_refl}
use elisa_lsp.Base.Patterns.{is_name_start, is_name_char}
use elisa_lsp.Codes.{
  Variants, found, stops, Problem, enum_variants, join_lines, arm, header, render, main, newline,
}
use elisa_lsp.Codes.Checked.{IsName, enum_variants-IsVariants, before_mark_unique}

name_no_colon : (name : Text) → IsName name → All (λ c. (c == b':') ≡ false) name
unfolding is_name_char is_name_start
name_no_colon [] h = tt
name_no_colon (c ∷ cs) h = (ground arith, name_no_colon cs h.1)

abbrev footer : List Text
footer = codes "        _: \"ELISA-Unknown\"" ∷ [] ∷ []

abbrev lines : List Text → Text
lines names = join_lines (map arm names ++ footer)

lines-cons :
    (line : Text) (names : List Text)
    → join_lines (line ∷ (map arm names ++ footer)) ≡ line ++ (newline ∷ lines names)
unfolding join_lines
lines-cons line [] = refl
lines-cons line (n ∷ names) = refl

abbrev prefix : Text
prefix = codes "        Semantic::DiagnosticKind."

abbrev behind : Text → Text
behind name = codes " \"ELISA-" ++ (name ++ codes "\"")

lines-arm :
    (n : Text) (ns : List Text)
    → lines (n ∷ ns) ≡ prefix ++ (n ++ (b':' ∷ (behind n ++ (newline ∷ lines ns))))
lines-arm n ns = lines-cons (arm n) ns ∙ rw (append_assoc n _ _)

abbrev first : Text → ℕ
first [] = 0
first (c ∷ cs) = c

marks_differ : ◌≢◌ {A = ℕ} b'_' b'S'
marks_differ e = omega arith

lines-ne-footer : (n : Text) (ns : List Text) → lines [] ≢ lines (n ∷ ns)
unfolding join_lines
lines-ne-footer n ns e = marks_differ (ap (λ t. first (drop 8 t)) (e ∙ lines-arm n ns))

lines_injective :
    (ms ns : List Text) → All IsName ms → All IsName ns → lines ms ≡ lines ns → ms ≡ ns
lines_injective [] [] p q e = refl
lines_injective [] (n ∷ ns) p q e = elim (lines-ne-footer n ns e) [ ]
lines_injective (m ∷ ms) [] p q e = elim (lines-ne-footer m ms (sym e)) [ ]
lines_injective (m ∷ ms) (n ∷ ns) p q e =
    let arms = append_cancel_left prefix _ _ (sym (lines-arm m ms) ∙ (e ∙ lines-arm n ns)) in
    let (same, later) =
      before_mark_unique b':' m n (name_no_colon m p.0) (name_no_colon n q.0) arms in
    let rest = append_cancel_left (behind n) _ _ (rw same at later) in
    let all = lines_injective ms ns p.1 q.1 (cc rest) in cc (same, all)

render-lines : (ns : List Text) → render ns ≡ join_lines header ++ (newline ∷ lines ns)
unfolding render join_lines
render-lines [] = refl
render-lines (n ∷ ns) = refl

-- The printed adapter determines the names.
pub render_injective :
    (ms ns : List Text) → All IsName ms → All IsName ns → render ms ≡ render ns → ms ≡ ns
render_injective ms ns p q e =
    let whole = sym (render-lines ms) ∙ (e ∙ render-lines ns) in
    let printed = append_cancel_left (join_lines header) _ _ whole in
    let bodies : lines ms ≡ lines ns = cc printed in lines_injective ms ns p q bodies

pub Variants-cases :
    (v : Variants) → ((names : List Text) × (v ≡ found names)) ⊎ ((p : Problem) × (v ≡ stops p))
Variants-cases (found names) = inl (names, refl)
Variants-cases (stops p) = inr (p, refl)

checked :
    (is_alnum : ℕ → Bool) (source output : Option Text)
    → (main is_alnum source output true).0 ≡ 0
    → (names : List Text) × (enum_variants is_alnum source ≡ found names)
      × (output ≡ some (render names))
unfolding main
checked is_alnum source none h = elim (Variants-cases (enum_variants is_alnum source)) [
  | inl (names, e) ↦ cc (rw (main, e) at h)
  | inr (p, e) ↦ cc (rw (main, e) at h)
]
checked is_alnum source (some t) h = elim (Variants-cases (enum_variants is_alnum source)) [
  | inr (p, e) ↦ cc (rw (main, e) at h)
  | inl (names, e) ↦ elim (Bool-cases (equal t (render names))) [
    | inl same ↦ (names, e, ap some ((equal_iff t (render names)).0 same))
    | inr other ↦ cc (rw (main, e, other) at h)
  ]
]

written_variants :
    (is_alnum : ℕ → Bool) (source output : Option Text) {written : Text}
    → main is_alnum source output false ≡ (0, some written)
    → (names : List Text) × (enum_variants is_alnum source ≡ found names) × (written ≡ render names)
unfolding main
written_variants is_alnum source output h = elim (Variants-cases (enum_variants is_alnum source)) [
  | inl (names, e) ↦ (names, e, cc (rw (main, e) at h))
  | inr (p, e) ↦ cc (rw (main, e) at h)
]

-- `--check` exits with 0 exactly when the enum has variants and the output is their adapter.
pub main_check-zero_iff :
    (is_alnum : ℕ → Bool) (source output : Option Text)
    → ((main is_alnum source output true).0 ≡ 0) ↔ (
        (names : List Text) × (enum_variants is_alnum source ≡ found names)
        × (output ≡ some (render names)))
unfolding main
main_check-zero_iff is_alnum source output = (
  checked is_alnum source output,
  λ (names, read, printed). rw (main, read, printed, equal_refl (render names)),
)

-- An adapter that the program wrote for one enum passes `--check` against a source exactly when the
-- source has the same variants.
pub main_check-write :
    (is_alnum : ℕ → Bool) (old new previous : Option Text) (written : Text)
    → main is_alnum old previous false ≡ (0, some written)
    → ((main is_alnum new (some written) true).0 ≡ 0)
      ↔ (enum_variants is_alnum new ≡ enum_variants is_alnum old)
main_check-write is_alnum old new previous written h =
    let (names, e, made) = written_variants is_alnum old previous h in
    (
      λ z.
          let (others, e', printed) = checked is_alnum new (some written) z in
          let v = enum_variants-IsVariants is_alnum old e in
          let v' = enum_variants-IsVariants is_alnum new e' in
          let texts : render others ≡ render names = cc (printed, made) in
          cc (e, e', render_injective others names v'.are_names v.are_names texts),
      λ same. (main_check-zero_iff is_alnum new (some written)).1 (names, same ∙ e, ap some made),
    )
