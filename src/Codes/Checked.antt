-- ===== src/Codes/Checked.antt =====
-- What the variants are, and what `--check` of scripts/generate_diagnostic_codes.py vouches for.
use elisa_lsp.Base.{
  ℕ, zero, suc, Bool, true, false, Option, none, some, List, [], ◌∷◌, ◌++◌, ◌==◌, ◌≡◌, ◌≢◌, arith,
  All, Bool-cases, Option-cases, inl, inr,
}
use elisa_lsp.Base.Bytes.{bind-eq-some}
use elisa_lsp.Base.Text.{Text}
use elisa_lsp.Base.Patterns.{
  identifier, is_name_start, is_name_char, skip_spaces, to_line_end, span, search_lines, find_lines,
}
use elisa_lsp.Codes.{found, match_variant, match_start, variant_names, check_names, enum_variants}
use elisa_lsp.Markers.Distinct.{is_nodup}

-- The characters of a name.
abbrev pub IsName : Text → Type 0
IsName name = All (λ c. is_name_char c ≡ true) name

span-All : (test : ℕ → Bool) (t : Text) → All (λ c. test c ≡ true) (span test t).0
unfolding span
span-All test [] = tt
span-All test (c ∷ cs) = elim (Bool-cases (test c)) [
  | inl e ↦ rw e (e, span-All test cs)
  | inr e ↦ rw e tt
]

some_injective {ℓ} : {A : Type ℓ} {a b : A} → some a ≡ some b → a ≡ b
some_injective e = cc

is_name_start_char : (c : ℕ) → is_name_start c ≡ true → is_name_char c ≡ true
unfolding is_name_char
is_name_start_char c h = rw h

identifier-IsName : (t : Text) {m : Text × Text} → identifier t ≡ some m → IsName m.0
unfolding identifier
identifier-IsName [] e = cc
identifier-IsName (c ∷ cs) e = elim (Bool-cases (is_name_start c)) [
  | inl h ↦
      let same = some_injective (rw h at e) in
      rw (← same) (is_name_start_char c h, span-All is_name_char cs)
  | inr h ↦ cc (rw h at e)
]

match_variant-IsName : (t : Text) {m : Text × Text} → match_variant t ≡ some m → IsName m.0
unfolding match_variant
match_variant-IsName t e =
    let (u, _, e₁) = bind-eq-some (skip_spaces 12 t) _ e in
    let (named, is_named, e₂) = bind-eq-some (identifier u) _ e₁ in
    let (rest, _, e₃) = bind-eq-some (to_line_end named.1) _ e₂ in
    rw (← some_injective e₃) (identifier-IsName u is_named)

-- What holds of every match holds of every text that is found.
find_lines-All {κ} :
    (matches : Text → Option (Text × Text)) (P : Text → Type κ)
    → ((t : Text) (m : Text × Text) → matches t ≡ some m → P m.0)
    → (n : ℕ) (starts : Bool) (t : Text) → All P (find_lines matches n starts t)
unfolding find_lines
find_lines-All matches P h n starts [] = tt
find_lines-All matches P h (suc n) starts (c ∷ cs) = find_lines-All matches P h n _ cs
find_lines-All matches P h zero false (c ∷ cs) = find_lines-All matches P h zero _ cs
find_lines-All matches P h zero true (c ∷ cs) = elim (Option-cases (matches (c ∷ cs))) [
  | inl e ↦ rw (e, find_lines) (find_lines-All matches P h zero _ cs)
  | inr (m, e) ↦ rw (e, find_lines) (h (c ∷ cs) m e, find_lines-All matches P h _ _ cs)
]

-- What `found` vouches for.
pub record IsVariants (names : List Text) : Type 0 where
  pub not_empty : names ≢ []
  pub distinct : is_nodup names ≡ true
  pub are_names : All IsName names

check_names-IsVariants :
    (names : List Text) {ns : List Text}
    → All IsName names
    → check_names names ≡ found ns
    → IsVariants ns
unfolding check_names
check_names-IsVariants [] all e = cc
check_names-IsVariants (n ∷ rest) {ns} all e = elim (Bool-cases (is_nodup (n ∷ rest))) [
  | inl h ↦
      let same : n ∷ rest ≡ ns = cc (rw (check_names, h) at e) in
      rw (← same) (record { not_empty = λ x. cc; distinct = h; are_names = all })
  | inr h ↦ cc (rw (check_names, h) at e)
]

-- The variants of a source are at least one, no two are the same, and each is made of letters,
-- digits and underscores.
pub enum_variants-IsVariants :
    (is_alnum : ℕ → Bool) (source : Option Text) {names : List Text}
    → enum_variants is_alnum source ≡ found names
    → IsVariants names
unfolding enum_variants variant_names
enum_variants-IsVariants is_alnum none e = cc
enum_variants-IsVariants is_alnum (some source) e =
    elim (Option-cases (search_lines match_start true source)) [
      | inl none_found ↦ cc (rw (enum_variants, none_found) at e)
      | inr (m, is_found) ↦
          check_names-IsVariants (variant_names is_alnum m.1)
            (find_lines-All match_variant IsName (λ t n. match_variant-IsName t) 0 true _)
            (rw (enum_variants, is_found) at e)
    ]

-- The characters before a mark that they do not hold are determined.
pub before_mark_unique :
    (mark : ℕ) (xs ys : Text) {us vs : Text}
    → All (λ c. (c == mark) ≡ false) xs
    → All (λ c. (c == mark) ≡ false) ys
    → xs ++ (mark ∷ us) ≡ ys ++ (mark ∷ vs)
    → (xs ≡ ys) × (us ≡ vs)
before_mark_unique mark [] [] p q e = ground arith
before_mark_unique mark [] (y ∷ ys) p q e = ground arith
before_mark_unique mark (x ∷ xs) [] p q e = ground arith
before_mark_unique mark (x ∷ xs) (y ∷ ys) p q e =
    let tails : xs ++ (mark ∷ _) ≡ ys ++ (mark ∷ _) = cc e in
    let (same, rest) = before_mark_unique mark xs ys p.1 q.1 tails in
    let heads : x ≡ y = cc e in (cc (heads, same), rest)
