-- ===== src/Inventory/Scan/Sites.antt =====
-- The sites that are found depend on the masked source alone, and what the fields of a constructor
-- say of its kind and position.
use mathlib.Core.Path.{ap₂}
use elisa_lsp.Base.{
  ℕ, zero, suc, ◌+◌, Bool, false, ◌||◌, Option, none, some, List, [], ◌∷◌, take, ◌==◌, ◌≡◌, refl,
  sym, arith, ap, ◌∙◌, inl, inr, Bool-cases, Option-cases, if◌then◌else◌,
}
use elisa_lsp.Base.Text.{Text, codes, equal, equal_iff, contains}
use elisa_lsp.Inventory.Masking.{mask_literals_and_comments, newline}
use elisa_lsp.Inventory.Masking.Blanked.{IsMaskOf, AreMasksOf, mask_literals_and_comments-keeps}
use elisa_lsp.Inventory.Scan.{
  unknown, match_field, count_newlines, line_of, match_constructor, kind_of, next_kind, read_fields,
  site_on, scan_from, scan_diagnostic_constructors, is_word,
}

newline-IsMaskOf : (c d : ℕ) → IsMaskOf c d → (d == newline) ≡ (c == newline)
newline-IsMaskOf c d (inl e) = rw e
newline-IsMaskOf c d (inr (e, h)) = rw (e, h)

count_newlines-take :
    (k : ℕ) (t m : Text) → AreMasksOf t m → count_newlines (take k t) ≡ count_newlines (take k m)
unfolding count_newlines
count_newlines-take zero t m h = refl
count_newlines-take (suc k) [] [] h = refl
count_newlines-take (suc k) [] (d ∷ ds) h = elim h [ ]
count_newlines-take (suc k) (c ∷ cs) [] h = elim h [ ]
count_newlines-take (suc k) (c ∷ cs) (d ∷ ds) h =
    rw (newline-IsMaskOf c d h.0, count_newlines-take k cs ds h.1)

line_of-mask :
    (source : Text) (offset : ℕ)
    → line_of source offset ≡ line_of (mask_literals_and_comments source) offset
unfolding line_of
line_of-mask source offset =
    ap (λ n. n + 1)
      (count_newlines-take offset source _ (mask_literals_and_comments-keeps source).0)

module _ (is_alnum : ℕ → Bool) where
  scan_from-line_of :
      (s s' path : Text)
      → ((k : ℕ) → line_of s k ≡ line_of s' k)
      → (offset : ℕ) (inside : Bool) (t : Text)
      → scan_from is_alnum s path offset inside t ≡ scan_from is_alnum s' path offset inside t
  unfolding scan_from
  scan_from-line_of s s' path h offset inside [] = refl
  scan_from-line_of s s' path h offset inside (c ∷ cs) =
      let later = scan_from-line_of s s' path h (suc offset) (is_word is_alnum c) cs in
      elim (Option-cases (if inside then none else match_constructor is_alnum (c ∷ cs))) [
        | inl e ↦ rw (scan_from, e) later
        | inr (opening, e) ↦
            rw (scan_from, e)
              (ap₂ (λ line r. site_on is_alnum line path opening r) (h offset) later)
      ]

  -- Sources with one masked text have the same sites, lines included: what stands in comments and
  -- literals has no influence.
  pub scan_diagnostic_constructors-mask :
      (s s' path : Text)
      → mask_literals_and_comments s ≡ mask_literals_and_comments s'
      → scan_diagnostic_constructors is_alnum s path ≡ scan_diagnostic_constructors is_alnum s' path
  unfolding scan_diagnostic_constructors
  scan_diagnostic_constructors-mask s s' path e =
      scan_from-line_of s s' path
        (λ k. line_of-mask s k ∙ (ap (λ m. line_of m k) e ∙ sym (line_of-mask s' k))) 0 false _
      ∙ ap (scan_from is_alnum s' path 0 false) e

  -- The names of the fields that have one.
  abbrev pub names : List Text → List Text
  names [] = []
  names (field ∷ rest) = elim (match_field field) [
    | none ↦ names rest
    | some (name, behind) ↦ name ∷ names rest
  ]

  read_fields-position :
      (fields : List Text) (kind : Text) (has : Bool)
      → (read_fields is_alnum fields kind has).1 ≡ (has || contains (names fields) (codes "pos"))
  unfolding read_fields contains
  read_fields-position [] kind has = ground arith
  read_fields-position (field ∷ rest) kind has = elim (Option-cases (match_field field)) [
    | inl e ↦ rw (read_fields, names, e) (read_fields-position rest kind has)
    | inr ((name, behind), e) ↦
        rw (read_fields, names, e)
          (read_fields-position rest _ _
            ∙ ground (arith, equal_iff name (codes "pos"), equal_iff (codes "pos") name))
  ]

  -- What the last field named `kind` gives.
  abbrev pub last_kind : List Text → Option Text
  last_kind [] = none
  last_kind (field ∷ rest) = elim (last_kind rest) [
    | some kind ↦ some kind
    | none ↦ elim (match_field field) [
      | none ↦ none
      | some (name, behind) ↦
          if equal name (codes "kind") then some (kind_of is_alnum field behind) else none
    ]
  ]

  abbrev pub or_kind : Option Text → Text → Text
  or_kind none kind = kind
  or_kind (some last) kind = last

  next_kind_named :
      (field name behind kind : Text)
      → next_kind is_alnum field name behind kind
        ≡ (if equal name (codes "kind") then kind_of is_alnum field behind else kind)
  unfolding next_kind
  next_kind_named field name behind kind = elim (Bool-cases (equal name (codes "pos"))) [
    | inl e ↦ rw (e, (equal_iff name (codes "pos")).0 e) (unfold equal in refl)
    | inr e ↦ rw e
  ]

  read_fields-last_kind :
      (fields : List Text) (kind : Text) (has : Bool)
      → (read_fields is_alnum fields kind has).0 ≡ or_kind (last_kind fields) kind
  unfolding read_fields
  read_fields-last_kind [] kind has = refl
  read_fields-last_kind (field ∷ rest) kind has = elim (Option-cases (match_field field)) [
    | inl e ↦
        rw (read_fields, last_kind, e)
          (read_fields-last_kind rest kind has
            ∙ elim (Option-cases (last_kind rest)) [ inl l ↦ rw (l, e) | inr (k, l) ↦ rw l ])
    | inr ((name, behind), e) ↦
        rw (read_fields, last_kind, e)
          (read_fields-last_kind rest _ _ ∙ elim (Option-cases (last_kind rest)) [
            | inr (k, l) ↦ rw l
            | inl l ↦
                rw (l, e, next_kind_named field name behind kind)
                  (elim (Bool-cases (equal name (codes "kind"))) [ inl x ↦ rw x | inr x ↦ rw x ])
          ])
  ]

  -- A constructor has a position exactly when some field is named `pos`, and the last field named
  -- `kind` gives its kind, which is unknown without one.
  pub read_fields_exact :
      (fields : List Text)
      → ((read_fields is_alnum fields unknown false).1 ≡ contains (names fields) (codes "pos"))
        × ((read_fields is_alnum fields unknown false).0 ≡ or_kind (last_kind fields) unknown)
  read_fields_exact fields =
      (read_fields-position fields unknown false, read_fields-last_kind fields unknown false)
