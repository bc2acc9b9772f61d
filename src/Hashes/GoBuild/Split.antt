-- ===== src/Hashes/GoBuild/Split.antt =====
-- The fields of a line of `go version -m`, as `line.split("\t")` and `partition("=")` cut them.
use mathlib.Core.List.{append-nil}
use elisa_lsp.Base.{
  ℕ, none, some, List, [], ◌∷◌, ◌++◌, ◌==◌, ◌≡◌, ◌≢◌, ◌⊎◌, inl, inr, refl, ap, ◌∙◌, arith, All,
  Bool-cases,
}
use elisa_lsp.Base.Text.{Text, codes}
use elisa_lsp.Hashes.GoBuild.{split_tabs, partition_equals}

-- The character does not stand in the text.
abbrev pub Lacks : ℕ → Text → Type 0
Lacks x = All (λ c. c ≢ x)

-- The second field of the line is the kind, and the third is the field.
pub record States (kind field line : Text) : Type 0 where
  pub first : Text
  pub rest : Text
  pub reads : line ≡ first ++ (0x09 ∷ (kind ++ (0x09 ∷ (field ++ rest))))
  pub first_ends : Lacks 0x09 first
  pub field_ends : Lacks 0x09 field
  pub rest_begins : (rest ≡ []) ⊎ ((later : Text) × (rest ≡ 0x09 ∷ later))

-- The line sets the key: its second field is "build", and its third is the key, "=" and the value.
abbrev pub Sets : Text → Text → Text → Type 0
Sets key value line = Lacks b'=' key × States (codes "build") (key ++ (b'=' ∷ value)) line

-- The text lacks the character, or it is cut at its first place.
pub cut_at :
    (x : ℕ) (t : Text)
    → Lacks x t ⊎ ((before : Text) × (later : Text) × (t ≡ before ++ (x ∷ later)) × Lacks x before)
cut_at x [] = inl tt
cut_at x (c ∷ cs) = elim (Bool-cases (c == x)) [
  | inl e ↦ let same : c ≡ x = ground arith in inr ([], cs, ap (λ (d : ℕ). d ∷ cs) same, tt)
  | inr e ↦
      let differs : c ≢ x = λ same. ground arith in
      elim (cut_at x cs) [
        | inl k ↦ inl (differs, k)
        | inr (before, later, reads, k) ↦
            inr (c ∷ before, later, ap (λ (t : Text). c ∷ t) reads, (differs, k))
      ]
]

-- Up to a tab.
split_tabs-append :
    (field later : Text)
    → Lacks 0x09 field
    → split_tabs (field ++ (0x09 ∷ later)) ≡ field ∷ split_tabs later
unfolding split_tabs
split_tabs-append [] later k = refl
split_tabs-append (c ∷ cs) later k = ground (arith, split_tabs-append cs later k.1)

split_tabs-whole : (field : Text) → Lacks 0x09 field → split_tabs field ≡ field ∷ []
unfolding split_tabs
split_tabs-whole [] k = refl
split_tabs-whole (c ∷ cs) k = ground (arith, split_tabs-whole cs k.1)

pub partition_equals-append :
    (key value : Text)
    → Lacks b'=' key
    → partition_equals (key ++ (b'=' ∷ value)) ≡ some (key, value)
unfolding partition_equals
partition_equals-append [] value k = refl
partition_equals-append (c ∷ cs) value k = ground (arith, partition_equals-append cs value k.1)

pub partition_equals-whole : (t : Text) → Lacks b'=' t → partition_equals t ≡ none
unfolding partition_equals
partition_equals-whole [] k = refl
partition_equals-whole (c ∷ cs) k = ground (arith, partition_equals-whole cs k.1)

-- A line with a third field, split.
pub record ThreeFields (line : Text) : Type 0 where
  pub first : Text
  pub kind : Text
  pub field : Text
  pub more : List Text
  pub is_split : split_tabs line ≡ first ∷ kind ∷ field ∷ more
  pub kind_ends : Lacks 0x09 kind
  pub states : States kind field line

third_field :
    (line first kind later : Text)
    → line ≡ first ++ (0x09 ∷ (kind ++ (0x09 ∷ later)))
    → Lacks 0x09 first
    → Lacks 0x09 kind
    → ThreeFields line
third_field line first kind later e k k' =
    let up_to : split_tabs line ≡ first ∷ kind ∷ split_tabs later =
      ap split_tabs e
      ∙ split_tabs-append first (kind ++ (0x09 ∷ later)) k
      ∙ ap (λ (fs : List Text). first ∷ fs) (split_tabs-append kind later k') in
    elim (cut_at 0x09 later) [
      | inl w ↦ record {
        first = first;
        kind = kind;
        field = later;
        more = [];
        is_split = up_to ∙ ap (λ (fs : List Text). first ∷ kind ∷ fs) (split_tabs-whole later w);
        kind_ends = k';
        states = record {
          first = first;
          rest = [];
          reads = rw (append-nil later) e;
          first_ends = k;
          field_ends = w;
          rest_begins = inl refl;
        };
      }
      | inr (field, last, f, w) ↦ record {
        first = first;
        kind = kind;
        field = field;
        more = split_tabs last;
        is_split =
            up_to
            ∙ ap (λ (fs : List Text). first ∷ kind ∷ fs)
                (ap split_tabs f ∙ split_tabs-append field last w);
        kind_ends = k';
        states = record {
          first = first;
          rest = 0x09 ∷ last;
          reads = e ∙ ap (λ (t : Text). first ++ (0x09 ∷ (kind ++ (0x09 ∷ t)))) f;
          first_ends = k;
          field_ends = w;
          rest_begins = inr (last, refl);
        };
      }
    ]

-- Every line has at most two fields, or a third one.
pub fields_of :
    (line : Text)
    → ((a : Text) × (split_tabs line ≡ a ∷ []))
      ⊎ (((a : Text) × (b : Text) × (split_tabs line ≡ a ∷ b ∷ [])) ⊎ ThreeFields line)
fields_of line = elim (cut_at 0x09 line) [
  | inl k ↦ inl (line, split_tabs-whole line k)
  | inr (first, later, e, k) ↦ elim (cut_at 0x09 later) [
    | inl k' ↦ inr (
        inl (
          first,
          later,
          ap split_tabs e
              ∙ split_tabs-append first later k
              ∙ ap (λ (fs : List Text). first ∷ fs) (split_tabs-whole later k'),
        ))
    | inr (kind, last, f, k') ↦
        inr (
          inr
            (third_field line first kind last (e ∙ ap (λ (t : Text). first ++ (0x09 ∷ t)) f) k k'))
  ]
]

-- A stated field is the third of the line.
pub States-split :
    (kind field line : Text)
    → Lacks 0x09 kind
    → (s : States kind field line)
    → (more : List Text) × (split_tabs line ≡ s.first ∷ kind ∷ field ∷ more)
States-split kind field line k s =
    let up_to : split_tabs line ≡ s.first ∷ kind ∷ split_tabs (field ++ s.rest) =
      ap split_tabs s.reads
      ∙ split_tabs-append s.first (kind ++ (0x09 ∷ (field ++ s.rest))) s.first_ends
      ∙ ap (λ (fs : List Text). s.first ∷ fs) (split_tabs-append kind (field ++ s.rest) k) in
    elim s.rest_begins [
      | inl e ↦ (
        [],
        up_to
            ∙ ap (λ (fs : List Text). s.first ∷ kind ∷ fs)
                (ap (λ (r : Text). split_tabs (field ++ r)) e
                  ∙ (ap split_tabs (append-nil field) ∙ split_tabs-whole field s.field_ends)),
      )
      | inr (later, e) ↦ (
        split_tabs later,
        up_to
            ∙ ap (λ (fs : List Text). s.first ∷ kind ∷ fs)
                (ap (λ (r : Text). split_tabs (field ++ r)) e
                  ∙ split_tabs-append field later s.field_ends),
      )
    ]
