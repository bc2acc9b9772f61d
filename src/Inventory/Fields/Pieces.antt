-- ===== src/Inventory/Fields/Pieces.antt =====
-- The fields that are split off are the constructor's text, and well-bracketed fields are split off
-- whole.
use mathlib.Core.List.{append_assoc, append-nil}
use mathlib.Core.Path.{subst}
use elisa_lsp.Base.{
  ℕ, true, false, ◌&&◌, some, List, [], ◌∷◌, ◌++◌, ◌==◌, ◌≡◌, ◌↔◌, inl, inr, refl, sym, arith, ap,
  ◌∙◌, All, Bool-cases, Option-cases,
}
use elisa_lsp.Base.Text.{Text}
use elisa_lsp.Inventory.Fields.{
  is_opening, is_closing, matching, tops, popped, is_empty, effect, ends_constructor, ends_field,
  mismatch, stays, split, split_constructor_fields,
}

-- `",".join(fields) + "}" + rest`
abbrev pub joined : List Text → Text → Text
joined [] rest = b'}' ∷ rest
joined (f ∷ []) rest = f ++ (b'}' ∷ rest)
joined (f ∷ g ∷ fs) rest = f ++ (b',' ∷ joined (g ∷ fs) rest)

-- Brackets that match, without a comma outside all of them. The list holds the brackets that are
-- open before the text.
pub data Nests : List ℕ → Text → Type 0 where
  done : Nests [] []
  opens :
      {stack : List ℕ} {c : ℕ} {cs : Text}
      → is_opening c ≡ true
      → Nests (c ∷ stack) cs
      → Nests stack (c ∷ cs)
  closes :
      {stack : List ℕ} {c : ℕ} {cs : Text}
      → is_opening c ≡ false
      → is_closing c ≡ true
      → tops stack (matching c) ≡ true
      → Nests (popped stack) cs
      → Nests stack (c ∷ cs)
  other :
      {stack : List ℕ} {c : ℕ} {cs : Text}
      → is_opening c ≡ false
      → is_closing c ≡ false
      → (c == b',' && is_empty stack) ≡ false
      → Nests stack cs
      → Nests stack (c ∷ cs)

tops-filled : (stack : List ℕ) (c : ℕ) → tops stack c ≡ true → is_empty stack ≡ false
tops-filled [] c h = cc
tops-filled (s ∷ stack) c h = refl

-- What a character does, with what must hold for it.
data Does (stack : List ℕ) (c : ℕ) : Type 0 where
  ends : effect stack c ≡ ends_constructor → stack ≡ [] → c ≡ b'}' → Does stack c
  parts : effect stack c ≡ ends_field → stack ≡ [] → c ≡ b',' → Does stack c
  fails : effect stack c ≡ mismatch → Does stack c
  keeps :
      (next : List ℕ)
      → effect stack c ≡ stays next
      → ((cs : Text) → Nests next cs → Nests stack (c ∷ cs))
      → Does stack c

is_empty-nil : (stack : List ℕ) → is_empty stack ≡ true → stack ≡ []
is_empty-nil [] h = refl
is_empty-nil (s ∷ stack) h = cc

does_closing : (stack : List ℕ) (c : ℕ) → is_opening c ≡ false → is_closing c ≡ true → Does stack c
unfolding effect
does_closing stack c p q = elim (Bool-cases (c == b'}' && is_empty stack)) [
  | inl e ↦ ends (rw (effect, p, q, e)) (is_empty-nil stack (ground arith)) (ground arith)
  | inr e ↦ elim (Bool-cases (tops stack (matching c))) [
    | inl m ↦ keeps (popped stack) (rw (effect, p, q, e, m)) (λ cs n. closes p q m n)
    | inr m ↦ fails (rw (effect, p, q, e, m))
  ]
]

does_other : (stack : List ℕ) (c : ℕ) → is_opening c ≡ false → is_closing c ≡ false → Does stack c
unfolding effect
does_other stack c p q = elim (Bool-cases (c == b',' && is_empty stack)) [
  | inl e ↦ parts (rw (effect, p, q, e)) (is_empty-nil stack (ground arith)) (ground arith)
  | inr e ↦ keeps stack (rw (effect, p, q, e)) (λ cs n. other p q e n)
]

does : (stack : List ℕ) (c : ℕ) → Does stack c
unfolding effect
does stack c = elim (Bool-cases (is_opening c)) [
  | inl p ↦ keeps (c ∷ stack) (rw (effect, p)) (λ cs n. opens p n)
  | inr p ↦ elim (Bool-cases (is_closing c)) [
    | inl q ↦ does_closing stack c p q
    | inr q ↦ does_other stack c p q
  ]
]

effect_closes :
    (stack : List ℕ) (c : ℕ)
    → is_opening c ≡ false
    → is_closing c ≡ true
    → tops stack (matching c) ≡ true
    → effect stack c ≡ stays (popped stack)
unfolding effect
effect_closes stack c p q m =
    let e : (c == b'}' && is_empty stack) ≡ false =
      ground (arith, tops-filled stack (matching c) m) in
    rw (effect, p, q, e, m)

effect_opens : (stack : List ℕ) (c : ℕ) → is_opening c ≡ true → effect stack c ≡ stays (c ∷ stack)
unfolding effect
effect_opens stack c p = rw (effect, p)

effect_other :
    (stack : List ℕ) (c : ℕ)
    → is_opening c ≡ false
    → is_closing c ≡ false
    → (c == b',' && is_empty stack) ≡ false
    → effect stack c ≡ stays stack
unfolding effect
effect_other stack c p q m = rw (effect, p, q, m)

split-Nests :
    {stack : List ℕ} {t : Text} (field rest : Text)
    → Nests stack t
    → split stack field (t ++ rest) ≡ split [] (field ++ t) rest
unfolding split
split-Nests field rest done = rw append-nil
split-Nests field rest (opens {stack} {c} {cs} p n) =
    rw (split, effect_opens stack c p) (split-Nests (field ++ (c ∷ [])) rest n ∙ rw append_assoc)
split-Nests field rest (closes {stack} {c} {cs} p q m n) =
    rw (split, effect_closes stack c p q m)
      (split-Nests (field ++ (c ∷ [])) rest n ∙ rw append_assoc)
split-Nests field rest (other {stack} {c} {cs} p q m n) =
    rw (split, effect_other stack c p q m)
      (split-Nests (field ++ (c ∷ [])) rest n ∙ rw append_assoc)

-- The pieces of a text that is split.
record Parts (stack : List ℕ) (field t : Text) (fields : List Text) : Type 0 where
  piece : Text
  later : List Text
  rest : Text
  is_fields : fields ≡ (field ++ piece) ∷ later
  is_text : t ≡ joined (piece ∷ later) rest
  nests : Nests stack piece
  all_nest : All (Nests []) later

joined-cons :
    (c : ℕ) (piece : Text) (later : List Text) (rest : Text)
    → joined ((c ∷ piece) ∷ later) rest ≡ c ∷ joined (piece ∷ later) rest
joined-cons c piece [] rest = refl
joined-cons c piece (g ∷ fs) rest = refl

split-Parts :
    (stack : List ℕ) (field t : Text) {fields : List Text}
    → split stack field t ≡ some fields
    → Parts stack field t fields
unfolding split
split-Parts stack field [] e = cc
split-Parts stack field (c ∷ cs) {fields} e = elim (does stack c) [
  | fails x ↦ cc (rw (split, x) at e)
  | ends x empty mark ↦ record {
    piece = [];
    later = [];
    rest = cs;
    is_fields = cc (rw (split, x) at e, append-nil field);
    is_text = ap (λ d. d ∷ cs) mark;
    nests = rw empty done;
    all_nest = tt;
  }
  | parts x empty mark ↦ elim (Option-cases (split [] [] cs)) [
    | inl s ↦ cc (rw (split, x, s) at e)
    | inr (fs, s) ↦
        let p = split-Parts [] [] cs s in
        record {
          piece = [];
          later = fs;
          rest = p.rest;
          is_fields = cc (rw (split, x, s) at e, append-nil field);
          is_text = rw (p.is_fields, mark, ← p.is_text);
          nests = rw empty done;
          all_nest = rw p.is_fields (p.nests, p.all_nest);
        }
  ]
  | keeps next x nests ↦
      let p = split-Parts next (field ++ (c ∷ [])) cs (rw (split, x) at e) in
      record {
        piece = c ∷ p.piece;
        later = p.later;
        rest = p.rest;
        is_fields = p.is_fields ∙ ap (λ f. f ∷ p.later) (append_assoc field (c ∷ []) p.piece);
        is_text = ap (λ r. c ∷ r) p.is_text ∙ sym (joined-cons c p.piece p.later p.rest);
        nests = nests p.piece p.nests;
        all_nest = p.all_nest;
      }
]

split-joined :
    (fs : List Text) (f rest : Text)
    → Nests [] f
    → All (Nests []) fs
    → split [] [] (joined (f ∷ fs) rest) ≡ some (f ∷ fs)
unfolding split
split-joined [] f rest n all = split-Nests [] (b'}' ∷ rest) n
split-joined (g ∷ fs) f rest n all =
    split-Nests [] (b',' ∷ joined (g ∷ fs) rest) n
    ∙ rw (split, effect, split-joined fs g rest all.0 all.1)

as_joined :
    {t f : Text} {fs : List Text} (piece : Text) (later : List Text) (rest : Text)
    → f ∷ fs ≡ piece ∷ later
    → t ≡ joined (piece ∷ later) rest
    → All (Nests []) (piece ∷ later)
    → ((rest : Text) × (t ≡ joined (f ∷ fs) rest)) × All (Nests []) (f ∷ fs)
as_joined {t} piece later rest e text nests = (
  (rest, subst (λ fields. t ≡ joined fields rest) (sym e) text),
  subst (λ fields. All (Nests []) fields) (sym e) nests,
)

-- A constructor's text is split into exactly these fields when it begins with them, separated by
-- commas and ended by a brace, and each has matching brackets and no comma outside them.
pub split_constructor_fields_iff :
    (t : Text) (f : Text) (fs : List Text)
    → (split_constructor_fields t ≡ some (f ∷ fs))
      ↔ (((rest : Text) × (t ≡ joined (f ∷ fs) rest)) × All (Nests []) (f ∷ fs))
unfolding split_constructor_fields
split_constructor_fields_iff t f fs = (
  λ e.
      let p = split-Parts [] [] t e in
      as_joined p.piece p.later p.rest p.is_fields p.is_text (p.nests, p.all_nest),
  λ ((rest, e), nests). rw e (split-joined fs f rest nests.0 nests.1),
)
