-- ===== src/Hashes/GoBuild/Deciding.antt =====
-- Which line decides a field that each line of `go version -m` may state: the loop of
-- `parse_go_build_info` of scripts/build_hashes.py keeps the first or the last.
use elisa_lsp.Base.{
  Option, none, some, List, [], ◌∷◌, ◌++◌, ◌≡◌, ◌↔◌, refl, ap, ◌∙◌, inl, inr, All, Option-cases,
}
use elisa_lsp.Base.Tables.{or_before}
use elisa_lsp.Base.Text.{Text}

module _ {A : Type 0} (P : A → Text → Type 0) where
  -- No line states anything.
  abbrev pub Silent : List Text → Type 0
  Silent = All (λ line. (a : A) → ¬ P a line)

  -- A line states the value, and no line behind it states any.
  pub record Last (lines : List Text) (a : A) : Type 0 where
    pub before : List Text
    pub line : Text
    pub later : List Text
    pub is_split : lines ≡ before ++ (line ∷ later)
    pub states : P a line
    pub none_later : Silent later

  -- A line states the value, and no line before it states any.
  pub record First (lines : List Text) (a : A) : Type 0 where
    pub before : List Text
    pub line : Text
    pub later : List Text
    pub is_split : lines ≡ before ++ (line ∷ later)
    pub states : P a line
    pub none_before : Silent before

module _ {A : Type 0} (f : Text → Option A) where
  abbrev pub last_of : List Text → Option A
  last_of [] = none
  last_of (line ∷ lines) = or_before (last_of lines) (f line)

  abbrev pub first_of : List Text → Option A
  first_of [] = none
  first_of (line ∷ lines) = or_before (f line) (first_of lines)

-- A function that reads off each line what it states.
module _ {A : Type 0} (f : Text → Option A) (P : A → Text → Type 0)
    (exact : (a : A) (line : Text) → (f line ≡ some a) ↔ P a line) where
  silent_line : (line : Text) → f line ≡ none → (a : A) → ¬ P a line
  silent_line line e a p = let e' = (exact a line).1 p in cc

  line_silent : (line : Text) → ((a : A) → ¬ P a line) → f line ≡ none
  line_silent line k = elim (Option-cases (f line)) [
    | inl e ↦ e
    | inr (a, e) ↦ absurd (k a ((exact a line).0 e))
  ]

  last_of-Silent : (lines : List Text) → last_of f lines ≡ none → Silent P lines
  last_of-Silent [] h = tt
  last_of-Silent (line ∷ lines) h = elim (Option-cases (last_of f lines)) [
    | inl e ↦ let h' : f line ≡ none = rw e at h in (silent_line line h', last_of-Silent lines e)
    | inr (a, e) ↦ let h' : some a ≡ none = rw e at h in absurd (cc h')
  ]

  Silent-last_of : (lines : List Text) → Silent P lines → last_of f lines ≡ none
  Silent-last_of [] k = refl
  Silent-last_of (line ∷ lines) (k, ks) = rw (Silent-last_of lines ks) (line_silent line k)

  last_of-Last : (lines : List Text) (a : A) → last_of f lines ≡ some a → Last P lines a
  last_of-Last [] a h = cc
  last_of-Last (line ∷ lines) a h = elim (Option-cases (last_of f lines)) [
    | inl e ↦
        let h' : f line ≡ some a = rw e at h in
        record {
          before = [];
          line = line;
          later = lines;
          is_split = refl;
          states = (exact a line).0 h';
          none_later = last_of-Silent lines e;
        }
    | inr (b, e) ↦
        let h' : some b ≡ some a = rw e at h in
        let l = last_of-Last lines a (e ∙ h') in
        record {
          before = line ∷ l.before;
          line = l.line;
          later = l.later;
          is_split = ap (λ (ls : List Text). line ∷ ls) l.is_split;
          states = l.states;
          none_later = l.none_later;
        }
  ]

  last_of-append :
      (before later : List Text) (line : Text) (a : A)
      → P a line
      → Silent P later
      → last_of f (before ++ (line ∷ later)) ≡ some a
  last_of-append [] later line a p k = rw (Silent-last_of later k) ((exact a line).1 p)
  last_of-append (x ∷ before) later line a p k = rw (last_of-append before later line a p k)

  -- The last that the lines give is what the last line states that states anything.
  pub last_of_iff : (lines : List Text) (a : A) → (last_of f lines ≡ some a) ↔ Last P lines a
  last_of_iff lines a = (
    last_of-Last lines a,
    λ l. ap (last_of f) l.is_split ∙ last_of-append l.before l.later l.line a l.states l.none_later,
  )

  first_of-First : (lines : List Text) (a : A) → first_of f lines ≡ some a → First P lines a
  first_of-First [] a h = cc
  first_of-First (line ∷ lines) a h = elim (Option-cases (f line)) [
    | inr (b, e) ↦
        let h' : some b ≡ some a = rw e at h in
        record {
          before = [];
          line = line;
          later = lines;
          is_split = refl;
          states = (exact a line).0 (e ∙ h');
          none_before = tt;
        }
    | inl e ↦
        let h' : first_of f lines ≡ some a = rw e at h in
        let l = first_of-First lines a h' in
        record {
          before = line ∷ l.before;
          line = l.line;
          later = l.later;
          is_split = ap (λ (ls : List Text). line ∷ ls) l.is_split;
          states = l.states;
          none_before = (silent_line line e, l.none_before);
        }
  ]

  first_of-append :
      (before later : List Text) (line : Text) (a : A)
      → P a line
      → Silent P before
      → first_of f (before ++ (line ∷ later)) ≡ some a
  first_of-append [] later line a p k = rw ((exact a line).1 p)
  first_of-append (x ∷ before) later line a p (k, ks) =
      rw (line_silent x k) (first_of-append before later line a p ks)

  -- The first that the lines give is what the first line states that states anything.
  pub first_of_iff : (lines : List Text) (a : A) → (first_of f lines ≡ some a) ↔ First P lines a
  first_of_iff lines a = (
    first_of-First lines a,
    λ l.
        ap (first_of f) l.is_split
        ∙ first_of-append l.before l.later l.line a l.states l.none_before,
  )
