-- ===== src/Markers/Distinct.antt =====
-- The loop that the collectors share: a line's candidate is appended unless it is there already.
use elisa_lsp.Base.{
  Bool, true, false, not, ◌&&◌, ◌||◌, Option, none, some, List, [], ◌∷◌, ◌++◌, ◌≡◌, refl, arith,
  if◌then◌else◌, inl, inr, Bool-cases,
}
use elisa_lsp.Base.Text.{Text, contains, equal, equal_iff}

unfoldable pub push_new : Option Text → List Text → List Text
push_new none kept = kept
push_new (some t) kept = if contains kept t then kept else kept ++ (t ∷ [])

unfoldable pub distinct_onto : (Text → Option Text) → List Text → List Text → List Text
unfolding push_new
distinct_onto f kept [] = kept
distinct_onto f kept (line ∷ rest) = distinct_onto f (push_new (f line) kept) rest

-- No text stands twice.
unfoldable pub is_nodup : List Text → Bool
is_nodup [] = true
is_nodup (x ∷ xs) = not (contains xs x) && is_nodup xs

-- Whether some line's candidate is `t`.
unfoldable pub yields : (Text → Option Text) → Text → List Text → Bool
yields f t [] = false
yields f t (line ∷ rest) = elim (f line) [ none ↦ false | some u ↦ equal t u ] || yields f t rest

contains-append :
    (t : Text) (xs ys : List Text) → contains (xs ++ ys) t ≡ (contains xs t || contains ys t)
unfolding contains
contains-append t [] ys = refl
contains-append t (x ∷ xs) ys = ground (arith, contains-append t xs ys)

contains-push_new :
    (t : Text) (o : Option Text) (kept : List Text)
    → contains (push_new o kept) t
      ≡ (contains kept t || elim o [ none ↦ false | some u ↦ equal t u ])
unfolding push_new
contains-push_new t none kept = ground arith
contains-push_new t (some u) kept = elim (Bool-cases (contains kept u)) [
  | inl old ↦ rw old (ground (arith, equal_iff t u))
  | inr new ↦ rw new (unfold contains in ground (arith, contains-append t kept (u ∷ [])))
]

pub contains-distinct_onto :
    (f : Text → Option Text) (t : Text) (kept lines : List Text)
    → contains (distinct_onto f kept lines) t ≡ (contains kept t || yields f t lines)
unfolding distinct_onto yields
contains-distinct_onto f t kept [] = ground arith
contains-distinct_onto f t kept (line ∷ rest) = ground (
  arith,
  contains-distinct_onto f t (push_new (f line) kept) rest,
  contains-push_new t (f line) kept,
)

is_nodup-concat :
    (kept : List Text) (t : Text)
    → is_nodup kept ≡ true
    → contains kept t ≡ false
    → is_nodup (kept ++ (t ∷ [])) ≡ true
unfolding is_nodup contains
is_nodup-concat [] t h n = refl
is_nodup-concat (x ∷ xs) t h n =
    ground
      (arith, is_nodup-concat xs t, contains-append x xs (t ∷ []), equal_iff t x, equal_iff x t)

is_nodup-push_new :
    (o : Option Text) (kept : List Text) → is_nodup kept ≡ true → is_nodup (push_new o kept) ≡ true
unfolding push_new
is_nodup-push_new none kept h = h
is_nodup-push_new (some t) kept h = elim (Bool-cases (contains kept t)) [
  | inl old ↦ rw old h
  | inr new ↦ rw new (is_nodup-concat kept t h new)
]

pub is_nodup-distinct_onto :
    (f : Text → Option Text) (kept lines : List Text)
    → is_nodup kept ≡ true
    → is_nodup (distinct_onto f kept lines) ≡ true
unfolding distinct_onto
is_nodup-distinct_onto f kept [] h = h
is_nodup-distinct_onto f kept (line ∷ rest) h =
    is_nodup-distinct_onto f (push_new (f line) kept) rest (is_nodup-push_new (f line) kept h)
