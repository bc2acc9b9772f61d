-- ===== src/Hashes/GoBuild/Search.antt =====
-- `re.search` of `parse_go_build_info` of scripts/build_hashes.py, against the grammar of its pattern.
use mathlib.Core.Path.{subst}
use elisa_lsp.Base.{
  ℕ, Bool, true, false, some, [], ◌∷◌, ◌++◌, ◌==◌, ◌≡◌, ◌↔◌, ◌⊎◌, refl, sym, ap, ◌∙◌, inl, inr,
  arith, All, Bool-cases, Option-cases,
}
use elisa_lsp.Base.Patterns.{span}
use elisa_lsp.Base.Text.{Text, is_space}
use elisa_lsp.Hashes.GoBuild.{version_at, go_version_of}
use elisa_lsp.Hashes.GoBuild.Matches.{version_at_sound, version_at_complete}
use elisa_lsp.Hashes.GoBuild.Version.{Spaces, Header, VersionIn, here, later}

span-append : (test : ℕ → Bool) (t : Text) → t ≡ (span test t).0 ++ (span test t).1
unfolding span
span-append test [] = refl
span-append test (c ∷ cs) = elim (Bool-cases (test c)) [
  | inl e ↦ rw (span, e) (ap (λ (u : Text). c ∷ u) (span-append test cs))
  | inr e ↦ rw (span, e)
]

span-All : (test : ℕ → Bool) (t : Text) → All (λ c. test c ≡ true) (span test t).0
unfolding span
span-All test [] = tt
span-All test (c ∷ cs) = elim (Bool-cases (test c)) [
  | inl e ↦ rw (span, e) (e, span-All test cs)
  | inr e ↦ rw (span, e) tt
]

span_complete :
    (test : ℕ → Bool) (run : Text) (c : ℕ) (rest : Text)
    → All (λ d. test d ≡ true) run
    → test c ≡ false
    → span test (run ++ (c ∷ rest)) ≡ (run, c ∷ rest)
unfolding span
span_complete test [] c rest k e = rw e
span_complete test (d ∷ run) c rest (k, ks) e = rw (span_complete test run c rest ks e, k)

Text-cases : (t : Text) → (t ≡ []) ⊎ ((c : ℕ) × (cs : Text) × (t ≡ c ∷ cs))
Text-cases [] = inl refl
Text-cases (c ∷ cs) = inr (c, cs, refl)

-- The version begins with no space.
g_lem : is_space b'g' ≡ false
unfolding is_space
g_lem = refl

module _ (is_decimal : ℕ → Bool) (digits : (c : ℕ) → is_decimal c ≡ true → is_space c ≡ false) where
  go_version_of-colon :
      (c space : ℕ) (cs spaces version : Text)
      → c ≡ b':'
      → (span is_space cs).0 ≡ space ∷ spaces
      → version_at is_decimal (span is_space cs).1 ≡ some version
      → go_version_of is_decimal (c ∷ cs) ≡ some version
  unfolding go_version_of
  go_version_of-colon c space cs spaces version e f h = rw (e, go_version_of, f, h)

  -- What the search finds behind a colon: the spaces, and the version that follows them.
  abbrev Found : Text → Text → Type 0
  Found cs version =
      (space : ℕ) × (spaces : Text) × ((span is_space cs).0 ≡ space ∷ spaces)
      × (version_at is_decimal (span is_space cs).1 ≡ some version)

  Found-Header : (cs version : Text) → Found cs version → Header is_decimal version cs
  Found-Header cs version (space, spaces, e, h) =
      let (trailing, reads, i, s) =
        version_at_sound is_decimal digits (span is_space cs).1 version h in
      let all : Spaces (space ∷ spaces) = subst Spaces e (span-All is_space cs) in
      record {
        space = space;
        spaces = spaces;
        trailing = trailing;
        reads =
            span-append is_space cs
            ∙ (ap (λ (u : Text). u ++ (span is_space cs).1) e
                ∙ ap (λ (u : Text). space ∷ (spaces ++ u)) reads);
        is_first = all.0;
        are_spaces = all.1;
        is_version = i;
        are_trailing = s;
      }

  Header-Found : (cs version : Text) → Header is_decimal version cs → Found cs version
  Header-Found cs version k =
      let rest : Text = b'o' ∷ ((k.is_version.digit ∷ k.is_version.tail) ++ k.trailing) in
      let begins : version ++ k.trailing ≡ b'g' ∷ rest =
        ap (λ (u : Text). u ++ k.trailing) k.is_version.reads in
      let cut : span is_space cs ≡ (k.space ∷ k.spaces, b'g' ∷ rest) =
        ap (span is_space) (k.reads ∙ ap (λ (u : Text). k.space ∷ (k.spaces ++ u)) begins)
        ∙ span_complete is_space (k.space ∷ k.spaces) b'g' rest (k.is_first, k.are_spaces) g_lem in
      (
        k.space,
        k.spaces,
        ap (λ (u : Text × Text). u.0) cut,
        ap (version_at is_decimal) (ap (λ (u : Text × Text). u.1) cut ∙ sym begins)
            ∙ version_at_complete is_decimal digits version k.trailing k.is_version k.are_trailing,
      )

  -- Where no header follows, the search goes on.
  go_version_of-passed :
      (c : ℕ) (cs : Text)
      → ((c ≡ b':') × ((version : Text) × Found cs version))
        ⊎ ((go_version_of is_decimal (c ∷ cs) ≡ go_version_of is_decimal cs)
            × (c ≡ b':' → (version : Text) → ¬ Found cs version))
  unfolding go_version_of
  go_version_of-passed c cs = elim (Bool-cases (c == b':')) [
    | inr e ↦ inr (rw (go_version_of, e), λ f version k. ground arith)
    | inl e ↦ elim (Text-cases (span is_space cs).0) [
      | inl f ↦ inr (rw (go_version_of, e, f), λ _ version k. cc (f, k.2))
      | inr (space, spaces, f) ↦ elim (Option-cases (version_at is_decimal (span is_space cs).1)) [
        | inl g ↦ inr (rw (go_version_of, e, f, g), λ _ version k. cc (g, k.3))
        | inr (version, g) ↦ inl (ground arith, (version, (space, spaces, f, g)))
      ]
    ]
  ]

  go_version_of-VersionIn :
      (line version : Text)
      → go_version_of is_decimal line ≡ some version
      → VersionIn is_decimal version line
  unfolding go_version_of
  go_version_of-VersionIn [] version h = absurd (cc h)
  go_version_of-VersionIn (c ∷ cs) version h = elim (go_version_of-passed c cs) [
    | inl (e, (found, (space, spaces, f, g))) ↦
        let found_same : some found ≡ some version =
          sym (go_version_of-colon c space cs spaces found e f g) ∙ h in
        let same : found ≡ version = cc found_same in
        here e (Found-Header cs version (space, spaces, f, g ∙ ap some same))
    | inr (passed, none_here) ↦
        later (λ e other k. none_here e other (Header-Found cs other k))
          (go_version_of-VersionIn cs version (sym passed ∙ h))
  ]

  VersionIn-go_version_of :
      (version : Text) {line : Text}
      → VersionIn is_decimal version line
      → go_version_of is_decimal line ≡ some version
  VersionIn-go_version_of version (here {c} {t} e k) =
      let found = Header-Found t version k in
      go_version_of-colon c found.0 t found.1 version e found.2 found.3
  VersionIn-go_version_of version (later {c} {t} none_here v) = elim (go_version_of-passed c t) [
    | inl (e, (found, k)) ↦ absurd (none_here e found (Found-Header t found k))
    | inr (passed, _) ↦ passed ∙ VersionIn-go_version_of version v
  ]

  -- The search finds a version exactly where the grammar has one, behind the first colon that fits.
  pub go_version_of_iff :
      (version line : Text)
      → (go_version_of is_decimal line ≡ some version) ↔ VersionIn is_decimal version line
  go_version_of_iff version line =
      (go_version_of-VersionIn line version, VersionIn-go_version_of version)
