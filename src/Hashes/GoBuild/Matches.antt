-- ===== src/Hashes/GoBuild/Matches.antt =====
-- The version at the beginning of a text, as `re` matches it, against the grammar of the pattern.
use elisa_lsp.Base.{
  ℕ, Bool, true, false, if◌then◌else◌, none, some, [], ◌∷◌, ◌++◌, ◌≡◌, refl, sym, ap, ◌∙◌, inl, inr,
  arith, Bool-cases, Option-cases,
}
use elisa_lsp.Base.Patterns.{after}
use elisa_lsp.Base.Text.{Text, codes, is_space}
use elisa_lsp.Hashes.GoBuild.{
  Place, in_number, behind_dot, in_suffix, is_suffix_char, is_all_space, with_char, next_place,
  version_rest, version_at,
}
use elisa_lsp.Hashes.GoBuild.Version.{
  Spaces, suffix_char-not_space, all_space_iff, accepts, accepts-next, accepts-IsTail,
  IsTail-accepts, IsVersion,
}

after_go : (t rest : Text) → after (codes "go") t ≡ some rest → t ≡ codes "go" ++ rest
unfolding after
after_go [] rest h = cc
after_go (x ∷ []) rest h = ground arith
after_go (x ∷ y ∷ t) rest h = ground arith

space_next_place :
    (is_decimal : ℕ → Bool) (place : Place) (c : ℕ)
    → is_decimal c ≡ false
    → is_suffix_char c ≡ false
    → next_place is_decimal place c ≡ none
unfolding next_place
space_next_place is_decimal in_number c e g = ground arith
space_next_place is_decimal behind_dot c e g = rw (e, g)
space_next_place is_decimal in_suffix c e g = rw g

module _ (is_decimal : ℕ → Bool) (digits : (c : ℕ) → is_decimal c ≡ true → is_space c ≡ false) where
  space_next : (place : Place) (c : ℕ) → is_space c ≡ true → next_place is_decimal place c ≡ none
  unfolding next_place
  space_next place c h =
      let no_suffix : is_suffix_char c ≡ false = elim (Bool-cases (is_suffix_char c)) [
        | inl e ↦ cc (suffix_char-not_space c e, h)
        | inr e ↦ e
      ] in
      let no_digit : is_decimal c ≡ false = elim (Bool-cases (is_decimal c)) [
        | inl e ↦ cc (digits c e, h)
        | inr e ↦ e
      ] in
      space_next_place is_decimal place c no_digit no_suffix

  version_rest_sound :
      (place : Place) (text tail : Text)
      → version_rest is_decimal place text ≡ some tail
      → (trailing : Text) × (text ≡ tail ++ trailing)
        × (accepts is_decimal place tail ≡ true)
        × Spaces trailing
  unfolding version_rest accepts
  version_rest_sound place [] [] h = ([], refl, refl, tt)
  version_rest_sound place [] (x ∷ xs) h = absurd (cc h)
  version_rest_sound place (c ∷ cs) tail h = elim (Option-cases (next_place is_decimal place c)) [
    | inl e ↦
        let h' : (if is_all_space (c ∷ cs) then some [] else none) ≡ some tail =
          rw (version_rest, e) at h in
        elim (Bool-cases (is_all_space (c ∷ cs))) [
          | inl s ↦
              let h'' : some [] ≡ some tail = rw s at h' in
              let same : [] ≡ tail = cc h'' in
              (c ∷ cs, rw (← same) refl, rw (← same) refl, (all_space_iff (c ∷ cs)).0 s)
          | inr s ↦ let h'' : none ≡ some tail = rw s at h' in absurd (cc h'')
        ]
    | inr (next, e) ↦
        let h' : with_char c (version_rest is_decimal next cs) ≡ some tail =
          rw (version_rest, e) at h in
        elim (Option-cases (version_rest is_decimal next cs)) [
          | inl f ↦ let h'' : none ≡ some tail = rw f at h' in absurd (cc h'')
          | inr (more, f) ↦
              let h'' : some (c ∷ more) ≡ some tail = rw f at h' in
              let same : c ∷ more ≡ tail = cc h'' in
              let (trailing, reads, k, s) = version_rest_sound next cs more f in
              (
                trailing,
                ap (λ (u : Text). c ∷ u) reads ∙ ap (λ (u : Text). u ++ trailing) same,
                rw (← same) (accepts-next is_decimal place next c more e ∙ k),
                s,
              )
        ]
  ]

  version_rest_complete :
      (place : Place) (tail trailing : Text)
      → accepts is_decimal place tail ≡ true
      → Spaces trailing
      → version_rest is_decimal place (tail ++ trailing) ≡ some tail
  unfolding version_rest accepts
  version_rest_complete place [] [] k s = refl
  version_rest_complete place [] (c ∷ cs) k s =
      rw (version_rest, space_next place c s.0, (all_space_iff (c ∷ cs)).1 s)
  version_rest_complete place (c ∷ cs) trailing k s =
      elim (Option-cases (next_place is_decimal place c)) [
        | inl e ↦ absurd (cc (rw (accepts, e) at k))
        | inr (next, e) ↦
            let k' : accepts is_decimal next cs ≡ true = rw (accepts, e) at k in
            rw (version_rest, e, version_rest_complete next cs trailing k' s)
      ]

  version_at-behind :
      (t rest version : Text)
      → after (codes "go") t ≡ some rest
      → version_at is_decimal t ≡ some version
      → (trailing : Text) × (t ≡ version ++ trailing)
        × IsVersion is_decimal version
        × Spaces trailing
  unfolding version_at
  version_at-behind t [] version e h = absurd (cc (rw (version_at, e) at h))
  version_at-behind t (c ∷ cs) version e h = elim (Bool-cases (is_decimal c)) [
    | inr k ↦ absurd (cc (rw (version_at, e, k) at h))
    | inl k ↦ elim (Option-cases (version_rest is_decimal in_number cs)) [
      | inl f ↦ absurd (cc (rw (version_at, e, k, f) at h))
      | inr (tail, f) ↦
          let h' : some (codes "go" ++ (c ∷ tail)) ≡ some version = rw (version_at, e, k, f) at h in
          let same : codes "go" ++ (c ∷ tail) ≡ version = cc h' in
          let (trailing, reads, accepted, s) = version_rest_sound in_number cs tail f in
          (
            trailing,
            after_go t (c ∷ cs) e
                ∙ (ap (λ (u : Text). codes "go" ++ (c ∷ u)) reads
                    ∙ ap (λ (u : Text). u ++ trailing) same),
            record {
              digit = c;
              tail = tail;
              reads = sym same;
              is_digit = k;
              is_tail = (IsTail-accepts is_decimal tail).0 accepted;
            },
            s,
          )
    ]
  ]

  pub version_at_complete :
      (version trailing : Text)
      → IsVersion is_decimal version
      → Spaces trailing
      → version_at is_decimal (version ++ trailing) ≡ some version
  unfolding version_at after
  version_at_complete version trailing i s =
      let rest =
        version_rest_complete in_number i.tail trailing (accepts-IsTail is_decimal i.tail i.is_tail)
          s in
      let found : version_at is_decimal ((codes "go" ++ (i.digit ∷ i.tail)) ++ trailing)
          ≡ some (codes "go" ++ (i.digit ∷ i.tail)) =
        rw (version_at, i.is_digit, rest) in
      rw i.reads found

  pub version_at_sound :
      (t version : Text)
      → version_at is_decimal t ≡ some version
      → (trailing : Text) × (t ≡ version ++ trailing)
        × IsVersion is_decimal version
        × Spaces trailing
  unfolding version_at
  version_at_sound t version h = elim (Option-cases (after (codes "go") t)) [
    | inl e ↦ absurd (cc (rw (version_at, e) at h))
    | inr (rest, e) ↦ version_at-behind t rest version e h
  ]
