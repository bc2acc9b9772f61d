-- ===== src/Hashes/GoBuild/Version.antt =====
-- The Go version in a line of `go version -m`: what `re.search` with `:\s+(go\d+(?:\.\d+)*...)\s*$` finds,
-- described by the grammar of the pattern.
use mathlib.Core.List.{append_assoc}
use elisa_lsp.Base.{
  ℕ, Bool, true, false, none, some, [], ◌∷◌, ◌++◌, ◌==◌, ◌≡◌, ◌↔◌, ◌⊎◌, refl, sym, ap, ◌∙◌, inl,
  inr, arith, All, Bool-cases,
}
use elisa_lsp.Base.Text.{Text, codes, is_space}
use elisa_lsp.Hashes.GoBuild.{
  Place, in_number, behind_dot, in_suffix, is_suffix_char, is_all_space, next_place,
}

abbrev pub Spaces : Text → Type 0
Spaces = All (λ c. is_space c ≡ true)

-- `[A-Za-z0-9.+-]*`
abbrev pub Suffix : Text → Type 0
Suffix = All (λ c. is_suffix_char c ≡ true)

pub suffix_char-not_space : (c : ℕ) → is_suffix_char c ≡ true → is_space c ≡ false
unfolding is_space
suffix_char-not_space c h = ground arith

pub all_space_iff : (t : Text) → (is_all_space t ≡ true) ↔ Spaces t
all_space_iff [] = (λ h. tt, λ s. refl)
all_space_iff (c ∷ cs) =
    (λ h. ground (arith, (all_space_iff cs).0), λ (s, ss). rw s ((all_space_iff cs).1 ss))

module _ (is_decimal : ℕ → Bool) where
  -- `\d*`
  abbrev pub Digits : Text → Type 0
  Digits = All (λ c. is_decimal c ≡ true)

  -- `(?:\.\d+)*`
  pub data Groups : Text → Type 0 where
    no_group : Groups []
    group :
        {t : Text} (d : ℕ) (ds more : Text)
        → t ≡ b'.' ∷ d ∷ (ds ++ more)
        → is_decimal d ≡ true
        → Digits ds
        → Groups more
        → Groups t

  -- `\d*(?:\.\d+)*[A-Za-z0-9.+-]*`
  pub record IsTail (t : Text) : Type 0 where
    pub digits : Text
    pub groups : Text
    pub suffix : Text
    pub reads : t ≡ digits ++ (groups ++ suffix)
    pub are_digits : Digits digits
    pub are_groups : Groups groups
    pub is_suffix : Suffix suffix

  -- "go", a digit, and what may stand behind it.
  pub record IsVersion (version : Text) : Type 0 where
    pub digit : ℕ
    pub tail : Text
    pub reads : version ≡ codes "go" ++ (digit ∷ tail)
    pub is_digit : is_decimal digit ≡ true
    pub is_tail : IsTail tail

  -- Behind the colon: at least one space, the version, and spaces to the end.
  pub record Header (version text : Text) : Type 0 where
    pub space : ℕ
    pub spaces : Text
    pub trailing : Text
    pub reads : text ≡ space ∷ (spaces ++ (version ++ trailing))
    pub is_first : is_space space ≡ true
    pub are_spaces : Spaces spaces
    pub is_version : IsVersion version
    pub are_trailing : Spaces trailing

  -- The version behind the first colon that a header follows.
  pub data VersionIn (version : Text) : Text → Type 0 where
    here : {c : ℕ} {t : Text} → c ≡ b':' → Header version t → VersionIn version (c ∷ t)
    later :
        {c : ℕ} {t : Text}
        → (c ≡ b':' → (other : Text) → ¬ Header other t)
        → VersionIn version t
        → VersionIn version (c ∷ t)

  unfoldable pub accepts : Place → Text → Bool
  accepts place [] = true
  accepts place (c ∷ cs) = elim (next_place is_decimal place c) [
    | none ↦ false
    | some next ↦ accepts next cs
  ]

  accepts-suffix : (place : Place) (t : Text) → Suffix t → accepts place t ≡ true
  unfolding accepts next_place
  accepts-suffix place [] s = refl
  accepts-suffix in_number (c ∷ cs) (s, ss) = ground (
    arith,
    accepts-suffix in_number cs ss,
    accepts-suffix behind_dot cs ss,
    accepts-suffix in_suffix cs ss,
  )
  accepts-suffix behind_dot (c ∷ cs) (s, ss) =
      ground (arith, accepts-suffix in_number cs ss, accepts-suffix in_suffix cs ss)
  accepts-suffix in_suffix (c ∷ cs) (s, ss) = ground (arith, accepts-suffix in_suffix cs ss)

  suffix-accepts : (t : Text) → accepts in_suffix t ≡ true → Suffix t
  unfolding accepts next_place
  suffix-accepts [] h = tt
  suffix-accepts (c ∷ cs) h = elim (Bool-cases (is_suffix_char c)) [
    | inl e ↦ (e, suffix-accepts cs (rw (accepts, e) at h))
    | inr e ↦ absurd (cc (rw (accepts, e) at h))
  ]

  pub accepts-next :
      (place next : Place) (c : ℕ) (cs : Text)
      → next_place is_decimal place c ≡ some next
      → accepts place (c ∷ cs) ≡ accepts next cs
  unfolding accepts
  accepts-next place next c cs e = rw (accepts, e)

  digit_next : (c : ℕ) → is_decimal c ≡ true → next_place is_decimal in_number c ≡ some in_number
  unfolding next_place
  digit_next c k = rw k

  accepts-Digits :
      (ds rest : Text) → Digits ds → accepts in_number (ds ++ rest) ≡ accepts in_number rest
  accepts-Digits [] rest k = refl
  accepts-Digits (d ∷ ds) rest (k, ks) =
      accepts-next in_number in_number d (ds ++ rest) (digit_next d k) ∙ accepts-Digits ds rest ks

  accepts-dot :
      (d : ℕ) (rest : Text)
      → is_decimal d ≡ true
      → accepts in_number (b'.' ∷ d ∷ rest) ≡ accepts in_number rest
  unfolding accepts next_place
  accepts-dot d rest k = ground arith

  accepts-Groups :
      (gs suffix : Text) → Groups gs → Suffix suffix → accepts in_number (gs ++ suffix) ≡ true
  accepts-Groups gs suffix no_group s = accepts-suffix in_number suffix s
  accepts-Groups gs suffix (group d ds more e k ks g) s =
      ap (λ (t : Text). accepts in_number (t ++ suffix)) e
      ∙ (accepts-dot d ((ds ++ more) ++ suffix) k
          ∙ (ap (accepts in_number) (append_assoc ds more suffix)
              ∙ (accepts-Digits ds (more ++ suffix) ks ∙ accepts-Groups more suffix g s)))

  pub accepts-IsTail : (t : Text) → IsTail t → accepts in_number t ≡ true
  accepts-IsTail t k =
      ap (accepts in_number) k.reads
      ∙ (accepts-Digits k.digits (k.groups ++ k.suffix) k.are_digits
          ∙ accepts-Groups k.groups k.suffix k.are_groups k.is_suffix)

  IsTail-suffix : (t : Text) → Suffix t → IsTail t
  IsTail-suffix t s = record {
    digits = [];
    groups = [];
    suffix = t;
    reads = refl;
    are_digits = tt;
    are_groups = no_group;
    is_suffix = s;
  }

  IsTail-digit : (c : ℕ) (t : Text) → is_decimal c ≡ true → IsTail t → IsTail (c ∷ t)
  IsTail-digit c t k i = record {
    digits = c ∷ i.digits;
    groups = i.groups;
    suffix = i.suffix;
    reads = ap (λ (u : Text). c ∷ u) i.reads;
    are_digits = (k, i.are_digits);
    are_groups = i.are_groups;
    is_suffix = i.is_suffix;
  }

  IsTail-dot : (c : ℕ) (t : Text) → is_decimal c ≡ true → IsTail t → IsTail (b'.' ∷ c ∷ t)
  IsTail-dot c t k i = record {
    digits = [];
    groups = b'.' ∷ c ∷ (i.digits ++ i.groups);
    suffix = i.suffix;
    reads =
        ap (λ (u : Text). b'.' ∷ c ∷ u) (i.reads ∙ sym (append_assoc i.digits i.groups i.suffix));
    are_digits = tt;
    are_groups = group c i.digits i.groups refl k i.are_digits i.are_groups;
    is_suffix = i.is_suffix;
  }

  -- What the next place says of the character and of the rest, in a number and behind a dot.
  accepts_number-cases :
      (c : ℕ) (cs : Text)
      → accepts in_number (c ∷ cs) ≡ true
      → ((is_decimal c ≡ true) × (accepts in_number cs ≡ true))
        ⊎ (((c ≡ b'.') × (accepts behind_dot cs ≡ true))
            ⊎ ((is_suffix_char c ≡ true) × (accepts in_suffix cs ≡ true)))
  unfolding accepts next_place
  accepts_number-cases c cs h = elim (Bool-cases (is_decimal c)) [
    | inl e ↦ inl (e, rw (accepts, e) at h)
    | inr e ↦ elim (Bool-cases (c == b'.')) [
      | inl f ↦ inr (inl (ground arith, rw (accepts, e, f) at h))
      | inr f ↦ elim (Bool-cases (is_suffix_char c)) [
        | inl g ↦ inr (inr (g, rw (accepts, e, g, f) at h))
        | inr g ↦ absurd (cc (rw (accepts, e, g, f) at h))
      ]
    ]
  ]

  accepts_dot-cases :
      (c : ℕ) (cs : Text)
      → accepts behind_dot (c ∷ cs) ≡ true
      → ((is_decimal c ≡ true) × (accepts in_number cs ≡ true))
        ⊎ ((is_suffix_char c ≡ true) × (accepts in_suffix cs ≡ true))
  unfolding accepts next_place
  accepts_dot-cases c cs h = elim (Bool-cases (is_decimal c)) [
    | inl e ↦ inl (e, rw (accepts, e) at h)
    | inr e ↦ elim (Bool-cases (is_suffix_char c)) [
      | inl g ↦ inr (g, rw (accepts, e, g) at h)
      | inr g ↦ absurd (cc (rw (accepts, e, g) at h))
    ]
  ]

  pub IsTail-accepts :
      (t : Text)
      → (accepts in_number t ≡ true → IsTail t) × (accepts behind_dot t ≡ true → IsTail (b'.' ∷ t))
  IsTail-accepts [] = (λ h. IsTail-suffix [] tt, λ h. IsTail-suffix (b'.' ∷ []) (refl, tt))
  IsTail-accepts (c ∷ cs) = (
    λ h. elim (accepts_number-cases c cs h) [
      | inl (k, r) ↦ IsTail-digit c cs k ((IsTail-accepts cs).0 r)
      | inr (inl (e, r)) ↦ rw e ((IsTail-accepts cs).1 r)
      | inr (inr (s, r)) ↦ IsTail-suffix (c ∷ cs) (s, suffix-accepts cs r)
    ],
    λ h. elim (accepts_dot-cases c cs h) [
      | inl (k, r) ↦ IsTail-dot c cs k ((IsTail-accepts cs).0 r)
      | inr (s, r) ↦ IsTail-suffix (b'.' ∷ c ∷ cs) (refl, (s, suffix-accepts cs r))
    ],
  )
