-- ===== src/Inventory/Counts/Balance.antt =====
-- The figures of the summary of scripts/diagnostic_span_inventory.py add up.
use elisa_lsp.Base.{
  ℕ, suc, ◌+◌, ◌≤◌, Bool, true, false, not, ◌&&◌, List, [], ◌∷◌, map, length, length-append, All,
  ◌≡◌, refl, sym, arith, ap, inl, inr, Bool-cases,
}
use elisa_lsp.Base.Sort.{sort, insert, text_lt}
use elisa_lsp.Base.Text.{Text, equal, equal_iff, contains}
use elisa_lsp.Inventory.Scan.{Site}
use elisa_lsp.Inventory.{
  Entry, Tally, counted, set_entry, add_record, add_records, count_if, is_positive, has_items,
  Diagnostic, diagnostic_of,
}
use elisa_lsp.Inventory.Counts.{keep, of_kind, is_known, stats_known, stats_unknown}
use elisa_lsp.Markers.Distinct.{is_nodup}

-- The sum of a figure over a list.
unfoldable pub total {ℓ} : {A : Type ℓ} → (A → ℕ) → List A → ℕ
total f [] = 0
total f (x ∷ xs) = f x + total f xs

count_if_le {ℓ} : {A : Type ℓ} (test : A → Bool) (xs : List A) → count_if test xs ≤ length xs
unfolding count_if
count_if_le test [] = omega arith
count_if_le test (x ∷ xs) = ground (arith, count_if_le test xs)

pub count_if-not {ℓ} :
    {A : Type ℓ} (test : A → Bool) (xs : List A)
    → count_if test xs + count_if (λ x. not (test x)) xs ≡ length xs
unfolding count_if
count_if-not test [] = omega arith
count_if-not test (x ∷ xs) = ground (arith, count_if-not test xs)

pub length-keep {ℓ} :
    {A : Type ℓ} (test : A → Bool) (xs : List A) → length (keep test xs) ≡ count_if test xs
unfolding count_if keep
length-keep test [] = refl
length-keep test (x ∷ xs) = ground (arith, length-keep test xs)

total-insert {ℓ} :
    {A : Type ℓ} (lt : A → A → Bool) (f : A → ℕ) (x : A) (xs : List A)
    → total f (insert lt x xs) ≡ f x + total f xs
unfolding total insert
total-insert lt f x [] = refl
total-insert lt f x (y ∷ ys) = ground (arith, total-insert lt f x ys)

pub total-sort {ℓ} :
    {A : Type ℓ} (lt : A → A → Bool) (f : A → ℕ) (xs : List A) → total f (sort lt xs) ≡ total f xs
unfolding total sort
total-sort lt f [] = refl
total-sort lt f (x ∷ xs) = omega (arith, total-insert lt f x (sort lt xs), total-sort lt f xs)

-- A record of a listed kind is counted at one kind of the list.
count_if-or :
    (k : Text) (ks : List Text) (rs : List Site)
    → contains ks k ≡ false
    → count_if (of_kind k) rs + count_if (is_known ks) rs ≡ count_if (is_known (k ∷ ks)) rs
unfolding count_if contains
count_if-or k ks [] h = omega arith
count_if-or k ks (s ∷ rs) h = elim (Bool-cases (equal s.kind k)) [
  | inl e ↦
      let other : contains ks s.kind ≡ false =
        cc (ap (contains ks) ((equal_iff s.kind k).0 e), h) in
      rw (e, other) (omega (arith, count_if-or k ks rs h))
  | inr e ↦ ground (arith, count_if-or k ks rs h)
]

count_if-nothing : (rs : List Site) → count_if (is_known []) rs ≡ 0
unfolding count_if contains
count_if-nothing [] = refl
count_if-nothing (s ∷ rs) = count_if-nothing rs

pub total-count_if :
    (ks : List Text) (rs : List Site)
    → is_nodup ks ≡ true
    → total (λ k. count_if (of_kind k) rs) ks ≡ count_if (is_known ks) rs
unfolding total is_nodup
total-count_if [] rs h = sym (count_if-nothing rs)
total-count_if (k ∷ ks) rs h =
    let fresh : contains ks k ≡ false = ground arith in
    let rest : is_nodup ks ≡ true = ground arith in
    omega (arith, total-count_if ks rs rest, count_if-or k ks rs fresh)

-- Every site of a kind is explicit or listed as a default one.
abbrev pub IsEven : Entry → Type 0
IsEven e = e.construction_sites ≡ e.explicit_position_sites + length e.default_position_sites

counted-IsEven : (s : Site) (e : Entry) → IsEven e → IsEven (counted s e)
unfolding counted
counted-IsEven s e h = ground (arith, length-append e.default_position_sites (s.site ∷ []))

add_record-IsEven :
    (variants : List Text) (t : Tally) (s : Site)
    → ((k : Text) → IsEven (t.stats k))
    → (k : Text) → IsEven ((add_record variants t s).stats k)
add_record-IsEven variants t s h k = elim (Bool-cases (is_known variants s)) [
  | inl e ↦ rw (stats_known variants t s e) (
      unfold set_entry in
      elim (Bool-cases (equal s.kind k)) [
        | inl same ↦ rw same (counted-IsEven s (t.stats s.kind) (h s.kind))
        | inr other ↦ rw other (h k)
      ])
  | inr e ↦ rw (stats_unknown variants t s e) (h k)
]

pub add_records-IsEven :
    (variants : List Text) (t : Tally) (rs : List Site)
    → ((k : Text) → IsEven (t.stats k))
    → (k : Text) → IsEven ((add_records variants t rs).stats k)
unfolding add_records
add_records-IsEven variants t [] h k = h k
add_records-IsEven variants t (s ∷ rs) h k =
    add_records-IsEven variants (add_record variants t s) rs (add_record-IsEven variants t s h) k

length-insert {ℓ} :
    {A : Type ℓ} (lt : A → A → Bool) (x : A) (xs : List A)
    → length (insert lt x xs) ≡ suc (length xs)
unfolding insert
length-insert lt x [] = refl
length-insert lt x (y ∷ ys) = ground (arith, length-insert lt x ys)

length-sort {ℓ} : {A : Type ℓ} (lt : A → A → Bool) (xs : List A) → length (sort lt xs) ≡ length xs
unfolding sort
length-sort lt [] = refl
length-sort lt (x ∷ xs) = omega (arith, length-insert lt x (sort lt xs), length-sort lt xs)

abbrev pub EvenDiagnostic : Diagnostic → Type 0
EvenDiagnostic d =
    d.construction_sites ≡ d.explicit_position_sites + length d.default_position_sites

diagnostic_of-Even :
    (stats : Text → Entry) (k : Text) → IsEven (stats k) → EvenDiagnostic (diagnostic_of stats k)
unfolding diagnostic_of
diagnostic_of-Even stats k h = omega (arith, length-sort text_lt (stats k).default_position_sites)

pub map-Even :
    (stats : Text → Entry) (ks : List Text)
    → ((k : Text) → IsEven (stats k))
    → All EvenDiagnostic (map (diagnostic_of stats) ks)
map-Even stats [] h = tt
map-Even stats (k ∷ ks) h = (diagnostic_of-Even stats k (h k), map-Even stats ks h)

has_items-length {ℓ} : {A : Type ℓ} (xs : List A) → has_items xs ≡ is_positive (length xs)
has_items-length [] = refl
has_items-length (x ∷ xs) = ground arith

pub kinds_split :
    (ds : List Diagnostic)
    → All EvenDiagnostic ds
    → count_if (λ d. is_positive d.construction_sites) ds
      ≡ count_if
          (λ d. is_positive d.construction_sites && not (has_items d.default_position_sites))
          ds
        + count_if (λ d. has_items d.default_position_sites) ds
unfolding count_if
kinds_split [] h = refl
kinds_split (d ∷ ds) h =
    ground (arith, kinds_split ds h.1, has_items-length d.default_position_sites)
