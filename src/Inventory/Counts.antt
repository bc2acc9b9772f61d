-- ===== src/Inventory/Counts.antt =====
-- What build_inventory of scripts/diagnostic_span_inventory.py counts.
pub mod Balance
pub mod Summed
use mathlib.Core.List.{append_assoc, append-nil}
use elisa_lsp.Base.{
  ℕ, zero, suc, ◌+◌, ◌-◌, Bool, true, false, not, ◌&&◌, ◌||◌, Option, none, some, List, [], ◌∷◌,
  ◌++◌, map, length, ◌≡◌, refl, sym, arith, ap, ◌∙◌, inl, inr, Bool-cases, if◌then◌else◌,
}
use elisa_lsp.Base.Text.{Text, equal, equal_iff, contains}
use elisa_lsp.Inventory.Scan.{Site}
use elisa_lsp.Inventory.{
  Entry, no_entry, Tally, no_records, counted, set_entry, add_record, add_records, count_if,
}

-- The items that pass the test, in order.
unfoldable pub keep {ℓ} : {A : Type ℓ} → (A → Bool) → List A → List A
keep test [] = []
keep test (x ∷ xs) = let rest = keep test xs in if test x then x ∷ rest else rest

abbrev pub of_kind : Text → Site → Bool
of_kind k s = equal s.kind k

abbrev pub is_explicit : Site → Bool
is_explicit s = s.explicit_position_argument

abbrev pub is_known : List Text → Site → Bool
is_known variants s = contains variants s.kind

stats_known :
    (variants : List Text) (t : Tally) (s : Site)
    → is_known variants s ≡ true
    → (add_record variants t s).stats ≡ set_entry s.kind (counted s (t.stats s.kind)) t.stats
unfolding add_record
stats_known variants t s h = rw h

stats_unknown :
    (variants : List Text) (t : Tally) (s : Site)
    → is_known variants s ≡ false
    → (add_record variants t s).stats ≡ t.stats
unfolding add_record
stats_unknown variants t s h = rw h

-- A record adds to the entry of its own kind.
add_record-stats :
    (variants : List Text) (k : Text) (t : Tally) (s : Site)
    → contains variants k ≡ true
    → (add_record variants t s).stats k ≡ (if of_kind k s then counted s (t.stats k) else t.stats k)
add_record-stats variants k t s h = elim (Bool-cases (of_kind k s)) [
  | inl e ↦
      let same : s.kind ≡ k = (equal_iff s.kind k).0 e in
      let known : is_known variants s ≡ true = cc (ap (contains variants) same, h) in
      ap (λ f. f k) (stats_known variants t s known)
      ∙ (unfold set_entry in rw e (ap (λ x. counted s (t.stats x)) same))
  | inr e ↦ elim (Bool-cases (is_known variants s)) [
    | inl known ↦ ap (λ f. f k) (stats_known variants t s known) ∙ (unfold set_entry in rw e)
    | inr other ↦ ap (λ f. f k) (stats_unknown variants t s other) ∙ rw e
  ]
]

-- The rest of a record's effect.
add_record-rest :
    (variants : List Text) (t : Tally) (s : Site)
    → ((add_record variants t s).unclassified
        ≡ (if not (is_known variants s) then t.unclassified ++ (s ∷ []) else t.unclassified))
      × ((add_record variants t s).explicit_position_sites
          ≡ (if is_explicit s then t.explicit_position_sites + 1 else t.explicit_position_sites))
unfolding add_record
add_record-rest variants t s = elim (Bool-cases (is_known variants s)) [
  | inl e ↦ (rw e, rw e)
  | inr e ↦ (rw e, rw e)
]

-- The kind's share of the records, on top of an entry.
abbrev pub share : Text → List Site → Entry → Entry
share k rs e = record {
  construction_sites = e.construction_sites + count_if (of_kind k) rs;
  explicit_position_sites =
      e.explicit_position_sites + count_if (λ s. of_kind k s && is_explicit s) rs;
  default_position_sites =
      e.default_position_sites
      ++ map (λ s. s.site) (keep (λ s. of_kind k s && not (is_explicit s)) rs);
}

entry_of :
    {m m' n n' : ℕ} {d d' : List Text}
    → m ≡ m'
    → n ≡ n'
    → d ≡ d'
    → ◌≡◌ {A = Entry}
        (record { construction_sites = m; explicit_position_sites = n; default_position_sites = d })
        (record {
          construction_sites = m';
          explicit_position_sites = n';
          default_position_sites = d';
        })
entry_of p q r = cc

share-cons :
    (k : Text) (s : Site) (rs : List Site) (e : Entry)
    → share k rs (if of_kind k s then counted s e else e) ≡ share k (s ∷ rs) e
unfolding count_if keep counted
share-cons k s rs e = elim (Bool-cases (of_kind k s)) [
  | inl h ↦ elim (Bool-cases (is_explicit s)) [
    | inl x ↦ rw (h, x) (entry_of (omega arith) (omega arith) refl)
    | inr x ↦
        rw (h, x)
          (entry_of (omega arith) refl (append_assoc e.default_position_sites (s.site ∷ []) _))
  ]
  | inr h ↦ rw h
]

add_records-stats :
    (variants : List Text) (k : Text) (t : Tally) (rs : List Site)
    → contains variants k ≡ true
    → (add_records variants t rs).stats k ≡ share k rs (t.stats k)
unfolding add_records count_if keep
add_records-stats variants k t [] h =
    entry_of (omega arith) (omega arith) (sym (append-nil (t.stats k).default_position_sites))
add_records-stats variants k t (s ∷ rs) h =
    add_records-stats variants k (add_record variants t s) rs h
    ∙ (ap (share k rs) (add_record-stats variants k t s h) ∙ share-cons k s rs (t.stats k))

add_records-rest :
    (variants : List Text) (t : Tally) (rs : List Site)
    → ((add_records variants t rs).unclassified
        ≡ t.unclassified ++ keep (λ s. not (is_known variants s)) rs)
      × ((add_records variants t rs).explicit_position_sites
          ≡ t.explicit_position_sites + count_if is_explicit rs)
unfolding add_records keep count_if
add_records-rest variants t [] = (sym (append-nil t.unclassified), omega arith)
add_records-rest variants t (s ∷ rs) =
    let (u, x) = add_records-rest variants (add_record variants t s) rs in
    let (v, y) = add_record-rest variants t s in
    (
      u
          ∙ (ap (λ l. l ++ keep (λ s. not (is_known variants s)) rs) v
              ∙ elim (Bool-cases (is_known variants s)) [
                | inl e ↦ rw e
                | inr e ↦ rw (e, append_assoc)
              ]),
      x
          ∙ (ap (λ n. n + count_if is_explicit rs) y
              ∙ elim (Bool-cases (is_explicit s)) [ inl e ↦ rw e (omega arith) | inr e ↦ rw e ]),
    )

pub add_records_all :
    (variants : List Text) (records : List Site)
    → ((k : Text)
        → contains variants k ≡ true
        → (add_records variants no_records records).stats k ≡ share k records no_entry)
      × ((add_records variants no_records records).unclassified
          ≡ keep (λ s. not (is_known variants s)) records)
      × ((add_records variants no_records records).explicit_position_sites
          ≡ count_if is_explicit records)
add_records_all variants records =
    let (u, x) = add_records-rest variants no_records records in
    (λ k h. add_records-stats variants k no_records records h, u, x ∙ omega arith)

-- For a kind of the enum, its entry holds the number of all records and of the explicit records of
-- that kind, and the sites of the others in order; the unclassified records are those of a kind that
-- the enum lacks, in order; and the explicit ones are counted over all records.
pub add_records_exact :
    (variants : List Text) (records : List Site) (k : Text)
    → contains variants k ≡ true
    → ((add_records variants no_records records).stats k ≡ share k records no_entry)
      × ((add_records variants no_records records).unclassified
          ≡ keep (λ s. not (is_known variants s)) records)
      × ((add_records variants no_records records).explicit_position_sites
          ≡ count_if is_explicit records)
add_records_exact variants records k h =
    let (entries, u, x) = add_records_all variants records in (entries k h, u, x)
