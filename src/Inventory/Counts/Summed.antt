-- ===== src/Inventory/Counts/Summed.antt =====
-- The summary of scripts/diagnostic_span_inventory.py fits the records and the listed diagnostics.
use elisa_lsp.Base.{
  ℕ, ◌+◌, true, not, List, [], ◌∷◌, map, length, All, ◌≡◌, refl, sym, arith, ap, ◌∙◌,
}
use elisa_lsp.Base.Sort.{sort, text_lt}
use elisa_lsp.Base.Text.{Text, equal_refl, contains}
use elisa_lsp.Inventory.Scan.{Site}
use elisa_lsp.Inventory.{
  Entry, no_records, add_records, count_if, Diagnostic, diagnostic_of, diagnostics_of, summary_of,
  Summary,
}
use elisa_lsp.Inventory.Counts.{of_kind, is_explicit, is_known, add_records_all}
use elisa_lsp.Inventory.Counts.Balance.{
  total, total-sort, total-count_if, count_if-not, length-keep, EvenDiagnostic, map-Even,
  kinds_split, add_records-IsEven,
}
use elisa_lsp.Markers.Distinct.{is_nodup}

total-map :
    (f : Diagnostic → ℕ) (stats : Text → Entry) (ks : List Text)
    → total f (map (diagnostic_of stats) ks) ≡ total (λ k. f (diagnostic_of stats k)) ks
unfolding total
total-map f stats [] = refl
total-map f stats (k ∷ ks) = omega (arith, total-map f stats ks)

total_ext :
    (f g : Text → ℕ) (ks : List Text)
    → ((k : Text) → contains ks k ≡ true → f k ≡ g k)
    → total f ks ≡ total g ks
unfolding total contains
total_ext f g [] h = refl
total_ext f g (k ∷ ks) h =
    let here = h k (ground (arith, equal_refl k)) in
    omega (arith, here, total_ext f g ks (λ j m. h j (ground arith)))

-- The constructors of a kind that a diagnostic counts, over all diagnostics.
total-diagnostics_of :
    (variants : List Text) (records : List Site)
    → is_nodup variants ≡ true
    → total (λ d. d.construction_sites) (diagnostics_of variants records)
      ≡ count_if (is_known variants) records
unfolding diagnostics_of diagnostic_of
total-diagnostics_of variants records h =
    let stats = (add_records variants no_records records).stats in
    total-map (λ d. d.construction_sites) stats (sort text_lt variants)
    ∙ total-sort text_lt (λ k. (stats k).construction_sites) variants
    ∙ total_ext (λ k. (stats k).construction_sites) (λ k. count_if (of_kind k) records) variants
        (λ k m.
          ap (λ e. e.construction_sites) ((add_records_all variants records).0 k m) ∙ omega arith)
    ∙ total-count_if variants records h

-- How the figures of a summary hang together.
pub record AddsUp (variants : List Text) (records : List Site) (s : Summary) : Type 0 where
  pub all_sites : s.construction_site_count ≡ length records
  pub by_class :
      s.classified_construction_site_count + s.unclassified_construction_site_count
      ≡ s.construction_site_count
  pub by_position :
      s.explicit_position_site_count + s.default_position_site_count ≡ s.construction_site_count
  pub unclassified_by_position :
      s.unclassified_explicit_position_site_count + s.unclassified_default_position_site_count
      ≡ s.unclassified_construction_site_count
  pub by_kind :
      total (λ d. d.construction_sites) (diagnostics_of variants records)
      ≡ s.classified_construction_site_count
  pub kinds_by_position :
      s.kinds_with_only_explicit_position_arguments + s.kinds_with_default_position_sites
      ≡ s.kinds_with_constructors
  pub each_kind : All EvenDiagnostic (diagnostics_of variants records)

-- For an enum without repeated variants the summary adds up: the classified and the unclassified
-- sites, as well as the explicit and the default ones, are all sites; the unclassified explicit and
-- default ones are all unclassified; the sites of the listed kinds are the classified ones; the kinds
-- that have sites are those with only explicit ones and those with default ones; and each kind's
-- sites are its explicit ones and its listed default ones.
pub summary_of-AddsUp :
    (variants : List Text) (file_count : ℕ) (records : List Site)
    → is_nodup variants ≡ true
    → AddsUp variants records (summary_of variants file_count records)
unfolding summary_of diagnostics_of
summary_of-AddsUp variants file_count records h =
    let t = add_records variants no_records records in
    let (_, others, explicit) = add_records_all variants records in
    let even = add_records-IsEven variants no_records records (λ k. refl) in
    let each = map-Even t.stats (sort text_lt variants) even in
    let unknown : length t.unclassified ≡ count_if (λ s. not (is_known variants s)) records =
      ap length others ∙ length-keep (λ s. not (is_known variants s)) records in
    let known = count_if-not (is_known variants) records in
    let given = count_if-not is_explicit records in
    record {
      all_sites = refl;
      by_class = omega (arith, unknown, known);
      by_position = omega (arith, explicit, given);
      unclassified_by_position = count_if-not is_explicit t.unclassified;
      by_kind = total-diagnostics_of variants records h ∙ omega (arith, unknown, known);
      kinds_by_position = sym (kinds_split _ each);
      each_kind = each;
    }
