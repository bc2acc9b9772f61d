-- ===== src/Base/Tables.antt =====
-- Python dictionaries with text keys, as association lists in the order of first insertion.
use mathlib.Core.Path.{◌≡◌, refl, sym, ◌∙◌}
use mathlib.Core.Logic.{inl, inr}
use mathlib.Core.Bool.{true}
use mathlib.Core.Option.{Option, none, some}
use mathlib.Core.List.{List, [], ◌∷◌}
use elisa_lsp.Base.Tests.{if◌then◌else◌, Bool-cases}
use elisa_lsp.Base.Text.{Text, equal, equal_iff, equal_refl}

module _ {ℓ} {V : Type ℓ} where
  -- `d.get(key)`; nothing is a missing key.
  unfoldable pub look_up : List (Text × V) → Text → Option V
  look_up [] key = none
  look_up ((k, v) ∷ rest) key =
      let later = look_up rest key in if equal k key then some v else later

  -- `d[key] = value`
  unfoldable pub set_at : List (Text × V) → Text → V → List (Text × V)
  set_at [] key value = (key, value) ∷ []
  set_at ((k, v) ∷ rest) key value =
      let later = (k, v) ∷ set_at rest key value in if equal k key then (k, value) ∷ rest else later

  pub look_up-set_at :
      (table : List (Text × V)) (k : Text) (v : V) (key : Text)
      → look_up (set_at table k v) key ≡ (if equal k key then some v else look_up table key)
  unfolding look_up set_at
  look_up-set_at [] k v key = refl
  look_up-set_at ((k', v') ∷ rest) k v key = elim (Bool-cases (equal k' k)) [
    | inl e ↦
        let same : k' ≡ k = (equal_iff k' k).0 e in
        rw (same, equal_refl k) (elim (Bool-cases (equal k key)) [ inl f ↦ rw f | inr f ↦ rw f ])
    | inr e ↦ rw e (elim (Bool-cases (equal k' key)) [
      | inr f ↦ rw f (look_up-set_at rest k v key)
      | inl f ↦ elim (Bool-cases (equal k key)) [
        | inr g ↦ rw (f, g)
        | inl g ↦
            let same : k' ≡ k = (equal_iff k' key).0 f ∙ sym ((equal_iff k key).0 g) in
            let yes_equal : equal k' k ≡ true = rw same (equal_refl k) in cc (e, yes_equal)
      ]
    ])
  ]

  abbrev pub or_before : Option V → Option V → Option V
  or_before none before = before
  or_before (some v) before = some v

  pub or_before_assoc :
      (a b c : Option V) → or_before a (or_before b c) ≡ or_before (or_before a b) c
  or_before_assoc none b c = refl
  or_before_assoc (some x) b c = refl

  pub or_before-none : (a : Option V) → or_before a none ≡ a
  or_before-none none = refl
  or_before-none (some x) = refl
