-- ===== src/Hashes/Closure/Lists.antt =====
-- The logical paths of a list of found files, through appending and sorting.
use mathlib.Core.List.{map-append}
use elisa_lsp.Base.{
  true, false, ◌||◌, none, some, List, [], ◌∷◌, ◌++◌, ◌≡◌, refl, arith, map, All, Bool-cases, inl,
  inr,
}
use elisa_lsp.Base.Text.{Text, equal, equal_iff}
use elisa_lsp.Base.Sort.{insert, sort}
use elisa_lsp.Hashes.Digest.{Record, has_path, has_duplicate}
use elisa_lsp.Hashes.Files.{FilePath}
use elisa_lsp.Hashes.Closure.{Found, find, found_lt, as_record}

abbrev pub records_of : List Found → List Record
records_of = map as_record

pub find-none :
    (l : Text) (found : List Found) → find l found ≡ none → has_path l (records_of found) ≡ false
unfolding find has_path
find-none l [] h = refl
find-none l (f ∷ fs) h = ground (arith, find-none l fs)

pub find-some :
    (l : Text) (found : List Found) (p : FilePath)
    → find l found ≡ some p
    → has_path l (records_of found) ≡ true
unfolding find has_path
find-some l [] p h = cc
find-some l (f ∷ fs) p h = ground (arith, find-some l fs p)

pub has_path-append :
    (l : Text) (rs ss : List Record) → has_path l (rs ++ ss) ≡ (has_path l rs || has_path l ss)
unfolding has_path
has_path-append l [] ss = refl
has_path-append l (r ∷ rs) ss = ground (arith, has_path-append l rs ss)

pub has_duplicate-concat :
    (rs : List Record) (s : Record)
    → has_duplicate rs ≡ false
    → has_path s.0 rs ≡ false
    → has_duplicate (rs ++ (s ∷ [])) ≡ false
unfolding has_duplicate
has_duplicate-concat [] s h k = unfold has_path in refl
has_duplicate-concat (r ∷ rs) s h k =
    unfold has_path in
    ground (
      arith,
      has_duplicate-concat rs s,
      has_path-append r.0 rs (s ∷ []),
      equal_iff r.0 s.0,
      equal_iff s.0 r.0,
    )

pub has_path-insert :
    (l : Text) (f : Found) (fs : List Found)
    → has_path l (records_of (insert found_lt f fs))
      ≡ (equal l f.logical || has_path l (records_of fs))
unfolding has_path insert
has_path-insert l f [] = refl
has_path-insert l f (g ∷ gs) = ground (arith, has_path-insert l f gs)

pub has_path-sort :
    (l : Text) (fs : List Found)
    → has_path l (records_of (sort found_lt fs)) ≡ has_path l (records_of fs)
unfolding sort has_path
has_path-sort l [] = refl
has_path-sort l (f ∷ fs) =
    ground (arith, has_path-insert l f (sort found_lt fs), has_path-sort l fs)

pub has_duplicate-insert :
    (f : Found) (fs : List Found)
    → has_duplicate (records_of (insert found_lt f fs))
      ≡ (has_path f.logical (records_of fs) || has_duplicate (records_of fs))
unfolding has_duplicate insert
has_duplicate-insert f [] = unfold has_path in refl
has_duplicate-insert f (g ∷ gs) =
    unfold has_path in
    ground (
      arith,
      has_duplicate-insert f gs,
      has_path-insert g.logical f gs,
      equal_iff f.logical g.logical,
      equal_iff g.logical f.logical,
    )

pub has_duplicate-sort :
    (fs : List Found)
    → has_duplicate (records_of (sort found_lt fs)) ≡ has_duplicate (records_of fs)
unfolding sort has_duplicate
has_duplicate-sort [] = refl
has_duplicate-sort (f ∷ fs) = ground (
  arith,
  has_duplicate-insert f (sort found_lt fs),
  has_duplicate-sort fs,
  has_path-sort f.logical fs,
)

pub insert-All :
    (P : Record → Type 0) (f : Found) (fs : List Found)
    → P (as_record f)
    → All P (records_of fs)
    → All P (records_of (insert found_lt f fs))
unfolding insert
insert-All P f [] h a = (h, tt)
insert-All P f (g ∷ gs) h a = elim (Bool-cases (found_lt g f)) [
  | inl e ↦ rw e (a.0, insert-All P f gs h a.1)
  | inr e ↦ rw e (h, a)
]

pub sort-All :
    (P : Record → Type 0) (fs : List Found)
    → All P (records_of fs)
    → All P (records_of (sort found_lt fs))
unfolding sort
sort-All P [] a = tt
sort-All P (f ∷ fs) a = insert-All P f (sort found_lt fs) a.0 (sort-All P fs a.1)

pub concat-All :
    (P : Record → Type 0) (fs : List Found) (f : Found)
    → All P (records_of fs)
    → P (as_record f)
    → All P (records_of (fs ++ (f ∷ [])))
concat-All P [] f a h = (h, tt)
concat-All P (g ∷ gs) f a h = (a.0, concat-All P gs f a.1 h)

pub has_path-concat :
    (l : Text) (old : List Found) (f : Found)
    → has_path l (records_of (old ++ (f ∷ []))) ≡ (has_path l (records_of old) || equal l f.logical)
unfolding has_path
has_path-concat l [] f = ground arith
has_path-concat l (g ∷ gs) f = ground (arith, has_path-concat l gs f)

pub distinct_concat :
    (old : List Found) (f : Found)
    → has_duplicate (records_of old) ≡ false
    → has_path f.logical (records_of old) ≡ false
    → has_duplicate (records_of (old ++ (f ∷ []))) ≡ false
distinct_concat old f d h =
    rw (map-append as_record old (f ∷ [])) (has_duplicate-concat (records_of old) (as_record f) d h)
