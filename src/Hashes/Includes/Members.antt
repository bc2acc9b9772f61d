-- ===== src/Hashes/Includes/Members.antt =====
-- Membership of files in a list.
use elisa_lsp.Base.{true, false, ◌||◌, List, [], ◌∷◌, ◌++◌, ◌≡◌, refl, arith}
use elisa_lsp.Base.Text.{equal_iff}
use elisa_lsp.Hashes.Files.{FilePath}
use elisa_lsp.Hashes.Closure.{same_path}
use elisa_lsp.Hashes.Includes.{member}

pub same_path_sound : (p q : FilePath) → same_path p q ≡ true → p ≡ q
same_path_sound [] [] h = refl
same_path_sound [] (y ∷ q) h = cc
same_path_sound (x ∷ p) [] h = cc
same_path_sound (x ∷ p) (y ∷ q) h = ground (arith, same_path_sound p q, equal_iff x y)

pub same_path_refl : (p : FilePath) → same_path p p ≡ true
same_path_refl [] = refl
same_path_refl (x ∷ p) = ground (arith, same_path_refl p, equal_iff x x)

pub member-append :
    (p : FilePath) (qs rs : List FilePath) → member p (qs ++ rs) ≡ (member p qs || member p rs)
member-append p [] rs = refl
member-append p (q ∷ qs) rs = ground (arith, member-append p qs rs)

pub member-concat_self : (p : FilePath) (qs : List FilePath) → member p (qs ++ (p ∷ [])) ≡ true
member-concat_self p qs = ground (arith, member-append p qs (p ∷ []), same_path_refl p)

pub member-concat_left :
    (p q : FilePath) (qs : List FilePath) → member p qs ≡ true → member p (qs ++ (q ∷ [])) ≡ true
member-concat_left p q qs h = ground (arith, member-append p qs (q ∷ []))

pub member-concat_new :
    (p q : FilePath) (qs : List FilePath)
    → member p (qs ++ (q ∷ [])) ≡ true
    → member p qs ≡ false
    → p ≡ q
member-concat_new p q qs h k = same_path_sound p q (ground (arith, member-append p qs (q ∷ [])))
