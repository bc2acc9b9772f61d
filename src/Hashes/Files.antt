-- ===== src/Hashes/Files.antt =====
-- What scripts/build_hashes.py asks of the file system and of `pathlib`.
use elisa_lsp.Base.{
  ℕ, Bool, false, ◌||◌, Option, none, some, List, [], ◌∷◌, ◌++◌, length, ◌==◌, if◌then◌else◌,
}
use elisa_lsp.Base.Text.{Text, codes, equal}
use elisa_lsp.Base.Bytes.{Bytes, to_hex}
use elisa_lsp.Hashes.Result.{Result, ok, err, ◌>>=◌, or_raise, unresolved, not_a_file, os_error}

-- An absolute path is the list of its parts; ".." stays a part until the path is resolved.
abbrev pub FilePath : Type 0
FilePath = List Text

-- The answers of the file system, and `hashlib.sha256`. `none` is an `OSError`; `rglob` lists all
-- that lies below a directory, in the order of the directory entries.
pub record Files : Type 0 where
  pub resolve : FilePath → Option FilePath
  pub is_file : FilePath → Bool
  pub read : FilePath → Option Bytes
  pub rglob : FilePath → List FilePath
  pub sha256 : Bytes → Bytes
  pub fsdecode : Bytes → Text
  pub cwd : FilePath

abbrev slash : ℕ
slash = b'/'

-- `"/".join(parts)`, which is `as_posix` of a relative path
unfoldable pub join : List Text → Text
join [] = []
join (p ∷ []) = p
join (p ∷ q ∷ rest) = p ++ (slash ∷ join (q ∷ rest))

abbrev pub proper : Text → List Text → List Text
proper part rest = if equal part [] || equal part (codes ".") then rest else part ∷ rest

-- The parts of `Path(text)`: empty parts and "." are dropped.
parts_onto : Text → Text → List Text
parts_onto part [] = proper part []
parts_onto part (c ∷ cs) =
    let later = proper part (parts_onto [] cs) in
    let same = parts_onto (part ++ (c ∷ [])) cs in if c == slash then later else same

unfoldable pub parts : Text → List Text
unfolding parts_onto
parts = parts_onto []

abbrev pub is_absolute : Text → Bool
is_absolute [] = false
is_absolute (c ∷ cs) = c == slash

-- `root / text`: an absolute text takes the root's place.
abbrev pub joined : FilePath → Text → FilePath
joined root t = if is_absolute t then parts t else root ++ parts t

-- `path.relative_to(root)`; `none` is `ValueError`.
unfoldable pub relative_to : FilePath → FilePath → Option FilePath
relative_to path [] = some path
relative_to [] (r ∷ root) = none
relative_to (p ∷ path) (r ∷ root) = if equal p r then relative_to path root else none

unfoldable pub parent : FilePath → FilePath
parent [] = []
parent (p ∷ []) = []
parent (p ∷ q ∷ rest) = p ∷ parent (q ∷ rest)

unfoldable pub name : FilePath → Text
name [] = []
name (p ∷ []) = p
name (p ∷ q ∷ rest) = name (q ∷ rest)

-- The text from the last dot on, if any.
unfoldable pub from_last_dot : Text → Option Text
from_last_dot [] = none
from_last_dot (c ∷ cs) = elim (from_last_dot cs) [
  | some found ↦ some found
  | none ↦ if c == b'.' then some (c ∷ cs) else none
]

abbrev suffix_of : Text → Option Text → Text
suffix_of whole none = []
suffix_of whole (some (c ∷ [])) = []
suffix_of whole (some found) = if length found == length whole then [] else found

-- `path.suffix`: none for a name that begins or ends with its last dot.
unfoldable pub suffix : FilePath → Text
unfolding name from_last_dot
suffix path = let last = name path in suffix_of last (from_last_dot last)

module _ (fs : Files) where
  unfoldable pub resolve_file : FilePath → Result FilePath
  resolve_file path = do
    resolved ← or_raise (fs.resolve path) unresolved
    if fs.is_file resolved then ok resolved else err not_a_file

  unfoldable pub sha256_file : FilePath → Result Text
  sha256_file path = do content ← or_raise (fs.read path) os_error; ok (to_hex (fs.sha256 content))
