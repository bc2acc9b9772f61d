-- ===== src/Tests/Fixture.antt =====
-- A small world: every path names a file, which holds its own name, or an include of it.
use elisa_lsp.Base.{true, some, [], ◌∷◌, ◌++◌, take, if◌then◌else◌}
use elisa_lsp.Base.Text.{Text, codes, equal}
use elisa_lsp.Base.Bytes.{Bytes}
use elisa_lsp.Json.{Value, str, obj, field, end}
use elisa_lsp.Hashes.Files.{Files, FilePath, name}

abbrev zeros : Bytes
zeros =
    0 ∷ 0 ∷ 0 ∷ 0 ∷ 0 ∷ 0 ∷ 0 ∷ 0 ∷ 0 ∷ 0 ∷ 0 ∷ 0 ∷ 0 ∷ 0 ∷ 0 ∷ 0 ∷ 0 ∷ 0 ∷ 0 ∷ 0 ∷ 0 ∷ 0 ∷ 0 ∷ 0
    ∷ 0 ∷ 0 ∷ 0 ∷ 0 ∷ 0 ∷ 0 ∷ 0 ∷ 0 ∷ []

-- In place of SHA-256: the first 32 bytes, filled up with zeros.
abbrev pub first_bytes : Bytes → Bytes
first_bytes b = take 32 (b ++ zeros)

abbrev newline : Bytes
newline = 10 ∷ []

-- "main.elisa" includes "b.elisa", which includes nothing.
abbrev content : Text → Bytes
content n =
    if equal n (codes "main.elisa")
    then codes "include \"b.elisa\"" ++ newline
    else codes "let x = 1" ++ newline

abbrev pub world : Files
world = record {
  resolve = λ p. some p;
  is_file = λ p. true;
  read = λ p. some (content (name p));
  rglob = λ root.
      (root ++ (codes "main.elisa" ∷ []))
      ∷ (root ++ (codes "notes.txt" ∷ []))
      ∷ (root ++ (codes "b.elisa" ∷ []))
      ∷ [];
  sha256 = first_bytes;
  fsdecode = λ b. b;
  cwd = [];
}

abbrev pub root : FilePath
root = codes "r" ∷ []

abbrev pub compiler : FilePath
compiler = codes "c" ∷ []

abbrev pub main_file : FilePath
main_file = root ++ (codes "main.elisa" ∷ [])

abbrev pub other_file : FilePath
other_file = root ++ (codes "b.elisa" ∷ [])

-- A record of 64 digits.
abbrev digits : Text → Text
digits t = take 64 (t ++ codes "0000000000000000000000000000000000000000000000000000000000000000")

abbrev pub record_value : Text → Text → Value
record_value path hash =
    obj (field (codes "path") (str path) (field (codes "sha256") (str (digits hash)) end))

abbrev pub first_record : Value
first_record = record_value (codes "lsp/b.elisa") (codes "01ab")

abbrev pub second_record : Value
second_record = record_value (codes "lsp/main.elisa") (codes "ff")
