-- ===== src/Hashes/Command/Fields.antt =====
-- The line of hashes that scripts/build_hashes.py prints, as build.sh reads it.
use mathlib.Core.List.{append_assoc}
use elisa_lsp.Base.{
  ℕ, ◌/◌, ◌%◌, false, Option, some, [], ◌∷◌, ◌++◌, ◌==◌, ltb, ◌≡◌, refl, sym, ap, ◌∙◌, arith, All,
  inl, inr, Bool-cases,
}
use elisa_lsp.Base.Bytes.{Bytes, to_hex, from_hex, hex_digit}
use elisa_lsp.Base.Text.{Text, codes}
use elisa_lsp.Json.{Value}
use elisa_lsp.Hashes.Result.{ok, os_error, value_error, bind-eq-ok, or_raise, Result-cases}
use elisa_lsp.Hashes.Files.{Files, FilePath, sha256_file}
use elisa_lsp.Hashes.Trees.{
  tree_digest, under, lsp_suffixes, elisa_suffixes, pipeline_bytes, build_pipeline_files,
  lsp_inputs_sha256, compiler_sources_sha256, build_pipeline_sha256,
}
use elisa_lsp.Hashes.Report.{ClosureInfo, View}
use elisa_lsp.Hashes.GoBuild.{split_tabs, joined_field}
use elisa_lsp.Hashes.Command.{Arguments, tab, newline, other_hashes, print_hashes, main}

abbrev HasNoTab : Text → Type 0
HasNoTab t = All (λ c. (c == 0x09) ≡ false) t

hex_digit-ne-tab : (n : ℕ) → (hex_digit n == 0x09) ≡ false
hex_digit-ne-tab n = elim (Bool-cases (ltb n 10)) [
  | inl e ↦ rw (hex_digit, e) (ground arith)
  | inr e ↦ rw (hex_digit, e) (ground arith)
]

to_hex-HasNoTab : (b : Bytes) → HasNoTab (to_hex b)
unfolding to_hex
to_hex-HasNoTab [] = tt
to_hex-HasNoTab (b ∷ bs) =
    (hex_digit-ne-tab (b / 16), (hex_digit-ne-tab (b % 16), to_hex-HasNoTab bs))

split_tabs-append :
    (t rest : Text) → HasNoTab t → split_tabs (t ++ (tab ++ rest)) ≡ t ∷ split_tabs rest
unfolding split_tabs
split_tabs-append [] rest h = refl
split_tabs-append (c ∷ cs) rest h =
    rw (split_tabs, h.0) (ap (joined_field c) (split_tabs-append cs rest h.1))

split_tabs-single : (t : Text) → HasNoTab t → split_tabs t ≡ t ∷ []
unfolding split_tabs
split_tabs-single [] h = refl
split_tabs-single (c ∷ cs) h = rw (split_tabs, h.0) (ap (joined_field c) (split_tabs-single cs h.1))

hex-HasNoTab : (h : Text) (b : Bytes) → ok (to_hex b) ≡ ok h → HasNoTab h
hex-HasNoTab h b e = let same : to_hex b ≡ h = cc e in rw (← same) (to_hex-HasNoTab b)

module _ (fs : Files) where
  sha256_file-HasNoTab : (path : FilePath) (h : Text) → sha256_file fs path ≡ ok h → HasNoTab h
  unfolding sha256_file
  sha256_file-HasNoTab path h e =
      let (content, f, g) = bind-eq-ok (or_raise (fs.read path) os_error) _ e in
      hex-HasNoTab h (fs.sha256 content) g

  lsp_inputs_sha256-HasNoTab :
      (root : FilePath) (h : Text) → lsp_inputs_sha256 fs root ≡ ok h → HasNoTab h
  unfolding lsp_inputs_sha256
  lsp_inputs_sha256-HasNoTab root h e =
      let (source_hash, f, e₁) =
        bind-eq-ok (tree_digest fs (under fs root (codes "src")) lsp_suffixes) _ e in
      let (project_hash, g, e₂) =
        bind-eq-ok (sha256_file fs (under fs root (codes "project.json"))) _ e₁ in
      hex-HasNoTab h (fs.sha256 (source_hash ++ project_hash)) e₂

  compiler_sources_sha256-HasNoTab :
      (root : FilePath) (h : Text) → compiler_sources_sha256 fs root ≡ ok h → HasNoTab h
  unfolding compiler_sources_sha256
  compiler_sources_sha256-HasNoTab root h e =
      let (source_hash, f₁, e₁) =
        bind-eq-ok (tree_digest fs (under fs root (codes "src")) elisa_suffixes) _ e in
      let (library_hash, f₂, e₂) =
        bind-eq-ok (tree_digest fs (under fs root (codes "elisacore_std")) elisa_suffixes) _ e₁ in
      let (sources, f₃, e₃) = bind-eq-ok (or_raise (from_hex source_hash) value_error) _ e₂ in
      let (library, f₄, e₄) = bind-eq-ok (or_raise (from_hex library_hash) value_error) _ e₃ in
      hex-HasNoTab h _ e₄

  build_pipeline_sha256-HasNoTab :
      (root : FilePath) (h : Text) → build_pipeline_sha256 fs root ≡ ok h → HasNoTab h
  unfolding build_pipeline_sha256
  build_pipeline_sha256-HasNoTab root h e =
      let (bytes, f, e₁) = bind-eq-ok (pipeline_bytes fs root build_pipeline_files) _ e in
      hex-HasNoTab h _ e₁

  -- The four hashes, and the line that they are the fields of.
  pub record IsLine (lsp_root compiler_root compiler_bin : FilePath) (stdout : Text) : Type 0 where
    pub inputs : Text
    pub sources : Text
    pub binary : Text
    pub pipeline : Text
    pub line : Text
    pub is_inputs : lsp_inputs_sha256 fs lsp_root ≡ ok inputs
    pub is_sources : compiler_sources_sha256 fs compiler_root ≡ ok sources
    pub is_binary : sha256_file fs compiler_bin ≡ ok binary
    pub is_pipeline : build_pipeline_sha256 fs lsp_root ≡ ok pipeline
    pub is_line : stdout ≡ line ++ newline
    pub has_fields : split_tabs line ≡ inputs ∷ sources ∷ binary ∷ pipeline ∷ []

  other_hashes-IsLine :
      (lsp_root compiler_root compiler_bin : FilePath) (inputs rest : Text)
      → lsp_inputs_sha256 fs lsp_root ≡ ok inputs
      → other_hashes fs lsp_root compiler_root compiler_bin ≡ ok rest
      → IsLine lsp_root compiler_root compiler_bin (inputs ++ (rest ++ newline))
  unfolding other_hashes
  other_hashes-IsLine lsp_root compiler_root compiler_bin inputs rest e f =
      let (sources, s, f₁) = bind-eq-ok (compiler_sources_sha256 fs compiler_root) _ f in
      let (binary, b, f₂) = bind-eq-ok (sha256_file fs compiler_bin) _ f₁ in
      let (pipeline, p, f₃) = bind-eq-ok (build_pipeline_sha256 fs lsp_root) _ f₂ in
      let last = tab ++ pipeline in
      let third = tab ++ (binary ++ last) in
      let second = tab ++ (sources ++ third) in
      let made : second ≡ rest = cc f₃ in
      record {
        inputs = inputs;
        sources = sources;
        binary = binary;
        pipeline = pipeline;
        line = inputs ++ second;
        is_inputs = e;
        is_sources = s;
        is_binary = b;
        is_pipeline = p;
        is_line =
            ap (λ r. inputs ++ (r ++ newline)) (sym made)
            ∙ sym (append_assoc inputs second newline);
        has_fields =
            split_tabs-append inputs (sources ++ third)
              (lsp_inputs_sha256-HasNoTab lsp_root inputs e)
            ∙ ap (λ fs. inputs ∷ fs)
                (split_tabs-append sources (binary ++ last)
                  (compiler_sources_sha256-HasNoTab compiler_root sources s))
            ∙ ap (λ fs. inputs ∷ sources ∷ fs)
                (split_tabs-append binary pipeline (sha256_file-HasNoTab compiler_bin binary b))
            ∙ ap (λ fs. inputs ∷ sources ∷ binary ∷ fs)
                (split_tabs-single pipeline (build_pipeline_sha256-HasNoTab lsp_root pipeline p));
      }

  print_hashes-IsLine :
      (args : Arguments) (compiler_root compiler_bin : FilePath)
      → args.compiler_root ≡ some compiler_root
      → args.compiler_bin ≡ some compiler_bin
      → (print_hashes fs args).status ≡ 0
      → IsLine args.lsp_root compiler_root compiler_bin (print_hashes fs args).stdout
  unfolding print_hashes
  print_hashes-IsLine args compiler_root compiler_bin a b z =
      elim (Result-cases (lsp_inputs_sha256 fs args.lsp_root)) [
        | inl (why, e) ↦ cc (rw (print_hashes, e) at z)
        | inr (inputs, e) ↦
            elim (Result-cases (other_hashes fs args.lsp_root compiler_root compiler_bin)) [
              | inl (why, f) ↦ cc (rw (print_hashes, e, a, b, f) at z)
              | inr (rest, f) ↦
                  rw (print_hashes, e, a, b, f)
                    (other_hashes-IsLine args.lsp_root compiler_root compiler_bin inputs rest e f)
            ]
      ]

-- Where a compiler's root and executable are given and no closure is asked for, exit status 0 means
-- that the program has printed one line, whose four fields, as tabs separate them, are the hashes of
-- the inputs, of the compiler's sources, of its executable and of the build pipeline.
pub main-IsLine :
    (fs : Files) (loads : Bytes → Option Value) (stage : FilePath → FilePath → Option View)
    (depth : ℕ) (dumps : ClosureInfo → Text) (args : Arguments)
    (compiler_root compiler_bin : FilePath)
    → args.dependency_closure ≡ false
    → args.compiler_root ≡ some compiler_root
    → args.compiler_bin ≡ some compiler_bin
    → (main fs loads stage depth dumps args).status ≡ 0
    → IsLine fs args.lsp_root compiler_root compiler_bin
        (main fs loads stage depth dumps args).stdout
unfolding main
main-IsLine fs loads stage depth dumps args compiler_root compiler_bin e a b z =
    rw (main, e) (print_hashes-IsLine fs args compiler_root compiler_bin a b (rw (main, e) at z))
