-- ===== src/Templates.antt =====
-- internal/plantools/dockerfile_templates.go: the templates of Dockerfiles, and the search in them. The
-- files, Unicode spaces, the JSON codecs, `fuzzy.RankMatchFold` and `sort.Slice` are parameters.
pub mod Parsed
pub mod Best
use zbplan.Prelude.{
  ℕ, zero, suc, ◌+◌, ◌-◌, ◌^◌, Bool, true, false, not, ◌&&◌, ◌||◌, Option, none, some, List, [],
  ◌∷◌, ◌++◌, map, Bytes, codes, beq, take, drop, length, ltb, if◌then◌else◌, Result, ok, err, ◌>>=◌,
  ◌>>◌, reject_if, map_err, ℤ, pos, negsuc,
}
use zbplan.Strings.{has_prefix, has_suffix, cut_prefix, trim_suffix}
use zbplan.Strings.Split.{split, join}

pub record Template : Type 0 where
  pub name : Bytes
  pub terms : List Bytes
  pub description : Bytes
  pub content : Bytes

-- `strings.TrimSpace` and `strings.Fields`
pub record SpaceOps : Type 0 where
  pub trim_space : Bytes → Bytes
  pub fields : Bytes → List Bytes

-- The variables of the loop over the header.
pub record Header : Type 0 where
  pub keywords : List Bytes
  pub description : Bytes
  pub content_start : ℕ

module _ (ops : SpaceOps) where
  -- A comment of the header: its keywords or its description are kept.
  unfoldable pub read_comment : Bytes → Header → Header
  read_comment trimmed h = elim (cut_prefix trimmed (codes "# keywords:")) [
    | some rest ↦ record h { keywords = ops.fields (ops.trim_space rest) }
    | none ↦ elim (cut_prefix trimmed (codes "# description:")) [
      | some rest ↦ record h { description = ops.trim_space rest }
      | none ↦ h
    ]
  ]

  -- The loop over the lines, from line `i`.
  unfoldable pub header_loop : (i : ℕ) → List Bytes → Header → Header
  header_loop i [] h = h
  header_loop i (line ∷ lines) h =
      let trimmed = ops.trim_space line in
      let blank = header_loop (suc i) lines (record h { content_start = suc i }) in
      let comment =
        header_loop (suc i) lines (record (read_comment trimmed h) { content_start = suc i }) in
      if beq trimmed []
      then blank
      else if not (has_prefix trimmed (codes "#"))
      then record h { content_start = i }
      else comment

  unfoldable pub parse_dockerfile_template : Bytes → Bytes → Template
  parse_dockerfile_template name raw =
      let lines = split b'\n' raw in
      let h = header_loop 0 lines (record { keywords = []; description = []; content_start = 0 }) in
      record {
        name = name;
        terms = (name ∷ split b'-' name) ++ h.keywords;
        description = h.description;
        content = ops.trim_space (join b'\n' (drop h.content_start lines));
      }

-- What `fs.ReadDir` tells of an entry, and what opening it and reading it give.
pub record TemplateFile : Type 0 where
  pub name : Bytes
  pub is_dir : Bool
  pub opened : Result Bytes (Result Bytes Bytes)

unfoldable pub read_template : TemplateFile → Result Bytes Bytes
read_template file = do
  read ← map_err (λ e. codes "plantools: open " ++ (file.name ++ (codes ": " ++ e))) file.opened
  map_err (λ e. codes "plantools: read " ++ (file.name ++ (codes ": " ++ e))) read

-- The loop of `mustLoadTemplates`; an error is the text of the panic.
unfoldable pub load_templates :
    SpaceOps → List TemplateFile → List Template → Result Bytes (List Template)
load_templates ops [] templates = ok templates
load_templates ops (file ∷ files) templates =
    let skipped = load_templates ops files templates in
    let loaded = λ (raw : Bytes). load_templates ops files (
      templates
      ++ parse_dockerfile_template ops (trim_suffix file.name (codes ".Dockerfile")) raw ∷ []) in
    if file.is_dir || not (has_suffix file.name (codes ".Dockerfile"))
    then skipped
    else read_template file >>= loaded

unfoldable pub must_load_templates :
    SpaceOps → Result Bytes (List TemplateFile) → Result Bytes (List Template)
must_load_templates ops entries = do
  files ← map_err (λ e. codes "plantools: read dockerfiles dir: " ++ e) entries
  load_templates ops files []

-- `math.MaxInt`
abbrev pub max_int : ℕ
max_int = 2 ^ 63 - 1

pub record Candidate : Type 0 where
  pub tmpl : Template
  pub score : ℕ

module _ (rank : Bytes → Bytes → ℤ) (query : Bytes) where
  -- The loop over the terms of a template.
  unfoldable pub best_score : List Bytes → ℕ → ℕ
  best_score [] best = best
  best_score (term ∷ terms) best = elim (rank query term) [
    | negsuc d ↦ best_score terms best
    | pos d ↦ best_score terms (if ltb d best then d else best)
  ]

  unfoldable pub candidates : List Template → List Candidate → List Candidate
  candidates [] found = found
  candidates (tmpl ∷ templates) found =
      let best = best_score tmpl.terms max_int in
      let skipped = candidates templates found in
      let added = candidates templates (found ++ record { tmpl = tmpl; score = best } ∷ []) in
      if ltb best max_int then added else skipped

-- The function of `sort.Slice`: `candidates[i].score < candidates[j].score`
unfoldable pub scores_less : Candidate → Candidate → Bool
scores_less c d = ltb c.score d.score

unfoldable pub match_templates :
    (rank : Bytes → Bytes → ℤ)
    → (slice : (Candidate → Candidate → Bool) → List Candidate → List Candidate) → Bytes
    → List Template
    → (limit : ℕ) → List Template
match_templates rank slice query templates limit =
    let found = slice scores_less (candidates rank query templates []) in
    map (λ c. c.tmpl) (if ltb limit (length found) then take limit found else found)

-- `TemplateInfo` and `templateResult`
pub record TemplateInfo : Type 0 where
  pub name : Bytes
  pub content : Bytes

pub record TemplateResult : Type 0 where
  pub name : Bytes
  pub description : Bytes
  pub template : Bytes

-- `Templates`
unfoldable pub template_infos : List Template → List TemplateInfo
template_infos all = map (λ t. record { name = t.name; content = t.content }) all

-- The result of the tool `get_dockerfile_template`, without its coding.
unfoldable pub template_results : List Template → List TemplateResult
template_results matched =
    map (λ t. record { name = t.name; description = t.description; template = t.content }) matched

unfoldable pub template_text :
    (marshal : List TemplateResult → Result Bytes Bytes) → List Template → Result Bytes Bytes
template_text marshal [] = ok (codes "[]")
template_text marshal (t ∷ ts) =
    map_err (λ e. codes "marshal: " ++ e) (marshal (template_results (t ∷ ts)))

unfoldable pub get_dockerfile_template :
    (unmarshal : Bytes → Result Bytes Bytes)
    → (marshal : List TemplateResult → Result Bytes Bytes) → (rank : Bytes → Bytes → ℤ)
    → (slice : (Candidate → Candidate → Bool) → List Candidate → List Candidate)
    → (all : List Template) → Bytes
    → Result Bytes Bytes
get_dockerfile_template unmarshal marshal rank slice all args_json = do
  query ← map_err (λ e. codes "unmarshal: " ++ e) (unmarshal args_json)
  reject_if (beq query []) (codes "query is required")
  template_text marshal (match_templates rank slice query all 3)
