-- ===== src/Extract.antt =====
-- pkg/zbplan/prompt.go: `extractDockerfile`, which takes the Dockerfile out of a model's reply. The two
-- regular expressions are written out as matchers; `strings.TrimSpace` is a parameter.
pub mod Fence
use zbplan.Prelude.{
  ℕ, zero, suc, ◌-◌, Bool, true, false, not, ◌&&◌, ◌||◌, Option, none, some, List, [], ◌∷◌, ◌++◌,
  Bytes, codes, drop, leb, ◌==◌, if◌then◌else◌,
}
use zbplan.Strings.{has_prefix, cut_prefix}
use zbplan.Strings.Split.{split, join}

-- One lower-case letter under `(?i)`: what stands behind it. `k` and `s` have a third form each, the
-- Kelvin sign and the long s.
pub drop_letter : ℕ → Bytes → Option Bytes
drop_letter c [] = none
drop_letter c (x ∷ s) =
    if x == c || x == c - 32
    then some s
    else if c == b'k'
    then cut_prefix (x ∷ s) (0xE2 ∷ 0x84 ∷ 0xAA ∷ [])
    else if c == b's'
    then cut_prefix (x ∷ s) (0xC5 ∷ 0xBF ∷ [])
    else none

-- A lower-case word under `(?i)`: what stands behind it.
pub drop_word : Bytes → Bytes → Option Bytes
drop_word [] s = some s
drop_word (c ∷ word) s = elim (drop_letter c s) [ none ↦ none | some rest ↦ drop_word word rest ]

abbrev pub fence : Bytes
fence = codes "```"

-- `(?s:.*?)` and the closing fence: what stands before the first one.
unfoldable pub until_fence : Bytes → Option Bytes
until_fence [] = none
until_fence (c ∷ s) =
    let later = until_fence s in
    if has_prefix (c ∷ s) fence
    then some []
    else elim later [ none ↦ none | some body ↦ some (c ∷ body) ]

-- `(?:dockerfile)?\n` and what the fence encloses.
pub fenced_body : Bytes → Option Bytes
fenced_body s = elim (drop_word (codes "dockerfile") s) [
  | none ↦ elim (cut_prefix s (codes "\n")) [ none ↦ none | some rest ↦ until_fence rest ]
  | some rest ↦ elim (cut_prefix rest (codes "\n")) [ none ↦ none | some rest' ↦ until_fence rest' ]
]

-- `dockerfenceRe`: the first group of the leftmost match.
unfoldable pub find_fence : Bytes → Option Bytes
find_fence [] = none
find_fence (c ∷ s) =
    let later = find_fence s in
    if has_prefix (c ∷ s) fence
    then (elim (fenced_body (drop 3 (c ∷ s))) [ none ↦ later | some body ↦ some body ])
    else later

-- `\w`
pub is_word_byte : ℕ → Bool
is_word_byte c =
    c == b'_'
    || (leb b'a' c && leb c b'z' || (leb b'A' c && leb c b'Z' || leb b'0' c && leb c b'9'))

pub starts_word : Bytes → Bool
starts_word [] = false
starts_word (c ∷ s) = is_word_byte c

-- The byte before `rest`, which is a proper suffix of `s`.
pub byte_before : Bytes → ℕ → Bool
byte_before [] n = false
byte_before (c ∷ s) zero = is_word_byte c
byte_before (c ∷ s) (suc n) = byte_before s n

-- A keyword and `\b` behind it.
pub keyword_at : Bytes → Bytes → Bool
keyword_at word s = elim (drop_word word s) [
  | none ↦ false
  | some rest ↦
      let before = byte_before s (zbplan.Prelude.length s - zbplan.Prelude.length rest - 1) in
      before && not (starts_word rest) || not before && starts_word rest
]

abbrev pub keywords : List Bytes
keywords =
    codes "from"
    ∷ codes "arg"
    ∷ codes "run"
    ∷ codes "cmd"
    ∷ codes "label"
    ∷ codes "expose"
    ∷ codes "env"
    ∷ codes "add"
    ∷ codes "copy"
    ∷ codes "entrypoint"
    ∷ codes "volume"
    ∷ codes "user"
    ∷ codes "workdir"
    ∷ codes "onbuild"
    ∷ codes "stopsignal"
    ∷ codes "healthcheck"
    ∷ codes "shell"
    ∷ []

pub any_keyword_at : List Bytes → Bytes → Bool
any_keyword_at [] s = false
any_keyword_at (word ∷ words) s = keyword_at word s || any_keyword_at words s

-- `dockerfileInstructionRe`, whose last alternative is `#\b`.
unfoldable pub is_instruction : Bytes → Bool
is_instruction s = any_keyword_at keywords s || has_prefix s (codes "#") && starts_word (drop 1 s)

module _ (trim_space : Bytes → Bytes) where
  -- The loop over the lines, with the lines that are left.
  pub from_instruction : List Bytes → Option (List Bytes)
  from_instruction [] = none
  from_instruction (line ∷ lines) =
      let later = from_instruction lines in
      if is_instruction (trim_space line) then some (line ∷ lines) else later

  unfoldable pub extract_dockerfile : Bytes → Bytes
  extract_dockerfile text = elim (find_fence text) [
    | some body ↦ trim_space body
    | none ↦ elim (from_instruction (split b'\n' text)) [
      | some lines ↦ trim_space (join b'\n' lines)
      | none ↦ trim_space text
    ]
  ]
