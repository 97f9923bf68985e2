-- ===== src/Crm/PolicyKeys.antt =====
-- `_FORBIDDEN_KEY_PATTERN` of backend/app/modules/process_overlay/policy_schema.py: a search for one of
-- nine words, in whatever case. The case folding of `re` also reads the dotted and the dotless i of
-- Turkish as i, and the long s as s; no other character folds to a letter of the words.
use Prim.Native.Char.{code}
use coreops_platform.Base.{
  ℕ, ◌+◌, String, Bool, true, false, ◌&&◌, ◌||◌, List, [], ◌∷◌, leb, ◌==◌, if◌then◌else◌,
}

-- The code points of a text.
abbrev pub codes : String → List ℕ
codes String.[] = []
codes (String.◌∷◌ c s) = code c ∷ codes s

abbrev pub fold_case : ℕ → ℕ
fold_case c =
    if leb b'A' c && leb c b'Z'
    then c + 32
    else if c == 304 || c == 305
    then b'i'
    else if c == 383
    then b's'
    else c

-- The word stands at the beginning of the text.
abbrev pub begins_with : List ℕ → List ℕ → Bool
begins_with [] s = true
begins_with (w ∷ ws) [] = false
begins_with (w ∷ ws) (c ∷ s) = w == fold_case c && begins_with ws s

abbrev pub begins_with_one : List String → List ℕ → Bool
begins_with_one [] s = false
begins_with_one (w ∷ ws) s = begins_with (codes w) s || begins_with_one ws s

-- `re.search`: at each place of the text.
abbrev pub contains_one : List String → List ℕ → Bool
contains_one words [] = begins_with_one words []
contains_one words (c ∷ s) = begins_with_one words (c ∷ s) || contains_one words s

abbrev pub forbidden_words : List String
forbidden_words =
    "script" ∷ "eval" ∷ "exec" ∷ "lambda" ∷ "__import__" ∷ "compile" ∷ "expression" ∷ "handler"
    ∷ "template_engine" ∷ []

unfoldable pub is_forbidden : String → Bool
is_forbidden key = contains_one forbidden_words (codes key)
