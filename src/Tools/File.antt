-- ===== src/Tools/File.antt =====
-- tools/file.rs: the edit of a file. A file that is read is a text, that is, its bytes are UTF-8, so
-- that `from_utf8_lossy` gives them as they are.
pub mod Lines
pub mod Edits
use cherub.Base.{
  ℕ, zero, suc, ◌+◌, ◌-◌, Bool, true, false, Option, none, some, List, [], ◌∷◌, ◌++◌, not, ◌&&◌,
  ◌||◌, if◌then◌else◌, ◌==◌, ltb, leb, is_empty, length, drop,
}
use cherub.Base.Bytes.{Str, lit, str_eq, starts_with, contains}
use cherub.Base.Result.{Result, ok, err, ◌>>=◌, ok_or}
use cherub.Json.{Value, bool, null, get, get_str}
use cherub.Providers.{CherubError, tool_execution, invalid_invocation}
use cherub.Runtime.Prompt.{decimal, em_dash}
use cherub.Tools.Path.{PathBuf, FileSystem, failure, resolve_workspace_path, is_binary_content}

-- The byte continues a character.
abbrev pub is_continuation : ℕ → Bool
is_continuation b = leb 128 b && ltb b 192

-- The pattern stands at the start of a text that is not empty, where a character begins.
abbrev pub hits : Str → ℕ → Str → Bool
hits p x s = not (is_continuation x) && starts_with p (x ∷ s)

-- `s.matches(p).count()`, with the bytes that are still in the last match.
unfoldable pub count_from : Str → ℕ → Str → ℕ
count_from p k [] = if is_empty p then 1 else 0
count_from p (suc k) (x ∷ s) = count_from p k s
count_from p zero (x ∷ s) =
    let within = count_from p (length p - 1) s in
    let further = count_from p zero s in if hits p x s then 1 + within else further

unfoldable pub count : Str → Str → ℕ
unfolding count_from
count p s = count_from p zero s

-- `s.replace(p, r)`, with the bytes that are still in the last match.
unfoldable pub replace_from : Str → Str → ℕ → Str → Str
replace_from p r k [] = if is_empty p then r else []
replace_from p r (suc k) (x ∷ s) = replace_from p r k s
replace_from p r zero (x ∷ s) =
    let within = replace_from p r (length p - 1) s in
    let further = replace_from p r zero s in
    if hits p x s then (if is_empty p then r ++ (x ∷ further) else r ++ within) else x ∷ further

unfoldable pub replace : Str → Str → Str → Str
unfolding replace_from
replace p r s = replace_from p r zero s

-- `s.replacen(p, r, 1)`.
unfoldable pub replace_first : Str → Str → Str → Str
replace_first p r [] = if is_empty p then r else []
replace_first p r (x ∷ s) =
    let further = replace_first p r s in
    if hits p x s then r ++ drop (length p) (x ∷ s) else x ∷ further

abbrev pub utf8_bom : Str
utf8_bom = 0xEF ∷ 0xBB ∷ 0xBF ∷ []

abbrev pub crlf : Str
crlf = 13 ∷ 10 ∷ []

abbrev pub lf : Str
lf = 10 ∷ []

-- What `normalize_unicode` makes of a character of three and of two bytes.
abbrev pub plain3 : ℕ → ℕ → ℕ → Option ℕ
plain3 a b c =
    if a == 0xE2 && b == 0x80 && leb 0x98 c && leb c 0x9B
    then some 39
    else if a == 0xE2 && b == 0x80 && leb 0x9C c && leb c 0x9F
    then some 34
    else if a == 0xE2 && b == 0x80 && (c == 0x93 || c == 0x94)
    then some 45
    else if (a == 0xE2 && b == 0x80 && (c == 0x87 || c == 0x88 || c == 0x8A || c == 0xAF))
        || (a == 0xE2 && b == 0x81 && c == 0x9F)
    then some 32
    else none

abbrev pub is_nbsp : ℕ → ℕ → Bool
is_nbsp a b = a == 0xC2 && b == 0xA0

unfoldable pub normalize_unicode : Str → Str
normalize_unicode [] = []
normalize_unicode (a ∷ []) = a ∷ []
normalize_unicode (a ∷ (b ∷ [])) = if is_nbsp a b then 32 ∷ [] else a ∷ (b ∷ [])
normalize_unicode (a ∷ (b ∷ (c ∷ s))) =
    let after3 = normalize_unicode s in
    let after2 = normalize_unicode (c ∷ s) in
    let after1 = normalize_unicode (b ∷ (c ∷ s)) in
    elim (plain3 a b c) [
      | some plain ↦ plain ∷ after3
      | none ↦ if is_nbsp a b then 32 ∷ after2 else a ∷ after1
    ]

-- The file without its byte order mark and with LF line ends.
unfoldable pub without_bom : Str → Str
without_bom content = if starts_with utf8_bom content then drop 3 content else content

unfoldable pub normalized : Str → Str
unfolding without_bom
normalized content =
    if contains crlf (without_bom content)
    then replace crlf lf (without_bom content)
    else without_bom content

-- The line ends and the byte order mark are restored.
unfoldable pub restore : Str → Str → Str
unfolding without_bom
restore content edited =
    let final = (if contains crlf (without_bom content) then replace lf crlf edited else edited) in
    if starts_with utf8_bom content then utf8_bom ++ final else final

abbrev pub not_found : CherubError
not_found = tool_execution (lit "old_string not found in file")

unfoldable pub ambiguous : ℕ → Str → CherubError
ambiguous n how = tool_execution (
    lit "old_string found "
    ++ decimal 20 n
    ++ lit " times"
    ++ how
    ++ lit "; provide more context to make it unique, or set replace_all=true")

-- The replacement where there are matches: the text after it and the count of replacements.
unfoldable pub substitute : Str → Str → Bool → Str → ℕ → Str → Result CherubError (Str × ℕ)
substitute old new replace_all text n how =
    if replace_all
    then ok (replace old new text, n)
    else if ltb 1 n
    then err (ambiguous n how)
    else ok (replace_first old new text, 1)

-- The exact match, or else the match after Unicode normalization.
unfoldable pub apply_edit : Str → Str → Bool → Str → Result CherubError (Str × ℕ)
unfolding substitute
apply_edit old new replace_all text =
    let n = count old text in
    let fuzzy_text = normalize_unicode text in
    let fuzzy_old = normalize_unicode old in
    let m = count fuzzy_old fuzzy_text in
    if n == 0
    then (if m == 0
        then err not_found
        else substitute fuzzy_old new replace_all fuzzy_text m
            (lit " (after Unicode normalization)"))
    else substitute old new replace_all text n []

abbrev pub restored : Str → Result CherubError (Str × ℕ) → Result CherubError (Str × ℕ)
restored content (ok (edited, n)) = ok (restore content edited, n)
restored content (err e) = err e

-- What is written for the content that was read.
unfoldable pub edit_text : Str → Str → Bool → Str → Result CherubError (Str × ℕ)
unfolding apply_edit normalized
edit_text old_string new_string replace_all content = restored content (
    apply_edit (replace crlf lf old_string) (replace crlf lf new_string) replace_all
      (normalized content))

-- `fs::read` and `fs::write`, with the texts of their errors.
pub record Files : Type 0 where
  pub paths : FileSystem
  pub read : PathBuf → Result Str Str
  pub write : PathBuf → Str → Result Str Unit

unfoldable pub require_str : {N : Type 0} → Value N → Str → Str → Result CherubError Str
require_str params field action =
    ok_or (invalid_invocation (action ++ lit " requires '" ++ field ++ lit "'"))
      (get_str params field)

-- `and_then(|v| v.as_bool()).unwrap_or(false)`.
abbrev pub is_true : {N : Type 0} → Option (Value N) → Bool
is_true (some (bool b)) = b
is_true (some null) = false
is_true (some _) = false
is_true none = false

abbrev pub edited_text : Str → ℕ → Str
edited_text path n =
    if n == 1
    then lit "edited '" ++ path ++ lit "' (1 replacement)"
    else lit "edited '" ++ path ++ lit "' (" ++ decimal 20 n ++ lit " replacements)"

module _ (files : Files) (workspace_root : PathBuf) where
  -- The file is read, edited and written.
  unfoldable pub edit_resolved : Str → Str → Str → Bool → PathBuf → Result CherubError Str
  unfolding edit_text
  edit_resolved path old new replace_all resolved =
      failure (lit "cannot read '" ++ path ++ lit "': ") (files.read resolved) >>= (λ content.
        if is_binary_content content
        then err (tool_execution (lit "cannot edit binary file '" ++ path ++ lit "'"))
        else edit_text old new replace_all content >>= (λ edit.
          failure (lit "cannot write '" ++ path ++ lit "': ") (files.write resolved edit.0)
          >>= (λ _. ok (edited_text path edit.1))))

  unfoldable pub op_edit : {N : Type 0} → Value N → Result CherubError Str
  unfolding edit_resolved require_str
  op_edit params = require_str params (lit "path") (lit "edit") >>= (λ path.
      require_str params (lit "old_string") (lit "edit") >>= (λ old.
        require_str params (lit "new_string") (lit "edit") >>= (λ new.
          if str_eq old new
          then err (
              tool_execution (
                lit "old_string and new_string are identical "
                ++ em_dash
                ++ lit " no-op edit rejected"))
          else resolve_workspace_path files.paths workspace_root path
            >>= edit_resolved path old new (is_true (get params (lit "replace_all"))))))
