-- ===== src/Tools/File/Edits.antt =====
-- tools/file.rs: what an edit changes.
use cherub.Base.{
  ℕ, ◌≤◌, ◌≡◌, ◌≢◌, refl, ap, sym, inl, inr, Bool, true, false, Bool-cases, [], ◌∷◌, ◌++◌,
  append-nil, is_empty, ◌==◌, ltb, length, drop, if◌then◌else◌, arith,
}
use cherub.Base.Bytes.{Str, lit, starts_with, contains}
use cherub.Base.Result.{Result, ok, err}
use cherub.Providers.{CherubError}
use cherub.Tools.File.{
  hits, count_from, count, replace_first, normalize_unicode, normalized, not_found, ambiguous,
  substitute, apply_edit, without_bom, restore, restored, edit_text, utf8_bom, crlf,
}
use cherub.Tools.File.Lines.{lf_ends, crlf_ends, replace-lf_ends, replace-crlf_ends}

starts_with-append : (p s : Str) → starts_with p s ≡ true → s ≡ p ++ drop (length p) s
starts_with-append [] s h = refl
starts_with-append (p ∷ ps) [] h = cc
starts_with-append (p ∷ ps) (x ∷ s) h =
    let same : p ≡ x = ground arith in
    rw same (ap (λ t. x ∷ t) (starts_with-append ps s (ground arith)))

-- The first match of a pattern is replaced where there is a match.
abbrev IsReplaced : Str → Str → Str → Type 0
IsReplaced p r s =
    (pre : Str) × (post : Str) × (s ≡ pre ++ (p ++ post))
    × (replace_first p r s ≡ pre ++ (r ++ post))

is_empty→nil : (p : Str) → is_empty p ≡ true → p ≡ []
is_empty→nil [] h = refl
is_empty→nil (x ∷ p) h = cc

replace_first-IsReplaced : (p r s : Str) → count p s ≢ 0 → IsReplaced p r s
unfolding count count_from replace_first
replace_first-IsReplaced p r [] h = elim (Bool-cases (is_empty p)) [
  | inl empty ↦ ([], [], rw (is_empty→nil p empty) refl, rw empty (sym (append-nil r)))
  | inr full ↦ absurd (h (rw full refl))
]
replace_first-IsReplaced p r (x ∷ s) h = elim (Bool-cases (hits p x s)) [
  | inl hit ↦
      ([], drop (length p) (x ∷ s), starts_with-append p (x ∷ s) (ground arith), rw hit refl)
  | inr missed ↦
      let (pre, post, found, done) = replace_first-IsReplaced p r s (λ e. h (rw missed e)) in
      (x ∷ pre, post, ap (λ t. x ∷ t) found, rw missed (ap (λ t. x ∷ t) done))
]

-- What a single edit of a text comes to, by the matches of the text that is replaced: exactly one,
-- none, or several.
pub data IsSingle (old new text : Str) : Result CherubError (Str × ℕ) → Type 0 where
  one :
      (pre post : Str)
      → text ≡ pre ++ (old ++ post)
      → count old text ≡ 1
      → IsSingle old new text (ok (pre ++ (new ++ post), 1))
  several : (e : CherubError) → 2 ≤ count old text → IsSingle old new text (err e)

-- So with the fallback to normalized texts, where the text itself has no match.
pub data IsEdit (old new text : Str) : Result CherubError (Str × ℕ) → Type 0 where
  exact :
      (result : Result CherubError (Str × ℕ))
      → IsSingle old new text result
      → IsEdit old new text result
  fuzzy :
      (result : Result CherubError (Str × ℕ))
      → count old text ≡ 0
      → IsSingle (normalize_unicode old) new (normalize_unicode text) result
      → IsEdit old new text result
  unmatched :
      count old text ≡ 0
      → count (normalize_unicode old) (normalize_unicode text) ≡ 0
      → IsEdit old new text (err not_found)

substitute-IsSingle :
    (old new text how : Str)
    → count old text ≢ 0
    → IsSingle old new text (substitute old new false text (count old text) how)
unfolding substitute
substitute-IsSingle old new text how h = elim (Bool-cases (ltb 1 (count old text))) [
  | inl many ↦ rw many (several (ambiguous (count old text) how) (ground arith))
  | inr few ↦
      let (pre, post, found, done) = replace_first-IsReplaced old new text h in
      rw (few, done) (one pre post found (ground arith))
]

ne_zero : (n : ℕ) → (n == 0) ≡ false → n ≢ 0
ne_zero n h e = ground arith

apply_edit-IsEdit : (old new text : Str) → IsEdit old new text (apply_edit old new false text)
unfolding apply_edit
apply_edit-IsEdit old new text = elim (Bool-cases (count old text == 0)) [
  | inr found ↦
      rw found (exact _ (substitute-IsSingle old new text [] (ne_zero (count old text) found)))
  | inl none_exact ↦
      let m = count (normalize_unicode old) (normalize_unicode text) in
      elim (Bool-cases (m == 0)) [
        | inl none_fuzzy ↦ rw (none_exact, none_fuzzy) (unmatched (ground arith) (ground arith))
        | inr found ↦
            rw (none_exact, found)
              (fuzzy _ (ground arith) (
                substitute-IsSingle (normalize_unicode old) new (normalize_unicode text)
                  (lit " (after Unicode normalization)") (ne_zero m found)))
      ]
]

-- The byte order mark of a file, if it has one, and what follows it.
pub data IsMarked (content : Str) : Str → Str → Type 0 where
  marked : (body : Str) → content ≡ utf8_bom ++ body → IsMarked content utf8_bom body
  unmarked : starts_with utf8_bom content ≡ false → IsMarked content [] content

-- The text that is edited has LF line ends; an edited text gets CRLF at all of them if the file has
-- one anywhere.
abbrev pub text_of : Str → Str
text_of body = if contains crlf body then lf_ends body else body

abbrev pub ends_like : Str → Str → Str
ends_like body edited = if contains crlf body then crlf_ends edited else edited

-- What is written: the mark and the edited text.
abbrev pub written : Str → Str → Result CherubError (Str × ℕ) → Result CherubError (Str × ℕ)
written mark body (ok (edited, n)) = ok (mark ++ ends_like body edited, n)
written mark body (err e) = err e

-- An edit whose file has this mark and this body.
abbrev pub IsEditOf : Str → Str → Str → Str → Str → Type 0
IsEditOf old new content mark body =
    IsMarked content mark body
    × (result : Result CherubError (Str × ℕ)) × IsEdit (lf_ends old) (lf_ends new) (text_of body)
        result
    × (edit_text old new false content ≡ written mark body result)

normalized-text_of :
    (content body : Str) → without_bom content ≡ body → normalized content ≡ text_of body
unfolding normalized
normalized-text_of content body e =
    rw e (ap (λ t. if contains crlf body then t else body) (replace-lf_ends body))

restored-written :
    (content mark body : Str) (result : Result CherubError (Str × ℕ))
    → without_bom content ≡ body
    → ((edited : Str) → restore content edited ≡ mark ++ ends_like body edited)
    → restored content result ≡ written mark body result
restored-written content mark body (ok (edited, n)) e h = ap (λ t. ok (t, n)) (h edited)
restored-written content mark body (err failure) e h = refl

edit_text-IsEditOf :
    (old new content mark body : Str)
    → IsMarked content mark body
    → without_bom content ≡ body
    → ((edited : Str) → restore content edited ≡ mark ++ ends_like body edited)
    → IsEditOf old new content mark body
unfolding edit_text
edit_text-IsEditOf old new content mark body split e h =
    let result = apply_edit (lf_ends old) (lf_ends new) false (text_of body) in
    (
      split,
      result,
      apply_edit-IsEdit (lf_ends old) (lf_ends new) (text_of body),
      rw (replace-lf_ends old, replace-lf_ends new, normalized-text_of content body e)
          (restored-written content mark body result e h),
    )

without_bom-split :
    (content : Str) (mark : Bool)
    → starts_with utf8_bom content ≡ mark
    → without_bom content ≡ (if mark then drop 3 content else content)
unfolding without_bom
without_bom-split content mark h = ap (λ b. if b then drop 3 content else content) h

restore-ends_like :
    (content edited : Str) (mark : Bool)
    → starts_with utf8_bom content ≡ mark
    → restore content edited
      ≡ (if mark then utf8_bom else [])
        ++ ends_like (if mark then drop 3 content else content) edited
unfolding restore without_bom
restore-ends_like content edited true h = rw (h, replace-crlf_ends edited) refl
restore-ends_like content edited false h = rw (h, replace-crlf_ends edited) refl

-- An edit without `replace_all` writes the byte order mark that the file has, if any, and after it
-- the edited text, with CRLF for each LF if the file has a CRLF. The edited text is the file's text
-- before the one match of the old text, the new text, and the file's text after it; the file's text
-- is what follows the mark, and all three are taken with LF line ends. With several matches, or
-- none, it is an error. Where the text has no exact match the same holds of it and the old text
-- after Unicode normalization.
pub edit_text-IsEdit :
    (old new content : Str) → (mark : Str) × (body : Str) × IsEditOf old new content mark body
edit_text-IsEdit old new content = elim (Bool-cases (starts_with utf8_bom content)) [
  | inl has_bom ↦
      let body = drop 3 content in
      (
        utf8_bom,
        body,
        edit_text-IsEditOf old new content utf8_bom body
            (marked body (starts_with-append utf8_bom content has_bom))
            (without_bom-split content true has_bom)
            (λ edited. restore-ends_like content edited true has_bom),
      )
  | inr no_bom ↦ (
    [],
    content,
    edit_text-IsEditOf old new content [] content (unmarked no_bom)
        (without_bom-split content false no_bom)
        (λ edited. restore-ends_like content edited false no_bom),
  )
]
