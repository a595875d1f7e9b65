-- ===== src/Tools/Path/Containment.antt =====
-- tools/path.rs, `resolve_workspace_path`: where a resolved path lies.
use cherub.Base.{
  true, false, ◌≡◌, refl, ap, ◌∙◌, ◌⊎◌, inl, inr, Bool-cases, Option, none, some, [], ◌∷◌, ◌++◌,
  any, arith,
}
use cherub.Base.Bytes.{Str, str_eq→eq}
use cherub.Base.Result.{Result, ok, err, ok_or, >>=-eq-ok}
use cherub.Providers.{CherubError}
use cherub.Tools.Path.{
  Component, root_dir, cur_dir, parent_dir, normal, PathBuf, Components, components, component_eq,
  starts_with, join, parent, file_name, is_climbing, is_safe_relative_path, FileSystem, failure,
  parent_text, path_text, root_text, no_name, no_parent, canonical_parent, canonical_path, contain,
  resolve_workspace_path,
}

component_eq→eq : (p q : Component) → component_eq p q ≡ true → p ≡ q
component_eq→eq root_dir root_dir h = refl
component_eq→eq cur_dir cur_dir h = refl
component_eq→eq parent_dir parent_dir h = refl
component_eq→eq (normal s) (normal t) h = ap normal (str_eq→eq s t h)
component_eq→eq root_dir cur_dir h = cc
component_eq→eq root_dir parent_dir h = cc
component_eq→eq root_dir (normal t) h = cc
component_eq→eq cur_dir root_dir h = cc
component_eq→eq cur_dir parent_dir h = cc
component_eq→eq cur_dir (normal t) h = cc
component_eq→eq parent_dir root_dir h = cc
component_eq→eq parent_dir cur_dir h = cc
component_eq→eq parent_dir (normal t) h = cc
component_eq→eq (normal s) root_dir h = cc
component_eq→eq (normal s) cur_dir h = cc
component_eq→eq (normal s) parent_dir h = cc

-- The path lies in the directory.
abbrev pub IsWithin : Components → Components → Type 0
IsWithin dir path = (rest : Components) × (path ≡ dir ++ rest)

starts_with-IsWithin : (path dir : Components) → starts_with path dir ≡ true → IsWithin dir path
starts_with-IsWithin path [] h = (path, refl)
starts_with-IsWithin [] (c ∷ dir) h = cc
starts_with-IsWithin (p ∷ path) (c ∷ dir) h =
    let same : p ≡ c = component_eq→eq p c (ground arith) in
    let (rest, e) = starts_with-IsWithin path dir (ground arith) in
    (rest, ap (λ q. q ∷ path) same ∙ ap (λ t. c ∷ t) e)

-- The canonical form that a path is given: its own, if it exists, or else that of its parent with
-- its last name.
abbrev pub IsCanonical : FileSystem → PathBuf → PathBuf → Type 0
IsCanonical fs joined canonical =
    ((fs.exists joined ≡ true) × (fs.canonicalize joined ≡ ok canonical))
    ⊎ ((fs.exists joined ≡ false)
        × (dir : PathBuf) × (name : Str) × (base : PathBuf) × (parent joined ≡ some dir)
        × (fs.exists dir ≡ true)
        × (file_name (components joined) ≡ some name)
        × (fs.canonicalize dir ≡ ok base)
        × (canonical ≡ join base name))

failure-ok : {A : Type 0} (what : Str) (r : Result Str A) (a : A) → failure what r ≡ ok a → r ≡ ok a
failure-ok what (ok b) a h = cc
failure-ok what (err e) a h = cc

ok_or-ok : {A : Type 0} (e : CherubError) (o : Option A) (a : A) → ok_or e o ≡ ok a → o ≡ some a
ok_or-ok e none a h = cc
ok_or-ok e (some b) a h = cc

canonical_parent-ok :
    (fs : FileSystem) (joined dir canonical : PathBuf)
    → canonical_parent fs joined dir ≡ ok canonical
    → (name : Str) × (base : PathBuf) × (fs.exists dir ≡ true)
      × (file_name (components joined) ≡ some name)
      × (fs.canonicalize dir ≡ ok base)
      × (canonical ≡ join base name)
unfolding canonical_parent
canonical_parent-ok fs joined dir canonical h = elim (Bool-cases (fs.exists dir)) [
  | inl there ↦
      let (base, e1, h1) =
        >>=-eq-ok (failure parent_text (fs.canonicalize dir)) _ (rw there at h) in
      let (name, e2, h2) = >>=-eq-ok (ok_or no_name (file_name (components joined))) _ h1 in
      let ends : ◌≡◌ {A = Result CherubError PathBuf} (ok (join base name)) (ok canonical) = h2 in
      (
        name,
        base,
        there,
        ok_or-ok no_name (file_name (components joined)) name e2,
        failure-ok parent_text (fs.canonicalize dir) base e1,
        cc,
      )
  | inr missing ↦ let h' : err _ ≡ ok canonical = rw missing at h in cc
]

canonical_path-IsCanonical :
    (fs : FileSystem) (joined canonical : PathBuf)
    → canonical_path fs joined ≡ ok canonical
    → IsCanonical fs joined canonical
unfolding canonical_path
canonical_path-IsCanonical fs joined canonical h = elim (Bool-cases (fs.exists joined)) [
  | inl there ↦ inl (there, failure-ok path_text (fs.canonicalize joined) canonical (rw there at h))
  | inr missing ↦
      let (dir, e1, h1) = >>=-eq-ok (ok_or no_parent (parent joined)) _ (rw missing at h) in
      let (name, base, parent_there, named, resolved, same) =
        canonical_parent-ok fs joined dir canonical h1 in
      inr (
        missing,
        dir,
        name,
        base,
        ok_or-ok no_parent (parent joined) dir e1,
        parent_there,
        named,
        resolved,
        same,
      )
]

contain-IsWithin :
    (root canonical resolved : PathBuf)
    → contain root canonical ≡ ok resolved
    → (canonical ≡ resolved) × IsWithin (components root) (components resolved)
unfolding contain
contain-IsWithin root canonical resolved h =
    elim (Bool-cases (starts_with (components canonical) (components root))) [
      | inl within ↦
          let h' : ◌≡◌ {A = Result CherubError PathBuf} (ok canonical) (ok resolved) =
            rw within at h in
          let same : canonical ≡ resolved = cc in
          (same, rw (← same) (starts_with-IsWithin (components canonical) (components root) within))
      | inr outside ↦ let h' : err _ ≡ ok resolved = rw outside at h in cc
    ]

is_safe_relative_path-climbing :
    (path : Str) → is_safe_relative_path path ≡ true → any is_climbing (components path) ≡ false
unfolding is_safe_relative_path
is_safe_relative_path-climbing path h = ground arith

-- If a path is resolved against the workspace root, then no component of it is `..` or the root
-- directory, the root has a canonical form, and the components of the resolved path begin with those
-- of that. It is the canonical form of the joined path if that exists, and else the canonical form of
-- its parent directory, which exists, joined with its last name, which may be a link.
pub resolve_workspace_path-IsWithin :
    (fs : FileSystem) (root : PathBuf) (path : Str) (resolved : PathBuf)
    → resolve_workspace_path fs root path ≡ ok resolved
    → (any is_climbing (components path) ≡ false)
      × (canonical_root : PathBuf) × (fs.canonicalize root ≡ ok canonical_root)
      × IsWithin (components canonical_root) (components resolved)
      × IsCanonical fs (join root path) resolved
unfolding resolve_workspace_path
resolve_workspace_path-IsWithin fs root path resolved h =
    elim (Bool-cases (is_safe_relative_path path)) [
      | inl safe ↦
          let joined = join root path in
          let (canonical, e1, h1) = >>=-eq-ok (canonical_path fs joined) _ (rw safe at h) in
          let (canonical_root, e2, h2) =
            >>=-eq-ok (failure root_text (fs.canonicalize root)) _ h1 in
          let (same, within) = contain-IsWithin canonical_root canonical resolved h2 in
          (
            is_safe_relative_path-climbing path safe,
            canonical_root,
            failure-ok root_text (fs.canonicalize root) canonical_root e2,
            within,
            canonical_path-IsCanonical fs joined resolved (e1 ∙ ap ok same),
          )
      | inr unsafe ↦ let h' : err _ ≡ ok resolved = rw unsafe at h in cc
    ]
