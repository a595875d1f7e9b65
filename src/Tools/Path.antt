-- ===== src/Tools/Path.antt =====
-- tools/path.rs: paths within the workspace. A path is its bytes, since the file system tells `a/`
-- from `a`; std::path compares paths by their components. The file system is given.
pub mod Containment
use cherub.Base.{
  ℕ, min, Bool, true, false, Option, none, some, List, [], ◌∷◌, ◌++◌, not, ◌&&◌, ◌||◌,
  if◌then◌else◌, ◌==◌, is_empty, length, take, any, map,
}
use mathlib.Core.List.{reverse}
use cherub.Base.Bytes.{Str, lit, str_eq}
use cherub.Base.Result.{Result, ok, err, ◌>>=◌, ok_or}
use cherub.Providers.{CherubError, tool_execution}

-- std::path::Component.
pub data Component : Type 0 where
  root_dir cur_dir parent_dir : Component
  normal : Str → Component

abbrev pub PathBuf : Type 0
PathBuf = Str

abbrev pub Components : Type 0
Components = List Component

abbrev pub starts_with_slash : Str → Bool
starts_with_slash [] = false
starts_with_slash (b ∷ s) = b == 47

-- The bytes before the first `/`, for each of the parts between slashes.
abbrev pub split_slash : Str → List Str
split_slash [] = [] ∷ []
split_slash (b ∷ s) = let parts = split_slash s in if b == 47 then [] ∷ parts else extend b parts
  where
    extend : ℕ → List Str → List Str
    extend byte [] = (byte ∷ []) ∷ []
    extend byte (part ∷ parts) = (byte ∷ part) ∷ parts

-- The component of a part; an empty part is none, and so is `.` where it is not the first.
abbrev pub component_of : Str → Option Component
component_of part =
    if is_empty part
    then none
    else if str_eq part (lit ".")
    then none
    else if str_eq part (lit "..")
    then some parent_dir
    else some (normal part)

abbrev pub keep_some : List (Option Component) → Components
keep_some [] = []
keep_some (none ∷ cs) = keep_some cs
keep_some (some c ∷ cs) = c ∷ keep_some cs

abbrev pub first_component : List Str → Components
first_component [] = []
first_component (part ∷ parts) = if str_eq part (lit ".") then cur_dir ∷ [] else []

-- `Path::new(path).components()`.
unfoldable pub components : Str → Components
components path =
    let parts = split_slash path in
    (if starts_with_slash path then root_dir ∷ [] else first_component parts)
    ++ keep_some (map component_of parts)

abbrev pub component_eq : Component → Component → Bool
component_eq root_dir root_dir = true
component_eq cur_dir cur_dir = true
component_eq parent_dir parent_dir = true
component_eq (normal s) (normal t) = str_eq s t
component_eq _ _ = false

-- `path.starts_with(base)`, by their components.
abbrev pub starts_with : Components → Components → Bool
starts_with path [] = true
starts_with [] (c ∷ base) = false
starts_with (p ∷ path) (c ∷ base) = component_eq p c && starts_with path base

abbrev pub ends_in_slash : Str → Bool
ends_in_slash [] = false
ends_in_slash (b ∷ []) = b == 47
ends_in_slash (b ∷ (d ∷ s)) = ends_in_slash (d ∷ s)

-- `root.join(path)`: an absolute path replaces the root.
unfoldable pub join : PathBuf → PathBuf → PathBuf
join root path =
    if starts_with_slash path
    then path
    else if is_empty root || ends_in_slash root
    then root ++ path
    else root ++ b'/' ∷ path

-- The part at the start that is a component although it is empty, for the root, or `.`; the parts
-- that follow it.
abbrev pub lead_of : Bool → List Str → List Str
lead_of rooted [] = []
lead_of rooted (part ∷ parts) = if rooted || str_eq part (lit ".") then part ∷ [] else []

abbrev pub body_of : Bool → List Str → List Str
body_of rooted [] = []
body_of rooted (part ∷ parts) = if rooted || str_eq part (lit ".") then parts else part ∷ parts

-- From the end, the parts that are no components are skipped.
abbrev pub trim : List Str → List Str
trim [] = []
trim (part ∷ parts) =
    let rest = trim parts in if is_empty part || str_eq part (lit ".") then rest else part ∷ parts

abbrev pub path_of : List Str → PathBuf
path_of [] = []
path_of ([] ∷ []) = lit "/"
path_of (part ∷ []) = part
path_of (part ∷ (next ∷ parts)) = part ++ b'/' ∷ path_of (next ∷ parts)

abbrev pub parent_from : List Str → List Str → Option PathBuf
parent_from [] [] = none
parent_from (part ∷ parts) [] = if str_eq part (lit ".") then some [] else none
parent_from lead (last ∷ others) = some (path_of (lead ++ reverse (trim others)))

-- `path.parent()`: the path before its last component.
unfoldable pub parent : PathBuf → Option PathBuf
parent path =
    let rooted = starts_with_slash path in
    let parts = split_slash path in
    parent_from (lead_of rooted parts) (trim (reverse (body_of rooted parts)))

-- `path.file_name()`, from its components.
abbrev pub file_name : Components → Option Str
file_name [] = none
file_name (normal s ∷ []) = some s
file_name (c ∷ []) = none
file_name (c ∷ (d ∷ path)) = file_name (d ∷ path)

abbrev pub is_climbing : Component → Bool
is_climbing parent_dir = true
is_climbing root_dir = true
is_climbing cur_dir = false
is_climbing (normal s) = false

unfoldable pub is_safe_relative_path : Str → Bool
unfolding components
is_safe_relative_path path =
    if is_empty path
    then false
    else if starts_with_slash path
    then false
    else if any (λ b. b == 0) path
    then false
    else not (any is_climbing (components path))

-- What the file system answers: whether a path exists, and its canonical form or an error's text.
pub record FileSystem : Type 0 where
  pub exists : PathBuf → Bool
  pub canonicalize : PathBuf → Result Str PathBuf

abbrev pub parent_text : Str
parent_text = lit "failed to resolve parent: "

abbrev pub path_text : Str
path_text = lit "failed to resolve path: "

abbrev pub root_text : Str
root_text = lit "failed to resolve workspace root: "

abbrev pub no_name : CherubError
no_name = tool_execution (lit "path has no file name")

abbrev pub no_parent : CherubError
no_parent = tool_execution (lit "path has no parent directory")

abbrev pub failure : {A : Type 0} → Str → Result Str A → Result CherubError A
failure what (ok a) = ok a
failure what (err e) = err (tool_execution (what ++ e))

unfoldable pub canonical_parent : FileSystem → PathBuf → PathBuf → Result CherubError PathBuf
unfolding components join
canonical_parent fs joined dir =
    if fs.exists dir
    then failure parent_text (fs.canonicalize dir) >>= (λ canonical.
      ok_or no_name (file_name (components joined)) >>= (λ name. ok (join canonical name)))
    else err (tool_execution (lit "parent directory does not exist"))

-- The canonical form of the path, or for what does not exist that of its parent with the name.
unfoldable pub canonical_path : FileSystem → PathBuf → Result CherubError PathBuf
unfolding canonical_parent parent
canonical_path fs joined =
    if fs.exists joined
    then failure path_text (fs.canonicalize joined)
    else ok_or no_parent (parent joined) >>= (λ dir. canonical_parent fs joined dir)

unfoldable pub contain : PathBuf → PathBuf → Result CherubError PathBuf
unfolding components
contain canonical_root canonical =
    if starts_with (components canonical) (components canonical_root)
    then ok canonical
    else err (tool_execution (lit "path escapes workspace root"))

unfoldable pub resolve_workspace_path : FileSystem → PathBuf → Str → Result CherubError PathBuf
unfolding is_safe_relative_path canonical_path contain join
resolve_workspace_path fs workspace_root path =
    if is_safe_relative_path path
    then canonical_path fs (join workspace_root path) >>= (λ canonical.
      failure root_text (fs.canonicalize workspace_root)
      >>= (λ canonical_root. contain canonical_root canonical))
    else err (tool_execution (lit "path must be relative and must not contain '..' or null bytes"))

-- Whether there is a null byte in the first 8 KiB.
unfoldable pub is_binary_content : Str → Bool
is_binary_content data_ = any (λ b. b == 0) (take (min (length data_) 8192) data_)
