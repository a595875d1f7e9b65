-- ===== src/Tools/Memory.antt =====
-- tools/memory.rs: the memory tool. Each action makes one call of the store, which is first formed
-- from the parameters; the store is given.
pub mod Provenance
use cherub.Base.{ℕ, Bool, Option, none, some, List, [], ◌∷◌, ◌++◌, map, if◌then◌else◌}
use cherub.Base.Bytes.{Str, lit, str_eq}
use cherub.Base.Result.{Result, ok, err, ◌>>=◌, ok_or}
use cherub.Json.{Value, number, null, get, get_str}
use cherub.Providers.{CherubError, invalid_invocation}
use cherub.Storage.{
  Memory, NewMemory, MemoryCategory, MemoryScope, SourceType, parse_category, parse_source,
  parse_memory_scope, scope_str,
}
use cherub.Runtime.Output.{ToolContext}
use cherub.Runtime.Prompt.{join, newline}

-- `MemoryFilter` and `MemoryUpdate`; L is the type of limits. The confidence is a number as in
-- `NewMemory`.
pub record MemoryFilter (L : Type 0) : Type 0 where
  pub scope : Option MemoryScope
  pub category : Option MemoryCategory
  pub path_prefix : Option Str
  pub user_id : Option Str
  pub limit : Option L

pub record MemoryUpdate (N : Type 0) : Type 0 where
  pub content : Option Str
  pub structured : Option (Value N)
  pub confidence : Option N

-- A call of the store.
pub data StoreCall (N L : Type 0) : Type 0 where
  store : NewMemory N → StoreCall N L
  recall : MemoryFilter L → StoreCall N L
  search : Str → Option MemoryScope → Option Str → L → StoreCall N L
  update : ℕ → MemoryUpdate N → StoreCall N L
  forget : ℕ → StoreCall N L
  touch : ℕ → StoreCall N L

-- What the tool calls and cannot see into: the store, Uuids with the texts of their errors, and
-- `as_i64` of a number.
pub record Backend (N F : Type 0) : Type 1 where
  pub World : Type 0
  pub Limit : Type 0
  pub five : Limit
  pub as_i64 : N → Option Limit
  pub parse_uuid : Str → Result Str ℕ
  pub uuid_text : ℕ → Str
  pub do_store : NewMemory N → World → Result CherubError ℕ × World
  pub do_recall : MemoryFilter Limit → World → Result CherubError (List (Memory F)) × World
  pub do_search :
      Str
      → Option MemoryScope
      → Option Str
      → Limit
      → World
      → Result CherubError (List (Memory F)) × World
  pub do_update : ℕ → MemoryUpdate N → World → Result CherubError ℕ × World
  pub do_forget : ℕ → World → Result CherubError Unit × World
  pub do_touch : ℕ → World → World

abbrev pub required : Str → Str → Str
required action field = action ++ lit " requires '" ++ field ++ lit "'"

-- A name that is parsed, with what the error calls it.
abbrev pub parse_or : {A : Type 0} → Str → (Str → Option A) → Str → Result CherubError A
parse_or what parse s =
    ok_or (invalid_invocation (lit "storage error: unknown " ++ what ++ lit ": " ++ s)) (parse s)

abbrev pub default_to : Str → Option Str → Str
default_to s none = s
default_to s (some t) = t

-- `option.map(parse).transpose()`.
abbrev pub traverse :
    {A : Type 0} → (Str → Result CherubError A) → Option Str → Result CherubError (Option A)
traverse parse none = ok none
traverse parse (some s) = parse s >>= (λ a. ok (some a))

-- The number of a value, if it is one.
abbrev pub number_of : {N : Type 0} → Option (Value N) → Option N
number_of (some (number n)) = some n
number_of (some null) = none
number_of (some _) = none
number_of none = none

abbrev pub limit_of : {N L : Type 0} → (N → Option L) → Option N → Option L
limit_of as_i64 none = none
limit_of as_i64 (some n) = as_i64 n

module _ {N : Type 0} where
  unfoldable pub parse_scope : Value N → Result CherubError MemoryScope
  parse_scope params =
      parse_or (lit "memory scope") parse_memory_scope
        (default_to (lit "user") (get_str params (lit "scope")))

  -- `if params.get("scope").is_some() { Some(parse_scope(params)?) } else { None }`.
  scope_if : Option (Value N) → Value N → Result CherubError (Option MemoryScope)
  unfolding parse_scope
  scope_if none params = ok none
  scope_if (some v) params = parse_scope params >>= (λ scope. ok (some scope))

  unfoldable pub scope_param : Value N → Result CherubError (Option MemoryScope)
  unfolding scope_if
  scope_param params = scope_if (get params (lit "scope")) params

  unfoldable pub require : Value N → Str → Str → Result CherubError Str
  require params action field =
      ok_or (invalid_invocation (required action field)) (get_str params field)

module _ {N F : Type 0} (b : Backend N F) where
  unfoldable pub op_store : Value N → ToolContext → Result CherubError (StoreCall N b.Limit)
  unfolding require parse_scope
  op_store params ctx = require params (lit "store") (lit "content") >>= (λ content.
      require params (lit "store") (lit "category") >>= (λ category_str.
        require params (lit "store") (lit "path") >>= (λ path. parse_scope params >>= (λ scope.
          parse_or (lit "memory category") parse_category category_str >>= (λ category.
            parse_or (lit "source type") parse_source
              (default_to (lit "explicit") (get_str params (lit "source_type")))
            >>= (λ source_type. ok (
                store (record {
                  user_id = ctx.user_id;
                  scope = scope;
                  category = category;
                  path = path;
                  content = content;
                  structured = get params (lit "structured");
                  source_session_id = some ctx.session_id;
                  source_turn_number = some ctx.turn_number;
                  source_type = source_type;
                  confidence = number_of (get params (lit "confidence"));
                }))))))))

  unfoldable pub op_recall : Value N → ToolContext → Result CherubError (StoreCall N b.Limit)
  unfolding scope_param
  op_recall params ctx = scope_param params >>= (λ scope.
      traverse (parse_or (lit "memory category") parse_category) (get_str params (lit "category"))
      >>= (λ category. ok (
          recall (record {
            scope = scope;
            category = category;
            path_prefix = get_str params (lit "path");
            user_id = some ctx.user_id;
            limit = limit_of b.as_i64 (number_of (get params (lit "limit")));
          }))))

  abbrev limit_or : b.Limit → Option b.Limit → b.Limit
  limit_or default none = default
  limit_or default (some n) = n

  unfoldable pub op_search : Value N → ToolContext → Result CherubError (StoreCall N b.Limit)
  unfolding require scope_param
  op_search params ctx = require params (lit "search") (lit "query") >>= (λ query.
      scope_param params >>= (λ scope. ok (
        search query scope (some ctx.user_id)
          (limit_or b.five (limit_of b.as_i64 (number_of (get params (lit "limit"))))))))

  abbrev pub parsed_id : Result Str ℕ → Result CherubError ℕ
  parsed_id (ok id) = ok id
  parsed_id (err e) = err (invalid_invocation (lit "invalid memory id: " ++ e))

  unfoldable pub op_update : Value N → Result CherubError (StoreCall N b.Limit)
  unfolding require
  op_update params = require params (lit "update") (lit "id") >>= (λ id_str.
      parsed_id (b.parse_uuid id_str) >>= (λ id. ok (
        update id (record {
          content = get_str params (lit "content");
          structured = get params (lit "structured");
          confidence = number_of (get params (lit "confidence"));
        }))))

  unfoldable pub op_forget : Value N → Result CherubError (StoreCall N b.Limit)
  unfolding require
  op_forget params =
      require params (lit "forget") (lit "id")
      >>= (λ id_str. parsed_id (b.parse_uuid id_str) >>= (λ id. ok (forget id)))

  -- `match action`.
  unfoldable pub dispatch : Str → Value N → ToolContext → Result CherubError (StoreCall N b.Limit)
  unfolding op_store op_recall op_search op_update op_forget
  dispatch action params ctx =
      if str_eq action (lit "store")
      then op_store params ctx
      else if str_eq action (lit "recall")
      then op_recall params ctx
      else if str_eq action (lit "search")
      then op_search params ctx
      else if str_eq action (lit "update")
      then op_update params
      else if str_eq action (lit "forget")
      then op_forget params
      else err (invalid_invocation (lit "unknown memory action: " ++ action))

  -- The world with the calls that were made.
  pub record Run : Type 0 where
    pub world : b.World
    pub calls : List (StoreCall N b.Limit)

  abbrev pub memory_line : Memory F → Str
  memory_line m =
      lit "["
      ++ b.uuid_text m.id
      ++ lit "] ("
      ++ scope_str m.scope
      ++ lit ") "
      ++ m.path
      ++ lit ": "
      ++ m.content

  unfoldable pub touch_recalled : List (Memory F) → Run → Run
  touch_recalled [] run = run
  touch_recalled (m ∷ memories) run =
      touch_recalled memories
        (record { world = b.do_touch m.id run.world; calls = run.calls ++ touch m.id ∷ [] })

  unfoldable pub after_recall :
      Result CherubError (List (Memory F)) → Run → Result CherubError Str × Run
  unfolding touch_recalled
  after_recall (err e) run = (err e, run)
  after_recall (ok []) run = (ok (lit "no memories found"), run)
  after_recall (ok (m ∷ memories)) run =
      (ok (join newline (map memory_line (m ∷ memories))), touch_recalled (m ∷ memories) run)

  unfoldable pub after_search : Result CherubError (List (Memory F)) → Result CherubError Str
  after_search (err e) = err e
  after_search (ok []) = ok (lit "no results")
  after_search (ok (m ∷ memories)) = ok (join newline (map memory_line (m ∷ memories)))

  abbrev said : {A : Type 0} → (A → Str) → Result CherubError A → Result CherubError Str
  said f (ok a) = ok (f a)
  said f (err e) = err e

  -- The call of the store, and what the tool says of its result.
  unfoldable pub perform : StoreCall N b.Limit → Run → Result CherubError Str × Run
  unfolding after_recall after_search
  perform (store memory) run =
      let (result, world) = b.do_store memory run.world in
      (
        said (λ id. lit "stored: " ++ b.uuid_text id) result,
        record { world = world; calls = run.calls ++ store memory ∷ [] },
      )
  perform (recall filter) run =
      let (result, world) = b.do_recall filter run.world in
      after_recall result (record { world = world; calls = run.calls ++ recall filter ∷ [] })
  perform (search query scope user_id limit) run =
      let (result, world) = b.do_search query scope user_id limit run.world in
      (
        after_search result,
        record { world = world; calls = run.calls ++ search query scope user_id limit ∷ [] },
      )
  perform (update id changes) run =
      let (result, world) = b.do_update id changes run.world in
      (
        said
            (λ new_id.
              lit "updated: "
              ++ b.uuid_text new_id
              ++ lit " (supersedes "
              ++ b.uuid_text id
              ++ lit ")")
            result,
        record { world = world; calls = run.calls ++ update id changes ∷ [] },
      )
  perform (forget id) run =
      let (result, world) = b.do_forget id run.world in
      (
        said (λ _. lit "forgotten: " ++ b.uuid_text id) result,
        record { world = world; calls = run.calls ++ forget id ∷ [] },
      )
  perform (touch id) run =
      (ok [], record { world = b.do_touch id run.world; calls = run.calls ++ touch id ∷ [] })

  unfoldable pub perform_formed :
      Result CherubError (StoreCall N b.Limit) → Run → Result CherubError Str × Run
  unfolding perform
  perform_formed (err e) run = (err e, run)
  perform_formed (ok call) run = perform call run

  unfoldable pub execute : Value N → ToolContext → Run → Result CherubError Str × Run
  unfolding perform_formed dispatch
  execute params ctx run =
      perform_formed
        (ok_or (invalid_invocation (lit "memory tool requires 'action'"))
            (get_str params (lit "action"))
          >>= (λ action. dispatch action params ctx))
        run
