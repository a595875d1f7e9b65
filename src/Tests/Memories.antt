-- ===== src/Tests/Memories.antt =====
-- The memory tool.
use cherub.Base.{ℕ, ◌≡◌, refl, none, some, List, [], ◌∷◌, ◌++◌, All}
use cherub.Base.Bytes.{lit}
use cherub.Base.Result.{ok, err}
use cherub.Json.{Value, string, object, entry, end}
use cherub.Storage.{fact, explicit, MemoryScope}
use cherub.Runtime.Output.{ToolContext}
use cherub.Tools.Memory.{StoreCall, store, Backend, Run, execute}
use cherub.Tools.Memory.Provenance.{IsFor, execute-IsFor}

-- The store has nothing and takes everything.
abbrev toy_backend : Backend ℕ ℕ
toy_backend = record {
  World = ℕ;
  Limit = ℕ;
  five = 5;
  as_i64 = λ n. some n;
  parse_uuid = λ s. err (lit "no id");
  uuid_text = λ id. lit "id";
  do_store = λ memory world. (ok world, world);
  do_recall = λ filter world. (ok [], world);
  do_search = λ query scope user_id limit world. (ok [], world);
  do_update = λ id changes world. (ok id, world);
  do_forget = λ id world. (ok tt, world);
  do_touch = λ id world. world;
}

abbrev context : ToolContext
context = record { user_id = lit "ann"; session_id = 7; turn_number = 3 }

abbrev fresh : Run toy_backend
fresh = record { world = 0; calls = [] }

-- A call that claims another user.
abbrev claimed : Value ℕ
claimed = object (
    entry (lit "action") (string (lit "store")) (
      entry (lit "category") (string (lit "fact")) (
        entry (lit "content") (string (lit "x")) (
          entry (lit "path") (string (lit "p")) (entry (lit "user_id") (string (lit "bob")) end)))))

claimed_runs :
    (execute toy_backend claimed context fresh).1.calls
    ≡ store (record {
      user_id = lit "ann";
      scope = MemoryScope.user;
      category = fact;
      path = lit "p";
      content = lit "x";
      structured = none;
      source_session_id = some 7;
      source_turn_number = some 3;
      source_type = explicit;
      confidence = none;
    })
      ∷ []
unfolding execute cherub.Json.get_str cherub.Storage.parse_memory_scope
    cherub.Storage.parse_category cherub.Storage.parse_source
claimed_runs = refl

execute-IsFor_example :
    (made : List (StoreCall ℕ ℕ)) × ((execute toy_backend claimed context fresh).1.calls
      ≡ [] ++ made)
    × All (IsFor context) made
execute-IsFor_example = execute-IsFor toy_backend context claimed fresh
