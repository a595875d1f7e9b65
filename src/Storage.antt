-- ===== src/Storage.antt =====
-- storage/mod.rs: the types of memories and of usage rows that the runtime hands to its stores.
use cherub.Base.{ℕ, Option, none, some, if◌then◌else◌}
use cherub.Base.Bytes.{Str, lit, str_eq}
use cherub.Json.{Value}

pub data MemoryScope : Type 0 where
  agent user working : MemoryScope

pub data MemoryCategory : Type 0 where
  preference fact instruction identity observation : MemoryCategory

-- `MemoryCategory::from_str`; none stands for its error.
unfoldable pub parse_category : Str → Option MemoryCategory
parse_category s =
    if str_eq s (lit "preference")
    then some preference
    else if str_eq s (lit "fact")
    then some fact
    else if str_eq s (lit "instruction")
    then some instruction
    else if str_eq s (lit "identity")
    then some identity
    else if str_eq s (lit "observation")
    then some observation
    else none

pub data SourceType : Type 0 where
  explicit confirmed inferred : SourceType

-- `SourceType::from_str`, and `MemoryScope::from_str` with `as_str`.
unfoldable pub parse_source : Str → Option SourceType
parse_source s =
    if str_eq s (lit "explicit")
    then some explicit
    else if str_eq s (lit "confirmed")
    then some confirmed
    else if str_eq s (lit "inferred")
    then some inferred
    else none

unfoldable pub parse_memory_scope : Str → Option MemoryScope
parse_memory_scope s =
    if str_eq s (lit "agent")
    then some agent
    else if str_eq s (lit "user")
    then some user
    else if str_eq s (lit "working")
    then some working
    else none

abbrev pub scope_str : MemoryScope → Str
scope_str agent = lit "agent"
scope_str user = lit "user"
scope_str working = lit "working"

abbrev pub source_str : SourceType → Str
source_str explicit = lit "explicit"
source_str confirmed = lit "confirmed"
source_str inferred = lit "inferred"

-- `Memory`, as far as the program reads it. The time is a number; F is the type of floats.
pub record Memory (F : Type 0) : Type 0 where
  pub id : ℕ
  pub scope : MemoryScope
  pub path : Str
  pub content : Str
  pub source_type : SourceType
  pub confidence : F
  pub created_at : ℕ

-- `NewMemory`. Its confidence is the number from which the float is converted; none is the default.
pub record NewMemory (N : Type 0) : Type 0 where
  pub user_id : Str
  pub scope : MemoryScope
  pub category : MemoryCategory
  pub path : Str
  pub content : Str
  pub structured : Option (Value N)
  pub source_session_id : Option ℕ
  pub source_turn_number : Option ℕ
  pub source_type : SourceType
  pub confidence : Option N

pub data CallType : Type 0 where
  inference summarization extraction : CallType

-- `NewTokenUsage`, without the cost.
pub record NewTokenUsage : Type 0 where
  pub session_id : ℕ
  pub user_id : Str
  pub turn_number : ℕ
  pub model_name : Str
  pub input_tokens : ℕ
  pub output_tokens : ℕ
  pub call_type : CallType
