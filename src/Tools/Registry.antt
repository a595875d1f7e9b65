-- ===== src/Tools/Registry.antt =====
-- tools/mod.rs: which tools there are, how they are found, and what is added to the parameters of
-- MCP tools before enforcement.
pub mod Enrichment
use cherub.Base.{Bool, true, false, Option, none, some, List, [], ◌∷◌, find}
use cherub.Base.Bytes.{Str, lit, str_eq}
use cherub.Json.{Value, string, object, array, null, bool, number, insert}

-- `ToolImpl`, with the names that it is found by.
pub data ToolImpl : Type 0 where
  bash file memory http dev_environment : ToolImpl
  wasm container : Str → ToolImpl
  mcp : Str → Str → Str → ToolImpl

-- `ToolImpl::name`; an MCP tool has a composite name, a server and a tool.
unfoldable pub name : ToolImpl → Str
name bash = lit "bash"
name file = lit "file"
name memory = lit "memory"
name http = lit "http"
name dev_environment = lit "dev_environment"
name (wasm module_name) = module_name
name (container tool_name) = tool_name
name (mcp composite_name server_name tool_name) = composite_name

-- `ToolRegistry::find`, over the registered tools in their order.
unfoldable pub find_tool : List ToolImpl → Str → Option ToolImpl
unfolding name
find_tool tools tool_name = find (λ t. str_eq (name t) tool_name) tools

unfoldable pub name_for : Option ToolImpl → Str → Str
name_for (some (mcp composite_name server_name mcp_tool)) tool_name = server_name
name_for none tool_name = tool_name
name_for (some _) tool_name = tool_name

-- `ToolRegistry::enforcement_name`.
unfoldable pub enforcement_name : List ToolImpl → Str → Str
unfolding name_for
enforcement_name tools tool_name = name_for (find_tool tools tool_name) tool_name

module _ {N : Type 0} where
  -- The two insertions, into what is an object.
  unfoldable pub insert_mcp : Str → Str → Value N → Value N
  insert_mcp server_name tool_name (object m) = object (
      insert (lit "__mcp_tool") (string tool_name)
        (insert (lit "__mcp_server") (string server_name) m))
  insert_mcp server_name tool_name null = null
  insert_mcp server_name tool_name v = v

  unfoldable pub enrich_for : Option ToolImpl → Value N → Value N
  enrich_for (some (mcp composite_name server_name tool_name)) params =
      insert_mcp server_name tool_name params
  enrich_for none params = params
  enrich_for (some _) params = params

  -- `ToolRegistry::enrich_params`.
  unfoldable pub enrich_params : List ToolImpl → Str → Value N → Value N
  unfolding enrich_for
  enrich_params tools tool_name params = enrich_for (find_tool tools tool_name) params
