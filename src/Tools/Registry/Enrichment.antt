-- ===== src/Tools/Registry/Enrichment.antt =====
-- tools/mod.rs: the parameters of an MCP tool, as the policy sees them.
use cherub.Base.{false, ◌≡◌, ◌≢◌, refl, some, List, [], ◌∷◌, ◌++◌, arith, is_empty}
use cherub.Base.Bytes.{Str, lit}
use cherub.Json.{Value, Map, object, get, get_str, get_key-insert}
use cherub.Enforcement.Policy.{mcp_structured}
use cherub.Enforcement.Extraction.{extract, field}
use cherub.Tools.Registry.{ToolImpl, mcp, find_tool, enforcement_name, enrich_params, insert_mcp}

module _ {N : Type 0} where
  insert_mcp-fields :
      (server tool : Str) (m : Map N)
      → (get_str (insert_mcp server tool (object m)) (lit "__mcp_server") ≡ some server)
        × (get_str (insert_mcp server tool (object m)) (lit "__mcp_tool") ≡ some tool)
  unfolding insert_mcp get_str get
  insert_mcp-fields server tool m = (simp get_key-insert, simp get_key-insert)

  extract-fields :
      (params : Value N) (server tool : Str)
      → get_str params (lit "__mcp_server") ≡ some server
      → get_str params (lit "__mcp_tool") ≡ some tool
      → is_empty server ≡ false
      → is_empty tool ≡ false
      → extract mcp_structured params ≡ some ((server ++ (b':' ∷ tool)) ∷ [])
  unfolding extract field
  extract-fields params server tool es et hs ht = rw es (rw hs (rw et (rw ht refl)))

  -- Whatever object an agent sends to a registered MCP tool, with a server and a tool whose names are
  -- not empty, the action that the policy is asked
  -- about is the registered server and tool, under the server's policy name.
  pub extract-enrich_params :
      (tools : List ToolImpl) (name composite server tool : Str) (m : Map N)
      → find_tool tools name ≡ some (mcp composite server tool)
      → server ≢ []
      → tool ≢ []
      → (enforcement_name tools name ≡ server)
        × (extract mcp_structured (enrich_params tools name (object m))
            ≡ some ((server ++ (b':' ∷ tool)) ∷ []))
  unfolding enforcement_name enrich_params
  extract-enrich_params tools name composite server tool m found s t =
      let (es, et) = insert_mcp-fields server tool m in
      let hs : is_empty server ≡ false = ground arith in
      let ht : is_empty tool ≡ false = ground arith in
      (
        rw found,
        rw found (extract-fields (insert_mcp server tool (object m)) server tool es et hs ht),
      )
