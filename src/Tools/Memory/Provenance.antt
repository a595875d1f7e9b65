-- ===== src/Tools/Memory/Provenance.antt =====
-- tools/memory.rs: whose memories the tool stores and reads.
use cherub.Base.{
  ◌≡◌, refl, sym, ap, ◌∙◌, Bool, true, false, some, List, [], ◌∷◌, ◌++◌, append_assoc, append-nil,
  All, All-append, if◌then◌else◌,
}
use cherub.Base.Bytes.{Str, lit}
use cherub.Base.Result.{Result, ok, err, ◌>>=◌, ok_or}
use cherub.Json.{Value, get_str}
use cherub.Providers.{CherubError, invalid_invocation}
use cherub.Storage.{Memory, parse_category, parse_source}
use cherub.Runtime.Output.{ToolContext}
use cherub.Tools.Memory.{
  StoreCall, store, recall, search, update, forget, touch, Backend, op_store, op_recall, op_search,
  op_update, op_forget, require, parse_scope, parse_or, default_to, scope_param, traverse,
  parsed_id, dispatch, Run, touch_recalled, after_recall, perform, perform_formed, execute,
}

-- The call is on behalf of the user, the session and the turn of the context. An update, a removal
-- and a touch name a memory by its id only.
abbrev pub IsFor : {N L : Type 0} → ToolContext → StoreCall N L → Type 0
IsFor ctx (store memory) =
    (memory.user_id ≡ ctx.user_id)
    × (memory.source_session_id ≡ some ctx.session_id)
    × (memory.source_turn_number ≡ some ctx.turn_number)
IsFor ctx (recall filter) = filter.user_id ≡ some ctx.user_id
IsFor ctx (search query scope user_id limit) = user_id ≡ some ctx.user_id
IsFor ctx (update id changes) = Unit
IsFor ctx (forget id) = Unit
IsFor ctx (touch id) = Unit

-- A call of the store that is formed is for the context.
data Formed {N L : Type 0} (ctx : ToolContext) : Result CherubError (StoreCall N L) → Type 0 where
  formed : (call : StoreCall N L) → IsFor ctx call → Formed ctx (ok call)
  refused : (e : CherubError) → Formed ctx (err e)

module _ {N F : Type 0} (b : Backend N F) (ctx : ToolContext) where
  bind-Formed :
      {A : Type 0} (first : Result CherubError A)
      (next : A → Result CherubError (StoreCall N b.Limit))
      → ((a : A) → Formed ctx (next a))
      → Formed ctx (first >>= next)
  bind-Formed (ok a) next h = h a
  bind-Formed (err e) next h = refused e

  if-Formed :
      (test : Bool) (x y : Result CherubError (StoreCall N b.Limit))
      → Formed ctx x
      → Formed ctx y
      → Formed ctx (if test then x else y)
  if-Formed true x y hx hy = hx
  if-Formed false x y hx hy = hy

  op_store-Formed : (params : Value N) → Formed ctx (op_store b params ctx)
  unfolding op_store
  op_store-Formed params = bind-Formed (require params (lit "store") (lit "content")) _ (λ content.
      bind-Formed (require params (lit "store") (lit "category")) _ (λ category_str.
        bind-Formed (require params (lit "store") (lit "path")) _ (λ path.
          bind-Formed (parse_scope params) _ (λ scope.
            bind-Formed (parse_or (lit "memory category") parse_category category_str) _
              (λ category.
                bind-Formed
                  (parse_or (lit "source type") parse_source
                    (default_to (lit "explicit") (get_str params (lit "source_type"))))
                  _ (λ source_type. formed _ (refl, refl, refl)))))))

  op_recall-Formed : (params : Value N) → Formed ctx (op_recall b params ctx)
  unfolding op_recall
  op_recall-Formed params = bind-Formed (scope_param params) _ (λ scope.
      bind-Formed
        (traverse (parse_or (lit "memory category") parse_category)
          (get_str params (lit "category")))
        _ (λ category. formed _ refl))

  op_search-Formed : (params : Value N) → Formed ctx (op_search b params ctx)
  unfolding op_search
  op_search-Formed params =
      bind-Formed (require params (lit "search") (lit "query")) _
        (λ query. bind-Formed (scope_param params) _ (λ scope. formed _ refl))

  op_update-Formed : (params : Value N) → Formed ctx (op_update b params)
  unfolding op_update
  op_update-Formed params =
      bind-Formed (require params (lit "update") (lit "id")) _
        (λ id_str. bind-Formed (parsed_id b (b.parse_uuid id_str)) _ (λ id. formed _ tt))

  op_forget-Formed : (params : Value N) → Formed ctx (op_forget b params)
  unfolding op_forget
  op_forget-Formed params =
      bind-Formed (require params (lit "forget") (lit "id")) _
        (λ id_str. bind-Formed (parsed_id b (b.parse_uuid id_str)) _ (λ id. formed _ tt))

  dispatch-Formed : (action : Str) (params : Value N) → Formed ctx (dispatch b action params ctx)
  unfolding dispatch
  dispatch-Formed action params = if-Formed _ _ _ (op_store-Formed params) (
      if-Formed _ _ _ (op_recall-Formed params) (
        if-Formed _ _ _ (op_search-Formed params) (
          if-Formed _ _ _ (op_update-Formed params)
            (if-Formed _ _ _ (op_forget-Formed params) (refused _)))))

  -- The calls that are made on the way from one state to a later one are for the context.
  abbrev pub Adds : Run b → Run b → Type 0
  Adds run run' =
      (made : List (StoreCall N b.Limit)) × (run'.calls ≡ run.calls ++ made) × All (IsFor ctx) made

  touch_recalled-Adds :
      (memories : List (Memory F)) (run0 run : Run b)
      → Adds run0 run
      → Adds run0 (touch_recalled b memories run)
  unfolding touch_recalled
  touch_recalled-Adds [] run0 run h = h
  touch_recalled-Adds (m ∷ memories) run0 run (made, e, h) =
      touch_recalled-Adds memories run0
        (record { world = b.do_touch m.id run.world; calls = run.calls ++ touch m.id ∷ [] })
        (
          made ++ touch m.id ∷ [],
          ap (λ calls. calls ++ touch m.id ∷ []) e ∙ append_assoc run0.calls made (touch m.id ∷ []),
          All-append (IsFor ctx) made (touch m.id ∷ []) h (tt, tt),
        )

  after_recall-Adds :
      (result : Result CherubError (List (Memory F))) (run0 run : Run b)
      → Adds run0 run
      → Adds run0 (after_recall b result run).1
  unfolding after_recall
  after_recall-Adds (err e) run0 run h = h
  after_recall-Adds (ok []) run0 run h = h
  after_recall-Adds (ok (m ∷ memories)) run0 run h = touch_recalled-Adds (m ∷ memories) run0 run h

  perform-Adds :
      (call : StoreCall N b.Limit) (run : Run b) → IsFor ctx call → Adds run (perform b call run).1
  unfolding perform
  perform-Adds (store memory) run h = (store memory ∷ [], refl, (h, tt))
  perform-Adds (recall filter) run h =
      after_recall-Adds (b.do_recall filter run.world).0 run
        (record {
          world = (b.do_recall filter run.world).1;
          calls = run.calls ++ recall filter ∷ [];
        })
        (recall filter ∷ [], refl, (h, tt))
  perform-Adds (search query scope user_id limit) run h =
      (search query scope user_id limit ∷ [], refl, (h, tt))
  perform-Adds (update id changes) run h = (update id changes ∷ [], refl, (h, tt))
  perform-Adds (forget id) run h = (forget id ∷ [], refl, (h, tt))
  perform-Adds (touch id) run h = (touch id ∷ [], refl, (h, tt))

  perform_formed-Adds :
      (call : Result CherubError (StoreCall N b.Limit)) (run : Run b)
      → Formed ctx call
      → Adds run (perform_formed b call run).1
  unfolding perform_formed
  perform_formed-Adds (err e) run h = ([], sym (append-nil run.calls), tt)
  perform_formed-Adds (ok call) run (formed _ h) = perform-Adds call run h

  -- Whatever the parameters of an invocation are, a memory that is stored gets the user, the session
  -- and the turn of the context, and memories are recalled and searched for that user only.
  pub execute-IsFor : (params : Value N) (run : Run b) → Adds run (execute b params ctx run).1
  unfolding execute
  execute-IsFor params run =
      let action : Result CherubError Str =
        ok_or (invalid_invocation (lit "memory tool requires 'action'"))
          (get_str params (lit "action")) in
      perform_formed-Adds (action >>= (λ name. dispatch b name params ctx)) run (
        bind-Formed action (λ name. dispatch b name params ctx)
          (λ name. dispatch-Formed name params))
