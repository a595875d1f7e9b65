-- ===== src/Runtime/Turn/Conversation.antt =====
-- runtime/mod.rs: a turn as it is seen from the conversation, and what it does to the world.
use cherub.Base.{
  ℕ, suc, ◌+◌, ◌≤◌, false, ◌≡◌, refl, ap, ◌∙◌, ◌⊎◌, List, [], ◌∷◌, ◌++◌, map, append_assoc, All,
  All-append, All-weaken, arith,
}
use cherub.Json.{Value}
use cherub.Enforcement.Tier.{CapabilityToken}
use cherub.Providers.{Message, assistant, ContentBlock, StopReason}
use cherub.Storage.{inference, summarization, extraction}
use cherub.Tools.Registry.{ToolImpl}
use cherub.Runtime.Session.{Session, split, push, split_for_compaction, apply_compaction}
use cherub.Runtime.Output.{
  Effect, emitted, audited, asked, executed, persisted, completed, usage_recorded, memory_stored,
  memory_touched, session_replaced, Env,
}
use cherub.Runtime.AgentLoop.{Loop}
use cherub.Runtime.AgentLoop.Pairing.{answers, ids}
use cherub.Runtime.AgentLoop.Effects.{Guarded, Does}
use cherub.Runtime.Turn.{tool_uses, asks_tools}
use cherub.Runtime.Turn.Compact.{compaction_preserve_recent}

abbrev pub push_all : {N : Type 0} → List (Message N) → Session N → Session N
push_all [] session = session
push_all (m ∷ messages) session = push_all messages (push m session).0

-- The conversation after the user's message, in at most the given number of responses: each is the
-- reply that ends the turn, or asks for tools and is followed by one result for each call, in order.
-- In between, the conversation may be compacted where the session says. A turn can break off.
pub data Turn {N : Type 0} : ℕ → Session N → Session N → Type 0 where
  broken_off : (n : ℕ) (s : Session N) → Turn n s s
  replied :
      (n : ℕ) (s : Session N) (content : List (ContentBlock N)) (stop_reason : StopReason)
      → (asks_tools stop_reason ≡ false) ⊎ (tool_uses content ≡ [])
      → Turn (suc n) s (push (assistant content stop_reason) s).0
  round :
      (n : ℕ) (s s' : Session N) (content : List (ContentBlock N)) (results : List (Message N))
      → map answers results ≡ ids (tool_uses content)
      → Turn n (push_all results (push (assistant content StopReason.tool_use) s).0) s'
      → Turn (suc n) s s'
  compacted :
      (n : ℕ) (s s' : Session N) (old recent : List (Message N)) (summary ack : Message N)
      → split_for_compaction s compaction_preserve_recent ≡ split old recent
      → Turn n (apply_compaction summary ack recent s) s'
      → Turn n s s'

-- Q on the executions among the effects.
abbrev pub Allowed :
    {N : Type 0} → (ToolImpl → Value N → CapabilityToken → Type 0) → Effect N → Type 0
Allowed Q (executed tool params token) = Q tool params token
Allowed Q (emitted event) = Unit
Allowed Q (audited event) = Unit
Allowed Q (asked name display input) = Unit
Allowed Q (persisted id ordinal message) = Unit
Allowed Q (completed call_type system messages) = Unit
Allowed Q (usage_recorded row) = Unit
Allowed Q (memory_stored memory) = Unit
Allowed Q (memory_touched id) = Unit
Allowed Q (session_replaced id messages) = Unit

-- The inferences among effects.
abbrev pub weight : {N : Type 0} → Effect N → ℕ
weight (completed inference system messages) = 1
weight (completed summarization system messages) = 0
weight (completed extraction system messages) = 0
weight (executed tool params token) = 0
weight (emitted event) = 0
weight (audited event) = 0
weight (asked name display input) = 0
weight (persisted id ordinal message) = 0
weight (usage_recorded row) = 0
weight (memory_stored memory) = 0
weight (memory_touched id) = 0
weight (session_replaced id messages) = 0

abbrev pub inferences : {N : Type 0} → List (Effect N) → ℕ
inferences [] = 0
inferences (e ∷ es) = weight e + inferences es

module _ {N : Type 0} where
  pub inferences-append :
      (es fs : List (Effect N)) → inferences (es ++ fs) ≡ inferences es + inferences fs
  inferences-append [] fs = omega arith
  inferences-append (e ∷ es) fs = omega (arith, inferences-append es fs)

module _ {N : Type 0} (Q : ToolImpl → Value N → CapabilityToken → Type 0) where
  Guarded-weight : (e : Effect N) → Guarded Q e → weight e ≡ 0
  Guarded-weight (completed inference system messages) h = absurd h
  Guarded-weight (completed summarization system messages) h = refl
  Guarded-weight (completed extraction system messages) h = refl
  Guarded-weight (executed tool params token) h = refl
  Guarded-weight (emitted event) h = refl
  Guarded-weight (audited event) h = refl
  Guarded-weight (asked name display input) h = refl
  Guarded-weight (persisted id ordinal message) h = refl
  Guarded-weight (usage_recorded row) h = refl
  Guarded-weight (memory_stored memory) h = refl
  Guarded-weight (memory_touched id) h = refl
  Guarded-weight (session_replaced id messages) h = refl

  Guarded-Allowed : (e : Effect N) → Guarded Q e → Allowed Q e
  Guarded-Allowed (completed call_type system messages) h = tt
  Guarded-Allowed (executed tool params token) h = h
  Guarded-Allowed (emitted event) h = tt
  Guarded-Allowed (audited event) h = tt
  Guarded-Allowed (asked name display input) h = tt
  Guarded-Allowed (persisted id ordinal message) h = tt
  Guarded-Allowed (usage_recorded row) h = tt
  Guarded-Allowed (memory_stored memory) h = tt
  Guarded-Allowed (memory_touched id) h = tt
  Guarded-Allowed (session_replaced id messages) h = tt

  Guarded-inferences : (es : List (Effect N)) → All (Guarded Q) es → inferences es ≡ 0
  Guarded-inferences [] h = refl
  Guarded-inferences (e ∷ es) h = omega (arith, Guarded-weight e h.0, Guarded-inferences es h.1)

module _ {N : Type 0} (env : Env N) (Q : ToolImpl → Value N → CapabilityToken → Type 0) where
  -- From one state to a later one, every execution satisfies Q, and there are at most n inferences.
  abbrev pub IsRun : ℕ → Loop env → Loop env → Type 0
  IsRun n l l' =
      (done : List (Effect N)) × (l'.effects ≡ l.effects ++ done)
      × All (Allowed Q) done
      × (inferences done ≤ n)

  -- So it is, and the session goes through a turn of at most m responses.
  abbrev pub Goes : ℕ → ℕ → Loop env → Loop env → Type 0
  Goes m n l l' = Turn m l.session l'.session × IsRun n l l'

  pub Does-IsRun : (l l' : Loop env) → Does env Q l l' → IsRun 0 l l'
  Does-IsRun l l' (done, e, h) = (
    done,
    e,
    All-weaken (Guarded Q) (Allowed Q) done (Guarded-Allowed Q) h,
    omega (arith, Guarded-inferences Q done h),
  )

  pub IsRun-trans :
      (m n k : ℕ) (l1 l2 l3 : Loop env) → m + n ≤ k → IsRun m l1 l2 → IsRun n l2 l3 → IsRun k l1 l3
  IsRun-trans m n k l1 l2 l3 fits (d, e, h, le) (d', e', h', le') = (
    d ++ d',
    e' ∙ ap (λ x. x ++ d') e ∙ append_assoc l1.effects d d',
    All-append (Allowed Q) d d' h h',
    omega (arith, inferences-append d d'),
  )

  -- What goes on from the second state goes on from the first.
  abbrev pub Leads : Loop env → Loop env → Type 0
  Leads l0 l = (m n : ℕ) (l' : Loop env) → Goes m n l l' → Goes m n l0 l'

  pub Does-Leads :
      (l0 l : Loop env)
      → Does env Q l0 l
      → ((m : ℕ) (s : Session N) → Turn m l.session s → Turn m l0.session s)
      → Leads l0 l
  Does-Leads l0 l d f m n l' (t, run) =
      (f m l'.session t, IsRun-trans 0 n n l0 l l' (omega arith) (Does-IsRun l0 l d) run)
