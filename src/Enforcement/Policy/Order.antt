-- ===== src/Enforcement/Policy/Order.antt =====
-- The order of a compiled tool's actions, and the search among them, of enforcement/policy.rs.
use mathlib.Core.List.{Perm}
use mathlib.Core.List.Perm
use cherub.Base.{
  ℕ, ◌≤◌, ◌≡◌, Bool, true, false, Option, none, some, List, [], ◌∷◌, All, find, All-weaken,
  if◌then◌else◌, arith, ap, Bool-cases, inl, inr, ◌⊎◌,
}
use cherub.Base.Bytes.{Str}
use cherub.Base.Result.{ok, >>=-eq-ok, try_map}
use cherub.Crates.{Crates}
use cherub.Enforcement.Tier.{rank, tier_le}
use cherub.Enforcement.Policy.{CompiledAction, CompiledTool, ToolConfig, match_action}
use cherub.Enforcement.Policy.Compile.{
  insert_action, sort_actions, compile_action, compile_constraint, compile_tool,
}

module _ (c : Crates) where
  open c use {regex_set_is_match}

  -- No later action has a higher tier.
  abbrev pub IsDescending : List (CompiledAction c) → Type 0
  IsDescending [] = Unit
  IsDescending (a ∷ rest) = All (λ b. rank b.tier ≤ rank a.tier) rest × IsDescending rest

  All-insert_action :
      (n : ℕ) (a : CompiledAction c) (bs : List (CompiledAction c))
      → rank a.tier ≤ n
      → All (λ b. rank b.tier ≤ n) bs
      → All (λ b. rank b.tier ≤ n) (insert_action c a bs)
  unfolding insert_action
  All-insert_action n a [] h hs = (h, tt)
  All-insert_action n a (b ∷ bs) h hs = elim (Bool-cases (tier_le b.tier a.tier)) [
    | inl e ↦ rw e (h, hs)
    | inr e ↦ rw e (hs.0, All-insert_action n a bs h hs.1)
  ]

  All-le_trans :
      (m n : ℕ) (bs : List (CompiledAction c))
      → m ≤ n
      → All (λ b. rank b.tier ≤ m) bs
      → All (λ b. rank b.tier ≤ n) bs
  All-le_trans m n [] h hs = tt
  All-le_trans m n (b ∷ bs) h hs = (omega arith, All-le_trans m n bs h hs.1)

  insert_action-IsDescending :
      (a : CompiledAction c) (bs : List (CompiledAction c))
      → IsDescending bs
      → IsDescending (insert_action c a bs)
  unfolding insert_action
  insert_action-IsDescending a [] h = (tt, tt)
  insert_action-IsDescending a (b ∷ bs) h = elim (Bool-cases (tier_le b.tier a.tier)) [
    | inl e ↦
        let le : rank b.tier ≤ rank a.tier = ground arith in
        rw e ((le, All-le_trans (rank b.tier) (rank a.tier) bs le h.0), h)
    | inr e ↦
        let le : rank a.tier ≤ rank b.tier = ground arith in
        rw e (All-insert_action (rank b.tier) a bs le h.0, insert_action-IsDescending a bs h.1)
  ]

  pub sort_actions-IsDescending :
      (actions : List (CompiledAction c)) → IsDescending (sort_actions c actions)
  unfolding sort_actions
  sort_actions-IsDescending [] = tt
  sort_actions-IsDescending (a ∷ rest) =
      insert_action-IsDescending a (sort_actions c rest) (sort_actions-IsDescending rest)

  insert_action-perm :
      (a : CompiledAction c) (bs : List (CompiledAction c)) → Perm (insert_action c a bs) (a ∷ bs)
  unfolding insert_action
  insert_action-perm a [] = Perm.refl (a ∷ [])
  insert_action-perm a (b ∷ bs) = elim (Bool-cases (tier_le b.tier a.tier)) [
    | inl e ↦ rw e (Perm.refl (a ∷ b ∷ bs))
    | inr e ↦ rw e (Perm.trans (Perm.cons b (insert_action-perm a bs)) (Perm.swap a b bs))
  ]

  pub sort_actions-perm :
      (actions : List (CompiledAction c)) → Perm (sort_actions c actions) actions
  unfolding sort_actions
  sort_actions-perm [] = Perm.refl []
  sort_actions-perm (a ∷ rest) =
      Perm.trans (insert_action-perm a (sort_actions c rest)) (Perm.cons a (sort_actions-perm rest))

  -- The result of a search for an action that passes `p`, among `actions`: nothing where none
  -- passes, else one that passes and that no passing action outranks.
  abbrev pub IsHighest :
      (CompiledAction c → Bool) → List (CompiledAction c) → Option (CompiledAction c) → Type 0
  IsHighest p actions none = All (λ b. p b ≡ false) actions
  IsHighest p actions (some a) =
      (p a ≡ true) × All (λ b. (p b ≡ false) ⊎ (rank b.tier ≤ rank a.tier)) actions

  IsHighest-skip :
      (p : CompiledAction c → Bool) (x : CompiledAction c) (rest : List (CompiledAction c))
      (o : Option (CompiledAction c))
      → p x ≡ false
      → IsHighest p rest o
      → IsHighest p (x ∷ rest) o
  IsHighest-skip p x rest none fail h = (fail, h)
  IsHighest-skip p x rest (some a) fail h = (h.0, (inl fail, h.1))

  -- In a descending list the first action that passes a test has the highest tier of those that do.
  find-IsHighest :
      (p : CompiledAction c → Bool) (actions : List (CompiledAction c))
      → IsDescending actions
      → IsHighest p actions (find p actions)
  find-IsHighest p [] h = tt
  find-IsHighest p (x ∷ rest) h = elim (Bool-cases (p x)) [
    | inl pass ↦ rw pass (
      pass,
      (
        inr (omega arith),
        All-weaken (λ b. rank b.tier ≤ rank x.tier)
            (λ b. (p b ≡ false) ⊎ (rank b.tier ≤ rank x.tier)) rest (λ b le. inr le) h.0,
      ),
    )
    | inr fail ↦
        let later = IsHighest-skip p x rest (find p rest) fail (find-IsHighest p rest h.1) in
        rw (ap (λ b. if b then some x else find p rest) fail) later
  ]

  -- What a compiled tool is: the parts of its configuration, its actions in another order.
  pub compile_tool-ok :
      (name : Str) (config : ToolConfig c) (tool : CompiledTool c)
      → compile_tool c (name, config) ≡ ok tool
      → (actions : List (CompiledAction c)) × (try_map (compile_action c) config.actions
          ≡ ok actions)
        × (tool.actions ≡ sort_actions c actions)
        × (tool.name ≡ name)
        × (tool.enabled ≡ config.enabled)
        × (tool.match_source ≡ config.match_source)
  unfolding compile_tool
  compile_tool-ok name config tool e =
      let (ks, ek, e') = >>=-eq-ok (try_map (compile_constraint c) config.constraints) _ e in
      let (actions, ea, e'') = >>=-eq-ok (try_map (compile_action c) config.actions) _ e' in
      (actions, ea, ground arith, ground arith, ground arith, ground arith)

  -- The actions of a compiled tool are in descending order of their tiers, and are a permutation of
  -- the compiled actions of its configuration.
  pub compile_tool-IsDescending :
      (name : Str) (config : ToolConfig c) (tool : CompiledTool c)
      → compile_tool c (name, config) ≡ ok tool
      → (actions : List (CompiledAction c)) × (try_map (compile_action c) config.actions
          ≡ ok actions)
        × Perm tool.actions actions
        × IsDescending tool.actions
  compile_tool-IsDescending name config tool e =
      let (actions, ea, sorted, _, _, _) = compile_tool-ok name config tool e in
      (
        actions,
        ea,
        rw sorted (sort_actions-perm actions),
        rw sorted (sort_actions-IsDescending actions),
      )

  -- In a compiled tool, the action that a command matches has the highest tier of all the tool's
  -- actions with a pattern that matches the command; if no action is found, then none has one.
  pub match_action-IsHighest :
      (name : Str) (config : ToolConfig c) (tool : CompiledTool c) (text : Str)
      → compile_tool c (name, config) ≡ ok tool
      → IsHighest (λ a. regex_set_is_match a.patterns text) tool.actions (match_action c tool text)
  unfolding match_action
  match_action-IsHighest name config tool text e =
      let (_, _, _, sorted) = compile_tool-IsDescending name config tool e in
      find-IsHighest _ tool.actions sorted
