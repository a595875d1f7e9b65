-- ===== src/Providers/Config/Fuel.antt =====
-- providers/config.rs: the search for cycles ends.
use cherub.Base.{
  ℕ, zero, suc, ◌≤◌, ◌<◌, ◌≡◌, ◌≢◌, inl, inr, Bool, true, false, ◌||◌, Bool-cases, Option, none,
  some, Option-cases, List, [], ◌∷◌, ◌++◌, any, length, if◌then◌else◌, arith,
}
use cherub.Base.Bytes.{Str, str_eq, str_eq→eq, str_eq_refl}
use cherub.Base.Result.{Result, ok, err, ◌>>=◌}
use cherub.Providers.Config.{
  ProviderType, anthropic, openai, failover, ProviderDef, SubAgentDef, ProvidersConfig, Failure,
  out_of_fuel, lookup, for_all, check_child, check_children, check_provider, detect_children,
  detect_cycle, check_agent, walk_fuel, validate,
}

abbrev is_in : List Str → Str → Bool
is_in ancestry name = any (λ a. str_eq a name) ancestry

-- The entries whose names are not in an ancestry.
abbrev others : List Str → List (Str × ProviderDef) → ℕ
others ancestry [] = 0
others ancestry ((key, def) ∷ entries) =
    let rest = others ancestry entries in if is_in ancestry key then rest else suc rest

is_in-snoc :
    (ancestry : List Str) (name key : Str)
    → is_in (ancestry ++ name ∷ []) key ≡ (is_in ancestry key || str_eq name key)
is_in-snoc [] name key = ground arith
is_in-snoc (a ∷ ancestry) name key = ground (arith, is_in-snoc ancestry name key)

others-snoc :
    (ancestry : List Str) (name : Str) (entries : List (Str × ProviderDef))
    → others (ancestry ++ name ∷ []) entries ≤ others ancestry entries
others-snoc ancestry name [] = ground arith
others-snoc ancestry name ((key, def) ∷ entries) =
    ground (arith, others-snoc ancestry name entries, is_in-snoc ancestry name key)

-- An ancestry that gains a provider has fewer others.
others-lookup :
    (ancestry : List Str) (name : Str) (entries : List (Str × ProviderDef)) (def : ProviderDef)
    → is_in ancestry name ≡ false
    → lookup entries name ≡ some def
    → others (ancestry ++ name ∷ []) entries < others ancestry entries
others-lookup ancestry name [] def fresh found = cc
others-lookup ancestry name ((key, other) ∷ entries) def fresh found =
    elim (Bool-cases (str_eq key name)) [
      | inl same ↦
          let e : key ≡ name = str_eq→eq key name same in
          let before : is_in ancestry key ≡ false = rw e fresh in
          let now : str_eq name key ≡ true = rw e (str_eq_refl name) in
          ground
            (arith, others-snoc ancestry name entries, is_in-snoc ancestry name key, before, now)
      | inr differs ↦ ground (
        arith,
        others-lookup ancestry name entries def fresh (rw differs at found),
        is_in-snoc ancestry name key,
      )
    ]

others-length :
    (ancestry : List Str) (entries : List (Str × ProviderDef))
    → others ancestry entries ≤ length entries
others-length ancestry [] = ground arith
others-length ancestry ((key, def) ∷ entries) = ground (arith, others-length ancestry entries)

-- A run that does not end for want of fuel.
abbrev Ends : Result Failure Unit → Type 0
Ends r = r ≢ err out_of_fuel

>>=-Ends :
    (r : Result Failure Unit) (f : Unit → Result Failure Unit)
    → Ends r
    → ((u : Unit) → Ends (f u))
    → Ends (r >>= f)
>>=-Ends (ok u) f h g = g u
>>=-Ends (err e) f h g = h

for_all-Ends {ℓ} :
    {A : Type ℓ} (f : A → Result Failure Unit) (xs : List A)
    → ((x : A) → Ends (f x))
    → Ends (for_all f xs)
for_all-Ends f [] h = λ e. cc
for_all-Ends f (x ∷ xs) h = >>=-Ends (f x) (λ u. for_all f xs) (h x) (λ u. for_all-Ends f xs h)

detect_children-Ends :
    (f : Str → Result Failure Unit) (children : Option (List Str))
    → ((name : Str) → Ends (f name))
    → Ends (detect_children f children)
detect_children-Ends f none h = λ e. cc
detect_children-Ends f (some children) h = for_all-Ends f children h

detect_cycle-Ends :
    (providers : List (Str × ProviderDef)) (fuel : ℕ) (ancestry : List Str) (name : Str)
    → others ancestry providers < fuel
    → Ends (detect_cycle fuel providers ancestry name)
unfolding detect_cycle
detect_cycle-Ends providers zero ancestry name enough = ground arith
detect_cycle-Ends providers (suc fuel) ancestry name enough =
    elim (Bool-cases (is_in ancestry name)) [
      | inl again ↦ rw again (λ e. cc)
      | inr fresh ↦ elim (Option-cases (lookup providers name)) [
        | inl missing ↦ rw (fresh, missing) (λ e. cc)
        | inr (def, found) ↦
            rw (fresh, found)
              (detect_children-Ends _ def.providers (λ child.
                detect_cycle-Ends providers fuel (ancestry ++ name ∷ []) child
                  (omega (arith, enough, others-lookup ancestry name providers def fresh found))))
      ]
    ]

check_child-Ends :
    (providers : List (Str × ProviderDef)) (name child : Str)
    → Ends (check_child providers name child)
unfolding check_child
check_child-Ends providers name child = ground arith

check_children-Ends :
    (providers : List (Str × ProviderDef)) (name : Str) (kind : ProviderType)
    (children : Option (List Str))
    → Ends (check_children providers name kind children)
unfolding check_children
check_children-Ends providers name failover none = λ e. cc
check_children-Ends providers name failover (some []) = λ e. cc
check_children-Ends providers name failover (some (child ∷ children)) =
    for_all-Ends (check_child providers name) (child ∷ children) (check_child-Ends providers name)
check_children-Ends providers name anthropic none = λ e. cc
check_children-Ends providers name anthropic (some children) = λ e. cc
check_children-Ends providers name openai none = λ e. cc
check_children-Ends providers name openai (some children) = λ e. cc

check_agent-Ends :
    (providers : List (Str × ProviderDef)) (entry : Str × SubAgentDef)
    → Ends (check_agent providers entry)
check_agent-Ends providers (name, agent) = ground arith

-- The validation of a configuration never ends for want of fuel, also where its failover providers
-- refer to each other in a circle.
pub validate-Ends : (c : ProvidersConfig) → validate c ≢ err out_of_fuel
unfolding validate check_provider
validate-Ends c =
    >>=-Ends _ _
      (>>=-Ends _ _
        (for_all-Ends (check_provider c.providers) c.providers (λ entry.
          check_children-Ends c.providers entry.0 entry.1.provider_type entry.1.providers))
        (λ u. for_all-Ends _ c.providers (λ entry.
          detect_cycle-Ends c.providers (walk_fuel c) [] entry.0
            (omega (arith, others-length [] c.providers)))))
      (λ u. for_all-Ends (check_agent c.providers) c.agents (check_agent-Ends c.providers))
