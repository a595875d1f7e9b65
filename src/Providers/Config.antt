-- ===== src/Providers/Config.antt =====
-- providers/config.rs: the validation of the providers' configuration, and the providers that it
-- names. HashMaps are association lists, in the order of their iteration. The ancestry is pushed on
-- entry and popped on a successful exit, so that it is an argument; the recursion along it is on
-- fuel. The environment and the HTTP client are given.
pub mod Fuel
pub mod Instances
use cherub.Base.{
  ℕ, zero, suc, Bool, true, false, Option, none, some, List, [], ◌∷◌, ◌++◌, not, ◌&&◌,
  if◌then◌else◌, is_empty, any, length,
}
use cherub.Base.Bytes.{Str, lit, str_eq}
use cherub.Base.Result.{Result, ok, err, ◌>>=◌, ok_or}
use cherub.Providers.{CherubError, config}

pub data ProviderType : Type 0 where
  anthropic openai failover : ProviderType

-- The count of tokens is a u32.
pub record ProviderDef : Type 0 where
  pub provider_type : ProviderType
  pub model : Str
  pub api_key_env : Option Str
  pub base_url : Option Str
  pub max_tokens : ℕ
  pub providers : Option (List Str)

pub record SubAgentDef : Type 0 where
  pub description : Str
  pub provider : Str
  pub system_prompt : Str
  pub max_turns : ℕ
  pub timeout_secs : ℕ
  pub tools : List Str

pub record ProvidersConfig : Type 0 where
  pub providers : List (Str × ProviderDef)
  pub agents : List (Str × SubAgentDef)

-- How a run fails: by an error, by a panic, or for want of fuel.
pub data Failure : Type 0 where
  failed : CherubError → Failure
  panic out_of_fuel : Failure

-- `self.providers.get(name)`, and whether it is there.
abbrev pub lookup : List (Str × ProviderDef) → Str → Option ProviderDef
lookup [] name = none
lookup ((key, def) ∷ entries) name =
    let rest = lookup entries name in if str_eq key name then some def else rest

abbrev pub is_some : Option ProviderDef → Bool
is_some none = false
is_some (some def) = true

abbrev pub contains_key : List (Str × ProviderDef) → Str → Bool
contains_key entries name = is_some (lookup entries name)

abbrev pub refuse : Str → Str → Str → Result Failure Unit
refuse kind name text = err (failed (config (kind ++ lit " '" ++ name ++ lit "': " ++ text)))

-- `for x in xs { f(x)? }`.
abbrev pub for_all {ℓ} : {A : Type ℓ} → (A → Result Failure Unit) → List A → Result Failure Unit
for_all f [] = ok tt
for_all f (x ∷ xs) = let rest = for_all f xs in f x >>= λ u. rest

-- What `validate` asks of one provider.
unfoldable pub check_child : List (Str × ProviderDef) → Str → Str → Result Failure Unit
check_child providers name child =
    if not (contains_key providers child)
    then refuse (lit "provider") name
        (lit "references unknown child provider '" ++ child ++ lit "'")
    else ok tt

unfoldable pub check_children :
    List (Str × ProviderDef) → Str → ProviderType → Option (List Str) → Result Failure Unit
check_children providers name failover none =
    refuse (lit "provider") name (lit "failover type requires a 'providers' list")
check_children providers name failover (some children) =
    if is_empty children
    then refuse (lit "provider") name (lit "failover providers list must not be empty")
    else for_all (check_child providers name) children
check_children providers name other none = ok tt
check_children providers name other (some children) =
    refuse (lit "provider") name (lit "'providers' list is only valid for failover type")

unfoldable pub check_provider : List (Str × ProviderDef) → Str × ProviderDef → Result Failure Unit
check_provider providers (name, def) = check_children providers name def.provider_type def.providers

-- `ancestry.join(" -> ")`.
abbrev pub join_arrows : List Str → Str
join_arrows [] = []
join_arrows (s ∷ []) = s
join_arrows (s ∷ t ∷ rest) = s ++ lit " -> " ++ join_arrows (t ∷ rest)

abbrev pub has_cycle : List Str → Str → Failure
has_cycle ancestry name =
    failed (config (lit "provider cycle detected: " ++ join_arrows (ancestry ++ name ∷ [])))

-- The walk below a provider that is not in its own ancestry.
abbrev pub detect_children : (Str → Result Failure Unit) → Option (List Str) → Result Failure Unit
detect_children walk none = ok tt
detect_children walk (some children) = for_all walk children

abbrev pub detect_below : (Str → Result Failure Unit) → Option ProviderDef → Result Failure Unit
detect_below walk none = ok tt
detect_below walk (some def) = detect_children walk def.providers

unfoldable pub detect_cycle : ℕ → List (Str × ProviderDef) → List Str → Str → Result Failure Unit
detect_cycle zero providers ancestry name = err out_of_fuel
detect_cycle (suc fuel) providers ancestry name =
    let below =
      detect_below (detect_cycle fuel providers (ancestry ++ name ∷ [])) (lookup providers name) in
    if any (λ a. str_eq a name) ancestry then err (has_cycle ancestry name) else below

abbrev pub check_agent : List (Str × ProviderDef) → Str × SubAgentDef → Result Failure Unit
check_agent providers (name, agent) =
    if not (contains_key providers agent.provider)
    then refuse (lit "agent") name
        (lit "references unknown provider '" ++ agent.provider ++ lit "'")
    else ok tt

-- One more step than there are providers is enough fuel.
abbrev pub walk_fuel : ProvidersConfig → ℕ
walk_fuel c = suc (length c.providers)

unfoldable pub validate : ProvidersConfig → Result Failure Unit
unfolding detect_cycle check_provider
validate c =
    for_all (check_provider c.providers) c.providers
    >>= (λ u. for_all (λ entry. detect_cycle (walk_fuel c) c.providers [] entry.0) c.providers)
    >>= λ u. for_all (check_agent c.providers) c.agents
