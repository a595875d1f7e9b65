-- ===== src/Providers/Config/Instances.antt =====
-- providers/config.rs: the providers that a configuration names, with `new` of
-- providers/anthropic.rs, providers/openai.rs and providers/failover.rs; the fields of these that
-- are constants are left out. The environment and the HTTP client are given.
pub mod Resolution
use cherub.Base.{
  ℕ, zero, suc, Bool, true, false, Option, none, some, List, [], ◌∷◌, ◌++◌, if◌then◌else◌, is_empty,
  any,
}
use cherub.Base.Bytes.{Str, lit, str_eq}
use cherub.Base.Result.{Result, ok, err, ◌>>=◌}
use cherub.Providers.{CherubError, config}
use cherub.Providers.Config.{
  ProviderType, anthropic, openai, failover, ProviderDef, ProvidersConfig, Failure, failed, panic,
  out_of_fuel, lookup, has_cycle,
}

-- `std::env::var(name).ok()`, and `Client::builder()` with its timeouts and `build()`.
pub record Machine : Type 1 where
  pub Client : Type 0
  pub var : Str → Option Str
  pub build : Result CherubError Client

-- The providers; the children of a failover provider stand with their names.
mutual
  pub data Instance (C : Type 0) : Type 0 where
    anthropic_provider : C → Str → Str → ℕ → Instance C
    openai_provider : C → Option Str → Str → ℕ → Str → Instance C
    failover_provider : Instances C → Instance C

  pub data Instances (C : Type 0) : Type 0 where
    nil : Instances C
    cons : Str → Instance C → Instances C → Instances C

abbrev pub default_base_url : Str
default_base_url = lit "https://api.openai.com/v1"

abbrev pub unwrap_or : Option Str → Str → Str
unwrap_or none other = other
unwrap_or (some s) other = s

module _ (machine : Machine) where
  open machine use {Client, var, build}

  -- A client that cannot be built is an error.
  abbrev pub with_client :
      (Client → Instance Client) → Result CherubError Client → Result Failure (Instance Client)
  with_client f (ok client) = ok (f client)
  with_client f (err e) = err (failed e)

  -- The key of an Anthropic provider must be set, and not empty.
  abbrev pub anthropic_with : Str → ProviderDef → Option Str → Result Failure (Instance Client)
  anthropic_with key_env def none = err (failed (config (key_env ++ lit " not set")))
  anthropic_with key_env def (some key) =
      if is_empty key
      then err (failed (config (key_env ++ lit " is empty")))
      else with_client (λ client. anthropic_provider client key def.model def.max_tokens) build

  -- The key of an OpenAI provider, if it is set and not empty.
  abbrev pub openai_key : Option Str → Option Str
  openai_key none = none
  openai_key (some env) = elim (var env) [
    | none ↦ none
    | some key ↦ if is_empty key then none else some key
  ]

  abbrev pub instantiate_as : ProviderType → ProviderDef → Result Failure (Instance Client)
  instantiate_as anthropic def =
      let key_env = unwrap_or def.api_key_env (lit "ANTHROPIC_API_KEY") in
      anthropic_with key_env def (var key_env)
  instantiate_as openai def =
      with_client
        (λ client.
          openai_provider client (openai_key def.api_key_env) def.model def.max_tokens
            (unwrap_or def.base_url default_base_url))
        build
  instantiate_as failover def =
      err (failed (config (lit "use instantiate_named_provider() for failover types")))

  unfoldable pub instantiate_provider : ProviderDef → Result Failure (Instance Client)
  instantiate_provider def = instantiate_as def.provider_type def

  abbrev pub cons_child :
      Str → Instance Client → Result Failure (Instances Client) → Result Failure (Instances Client)
  cons_child name child (ok children) = ok (cons name child children)
  cons_child name child (err e) = err e

  -- The loop over the children, in their order.
  abbrev pub instantiate_all :
      (Str → Result Failure (Instance Client)) → List Str → Result Failure (Instances Client)
  instantiate_all f [] = ok nil
  instantiate_all f (name ∷ names) =
      let rest = instantiate_all f names in f name >>= λ child. cons_child name child rest

  -- `FailoverProvider::new`, which asserts that there is a child.
  unfoldable pub new_failover : Instances Client → Result Failure (Instance Client)
  new_failover nil = err panic
  new_failover (cons name child children) = ok (failover_provider (cons name child children))

  unfoldable pub instantiate_below :
      (Str → Result Failure (Instance Client))
      → Str
      → ProviderType
      → Option (List Str)
      → ProviderDef
      → Result Failure (Instance Client)
  unfolding new_failover instantiate_provider
  instantiate_below walk name failover none def = err (
      failed
        (config (lit "provider '" ++ name ++ lit "': failover type requires a 'providers' list")))
  instantiate_below walk name failover (some children) def =
      instantiate_all walk children >>= new_failover
  instantiate_below walk name other children def = instantiate_provider def

  unfoldable pub instantiate_found :
      (Str → Result Failure (Instance Client))
      → Str
      → Option ProviderDef
      → Result Failure (Instance Client)
  unfolding instantiate_below
  instantiate_found walk name none =
      err (failed (config (lit "unknown provider '" ++ name ++ lit "'")))
  instantiate_found walk name (some def) =
      instantiate_below walk name def.provider_type def.providers def

  unfoldable pub instantiate_named_provider :
      ℕ → List (Str × ProviderDef) → List Str → Str → Result Failure (Instance Client)
  unfolding instantiate_found
  instantiate_named_provider zero providers ancestry name = err out_of_fuel
  instantiate_named_provider (suc fuel) providers ancestry name =
      let found =
        instantiate_found (instantiate_named_provider fuel providers (ancestry ++ name ∷ [])) name
          (lookup providers name) in
      if any (λ a. str_eq a name) ancestry then err (has_cycle ancestry name) else found
