-- ===== src/Broker/World/Confined/Sent.antt =====
-- worker/byok-broker.mjs: the requests to the provider, in the words of their contract.
use clawsembly_kernel.Prelude.{◌≤◌, ◌≡◌, String, none, some, length}
use clawsembly_kernel.Js.{Js}
use clawsembly_kernel.JsText.{Text}
use clawsembly_kernel.Broker.{
  Bytes, Provider, openai_provider, openrouter, Env, UpstreamRequest, original,
}
use clawsembly_kernel.Broker.Issue.{IssueInput}
use clawsembly_kernel.Broker.World.{World}
use clawsembly_kernel.Broker.World.Valid.{IsRequestFor}

-- Where the keys of a provider are taken.
abbrev pub address_of : Provider → String
address_of openai_provider = "https://api.openai.com/v1/chat/completions"
address_of openrouter = "https://openrouter.ai/api/v1/chat/completions"

-- The request goes to the key's provider with the key, and its body is, unchanged, one of at most
-- 2 MiB that parses to an object with the chosen model and with messages, and that came with a
-- bearer token of the guest secret's digest.
pub record IsOnBehalf (env : Env) (guest : Text) (input : IssueInput) (r : UpstreamRequest)
    : Type 0 where
  pub url : r.url ≡ address_of input.provider
  pub credential : r.credential ≡ some input.api_key
  pub account : r.account_id ≡ none
  pub bytes : Bytes
  pub body : r.body ≡ original bytes
  pub short : length bytes ≤ 2097152
  pub value : Js
  pub parses : env.parse_json bytes ≡ some value
  pub valid : IsRequestFor "messages" value input.model
  pub bearer : Text
  pub known : env.digest bearer ≡ env.digest guest
