-- ===== src/Broker/Issue.antt =====
-- worker/byok-broker.mjs: `issue` and `startOpenAiDeviceCode`, which make the session.
use clawsembly_kernel.Prelude.{
  ℕ, ◌+◌, Bool, false, not, ◌&&◌, Option, none, some, [], if◌then◌else◌, ◌==◌, nat_eq, codes_eq,
  leb, is_some, or_else,
}
use clawsembly_kernel.Js.{Js, null, undefined, property}
use clawsembly_kernel.JsText.{Text}
use clawsembly_kernel.Byok.{
  chat_completions, responses, openai_completions, openai_chatgpt_responses, clawsembly_byok,
  openai,
}
use clawsembly_kernel.Broker.{
  api_key_auth, openai_oauth, pending, ready, Provider, openai_provider, label_of, Session, Store,
  Request, Grant, granted, started, Reply, reply, rejected, user_code_request, OauthResponse, Env,
  Flow, stop, go, ◌>>=◌, ◌>>◌, require, present, is_post, valid_api_key, valid_model, provider_of,
  read_bounded_json, ttl_ms, device_ttl_ms, default_max_requests, default_poll_interval_ms,
  min_poll_interval_ms,
}
use clawsembly_kernel.Broker.Identity.{max, trimmed, positive_milliseconds}

-- A handler's end: what it stores, and its response.
abbrev pub conclude {ℓ} : {A : Type ℓ} → Flow A → (A → Store × Reply) → Store → Store × Reply
conclude (stop answer) k store = (store, answer)
conclude (go value) k store = k value

-- The secrets that are drawn for the holder and for the one who may revoke.
pub record Secrets : Type 0 where
  pub guest : Text
  pub admin : Text

pub record IssueInput : Type 0 where
  pub provider : Provider
  pub api_key : Text
  pub model : Text

abbrev pub is_free : Store → Bool
is_free store = not (is_some store.session)

unfoldable pub issued_session : Env → Secrets → ℕ → IssueInput → Session
issued_session env secrets now input = record {
  auth_type = api_key_auth;
  state = ready;
  api_key = some input.api_key;
  access_token = none;
  refresh_token = none;
  account_id = none;
  token_expires_at = 0;
  provider = input.provider;
  provider_label = label_of input.provider;
  model = input.model;
  api_path = chat_completions;
  model_api = openai_completions;
  open_claw_provider = clawsembly_byok;
  device_auth_id = none;
  user_code = none;
  interval_ms = 0;
  next_poll_at = 0;
  guest_digest = some (env.digest secrets.guest);
  poll_digest = none;
  admin_digest = env.digest secrets.admin;
  created_at = now;
  expires_at = now + ttl_ms;
  max_requests = default_max_requests;
  request_count = 0;
  revoked = false;
}

abbrev pub grant_of : Text → Option Text → Session → Grant
grant_of token admin_token s = record {
  token = token;
  admin_token = admin_token;
  provider = s.provider;
  provider_label = s.provider_label;
  model = s.model;
  api_path = s.api_path;
  model_api = s.model_api;
  open_claw_provider = s.open_claw_provider;
  expires_at = s.expires_at;
  max_requests = s.max_requests;
}

abbrev pub device_status : ℕ → ℕ
device_status status = if status == 429 then 429 else 502

abbrev pub is_ok : OauthResponse → Bool
is_ok response = leb 200 response.status && leb response.status 299

-- A body that is `null` has no properties: reading one throws.
abbrev pub with_properties : Js → Flow (Unit {0})
with_properties null = stop rejected
with_properties _ = go tt

-- `value.user_code ?? value.usercode`
abbrev pub coalesce : Js → Js → Js
coalesce undefined w = w
coalesce null w = w
coalesce v w = v

pub record DeviceStart : Type 0 where
  pub model : Text
  pub device_auth_id : Text
  pub user_code : Text
  pub interval : Js

module _ (env : Env) where
  unfoldable pub issue_input : Request → Store → Flow IssueInput
  issue_input request store = do
    require (is_post request) "method_not_allowed" 405
    value ← read_bounded_json env request
    provider ← present (provider_of (property value "provider")) "invalid_capability_request" 400
    api_key ← present (valid_api_key (property value "apiKey")) "invalid_capability_request" 400
    model ← present (valid_model (property value "model")) "invalid_capability_request" 400
    require (is_free store) "capability_already_issued" 409
    go (record { provider = provider; api_key = api_key; model = model })

  unfoldable pub issue_session : Secrets → ℕ → IssueInput → Store × Reply
  issue_session secrets now input =
      let session = issued_session env secrets now input in
      (
        record { session = some session; alarm = some session.expires_at },
        reply 201 (granted (grant_of secrets.guest (some secrets.admin) session)),
      )

  unfoldable pub issue : Request → Secrets → ℕ → Store → Store × Reply
  issue request secrets now store =
      conclude (issue_input request store) (issue_session secrets now) store

  unfoldable pub start_input : Request → Store → Flow DeviceStart
  start_input request store = do
    require (is_post request) "method_not_allowed" 405
    value ← read_bounded_json env request
    model ← present (valid_model (property value "model")) "invalid_capability_request" 400
    require (is_free store) "capability_already_issued" 409
    response ← present (env.oauth user_code_request) "openai_device_unreachable" 502
    require (is_ok response) "openai_device_start_failed" (device_status response.status)
    with_properties response.value
    let device_auth_id = trimmed (property response.value "device_auth_id")
    let user_code =
        trimmed
          (coalesce (property response.value "user_code") (property response.value "usercode"))
    require (not (device_auth_id == []) && not (user_code == [])) "openai_device_response_invalid"
        502
    go (record {
      model = model;
      device_auth_id = device_auth_id;
      user_code = user_code;
      interval = property response.value "interval";
    })

  -- The secrets are those of polling and of revoking.
  unfoldable pub started_session : Secrets → ℕ → DeviceStart → Session
  started_session secrets now input = record {
    auth_type = openai_oauth;
    state = pending;
    api_key = none;
    access_token = none;
    refresh_token = none;
    account_id = none;
    token_expires_at = 0;
    provider = openai_provider;
    provider_label = "OpenAI ChatGPT";
    model = input.model;
    api_path = responses;
    model_api = openai_chatgpt_responses;
    open_claw_provider = openai;
    device_auth_id = some input.device_auth_id;
    user_code = some input.user_code;
    interval_ms =
        max min_poll_interval_ms
          (or_else (positive_milliseconds env input.interval) default_poll_interval_ms);
    next_poll_at = now;
    guest_digest = none;
    poll_digest = some (env.digest secrets.guest);
    admin_digest = env.digest secrets.admin;
    created_at = now;
    expires_at = now + device_ttl_ms;
    max_requests = default_max_requests;
    request_count = 0;
    revoked = false;
  }

  unfoldable pub start_session : Secrets → ℕ → DeviceStart → Store × Reply
  start_session secrets now input =
      let session = started_session secrets now input in
      (
        record { session = some session; alarm = some session.expires_at },
        reply 201 (
            started (record {
              user_code = input.user_code;
              interval_ms = session.interval_ms;
              expires_at = session.expires_at;
              poll_token = secrets.guest;
              admin_token = secrets.admin;
            })),
      )

  unfoldable pub start_open_ai_device_code : Request → Secrets → ℕ → Store → Store × Reply
  start_open_ai_device_code request secrets now store =
      conclude (start_input request store) (start_session secrets now) store
