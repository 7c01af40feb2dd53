-- ===== src/Broker/Forward.antt =====
-- worker/byok-broker.mjs: `forwardModelRequest`, in the three parts between which other events may
-- come: the checks, the reservation, and the use of the credential; and `revoke` and `alarm`.
pub mod Sanitize
pub mod Response
pub mod Refused
pub mod Bounds
use clawsembly_kernel.Prelude.{
  ℕ, ◌+◌, ◌-◌, String, Bool, true, false, not, ◌&&◌, ◌||◌, Option, none, some, List, [], ◌∷◌, ◌++◌,
  if◌then◌else◌, ◌==◌, nat_eq, codes_eq, leb, ltb, length, codes, or_else,
}
use clawsembly_kernel.Js.{Js, str, property, is_true}
use clawsembly_kernel.JsText.{Text}
use clawsembly_kernel.Byok.{ApiPath, chat_completions, responses}
use clawsembly_kernel.Broker.{
  Bytes, AuthType, api_key_auth, openai_oauth, Provider, openai_provider, openrouter, upstream_of,
  Session, Store, Request, Body, was_revoked, streamed, Reply, reply, rejected, OauthRequest,
  refresh_request, OauthResponse, UpstreamBody, original, printed, UpstreamRequest,
  UpstreamResponse, Env, Flow, stop, go, ◌>>=◌, ◌>>◌, error_response, require, present, is_post,
  is_truthy, truthy, digest_equal, bearer_token, read_bounded_json, validate_completion,
  validate_responses, max_response_bytes, refresh_skew_ms,
}
use clawsembly_kernel.Broker.Identity.{
  OpenAiIdentity, trimmed, resolve_open_ai_identity, token_expiry,
}
use clawsembly_kernel.Broker.Issue.{conclude, is_ok, with_properties}
use clawsembly_kernel.Broker.Poll.{is_oauth, is_ready}
use clawsembly_kernel.Broker.Forward.Response.{bounded_chunks, selected_response_headers}
use clawsembly_kernel.Broker.Forward.Sanitize.{sanitize_codex_responses}

-- `requestKind`
pub data Kind : Type 0 where
  completion_kind responses_kind : Kind

abbrev pub serves : Kind → ApiPath → Bool
serves completion_kind chat_completions = true
serves completion_kind responses = false
serves responses_kind chat_completions = false
serves responses_kind responses = true

abbrev pub has_credential_of : AuthType → Session → Bool
has_credential_of api_key_auth s = is_truthy s.api_key
has_credential_of openai_oauth s = is_truthy s.access_token && is_truthy s.refresh_token

unfoldable pub has_credential : Session → Bool
has_credential s = has_credential_of s.auth_type s

unfoldable pub is_usable : Session → Bool
is_usable s = not s.revoked && (is_ready s.state && has_credential s)

unfoldable pub is_valid_request : Kind → Js → Text → Bool
is_valid_request responses_kind value model = validate_responses value model
is_valid_request completion_kind value model = validate_completion value model

-- What a request that passed its checks goes on with.
pub record Parsed : Type 0 where
  pub value : Js
  pub bytes : Bytes
  pub bearer : Text

unfoldable pub revoked_session : Session → Session
revoked_session s = record s {
  revoked = true;
  api_key = none;
  access_token = none;
  refresh_token = none;
  device_auth_id = none;
  user_code = none;
  poll_digest = none;
}

module _ (env : Env) where
  -- Up to `const reserveRequest`.
  unfoldable pub check_request : Kind → Request → ℕ → Store → Flow Parsed
  check_request kind request now store = do
    require (is_post request) "method_not_allowed" 405
    session ← present store.session "capability_not_found" 404
    require (is_usable session) "capability_revoked" 403
    require (serves kind session.api_path) "request_outside_capability" 400
    require (ltb now session.expires_at) "capability_expired" 403
    require (digest_equal (env.digest (bearer_token request)) session.guest_digest) "unauthorized"
        401
    require (ltb session.request_count session.max_requests) "request_budget_exhausted" 429
    value ← read_bounded_json env request
    require (is_valid_request kind value session.model) "request_outside_capability" 400
    go (record { value = value; bytes = request.body; bearer = bearer_token request })

  unfoldable pub reservable : Text → ℕ → Store → Flow Session
  reservable bearer now store = do
    current ← present store.session "capability_not_found" 404
    require (is_usable current) "capability_revoked" 403
    require (ltb now current.expires_at) "capability_expired" 403
    require (digest_equal (env.digest bearer) current.guest_digest) "unauthorized" 401
    require (ltb current.request_count current.max_requests) "request_budget_exhausted" 429
    go current

  abbrev pub count_request : Session → Session
  count_request s = record s { request_count = s.request_count + 1 }

  -- `reserveRequest`
  unfoldable pub reserve : Text → ℕ → Store → Store × Flow Session
  reserve bearer now store = elim (reservable bearer now store) [
    | stop answer ↦ (store, stop answer)
    | go current ↦
        (record store { session = some (count_request current) }, go (count_request current))
  ]

  unfoldable pub needs_refresh : ℕ → Session → Bool
  needs_refresh now s = is_oauth s.auth_type && leb s.token_expires_at (now + refresh_skew_ms)

  abbrev pub refresh_token_of : Js → Session → Text
  refresh_token_of (str t) s = trimmed (str t)
  refresh_token_of v s = elim s.refresh_token [ none ↦ [] | some t ↦ t ]

  unfoldable pub has_new_tokens : OauthResponse → Session → Bool
  has_new_tokens response s =
      is_ok response
      && (not (trimmed (property response.value "access_token") == [])
          && not (refresh_token_of (property response.value "refresh_token") s == []))

  unfoldable pub with_new_tokens : ℕ → OauthResponse → Session → Session
  with_new_tokens answered response s =
      let access_token = trimmed (property response.value "access_token") in
      let identity = resolve_open_ai_identity env access_token in
      record s {
        access_token = some access_token;
        refresh_token = some (refresh_token_of (property response.value "refresh_token") s);
        account_id = elim identity.account_id [ none ↦ s.account_id | some id ↦ some id ];
        token_expires_at =
            token_expiry env answered (property response.value "expires_in") identity.expires_at;
      }

  unfoldable pub refreshed_session : ℕ → Session → Flow Session
  refreshed_session answered session = do
    response ←
        present (env.oauth (refresh_request session.refresh_token))
          "openai_token_refresh_unreachable" 502
    with_properties response.value
    require (has_new_tokens response session) "openai_token_refresh_failed" 502
    go (with_new_tokens answered response session)

  -- `refreshOpenAiCredential`
  unfoldable pub refresh_open_ai_credential :
      (now answered : ℕ) → Session → Store → Store × Flow Session
  refresh_open_ai_credential now answered session store =
      if needs_refresh now session
      then (elim (refreshed_session answered session) [
        | stop answer ↦ (store, stop answer)
        | go fresh ↦ (record store { session = some fresh }, go fresh)
      ])
      else (store, go session)

  abbrev pub credential_of : AuthType → Session → Option Text
  credential_of api_key_auth s = s.api_key
  credential_of openai_oauth s = s.access_token

  abbrev pub codex_responses_url : String
  codex_responses_url = "https://chatgpt.com/backend-api/codex/responses"

  abbrev pub target_of : AuthType → Session → Parsed → String × Option Text × UpstreamBody
  target_of api_key_auth s parsed = (upstream_of s.provider, none, original parsed.bytes)
  target_of openai_oauth s parsed =
      (codex_responses_url, s.account_id, printed (sanitize_codex_responses parsed.value))

  unfoldable pub upstream_request : Session → Parsed → UpstreamRequest
  upstream_request s parsed =
      let target = target_of s.auth_type s parsed in
      record {
        url = target.0;
        credential = credential_of s.auth_type s;
        account_id = target.1;
        accepts_stream = is_true (property parsed.value "stream");
        body = target.2;
      }

  unfoldable pub answer_upstream : Option UpstreamResponse → Reply
  answer_upstream none = error_response "provider_unreachable" 502
  answer_upstream (some upstream) =
      let chunks = bounded_chunks 0 upstream.chunks in
      reply upstream.status
        (streamed (selected_response_headers upstream.headers) chunks.0 chunks.1)

  -- The credential that the request goes out with.
  unfoldable pub activate : (now answered : ℕ) → Session → Store → Store × Flow Session
  activate now answered reserved store =
      let (after, refreshed) =
        refresh_open_ai_credential now answered (or_else store.session reserved) store in
      (
        after,
        do
          active ← refreshed
          require (not active.revoked && has_credential active) "capability_revoked" 403
          go active,
      )

  abbrev pub send : Parsed → Flow Session → Reply × List UpstreamRequest
  send parsed (stop answer) = (answer, [])
  send parsed (go active) = (
    answer_upstream (env.provider_fetch (upstream_request active parsed)),
    upstream_request active parsed ∷ [],
  )

  -- From `const refreshCredential` on: the store, the response and what went to the provider.
  unfoldable pub finish_request :
      (now answered : ℕ) → Session → Parsed → Store → Store × Reply × List UpstreamRequest
  finish_request now answered reserved parsed store =
      let result = activate now answered reserved store in
      let sent = send parsed result.1 in (result.0, sent.0, sent.1)

  -- A request between whose parts nothing else happens; `answered` is the time of a refresh.
  unfoldable pub forward_model_request :
      Kind → Request → (now answered : ℕ) → Store → Store × Reply × List UpstreamRequest
  forward_model_request kind request now answered store =
      elim (check_request kind request now store) [
        | stop answer ↦ (store, answer, [])
        | go parsed ↦
            let result = reserve parsed.bearer now store in
            elim result.1 [
              | stop answer ↦ (result.0, answer, [])
              | go reserved ↦ finish_request now answered reserved parsed result.0
            ]
      ]

  unfoldable pub revocable : Request → Store → Flow Session
  revocable request store = do
    require (is_post request) "method_not_allowed" 405
    session ← present store.session "capability_not_found" 404
    require (digest_equal (env.digest (bearer_token request)) (some session.admin_digest))
        "unauthorized" 401
    go session

  unfoldable pub revoke : Request → Store → Store × Reply
  revoke request store =
      conclude (revocable request store)
        (λ session. (
          record store { session = some (revoked_session session) },
          reply 200 (was_revoked session.revoked),
        ))
        store

-- `deleteAll`, when the alarm goes off.
unfoldable pub on_alarm : Store → Store
on_alarm store = record { session = none; alarm = none }
