-- ===== src/Broker/Poll.antt =====
-- worker/byok-broker.mjs: `pollOpenAiDeviceCode` and `exchangeOpenAiDeviceAuthorization`, which make
-- a pending session ready.
use clawsembly_kernel.Prelude.{
  ℕ, ◌+◌, ◌-◌, Bool, true, false, not, ◌&&◌, ◌||◌, Option, none, some, [], if◌then◌else◌, ◌==◌,
  nat_eq, codes_eq, ltb,
}
use clawsembly_kernel.Js.{property}
use clawsembly_kernel.JsText.{Text}
use clawsembly_kernel.Broker.{
  AuthType, api_key_auth, openai_oauth, SessionState, pending, ready, Session, Store, Request,
  granted, retry_after, Reply, reply, device_token_request, exchange_request, OauthResponse, Env,
  Flow, go, ◌>>=◌, ◌>>◌, error_response, require, present, is_post, digest_equal, bearer_token,
  ttl_ms,
}
use clawsembly_kernel.Broker.Identity.{trimmed, resolve_open_ai_identity, token_expiry}
use clawsembly_kernel.Broker.Issue.{conclude, is_ok, with_properties, grant_of}

-- The times at which the handler starts, is answered, has exchanged the code, and ends.
pub record PollTimes : Type 0 where
  pub now : ℕ
  pub answered : ℕ
  pub exchanged : ℕ
  pub settled : ℕ

pub record Credentials : Type 0 where
  pub access_token : Text
  pub refresh_token : Text
  pub account_id : Text
  pub token_expires_at : ℕ

pub record Authorization : Type 0 where
  pub code : Text
  pub verifier : Text

abbrev pub is_oauth : AuthType → Bool
is_oauth openai_oauth = true
is_oauth api_key_auth = false

abbrev pub is_ready : SessionState → Bool
is_ready ready = true
is_ready pending = false

module _ (env : Env) where
  unfoldable pub exchange_open_ai_device_authorization : ℕ → Authorization → Flow Credentials
  exchange_open_ai_device_authorization now authorization = do
    response ←
        present (env.oauth (exchange_request authorization.code authorization.verifier))
          "openai_token_unreachable" 502
    with_properties response.value
    let access_token = trimmed (property response.value "access_token")
    let refresh_token = trimmed (property response.value "refresh_token")
    require (is_ok response && (not (access_token == []) && not (refresh_token == [])))
        "openai_token_exchange_failed" 502
    let identity = resolve_open_ai_identity env access_token
    account_id ← present identity.account_id "openai_account_identity_missing" 502
    go (record {
      access_token = access_token;
      refresh_token = refresh_token;
      account_id = account_id;
      token_expires_at =
          token_expiry env now (property response.value "expires_in") identity.expires_at;
    })

  -- The checks on the stored session, in order.
  unfoldable pub poll_session : Request → ℕ → Store → Flow Session
  poll_session request now store = do
    require (is_post request) "method_not_allowed" 405
    session ← present store.session "capability_not_found" 404
    require (is_oauth session.auth_type) "capability_not_found" 404
    require (not session.revoked) "capability_revoked" 403
    require (ltb now session.expires_at) "capability_expired" 403
    require (not (is_ready session.state)) "authorization_already_consumed" 409
    require (digest_equal (env.digest (bearer_token request)) session.poll_digest) "unauthorized"
        401
    go session

  abbrev pub is_waiting : ℕ → Bool
  is_waiting status = status == 403 || status == 404

  unfoldable pub authorization_of : ℕ → OauthResponse → Flow Credentials
  authorization_of now response = do
    with_properties response.value
    let code = trimmed (property response.value "authorization_code")
    let verifier = trimmed (property response.value "code_verifier")
    require (is_ok response && (not (code == []) && not (verifier == [])))
        "openai_device_authorization_failed" 502
    exchange_open_ai_device_authorization now (record { code = code; verifier = verifier })

  unfoldable pub ready_session : Text → ℕ → Credentials → Session → Session
  ready_session guest now credentials session = record session {
    access_token = some credentials.access_token;
    refresh_token = some credentials.refresh_token;
    account_id = some credentials.account_id;
    token_expires_at = credentials.token_expires_at;
    state = ready;
    guest_digest = some (env.digest guest);
    poll_digest = none;
    device_auth_id = none;
    user_code = none;
    expires_at = now + ttl_ms;
  }

  unfoldable pub make_ready : Text → ℕ → Session → Credentials → Store × Reply
  make_ready guest now session credentials =
      let current = ready_session guest now credentials session in
      (
        record { session = some current; alarm = some current.expires_at },
        reply 200 (granted (grant_of guest none current)),
      )

  abbrev pub retry : ℕ → Reply
  retry ms = reply 202 (retry_after ms)

  -- The answer of the authorization service: not yet, or a code to exchange.
  unfoldable pub poll_answer : Text → PollTimes → Session → OauthResponse → Store → Store × Reply
  poll_answer guest times session response store =
      if is_waiting response.status
      then (
        record store {
          session = some (record session { next_poll_at = times.answered + session.interval_ms });
        },
        retry session.interval_ms,
      )
      else conclude (authorization_of times.exchanged response)
          (make_ready guest times.settled session) store

  abbrev pub poll_answer_option :
      Text → PollTimes → Session → Store → Option OauthResponse → Store × Reply
  poll_answer_option guest times session store none =
      (store, error_response "openai_device_unreachable" 502)
  poll_answer_option guest times session store (some response) =
      poll_answer guest times session response store

  unfoldable pub poll_due : Text → PollTimes → Store → Session → Store × Reply
  poll_due guest times store session =
      if ltb times.now session.next_poll_at
      then (store, retry (session.next_poll_at - times.now))
      else poll_answer_option guest times session store
          (env.oauth (device_token_request session.device_auth_id session.user_code))

  unfoldable pub poll_open_ai_device_code : Request → Text → PollTimes → Store → Store × Reply
  poll_open_ai_device_code request guest times store =
      conclude (poll_session request times.now store) (poll_due guest times store) store
