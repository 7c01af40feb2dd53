-- ===== src/Broker/World/Revocation.antt =====
-- worker/byok-broker.mjs: a broker after a revocation.
pub mod Quiet
use clawsembly_kernel.Prelude.{
  ℕ, ◌≡◌, ◌≢◌, refl, sym, ap, subst, ◌∙◌, true, false, ◌⊎◌, Bool-cases, inl, inr, Option, none,
  some, List, ◌++◌, append-nil, arith, or_else,
}
use clawsembly_kernel.JsText.{Text}
use clawsembly_kernel.Broker.{
  Session, Store, Request, Reply, OauthResponse, refresh_request, Env, Flow, stop, go, ◌>>=◌, ◌>>◌,
  require, present, error_response, is_post, digest_equal, bearer_token,
}
use clawsembly_kernel.Broker.Issue.{is_ok, with_properties}
use clawsembly_kernel.Broker.Poll.{PollTimes, poll_open_ai_device_code}
use clawsembly_kernel.Broker.Forward.{
  Kind, Parsed, is_usable, check_request, reservable, reserve, needs_refresh, has_new_tokens,
  with_new_tokens, refreshed_session, refresh_open_ai_credential, activate, finish_request, revoke,
  revoked_session, on_alarm, revocable,
}
use clawsembly_kernel.Broker.World.{
  Task, World, add_checked, on_check, on_reserve, on_finish, on_poll, on_revoke, Step, waits,
  checks, reserves, finishes, polls, revokes, expires,
}
use clawsembly_kernel.Broker.World.Budget.{reservable-eq}
use clawsembly_kernel.Broker.World.Polled.{
  IsPollable, IsPolled, unchanged, postponed, readied, poll-IsPolled,
}
use clawsembly_kernel.Broker.World.Keeps.{go_of_bind, of_require, IsRevocation, revoke-IsRevocation}

-- A revoked session, without credentials.
pub record IsErased (s : Session) : Type 0 where
  pub revoked : s.revoked ≡ true
  pub api_key : s.api_key ≡ none
  pub access_token : s.access_token ≡ none
  pub refresh_token : s.refresh_token ≡ none

-- Any events, as long as a session is stored, that is, up to the alarm.
pub data Run (env : Env) (w : World) : World → Type 0 where
  done : Run env w w
  next : {u v : World} → Run env w u → Step env u v → v.store.session ≢ none → Run env w v

-- The authorization service does not renew what has no refresh token.
abbrev pub RefusesNone : Env → Type 0
RefusesNone env =
    (response : OauthResponse)
    → env.oauth (refresh_request none) ≡ some response
    → is_ok response ≡ false

abbrev pub HasErased : Store → Type 0
HasErased store = (s : Session) × (store.session ≡ some s) × IsErased s

-- The same as `w` for those to whom the provider's requests and the credential matter.
abbrev pub IsQuiet : World → World → Type 0
IsQuiet w u = HasErased u.store × (u.sent ≡ w.sent)

pub session-inj : {s t : Session} → some s ≡ some t → s ≡ t
session-inj h = cc

module _ (env : Env) where
  refreshed_session-stops :
      (answered : ℕ) (s t : Session)
      → RefusesNone env
      → s.refresh_token ≡ none
      → refreshed_session env answered s ≢ go t
  unfolding refreshed_session has_new_tokens
  refreshed_session-stops answered s t refuses erased e =
      by_response (env.oauth (refresh_request s.refresh_token)) refl e
    where
      by_response :
          (o : Option OauthResponse)
          → env.oauth (refresh_request s.refresh_token) ≡ o
          → (present o "openai_token_refresh_unreachable" 502 >>= λ response.
              with_properties response.value
              >> (require (has_new_tokens env response s) "openai_token_refresh_failed" 502
                  >> go (with_new_tokens env answered response s)))
            ≢ go t
      by_response none q h = cc
      by_response (some response) q h =
          let (_, _, h1) =
            go_of_bind (with_properties response.value)
              (λ _.
                require (has_new_tokens env response s) "openai_token_refresh_failed" 502
                >> go (with_new_tokens env answered response s))
              h in
          let (_, p, _) =
            go_of_bind (require (has_new_tokens env response s) "openai_token_refresh_failed" 502)
              (λ _. go (with_new_tokens env answered response s)) h1 in
          let passed = of_require _ "openai_token_refresh_failed" 502 p in
          let refused : is_ok response ≡ false =
            refuses response (ap (λ r. env.oauth (refresh_request r)) (sym erased) ∙ q) in
          ground (arith, passed, refused)

  pub reserve-erased :
      (bearer : Text) (now : ℕ) (store : Store) (s : Session)
      → store.session ≡ some s
      → s.revoked ≡ true
      → (answer : Reply) × (reserve env bearer now store ≡ (store, stop answer))
  unfolding reserve is_usable
  reserve-erased bearer now store s current revoked = by_flow (reservable env bearer now store) refl
    where
      by_flow :
          (o : Flow Session)
          → reservable env bearer now store ≡ o
          → (answer : Reply) × (reserve env bearer now store ≡ (store, stop answer))
      by_flow (stop answer) q = (answer, rw (q, reserve) refl)
      by_flow (go t) q =
          let r = reservable-eq env bearer now store t q in
          let same : s ≡ t = session-inj (sym current ∙ r.current) in
          let usable : is_usable s ≡ true = ap is_usable same ∙ r.usable in
          absurd (ground (arith, usable, revoked))

  abbrev IsIdle : Session → Store → Store × Flow Session → Type 0
  IsIdle s store result =
      (result ≡ (store, go s)) ⊎ ((answer : Reply) × (result ≡ (store, stop answer)))

  refresh-erased :
      (now answered : ℕ) (store : Store) (s : Session)
      → RefusesNone env
      → s.refresh_token ≡ none
      → IsIdle s store (refresh_open_ai_credential env now answered s store)
  unfolding refresh_open_ai_credential
  refresh-erased now answered store s refuses erased = elim (Bool-cases (needs_refresh env now s)) [
    | inl h ↦ rw h (by_flow (refreshed_session env answered s) refl)
    | inr h ↦ rw h (inl refl)
  ]
    where
      by_flow :
          (o : Flow Session)
          → refreshed_session env answered s ≡ o
          → let r : Store × Flow Session = elim o [
            | stop answer ↦ (store, stop answer)
            | go fresh ↦ (record store { session = some fresh }, go fresh)
          ] in
            IsIdle s store r
      by_flow (stop answer) q = inr (answer, refl)
      by_flow (go t) q = absurd (refreshed_session-stops answered s t refuses erased q)

  pub activate-erased :
      (now answered : ℕ) (reserved : Session) (store : Store) (s : Session)
      → RefusesNone env
      → store.session ≡ some s
      → IsErased s
      → (answer : Reply) × (activate env now answered reserved store ≡ (store, stop answer))
  unfolding activate
  activate-erased now answered reserved store s refuses current erased =
      let latest = or_else store.session reserved in
      let same : latest ≡ s = ap (λ o. or_else o reserved) current in
      let gone : IsErased latest = subst IsErased (sym same) erased in
      elim (refresh-erased now answered store latest refuses gone.refresh_token) [
        | inl h ↦ rw h (rw gone.revoked (error_response "capability_revoked" 403, refl))
        | inr (answer, h) ↦ rw h (answer, refl)
      ]
