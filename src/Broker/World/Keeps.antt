-- ===== src/Broker/World/Keeps.antt =====
-- worker/byok-broker.mjs: what a refresh and a poll leave of a session, and inversions of handlers.
use clawsembly_kernel.Prelude.{
  ℕ, ◌≤◌, ◌<◌, ◌≡◌, refl, ap, subst, String, Bool, true, false, ◌⊎◌, inl, inr, Option, none, some,
  arith, Bool-cases, length, or_else, ltb,
}
use clawsembly_kernel.Broker.{
  Session, Store, Request, Env, Flow, stop, go, ◌>>=◌, ◌>>◌, require, present, is_post,
  digest_equal, bearer_token, reply, was_revoked, refresh_request, OauthResponse,
}
use clawsembly_kernel.Broker.Issue.{conclude, with_properties}
use clawsembly_kernel.Broker.Forward.{
  Parsed, refreshed_session, refresh_open_ai_credential, needs_refresh, activate, send,
  has_new_tokens, with_new_tokens, revocable, revoke, revoked_session,
}

pub go_of_bind {ℓ κ} :
    {B : Type κ} {A : Type ℓ} {b : B} (part : Flow A) (rest : A → Flow B)
    (result : (part >>= rest) ≡ go b)
    → (value : A) × (part ≡ go value) × (rest value ≡ go b)
go_of_bind (stop answer) rest result = cc
go_of_bind (go value) rest result = (value, refl, result)

pub of_require :
    (test : Bool) (code : String) (status : ℕ) {u : Unit {0}}
    → require test code status ≡ go u
    → test ≡ true
of_require true code status h = refl
of_require false code status h = cc

pub lt_of_test : (m n : ℕ) → ltb m n ≡ true → m < n
lt_of_test m n h = ground arith

pub go-inj : (s t : Session) → ◌≡◌ {A = Flow Session} (go s) (go t) → s ≡ t
go-inj s t h = cc

-- What a refresh leaves alone.
pub record SameLimits (s t : Session) : Type 0 where
  pub state : t.state ≡ s.state
  pub expires_at : t.expires_at ≡ s.expires_at
  pub max_requests : t.max_requests ≡ s.max_requests
  pub request_count : t.request_count ≡ s.request_count
  pub revoked : t.revoked ≡ s.revoked

-- The credential's use leaves the store, or puts a refreshed session in it.
abbrev pub IsActivated : Session → Store → Store → Type 0
IsActivated s store after =
    (after ≡ store) ⊎ ((t : Session) × (after ≡ record store { session = some t }) × SameLimits s t)

module _ (env : Env) where
  pub refreshed_session-SameLimits :
      (answered : ℕ) (s t : Session) → refreshed_session env answered s ≡ go t → SameLimits s t
  unfolding refreshed_session with_new_tokens
  refreshed_session-SameLimits answered s t e =
      by_response (env.oauth (refresh_request s.refresh_token)) e
    where
      by_response :
          (o : Option OauthResponse)
          → ◌≡◌ {A = Flow Session}
              (present o "openai_token_refresh_unreachable" 502 >>= λ response.
                with_properties response.value
                >> (require (has_new_tokens env response s) "openai_token_refresh_failed" 502
                    >> go (with_new_tokens env answered response s)))
              (go t)
          → SameLimits s t
      by_response none h = cc
      by_response (some response) h =
          let (_, q1, e1) =
            go_of_bind (with_properties response.value)
              (λ _.
                require (has_new_tokens env response s) "openai_token_refresh_failed" 502
                >> go (with_new_tokens env answered response s))
              h in
          let (_, q2, e2) =
            go_of_bind (require (has_new_tokens env response s) "openai_token_refresh_failed" 502)
              (λ _. go (with_new_tokens env answered response s)) e1 in
          subst (SameLimits s) (go-inj (with_new_tokens env answered response s) t e2) (record {
            state = refl;
            expires_at = refl;
            max_requests = refl;
            request_count = refl;
            revoked = refl;
          })

  refresh-IsActivated :
      (now answered : ℕ) (s : Session) (store : Store)
      → IsActivated s store (refresh_open_ai_credential env now answered s store).0
  unfolding refresh_open_ai_credential
  refresh-IsActivated now answered s store = elim (Bool-cases (needs_refresh env now s)) [
    | inl e ↦ rw e (by_refresh (refreshed_session env answered s) refl)
    | inr e ↦ rw e (inl refl)
  ]
    where
      by_refresh :
          (o : Flow Session)
          → refreshed_session env answered s ≡ o
          → let r : Store × Flow Session = elim o [
            | stop answer ↦ (store, stop answer)
            | go fresh ↦ (record store { session = some fresh }, go fresh)
          ] in
            IsActivated s store r.0
      by_refresh (stop answer) e = inl refl
      by_refresh (go t) e = inr (t, refl, refreshed_session-SameLimits answered s t e)

  pub activate-IsActivated :
      (now answered : ℕ) (reserved : Session) (store : Store)
      → IsActivated
          (or_else store.session reserved)
          store
          (activate env now answered reserved store).0
  unfolding activate
  activate-IsActivated now answered reserved store =
      refresh-IsActivated now answered (or_else store.session reserved) store

  pub length-send-le : (parsed : Parsed) (o : Flow Session) → length (send env parsed o).1 ≤ 1
  length-send-le parsed (stop answer) = omega arith
  length-send-le parsed (go active) = omega arith

-- A revocation of whoever has the secret for it replaces the stored session.
abbrev pub IsRevocation : Store → Store → Type 0
IsRevocation store after =
    (after ≡ store)
    ⊎ ((s : Session) × (store.session ≡ some s)
        × (after ≡ record store { session = some (revoked_session s) }))

pub revoke-IsRevocation :
    (env : Env) (request : Request) (store : Store)
    → IsRevocation store (revoke env request store).0
unfolding revoke revocable
revoke-IsRevocation env request store = by_flow (revocable env request store) refl
  where
    known :
        (s t : Session)
        → ◌≡◌ {A = Flow Session}
            (require
                (digest_equal (env.digest (bearer_token request)) (some s.admin_digest))
                "unauthorized"
                401
              >> go s)
            (go t)
        → s ≡ t
    known s t h =
        let (_, _, h1) =
          go_of_bind
            (require (digest_equal (env.digest (bearer_token request)) (some s.admin_digest))
              "unauthorized" 401)
            _ h in
        go-inj s t h1

    by_session :
        (t : Session) (o : Option Session)
        → ◌≡◌ {A = Flow Session}
            (present o "capability_not_found" 404 >>= λ session.
              require
                (digest_equal (env.digest (bearer_token request)) (some session.admin_digest))
                "unauthorized"
                401
              >> go session)
            (go t)
        → o ≡ some t
    by_session t none h = cc
    by_session t (some s) h = ap some (known s t h)

    by_flow :
        (o : Flow Session)
        → revocable env request store ≡ o
        → IsRevocation store
            (conclude o
              (λ session. (
                record store { session = some (revoked_session session) },
                reply 200 (was_revoked session.revoked),
              ))
              store).0
    by_flow (stop answer) q = inl refl
    by_flow (go t) q =
        let (_, _, h) = go_of_bind (require (is_post request) "method_not_allowed" 405) _ q in
        inr (t, by_session t store.session h, refl)
