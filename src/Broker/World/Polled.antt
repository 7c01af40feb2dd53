-- ===== src/Broker/World/Polled.antt =====
-- worker/byok-broker.mjs: what a poll leaves of the store.
use clawsembly_kernel.Prelude.{
  ℕ, ◌<◌, ◌≡◌, refl, subst, String, Bool, inl, inr, true, false, not, Bool-cases, Option, none,
  some, ltb,
}
use clawsembly_kernel.JsText.{Text}
use clawsembly_kernel.Broker.{
  Session, Store, Request, OauthResponse, device_token_request, Env, Flow, stop, go, ◌>>=◌, ◌>>◌,
  require, present, is_post, digest_equal, bearer_token,
}
use clawsembly_kernel.Broker.Issue.{conclude}
use clawsembly_kernel.Broker.Poll.{
  PollTimes, Credentials, is_oauth, is_ready, poll_session, is_waiting, authorization_of,
  ready_session, make_ready, poll_answer, poll_answer_option, poll_due, poll_open_ai_device_code,
}
use clawsembly_kernel.Broker.World.Keeps.{go_of_bind, of_require, lt_of_test, go-inj}

refused_test :
    (test : Bool) (code : String) (status : ℕ) {u : Unit {0}}
    → require (not test) code status ≡ go u
    → test ≡ false
refused_test true code status h = cc
refused_test false code status h = refl

module _ (env : Env) where
  -- What a poll has checked.
  pub record IsPollable (request : Request) (now : ℕ) (store : Store) (s : Session) : Type 0 where
    pub current : store.session ≡ some s
    pub unrevoked : s.revoked ≡ false
    pub live : now < s.expires_at
    pub waiting : is_ready s.state ≡ false
    pub known : digest_equal (env.digest (bearer_token request)) s.poll_digest ≡ true

  -- The store after a poll: as it was, with a later time of polling, or with a ready session.
  pub data IsPolled (request : Request) (guest : Text) (times : PollTimes) (store after : Store)
      : Type 0 where
    unchanged : after ≡ store → IsPolled request guest times store after
    postponed :
        (s : Session) (n : ℕ)
        → IsPollable request times.now store s
        → after ≡ record store { session = some (record s { next_poll_at = n }) }
        → IsPolled request guest times store after
    readied :
        (s : Session) (c : Credentials)
        → IsPollable request times.now store s
        → after ≡ record {
          session = some (ready_session env guest times.settled c s);
          alarm = some (ready_session env guest times.settled c s).expires_at;
        }
        → IsPolled request guest times store after

  poll_session-eq :
      (request : Request) (now : ℕ) (store : Store) (s : Session)
      → poll_session env request now store ≡ go s
      → IsPollable request now store s
  unfolding poll_session
  poll_session-eq request now store s e =
      let (_, _, h) = go_of_bind (require (is_post request) "method_not_allowed" 405) _ e in
      by_session store.session refl h
    where
      by_session :
          (o : Option Session)
          → store.session ≡ o
          → ◌≡◌ {A = Flow Session}
              (present o "capability_not_found" 404 >>= λ session.
                require (is_oauth session.auth_type) "capability_not_found" 404
                >> (require (not session.revoked) "capability_revoked" 403
                    >> (require (ltb now session.expires_at) "capability_expired" 403
                        >> (require
                              (not (is_ready session.state))
                              "authorization_already_consumed"
                              409
                            >> (require
                                  (digest_equal
                                    (env.digest (bearer_token request))
                                    session.poll_digest)
                                  "unauthorized"
                                  401
                                >> go session)))))
              (go s)
          → IsPollable request now store s
      by_session none q h = cc
      by_session (some c) q h =
          let (_, _, h1) =
            go_of_bind (require (is_oauth c.auth_type) "capability_not_found" 404) _ h in
          let (_, p2, h2) = go_of_bind (require (not c.revoked) "capability_revoked" 403) _ h1 in
          let (_, p3, h3) =
            go_of_bind (require (ltb now c.expires_at) "capability_expired" 403) _ h2 in
          let (_, p4, h4) =
            go_of_bind (require (not (is_ready c.state)) "authorization_already_consumed" 409) _
              h3 in
          let (_, p5, h5) =
            go_of_bind
              (require (digest_equal (env.digest (bearer_token request)) c.poll_digest)
                "unauthorized" 401)
              _ h4 in
          subst (IsPollable request now store) (go-inj c s h5) (record {
            current = q;
            unrevoked = refused_test _ "capability_revoked" 403 p2;
            live = lt_of_test _ _ (of_require _ "capability_expired" 403 p3);
            waiting = refused_test _ "authorization_already_consumed" 409 p4;
            known = of_require _ "unauthorized" 401 p5;
          })

  module _ (request : Request) (guest : Text) (times : PollTimes) (store : Store) where
    module _ (s : Session) (pollable : IsPollable request times.now store s) where
      answered-IsPolled :
          (response : OauthResponse)
          → IsPolled request guest times store (poll_answer env guest times s response store).0
      unfolding poll_answer make_ready
      answered-IsPolled response = elim (Bool-cases (is_waiting env response.status)) [
        | inl h ↦ rw h (postponed s _ pollable refl)
        | inr h ↦ rw h (by_flow (authorization_of env times.exchanged response))
      ]
        where
          by_flow :
              (o : Flow Credentials)
              → IsPolled request guest times store
                  (conclude o (make_ready env guest times.settled s) store).0
          by_flow (stop answer) = unchanged refl
          by_flow (go c) = readied s c pollable refl

      due-IsPolled : IsPolled request guest times store (poll_due env guest times store s).0
      unfolding poll_due
      due-IsPolled = elim (Bool-cases (ltb times.now s.next_poll_at)) [
        | inl h ↦ rw h (unchanged refl)
        | inr h ↦ rw h (by_response (env.oauth (device_token_request s.device_auth_id s.user_code)))
      ]
        where
          by_response :
              (o : Option OauthResponse)
              → IsPolled request guest times store (poll_answer_option env guest times s store o).0
          by_response none = unchanged refl
          by_response (some response) = answered-IsPolled response

    pub poll-IsPolled :
        IsPolled request guest times store
          (poll_open_ai_device_code env request guest times store).0
    unfolding poll_open_ai_device_code
    poll-IsPolled = by_flow (poll_session env request times.now store) refl
      where
        by_flow :
            (o : Flow Session)
            → poll_session env request times.now store ≡ o
            → IsPolled request guest times store
                (conclude o (poll_due env guest times store) store).0
        by_flow (stop answer) e = unchanged refl
        by_flow (go s) e = due-IsPolled s (poll_session-eq request times.now store s e)
