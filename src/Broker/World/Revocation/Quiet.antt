-- ===== src/Broker/World/Revocation/Quiet.antt =====
-- worker/byok-broker.mjs: the events of a broker after a revocation, and its histories.
use clawsembly_kernel.Prelude.{
  ℕ, ◌≡◌, ◌≢◌, refl, sym, ap, ◌∙◌, true, inl, inr, none, some, List, ◌++◌, append-nil,
}
use clawsembly_kernel.JsText.{Text}
use clawsembly_kernel.Broker.{
  Session, Store, Request, Env, Flow, stop, go, is_post, digest_equal, bearer_token,
}
use clawsembly_kernel.Broker.Poll.{PollTimes, poll_open_ai_device_code}
use clawsembly_kernel.Broker.Forward.{
  Kind, Parsed, check_request, finish_request, revoke, revoked_session, on_alarm, revocable,
}
use clawsembly_kernel.Broker.World.{
  Task, World, add_checked, on_check, on_reserve, on_finish, on_poll, on_revoke, Step, waits,
  checks, reserves, finishes, polls, revokes, expires,
}
use clawsembly_kernel.Broker.World.Polled.{
  IsPollable, IsPolled, unchanged, postponed, readied, poll-IsPolled,
}
use clawsembly_kernel.Broker.World.Keeps.{IsRevocation, revoke-IsRevocation}
use clawsembly_kernel.Broker.World.Revocation.{
  session-inj, Run, done, next, RefusesNone, HasErased, IsQuiet, reserve-erased, activate-erased,
}

module _ (env : Env) where
  module _ (w : World) where
    finish-IsQuiet :
        (answered : ℕ) (task : Task) (rest : List Task)
        → RefusesNone env
        → HasErased w.store
        → IsQuiet w (on_finish env answered task rest w)
    unfolding on_finish finish_request
    finish-IsQuiet answered task rest refuses (s, current, erased) =
        let (answer, h) =
          activate-erased env w.now answered task.0 w.store s refuses current erased in
        rw h ((s, current, erased), append-nil w.sent)

    reserve-IsQuiet :
        (parsed : Parsed) (rest : List Parsed)
        → HasErased w.store
        → IsQuiet w (on_reserve env parsed rest w)
    unfolding on_reserve
    reserve-IsQuiet parsed rest (s, current, erased) =
        let (answer, h) = reserve-erased env parsed.bearer w.now w.store s current erased.revoked in
        rw h ((s, current, erased), refl)

    check-IsQuiet :
        (kind : Kind) (request : Request)
        → HasErased w.store
        → IsQuiet w (on_check env kind request w)
    unfolding on_check
    check-IsQuiet kind request held = by_flow (check_request env kind request w.now w.store)
      where
        by_flow : (o : Flow Parsed) → IsQuiet w (add_checked o w)
        by_flow (stop answer) = (held, refl)
        by_flow (go parsed) = (held, refl)

    poll-IsQuiet :
        (request : Request) (guest : Text) (times : PollTimes)
        → HasErased w.store
        → IsQuiet w (on_poll env request guest times w)
    unfolding on_poll
    poll-IsQuiet request guest times (s, current, erased) = (
      by_store (poll_open_ai_device_code env request guest times w.store).0
          (poll-IsPolled env request guest times w.store),
      refl,
    )
      where
        impossible : (t : Session) → IsPollable env request times.now w.store t → ⊥
        impossible t p =
            let same : s ≡ t = session-inj (sym current ∙ p.current) in
            let h : t.revoked ≡ true = ap (λ x. x.revoked) (sym same) ∙ erased.revoked in
            let f = p.unrevoked in cc

        by_store :
            (after : Store) → IsPolled env request guest times w.store after → HasErased after
        by_store after (unchanged same) = rw same (s, current, erased)
        by_store after (postponed t n p same) = absurd (impossible t p)
        by_store after (readied t c p same) = absurd (impossible t p)

    revoke-IsQuiet : (request : Request) → HasErased w.store → IsQuiet w (on_revoke env request w)
    unfolding on_revoke revoked_session
    revoke-IsQuiet request (s, current, erased) =
        (by_store (revoke env request w.store).0 (revoke-IsRevocation env request w.store), refl)
      where
        by_store : (after : Store) → IsRevocation w.store after → HasErased after
        by_store after (inl same) = rw same (s, current, erased)
        by_store after (inr (t, held, same)) = rw same (
          revoked_session t,
          refl,
          record { revoked = refl; api_key = refl; access_token = refl; refresh_token = refl },
        )

  event-IsQuiet :
      (w u : World)
      → RefusesNone env
      → HasErased w.store
      → Step env w u
      → u.store.session ≢ none
      → IsQuiet w u
  unfolding on_alarm
  event-IsQuiet w u refuses held (waits t h) kept = (held, refl)
  event-IsQuiet w u refuses held (checks kind request) kept = check-IsQuiet w kind request held
  event-IsQuiet w u refuses held (reserves before parsed after h) kept =
      reserve-IsQuiet w parsed (before ++ after) held
  event-IsQuiet w u refuses held (finishes answered before task after h shape) kept =
      finish-IsQuiet w answered task (before ++ after) refuses held
  event-IsQuiet w u refuses held (polls request guest times h k) kept =
      poll-IsQuiet w request guest times held
  event-IsQuiet w u refuses held (revokes request) kept = revoke-IsQuiet w request held
  event-IsQuiet w u refuses held (expires t alarm h) kept = absurd (kept refl)

  events-IsQuiet : (w u : World) → RefusesNone env → HasErased w.store → Run env w u → IsQuiet w u
  events-IsQuiet w u refuses held done = (held, refl)
  events-IsQuiet w u refuses held (next {u = before} run step kept) =
      let (still, same) = events-IsQuiet w before refuses held run in
      let (last, again) = event-IsQuiet before u refuses still step kept in (last, again ∙ same)

revoke-HasErased :
    (env : Env) (request : Request) (w : World) (s : Session)
    → is_post request ≡ true
    → w.store.session ≡ some s
    → digest_equal (env.digest (bearer_token request)) (some s.admin_digest) ≡ true
    → HasErased (on_revoke env request w).store
unfolding on_revoke revoke revocable revoked_session
revoke-HasErased env request w s post current known = rw post (
    rw current (
      rw known (
        revoked_session s,
        refl,
        record { revoked = refl; api_key = refl; access_token = refl; refresh_token = refl },
      )))

-- After a revocation by the holder of the secret for it, and as long as the session is stored,
-- nothing more goes to the provider, also of the requests that had passed the checks or reserved
-- before, and the session stays revoked without credentials, if the authorization service does not
-- renew what has no refresh token.
pub sent-revoke :
    (env : Env) (request : Request) (w u : World) (s : Session)
    → RefusesNone env
    → is_post request ≡ true
    → w.store.session ≡ some s
    → digest_equal (env.digest (bearer_token request)) (some s.admin_digest) ≡ true
    → Run env (on_revoke env request w) u
    → (u.sent ≡ w.sent) × HasErased u.store
unfolding on_revoke
sent-revoke env request w u s refuses post current known run =
    let held = revoke-HasErased env request w s post current known in
    let (last, same) = events-IsQuiet env (on_revoke env request w) u refuses held run in
    (same, last)
