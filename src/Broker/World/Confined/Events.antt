-- ===== src/Broker/World/Confined/Events.antt =====
-- worker/byok-broker.mjs: the events of the broker of an API key's capability, and its histories.
use clawsembly_kernel.Prelude.{
  ℕ, ◌≡◌, refl, subst, true, inl, inr, Option, some, List, [], ◌∷◌, ◌++◌, All, All-append,
  All-without,
}
use clawsembly_kernel.JsText.{Text}
use clawsembly_kernel.Broker.{Session, Store, Request, Env, Flow, stop, go}
use clawsembly_kernel.Broker.Issue.{Secrets, IssueInput, issued_session, issue_session}
use clawsembly_kernel.Broker.Poll.{PollTimes, is_ready, poll_open_ai_device_code}
use clawsembly_kernel.Broker.Forward.{
  Kind, Parsed, check_request, reservable, reserve, count_request, revoke, revoked_session,
  on_alarm,
}
use clawsembly_kernel.Broker.World.{
  Task, World, add_checked, add_reserved, on_check, on_reserve, on_finish, on_poll, on_revoke,
  opened, Step, waits, checks, reserves, finishes, polls, revokes, expires, Steps, here, then_step,
}
use clawsembly_kernel.Broker.World.Budget.{reservable-eq}
use clawsembly_kernel.Broker.World.Polled.{
  IsPollable, IsPolled, unchanged, postponed, readied, poll-IsPolled,
}
use clawsembly_kernel.Broker.World.Admission.{check_request-IsAdmitted}
use clawsembly_kernel.Broker.World.Keeps.{IsRevocation, revoke-IsRevocation}
use clawsembly_kernel.Broker.World.Confined.{
  IsOwn, IsGranted, IsConfined, AllOwn, IsTask, Inv, passed-IsGranted, finish-IsConfined,
}

module _ (env : Env) (guest : Text) (input : IssueInput) where
  pub held-IsOwn :
      (o : Option Session) (s : Session)
      → o ≡ some s
      → AllOwn env guest input o
      → IsOwn env guest input s
  held-IsOwn o s h own = subst (AllOwn env guest input) h own

  module _ (w : World) (v : Inv env guest input w) where
    with_store :
        (store : Store) (now : ℕ)
        → AllOwn env guest input store.session
        → Inv env guest input (record w { store = store; now = now })
    with_store store now own = record {
      stored = own;
      checked = v.checked;
      reserved = v.reserved;
      sent = v.sent;
    }

    check-Inv :
        (kind : Kind) (request : Request) → Inv env guest input (on_check env kind request w)
    unfolding on_check
    check-Inv kind request = by_flow (check_request env kind request w.now w.store) refl
      where
        by_flow :
            (o : Flow Parsed)
            → check_request env kind request w.now w.store ≡ o
            → Inv env guest input (add_checked o w)
        by_flow (stop answer) q = v
        by_flow (go parsed) q =
            let (s, a) = check_request-IsAdmitted env kind request w.now w.store parsed q in
            let own = held-IsOwn w.store.session s a.current v.stored in
            record {
              stored = v.stored;
              checked =
                  All-append (IsGranted env guest input) w.checked (parsed ∷ []) v.checked (
                    passed-IsGranted env guest input kind request w.now w.store parsed s own a,
                    tt,
                  );
              reserved = v.reserved;
              sent = v.sent;
            }

    reserve-Inv :
        (before : List Parsed) (parsed : Parsed) (after : List Parsed)
        → w.checked ≡ before ++ parsed ∷ after
        → Inv env guest input (on_reserve env parsed (before ++ after) w)
    unfolding on_reserve reserve
    reserve-Inv before parsed after shape =
        by_flow (reservable env parsed.bearer w.now w.store) refl
      where
        split : IsGranted env guest input parsed × All (IsGranted env guest input) (before ++ after)
        split =
            All-without (IsGranted env guest input) before parsed after
              (subst (All (IsGranted env guest input)) shape v.checked)

        by_flow :
            (o : Flow Session)
            → reservable env parsed.bearer w.now w.store ≡ o
            → let r : Store × Flow Session = elim o [
              | stop answer ↦ (w.store, stop answer)
              | go current ↦ (
                record w.store { session = some (count_request env current) },
                go (count_request env current),
              )
            ] in
              Inv env guest input
                (add_reserved r.1 parsed (record w { store = r.0; checked = before ++ after }))
        by_flow (stop answer) q = record {
          stored = v.stored;
          checked = split.1;
          reserved = v.reserved;
          sent = v.sent;
        }
        by_flow (go s) q =
            let r = reservable-eq env parsed.bearer w.now w.store s q in
            let own = held-IsOwn w.store.session s r.current v.stored in
            let counted : IsOwn env guest input (count_request env s) = record {
              auth = own.auth;
              state = own.state;
              provider = own.provider;
              model = own.model;
              path = own.path;
              key = own.key;
              digest = own.digest;
            } in
            record {
              stored = counted;
              checked = split.1;
              reserved =
                  All-append (IsTask env guest input) w.reserved
                    ((count_request env s, parsed) ∷ []) v.reserved ((counted, split.0), tt);
              sent = v.sent;
            }

    finish-Inv :
        (answered : ℕ) (before : List Task) (task : Task) (after : List Task)
        → w.reserved ≡ before ++ task ∷ after
        → Inv env guest input (on_finish env answered task (before ++ after) w)
    unfolding on_finish
    finish-Inv answered before task after shape =
        let (own, rest) =
          All-without (IsTask env guest input) before task after
            (subst (All (IsTask env guest input)) shape v.reserved) in
        let (same, new) =
          finish-IsConfined env guest input w.now answered task w.store own v.stored in
        record {
          stored = rw same v.stored;
          checked = v.checked;
          reserved = rest;
          sent = All-append (IsConfined env guest input) w.sent _ v.sent new;
        }

    -- The session was never pending.
    pub poll-unchanged :
        (request : Request) (secret : Text) (times : PollTimes)
        → (poll_open_ai_device_code env request secret times w.store).0 ≡ w.store
    poll-unchanged request secret times = by_poll _ (poll-IsPolled env request secret times w.store)
      where
        impossible : (s : Session) → IsPollable env request times.now w.store s → ⊥
        impossible s p =
            let own = held-IsOwn w.store.session s p.current v.stored in
            let h : is_ready s.state ≡ true = rw own.state refl in let k = p.waiting in cc

        by_poll :
            (after : Store) → IsPolled env request secret times w.store after → after ≡ w.store
        by_poll after (unchanged same) = same
        by_poll after (postponed s n p same) = absurd (impossible s p)
        by_poll after (readied s c p same) = absurd (impossible s p)

    poll-Inv :
        (request : Request) (secret : Text) (times : PollTimes)
        → Inv env guest input (on_poll env request secret times w)
    unfolding on_poll
    poll-Inv request secret times =
        rw (poll-unchanged request secret times) (with_store w.store times.settled v.stored)

    revoke-Inv : (request : Request) → Inv env guest input (on_revoke env request w)
    unfolding on_revoke revoked_session
    revoke-Inv request =
        by_store (revoke env request w.store).0 (revoke-IsRevocation env request w.store)
      where
        by_store :
            (after : Store)
            → IsRevocation w.store after
            → Inv env guest input (record w { store = after })
        by_store after (inl same) = rw same v
        by_store after (inr (s, current, same)) =
            let own = held-IsOwn w.store.session s current v.stored in
            rw same (
              with_store (record w.store { session = some (revoked_session s) }) w.now
                (record {
                  auth = own.auth;
                  state = own.state;
                  provider = own.provider;
                  model = own.model;
                  path = own.path;
                  key = inr refl;
                  digest = own.digest;
                }))

  step-Inv : (w u : World) → Inv env guest input w → Step env w u → Inv env guest input u
  unfolding on_alarm
  step-Inv w u v (waits t h) = with_store w v w.store t v.stored
  step-Inv w u v (checks kind request) = check-Inv w v kind request
  step-Inv w u v (reserves before parsed after shape) = reserve-Inv w v before parsed after shape
  step-Inv w u v (finishes answered before task after h shape) =
      finish-Inv w v answered before task after shape
  step-Inv w u v (polls request secret times h k) = poll-Inv w v request secret times
  step-Inv w u v (revokes request) = revoke-Inv w v request
  step-Inv w u v (expires t alarm h) = with_store w v (on_alarm w.store) w.now tt

  pub steps-Inv : (w u : World) → Inv env guest input w → Steps env w u → Inv env guest input u
  steps-Inv w u v here = v
  steps-Inv w u v (then_step {u = before} run step) =
      step-Inv before u (steps-Inv w before v run) step

pub issue_session-Inv :
    (env : Env) (secrets : Secrets) (now : ℕ) (input : IssueInput)
    → Inv env secrets.guest input (opened env (issue_session env secrets now input).0 now)
unfolding issue_session issued_session
issue_session-Inv env secrets now input = record {
  stored = record {
    auth = refl;
    state = refl;
    provider = refl;
    model = refl;
    path = refl;
    key = inl refl;
    digest = refl;
  };
  checked = tt;
  reserved = tt;
  sent = tt;
}
