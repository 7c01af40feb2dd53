-- ===== src/Broker/World/Limit.antt =====
-- worker/byok-broker.mjs: the budget through every event of a broker, and through its histories.
use clawsembly_kernel.Prelude.{
  ℕ, ◌+◌, ◌≤◌, ◌≡◌, refl, sym, subst, ◌∙◌, false, inl, inr, Option, none, some, List, [], ◌++◌,
  arith, All, length,
}
use clawsembly_kernel.JsText.{Text}
use clawsembly_kernel.Broker.{SessionState, pending, ready, Session, Store, Request, Env, ttl_ms}
use clawsembly_kernel.Broker.Issue.{issue_session, issued_session, start_session, started_session}
use clawsembly_kernel.Broker.Poll.{
  PollTimes, Credentials, is_ready, ready_session, poll_open_ai_device_code,
}
use clawsembly_kernel.Broker.Forward.{revoke, revoked_session, on_alarm}
use clawsembly_kernel.Broker.World.{
  Task, World, on_poll, on_revoke, Step, waits, checks, reserves, finishes, polls, revokes, expires,
  Reach, issued, started, later,
}
use clawsembly_kernel.Broker.World.Budget.{
  IsReserved, Unreserved, IsStored, Inv, live_session, on_check-Inv, on_reserve-Inv,
}
use clawsembly_kernel.Broker.World.Finish.{on_finish-Inv}
use clawsembly_kernel.Broker.World.Polled.{
  IsPollable, IsPolled, unchanged, postponed, readied, poll-IsPolled,
}
use clawsembly_kernel.Broker.World.Keeps.{IsRevocation, revoke-IsRevocation}

some-inj : {s t : ℕ} → some s ≡ some t → s ≡ t
some-inj h = cc

module _ (e : ℕ) (w : World) (v : Inv e w) where
  waits-Inv : (t : ℕ) → w.now ≤ t → Inv e (record w { now = t })
  waits-Inv t h = record {
    tasks = v.tasks;
    budget = v.budget;
    stored = by_session w.store.session v.stored;
  }
    where
      by_session : (o : Option Session) → IsStored e w o → IsStored e (record w { now = t }) o
      by_session none k = omega (arith, k, h)
      by_session (some s) (limited, alarm, counted, unreserved) = (
        limited,
        elim alarm [ inl k ↦ inl k | inr k ↦ inr (omega arith) ],
        elim counted [ inl k ↦ inl k | inr k ↦ inr (omega arith) ],
        unreserved,
      )

  -- The stored session changes, and not in what the budget reads.
  changed-Inv :
      (s t : Session)
      → w.store.session ≡ some s
      → t.state ≡ s.state
      → t.expires_at ≡ s.expires_at
      → t.max_requests ≡ s.max_requests
      → t.request_count ≡ s.request_count
      → Inv e (record w { store = record w.store { session = some t } })
  changed-Inv s t current state ends limit count =
      let (limited, alarm, counted, unreserved) = subst (IsStored e w) current v.stored in
      record {
        tasks = v.tasks;
        budget = v.budget;
        stored = (
          record {
            ends = ends ∙ limited.ends;
            limit = limit ∙ limited.limit;
            within = rw count limited.within;
          },
          alarm,
          elim counted [ inl k ↦ inl (omega (arith, k, count)) | inr k ↦ inr k ],
          subst (λ st. Unreserved st w.reserved) (sym state) unreserved,
        );
      }

  expires-Inv :
      (t : ℕ) → w.store.alarm ≡ some t → t ≤ w.now → Inv e (record w { store = on_alarm w.store })
  unfolding on_alarm
  expires-Inv t alarm h = record {
    tasks = v.tasks;
    budget = v.budget;
    stored = by_session w.store.session v.stored;
  }
    where
      by_session : (o : Option Session) → IsStored e w o → e ≤ w.now
      by_session none k = k
      by_session (some s) (limited, inl k, counted, rest) =
          let same : t ≡ e = some-inj (sym alarm ∙ k) in omega arith
      by_session (some s) (limited, inr k, counted, rest) = k

  on_revoke-Inv : (env : Env) (request : Request) → Inv e (on_revoke env request w)
  unfolding on_revoke revoked_session
  on_revoke-Inv env request =
      by_store (revoke env request w.store).0 (revoke-IsRevocation env request w.store)
    where
      by_store : (after : Store) → IsRevocation w.store after → Inv e (record w { store = after })
      by_store after (inl same) = rw same v
      by_store after (inr (s, current, same)) =
          rw same (changed-Inv s (revoked_session s) current refl refl refl refl)

unready :
    (s : Session) (tasks : List Task)
    → is_ready s.state ≡ false
    → Unreserved s.state tasks
    → tasks ≡ []
unready s tasks = by_state s.state
  where
    by_state : (st : SessionState) → is_ready st ≡ false → Unreserved st tasks → tasks ≡ []
    by_state pending h u = u
    by_state ready h u = cc

module _ (env : Env) (e : ℕ) (w : World) (v : Inv e w) (request : Request) (guest : Text)
    (times : PollTimes) (at_start : times.now ≡ w.now) (forward : times.now ≤ times.settled) where
  -- The session that a poll makes ready ends later, and nobody has reserved anything of it.
  readied-Inv :
      (s : Session) (c : Credentials)
      → IsPollable env request times.now w.store s
      → Inv (times.settled + ttl_ms) (record w {
        store = record {
          session = some (ready_session env guest times.settled c s);
          alarm = some (ready_session env guest times.settled c s).expires_at;
        };
        now = times.settled;
      })
  unfolding ready_session
  readied-Inv s c p =
      let (limited, alarm, counted, unreserved) =
        live_session env e s w v p.current (rw (← at_start) p.live) in
      let nobody = unready s w.reserved p.waiting unreserved in
      record {
        tasks = subst (All (IsReserved (times.settled + ttl_ms))) (sym nobody) tt;
        budget = v.budget;
        stored = (
          record { ends = refl; limit = limited.limit; within = limited.within },
          inl refl,
          inl counted,
          tt,
        );
      }

  on_poll-Inv : (end : ℕ) × Inv end (on_poll env request guest times w)
  unfolding on_poll
  on_poll-Inv =
      by_store (poll_open_ai_device_code env request guest times w.store).0
        (poll-IsPolled env request guest times w.store)
    where
      after_now : w.now ≤ times.settled
      after_now = omega (arith, at_start, forward)

      by_store :
          (after : Store)
          → IsPolled env request guest times w.store after
          → (end : ℕ) × Inv end (record w { store = after; now = times.settled })
      by_store after (unchanged same) = rw same (e, waits-Inv e w v times.settled after_now)
      by_store after (postponed s n p same) = rw same (
        e,
        waits-Inv e _
            (changed-Inv e w v s (record s { next_poll_at = n }) p.current refl refl refl refl)
            times.settled after_now,
      )
      by_store after (readied s c p same) = rw same (times.settled + ttl_ms, readied-Inv s c p)

step-Inv : (env : Env) (e : ℕ) (w u : World) → Inv e w → Step env w u → (end : ℕ) × Inv end u
step-Inv env e w u v (waits t h) = (e, waits-Inv e w v t h)
step-Inv env e w u v (checks kind request) = (e, on_check-Inv env e kind request w v)
step-Inv env e w u v (reserves before parsed after h) =
    (e, on_reserve-Inv env e parsed (before ++ after) w v)
step-Inv env e w u v (finishes answered before task after h shape) =
    (e, on_finish-Inv env e answered before task after w h shape v)
step-Inv env e w u v (polls request guest times h k) = on_poll-Inv env e w v request guest times h k
step-Inv env e w u v (revokes request) = (e, on_revoke-Inv e w v env request)
step-Inv env e w u v (expires t alarm h) = (e, expires-Inv e w v t alarm h)

reach-Inv : (env : Env) (w : World) → Reach env w → (end : ℕ) × Inv end w
unfolding issue_session issued_session start_session started_session
reach-Inv env w (issued secrets now input) = (
  now + 1800000,
  record {
    tasks = tt;
    budget = omega arith;
    stored = (
      record { ends = refl; limit = refl; within = omega arith },
      inl refl,
      inl (omega arith),
      tt,
    );
  },
)
reach-Inv env w (started secrets now input) = (
  now + 900000,
  record {
    tasks = tt;
    budget = omega arith;
    stored = (
      record { ends = refl; limit = refl; within = omega arith },
      inl refl,
      inl (omega arith),
      refl,
    );
  },
)
reach-Inv env w (later {w = before} reach step) =
    let (e, v) = reach-Inv env before reach in step-Inv env e before w v step

-- In every history of a capability, the requests that went to the provider and those that reserved
-- a place for one are 64 at most, whatever comes in what order.
pub length-sent-le : (env : Env) (w : World) → Reach env w → length w.reserved + length w.sent ≤ 64
length-sent-le env w reach = let (e, v) = reach-Inv env w reach in v.budget
