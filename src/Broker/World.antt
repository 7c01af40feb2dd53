-- ===== src/Broker/World.antt =====
-- worker/byok-broker.mjs: the histories of a broker. The three parts of a model request, polls,
-- revocations, the alarm and the time interleave in any order; `blockConcurrencyWhile` keeps each
-- of the parts whole; a revocation, which awaits a digest between its reading and its writing, is
-- taken as one event too. worker/index.mjs makes a new object for each capability, so a history starts
-- from an issued or started session and issues no other.
pub mod Valid
pub mod Entitled
pub mod Keeps
pub mod Budget
pub mod Finish
pub mod Polled
pub mod Limit
pub mod Revocation
pub mod Admission
pub mod Confined
pub mod Expired
pub mod Refines
pub mod Undisturbed
pub mod First
use clawsembly_kernel.Prelude.{ℕ, ◌≤◌, ◌≡◌, Option, none, some, List, [], ◌∷◌, ◌++◌}
use clawsembly_kernel.JsText.{Text}
use clawsembly_kernel.Broker.{Session, Store, Request, Reply, UpstreamRequest, Env, Flow, stop, go}
use clawsembly_kernel.Broker.Issue.{Secrets, IssueInput, DeviceStart, issue_session, start_session}
use clawsembly_kernel.Broker.Poll.{PollTimes, poll_open_ai_device_code}
use clawsembly_kernel.Broker.Forward.{
  Kind, Parsed, check_request, reserve, finish_request, revoke, on_alarm,
}

-- A request whose place in the budget is reserved, with the session that the handler holds.
abbrev pub Task : Type 0
Task = Session × Parsed

-- The requests that passed the checks, those that reserved, and what went to the provider.
pub record World : Type 0 where
  pub store : Store
  pub now : ℕ
  pub checked : List Parsed
  pub reserved : List Task
  pub sent : List UpstreamRequest

abbrev pub add_checked : Flow Parsed → World → World
add_checked (stop answer) w = w
add_checked (go parsed) w = record w { checked = w.checked ++ parsed ∷ [] }

abbrev pub add_reserved : Flow Session → Parsed → World → World
add_reserved (stop answer) parsed w = w
add_reserved (go session) parsed w = record w { reserved = w.reserved ++ (session, parsed) ∷ [] }

module _ (env : Env) where
  unfoldable pub on_check : Kind → Request → World → World
  on_check kind request w = add_checked (check_request env kind request w.now w.store) w

  -- The request leaves `checked`, of which `rest` are the others.
  unfoldable pub on_reserve : Parsed → List Parsed → World → World
  on_reserve parsed rest w =
      let result = reserve env parsed.bearer w.now w.store in
      add_reserved result.1 parsed (record w { store = result.0; checked = rest })

  unfoldable pub on_finish : ℕ → Task → List Task → World → World
  on_finish answered task rest w =
      let result = finish_request env w.now answered task.0 task.1 w.store in
      record w { store = result.0; now = answered; reserved = rest; sent = w.sent ++ result.2 }

  unfoldable pub on_poll : Request → Text → PollTimes → World → World
  on_poll request guest times w = record w {
    store = (poll_open_ai_device_code env request guest times w.store).0;
    now = times.settled;
  }

  unfoldable pub on_revoke : Request → World → World
  on_revoke request w = record w { store = (revoke env request w.store).0 }

  abbrev pub opened : Store → ℕ → World
  opened store now = record { store = store; now = now; checked = []; reserved = []; sent = [] }

  -- One event. The alarm goes off when its time has come, or later.
  pub data Step (w : World) : World → Type 0 where
    waits : (t : ℕ) → w.now ≤ t → Step w (record w { now = t })
    checks : (kind : Kind) (request : Request) → Step w (on_check kind request w)
    reserves :
        (before : List Parsed) (parsed : Parsed) (after : List Parsed)
        → w.checked ≡ before ++ parsed ∷ after
        → Step w (on_reserve parsed (before ++ after) w)
    finishes :
        (answered : ℕ) (before : List Task) (task : Task) (after : List Task)
        → w.now ≤ answered
        → w.reserved ≡ before ++ task ∷ after
        → Step w (on_finish answered task (before ++ after) w)
    polls :
        (request : Request) (guest : Text) (times : PollTimes)
        → times.now ≡ w.now
        → times.now ≤ times.settled
        → Step w (on_poll request guest times w)
    revokes : (request : Request) → Step w (on_revoke request w)
    expires :
        (t : ℕ)
        → w.store.alarm ≡ some t
        → t ≤ w.now
        → Step w (record w { store = on_alarm w.store })

  pub data Reach : World → Type 0 where
    issued :
        (secrets : Secrets) (now : ℕ) (input : IssueInput)
        → Reach (opened (issue_session env secrets now input).0 now)
    started :
        (secrets : Secrets) (now : ℕ) (input : DeviceStart)
        → Reach (opened (start_session env secrets now input).0 now)
    later : {w u : World} → Reach w → Step w u → Reach u

  -- From `w` on, by any number of events.
  pub data Steps (w : World) : World → Type 0 where
    here : Steps w w
    then_step : {u v : World} → Steps w u → Step u v → Steps w v
