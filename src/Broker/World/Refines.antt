-- ===== src/Broker/World/Refines.antt =====
-- worker/byok-broker.mjs: what the capability of an API key is to its holder.
use clawsembly_kernel.Prelude.{
  ℕ, suc, ◌+◌, ◌-◌, ◌<◌, ◌≡◌, refl, subst, false, inl, inr, Option, none, some, List, ◌∷◌, ◌++◌,
  arith, if◌then◌else◌, Bool-cases, All, All-without,
}
use clawsembly_kernel.JsText.{Text}
use clawsembly_kernel.Broker.{Session, Store, Request, Env, Flow, stop, go}
use clawsembly_kernel.Broker.Issue.{Secrets, IssueInput, issue_session, issued_session}
use clawsembly_kernel.Broker.Poll.{PollTimes}
use clawsembly_kernel.Broker.Forward.{
  Kind, Parsed, is_usable, check_request, reservable, reserve, count_request, revoke,
  revoked_session, on_alarm,
}
use clawsembly_kernel.Broker.World.{
  Task, World, add_checked, add_reserved, on_check, on_reserve, on_finish, on_poll, on_revoke,
  opened, Step, waits, checks, reserves, finishes, polls, revokes, expires, Steps,
}
use clawsembly_kernel.Broker.World.Budget.{reservable-eq}
use clawsembly_kernel.Broker.World.Keeps.{IsRevocation, revoke-IsRevocation}
use clawsembly_kernel.Broker.World.Confined.{IsTask, Inv, finish-IsConfined}
use clawsembly_kernel.Broker.World.Confined.Events.{steps-Inv, poll-unchanged, issue_session-Inv}

-- A capability for a number of requests, one that was revoked, or one that has expired.
pub data Capability : Type 0 where
  allows : ℕ → Capability
  closed gone : Capability

-- A use takes one request off; what is closed does not open, and what has gone does not come back.
pub data Move : Capability → Capability → Type 0 where
  stays : (c : Capability) → Move c c
  spends : (n : ℕ) → Move (allows (suc n)) (allows n)
  closes : (n : ℕ) → Move (allows n) closed
  goes : (c : Capability) → Move c gone

unfoldable pub view : Option Session → Capability
view none = gone
view (some s) = if s.revoked then closed else allows (s.max_requests - s.request_count)

reserve-Move :
    (s : Session)
    → s.request_count < s.max_requests
    → s.revoked ≡ false
    → Move (view (some s)) (view (some (record s { request_count = s.request_count + 1 })))
unfolding view
reserve-Move s room kept =
    let taken : s.max_requests - s.request_count ≡ suc (s.max_requests - (s.request_count + 1)) =
      omega (arith, room) in
    rw kept (rw taken (spends (s.max_requests - (s.request_count + 1))))

revoke-Move : (s : Session) → Move (view (some s)) (view (some (revoked_session s)))
unfolding view revoked_session
revoke-Move s = elim (Bool-cases s.revoked) [
  | inl h ↦ rw h (stays closed)
  | inr h ↦ rw h (closes (s.max_requests - s.request_count))
]

view-Move :
    (o : Option Session) (s t : Session)
    → o ≡ some s
    → Move (view (some s)) (view (some t))
    → Move (view o) (view (some t))
view-Move o s t h move = rw h move

module _ (env : Env) (guest : Text) (input : IssueInput) (w : World)
    (v : Inv env guest input w) where
  abbrev Moved : World → Type 0
  Moved u = Move (view w.store.session) (view u.store.session)

  unmoved : Moved w
  unmoved = stays (view w.store.session)

  check-Moved : (kind : Kind) (request : Request) → Moved (on_check env kind request w)
  unfolding on_check
  check-Moved kind request = by_flow (check_request env kind request w.now w.store)
    where
      by_flow : (o : Flow Parsed) → Moved (add_checked o w)
      by_flow (stop answer) = unmoved
      by_flow (go parsed) = unmoved

  reserve-Moved : (parsed : Parsed) (rest : List Parsed) → Moved (on_reserve env parsed rest w)
  unfolding on_reserve reserve is_usable
  reserve-Moved parsed rest = by_flow (reservable env parsed.bearer w.now w.store) refl
    where
      by_flow :
          (o : Flow Session)
          → reservable env parsed.bearer w.now w.store ≡ o
          → let r : Store × Flow Session = elim o [
            | stop answer ↦ (w.store, stop answer)
            | go current ↦ (
              record w.store { session = some (count_request env current) },
              go (count_request env current),
            )
          ] in
            Moved (add_reserved r.1 parsed (record w { store = r.0; checked = rest }))
      by_flow (stop answer) q = unmoved
      by_flow (go s) q =
          let r = reservable-eq env parsed.bearer w.now w.store s q in
          let usable = r.usable in
          view-Move w.store.session s (count_request env s) r.current
            (reserve-Move s r.room (ground (arith, usable)))

  finish-Moved :
      (answered : ℕ) (before : List Task) (task : Task) (after : List Task)
      → w.reserved ≡ before ++ task ∷ after
      → Moved (on_finish env answered task (before ++ after) w)
  unfolding on_finish
  finish-Moved answered before task after shape =
      let (own, _) =
        All-without (IsTask env guest input) before task after
          (subst (All (IsTask env guest input)) shape v.reserved) in
      let (same, _) = finish-IsConfined env guest input w.now answered task w.store own v.stored in
      rw same unmoved

  poll-Moved :
      (request : Request) (secret : Text) (times : PollTimes)
      → Moved (on_poll env request secret times w)
  unfolding on_poll
  poll-Moved request secret times =
      rw (poll-unchanged env guest input w v request secret times) unmoved

  revoke-Moved : (request : Request) → Moved (on_revoke env request w)
  unfolding on_revoke
  revoke-Moved request =
      by_store (revoke env request w.store).0 (revoke-IsRevocation env request w.store)
    where
      by_store : (after : Store) → IsRevocation w.store after → Moved (record w { store = after })
      by_store after (inl same) = rw same unmoved
      by_store after (inr (s, current, same)) =
          rw same (view-Move w.store.session s (revoked_session s) current (revoke-Move s))

  event-Moved : (u : World) → Step env w u → Moved u
  unfolding on_alarm view
  event-Moved u (waits t h) = unmoved
  event-Moved u (checks kind request) = check-Moved kind request
  event-Moved u (reserves before parsed after shape) = reserve-Moved parsed (before ++ after)
  event-Moved u (finishes answered before task after h shape) =
      finish-Moved answered before task after shape
  event-Moved u (polls request secret times h k) = poll-Moved request secret times
  event-Moved u (revokes request) = revoke-Moved request
  event-Moved u (expires t alarm h) = goes (view w.store.session)

-- In a history of the capability of an API key, the capability is one for 64 requests at first, and
-- whatever event follows on a history leaves it as it is, takes one request off an open one that
-- has one, closes an open one, or ends it: it never allows more, and none that is closed or has
-- ended opens.
pub Step-Move :
    (env : Env) (secrets : Secrets) (now : ℕ) (input : IssueInput) (w u : World)
    → Steps env (opened env (issue_session env secrets now input).0 now) w
    → Step env w u
    → (view (opened env (issue_session env secrets now input).0 now).store.session ≡ allows 64)
      × Move (view w.store.session) (view u.store.session)
unfolding issue_session issued_session view
Step-Move env secrets now input w u run step =
    let start = issue_session-Inv env secrets now input in
    let v = steps-Inv env secrets.guest input _ w start run in
    (refl, event-Moved env secrets.guest input w v u step)
