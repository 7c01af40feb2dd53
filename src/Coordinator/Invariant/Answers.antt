-- ===== src/Coordinator/Invariant/Answers.antt =====
-- src/openclaw-shared-worker.ts: the invariant and what the owner's runtime says.
use clawsembly_kernel.Prelude.{
  ◌≡◌, refl, ◌∙◌, String, Bool, true, false, Option, none, some, List, [], ◌∷◌, arith, ==_refl,
  string_eq, if◌then◌else◌, Bool-cases, inl, inr, or_else,
}
use clawsembly_kernel.Prelude.JsMap
use clawsembly_kernel.Prelude.JsSet
use clawsembly_kernel.Js.{Js, Fields, obj}
use clawsembly_kernel.Coordinator.{
  Port, Method, wizard_start, wizard_next, wizard_status, wizard_cancel, MessageType,
  wizard_gateway_ready, byok_runtime_status, shared_runtime_result, RuntimeMessage, relay, NextKey,
  key_eq, Waiter, Host, Coordinator,
}
use clawsembly_kernel.Coordinator.Tracked.{Tracked-take, Tracked-land, Tracked-close}
use clawsembly_kernel.Coordinator.Owner.Keeps.{send-keeps}
use clawsembly_kernel.Coordinator.Route.{
  session_changes, enter_session, remember_wizard_result, remember_fields,
  remember_wizard_next_response, ready_for, take_request, with_id, remember, reply_to, serve,
  serve_next_waiters, finish_next, finish_start, finish, answer, send_ready, publish_type, publish,
  route_response, route_by_id, route_owner_output, is_response,
}
use clawsembly_kernel.Coordinator.Route.Cache.{evict-length}
use clawsembly_kernel.Coordinator.Invariant.{
  InvBut, Inv, IsLanded, IsLanded-Keeps, send-InvBut, broadcast-InvBut, clear-InvBut,
}

module _ (x : Option NextKey) where
  enter_session-InvBut :
      (id : String) (s : Coordinator) → InvBut x s → InvBut x (enter_session id s)
  unfolding enter_session
  enter_session-InvBut id s v = elim (Bool-cases (session_changes s.wizard_session_id id)) [
    | inl e ↦ rw e (clear-InvBut x s v.0)
    | inr e ↦ rw e v
  ]

  remember_fields-InvBut :
      (o : Option String) (fs : Fields) (s : Coordinator)
      → InvBut x s
      → InvBut x (remember_fields o fs s)
  unfolding remember_fields
  remember_fields-InvBut none fs s v = v
  remember_fields-InvBut (some id) fs s v = enter_session-InvBut id s v

  remember_wizard_result-InvBut :
      (result : Js) (s : Coordinator) → InvBut x s → InvBut x (remember_wizard_result result s)
  unfolding remember_wizard_result
  remember_wizard_result-InvBut (obj fs) s v = remember_fields-InvBut _ fs s v
  remember_wizard_result-InvBut _ s v = v

  remember_ok-InvBut :
      (ok : Bool) (result : Js) (s : Coordinator)
      → InvBut x s
      → InvBut x (if ok then remember_wizard_result result s else s)
  remember_ok-InvBut true result s v = remember_wizard_result-InvBut result s v
  remember_ok-InvBut false result s v = v

  remember-InvBut :
      (response : RuntimeMessage) (method : Option Method) (s : Coordinator)
      → InvBut x s
      → InvBut x (remember response method s)
  unfolding remember
  remember-InvBut response (some wizard_cancel) s v = clear-InvBut x _ v.0
  remember-InvBut response (some wizard_start) s v = remember_ok-InvBut response.ok _ s v
  remember-InvBut response (some wizard_next) s v = remember_ok-InvBut response.ok _ s v
  remember-InvBut response (some wizard_status) s v = remember_ok-InvBut response.ok _ s v
  remember-InvBut response _ s v = v

  module _ (h : Host) where
    reply_to-InvBut :
        (requester : Option Port) (response : RuntimeMessage) (s : Coordinator)
        → InvBut x s
        → InvBut x (reply_to h requester response s)
    unfolding reply_to
    reply_to-InvBut none response s v = v
    reply_to-InvBut (some p) response s v = send-InvBut h x p (relay response) s v

    serve-InvBut :
        (waiters : List Waiter) (response : RuntimeMessage) (s : Coordinator)
        → InvBut x s
        → InvBut x (serve h waiters response s)
    unfolding serve
    serve-InvBut [] response s v = v
    serve-InvBut (w ∷ waiters) response s v =
        serve-InvBut waiters response _
          (send-InvBut h x w.port (relay (with_id response w.request_id)) s v)

module _ (h : Host) where
  serve-IsLanded :
      (k : NextKey) (waiters : List Waiter) (response : RuntimeMessage) (s : Coordinator)
      → IsLanded k s
      → IsLanded k (serve h waiters response s)
  unfolding serve
  serve-IsLanded k [] response s v = v
  serve-IsLanded k (w ∷ waiters) response s v = serve-IsLanded k waiters response _ (
      send-keeps h (IsLanded k) (IsLanded-Keeps k) w.port (relay (with_id response w.request_id)) s
        v)

  serve_next_waiters-Inv :
      (k : NextKey) (response : RuntimeMessage) (s : Coordinator)
      → IsLanded k s
      → InvBut (some k) s
      → Inv (serve_next_waiters h k response s)
  unfolding serve_next_waiters
  serve_next_waiters-Inv k response s landed v =
      let waiters = or_else (JsMap.get k s.wizard_next_waiters) [] in
      let (led, cached, tracked) = serve-InvBut (some k) h waiters response s v in
      (led, cached, Tracked-close k (serve-IsLanded k waiters response s landed) tracked)

  store-InvBut :
      (x : Option NextKey) (ok : Bool) (k : NextKey) (response : RuntimeMessage) (s : Coordinator)
      → InvBut x s
      → InvBut x (if ok then remember_wizard_next_response k response s else s)
  unfolding remember_wizard_next_response
  store-InvBut x true k response s v = (v.0, evict-length _, v.2)
  store-InvBut x false k response s v = v

  store-IsLanded :
      (ok : Bool) (k : NextKey) (response : RuntimeMessage) (s : Coordinator)
      → IsLanded k s
      → IsLanded k (if ok then remember_wizard_next_response k response s else s)
  unfolding remember_wizard_next_response
  store-IsLanded true k response s v = v
  store-IsLanded false k response s v = v

  finish_next-Inv :
      (k : NextKey) (response : RuntimeMessage) (s : Coordinator)
      → InvBut (some k) s
      → Inv (finish_next h k response s)
  unfolding finish_next
  finish_next-Inv k response s v =
      serve_next_waiters-Inv k response _
        (store-IsLanded response.ok k response _
          (JsSet.has-delete k k s.wizard_next_in_flight ∙ rw (==_refl k) refl))
        (store-InvBut (some k) response.ok k response _ (v.0, v.1, Tracked-land k v.2))

  finish_start-InvBut :
      (x : Option NextKey) (response : RuntimeMessage) (s : Coordinator)
      → InvBut x s
      → InvBut x (finish_start h response s)
  unfolding finish_start
  finish_start-InvBut x response s v = serve-InvBut x h s.wizard_start_waiters response _ v

  finish-Inv :
      (method : Option Method) (key : Option NextKey) (response : RuntimeMessage) (s : Coordinator)
      → ((k : NextKey) → key ≡ some k → method ≡ some wizard_next)
      → InvBut key s
      → Inv (finish h method key response s)
  unfolding finish
  finish-Inv (some wizard_next) (some k) response s asked v = finish_next-Inv k response s v
  finish-Inv (some wizard_next) none response s asked v = v
  finish-Inv (some wizard_start) none response s asked v = finish_start-InvBut none response s v
  finish-Inv none none response s asked v = v
  finish-Inv (some wizard_status) none response s asked v = v
  finish-Inv (some wizard_cancel) none response s asked v = v
  finish-Inv (some (Method.other name)) none response s asked v = v
  finish-Inv none (some k) response s asked v = let e = asked k refl in cc
  finish-Inv (some wizard_start) (some k) response s asked v = let e = asked k refl in cc
  finish-Inv (some wizard_status) (some k) response s asked v = let e = asked k refl in cc
  finish-Inv (some wizard_cancel) (some k) response s asked v = let e = asked k refl in cc
  finish-Inv (some (Method.other name)) (some k) response s asked v = let e = asked k refl in cc

  answer-Inv :
      (id : String) (requester : Option Port) (response : RuntimeMessage) (s : Coordinator)
      → Inv s
      → Inv (answer h id requester (JsMap.get id s.request_methods) response s)
  unfolding answer take_request
  answer-Inv id requester response s v =
      let key = JsMap.get id s.request_wizard_next_keys in
      let method = JsMap.get id s.request_methods in
      finish-Inv method key response _ (λ k e. v.2.named id k e)
        (reply_to-InvBut key h requester response _
          (remember-InvBut key response method (take_request id s) (v.0, v.1, Tracked-take id v.2)))

  send_ready-InvBut :
      (x : Option NextKey) (ports : List Port) (message : RuntimeMessage) (s : Coordinator)
      → InvBut x s
      → InvBut x (send_ready h ports message s)
  unfolding send_ready
  send_ready-InvBut x [] message s v = v
  send_ready-InvBut x (p ∷ ports) message s v =
      send_ready-InvBut x ports message _ (send-InvBut h x p (ready_for s p message) s v)

  publish_type-Inv :
      (type : MessageType) (message : RuntimeMessage) (s : Coordinator)
      → Inv s
      → Inv (publish_type h type message s)
  unfolding publish_type
  publish_type-Inv wizard_gateway_ready message s v = send_ready-InvBut none s.ports message _ v
  publish_type-Inv byok_runtime_status message s v = broadcast-InvBut h none (relay message) _ v
  publish_type-Inv shared_runtime_result message s v = broadcast-InvBut h none (relay message) _ v
  publish_type-Inv _ message s v = broadcast-InvBut h none (relay message) s v

  route_response-Inv :
      (id : String) (message : RuntimeMessage) (s : Coordinator)
      → Inv s
      → Inv (route_response h id message s)
  unfolding route_response publish
  route_response-Inv id message s v = ground (
    arith,
    answer-Inv id (JsMap.get id s.request_owners) message s v,
    publish_type-Inv message.type message s v,
  )

  -- Whatever the owner's runtime says keeps the invariant.
  pub route_owner_output-Inv :
      (message : RuntimeMessage) (s : Coordinator) → Inv s → Inv (route_owner_output h message s)
  unfolding route_owner_output publish
  route_owner_output-Inv message s v = by_id message.request_id
    where
      by_id : (o : Option String) → Inv (route_by_id h o message s)
      by_id none = unfold route_by_id in publish_type-Inv message.type message s v
      by_id (some id) =
          unfold route_by_id in
          elim (Bool-cases (is_response message.type)) [
            | inl e ↦ rw e (route_response-Inv id message s v)
            | inr e ↦ rw e (publish_type-Inv message.type message s v)
          ]
