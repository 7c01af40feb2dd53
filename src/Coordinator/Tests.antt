-- ===== src/Coordinator/Tests.antt =====
-- Tests of the shared worker's model: two tabs, a wizard's step and its answer.
use clawsembly_kernel.Prelude.{
  ◌≡◌, ◌≤◌, refl, String, true, false, Option, none, some, List, [], ◌∷◌, ◌++◌, arith, length, ◌==◌,
  nat_eq, or_else, string_eq,
}
use clawsembly_kernel.Prelude.JsMap
use clawsembly_kernel.Prelude.JsSet
use clawsembly_kernel.Js.{Js, undefined, str, num, obj, end, field, property, field_of, has_own}
use clawsembly_kernel.Coordinator.{
  Method, wizard_next, wizard_cancel, MessageType, wizard_rpc_request, wizard_rpc_response, key_eq,
  byok_runtime_start, RuntimeMessage, relay, owner_input, plain, NextKey, Waiter, text, Host,
  Coordinator, initial, waiting_status,
}
use clawsembly_kernel.Coordinator.Owner.{
  forget_owner, clear_wizard_next_deduplication, remove_port, disconnect, choose_step, choose_owner,
  send, send_with, log,
}
use clawsembly_kernel.Coordinator.Owner.Termination.{choose_owner-unfold}
use clawsembly_kernel.Coordinator.Owner.Quiet.{appointed, disconnect_owner}
use clawsembly_kernel.Coordinator.Route.{
  with_id, is_response, remember_wizard_next_response, route_owner_output, session_changes,
}
use clawsembly_kernel.Coordinator.Route.Cache.{remember_wizard_next_response_lem}
use clawsembly_kernel.Coordinator.Route.Replies.{replies, route_owner_output-next}
use clawsembly_kernel.Coordinator.Route.Sessions.{cancel_drops_waiters, new_session_drops_waiters}
use clawsembly_kernel.Coordinator.Handle.{
  wizard_next_key, answer_key, value_text, on_message, on_connect, admit, send_result,
  send_result_option, send_ready_message, send_ready_option,
}
use clawsembly_kernel.Coordinator.Handle.Scenario.{two_tabs}
use clawsembly_kernel.Coordinator.Invariant.{Inv}
use clawsembly_kernel.Coordinator.Invariant.Events.{connects, receives, start, later, Reach-Inv}

abbrev calm : Host
calm = record { post_throws = λ p m. false; stringify = λ v. text "1" }

-- Posts to the first tab fail.
abbrev failing : Host
failing = record { post_throws = λ p m. p == 1; stringify = λ v. text "1" }

abbrev request : MessageType → Option Method → String → Js → RuntimeMessage
request type method id params = record {
  type = type;
  method = method;
  ok = false;
  params = params;
  request_id = some id;
  result = undefined;
  boot_mode = undefined;
  owner_boot_mode = undefined;
  rest = undefined;
}

abbrev answer_params : Js
answer_params = obj (
    field "sessionId" (str "s")
      (field "answer" (obj (field "stepId" (str "step") (field "value" (num 1) end))) end))

abbrev key : NextKey
key = record { session_id = "s"; step_id = "step"; value = "1" }

abbrev first_request : RuntimeMessage
first_request = request wizard_rpc_request (some wizard_next) "a" answer_params

abbrev second_request : RuntimeMessage
second_request = request wizard_rpc_request (some wizard_next) "b" answer_params

abbrev response : Js → RuntimeMessage
response result = record {
  type = wizard_rpc_response;
  method = none;
  ok = true;
  params = undefined;
  request_id = some "a";
  result = result;
  boot_mode = undefined;
  owner_boot_mode = undefined;
  rest = undefined;
}

-- Tabs 1 and 2, of which 1 owns the runtime, with a `wizard.next` outstanding if one is given.
abbrev state : Option Method → List (NextKey × List Waiter) → Coordinator
state method waiters = record {
  ports = 1 ∷ 2 ∷ [];
  request_owners = ("a", 1) ∷ [];
  request_methods = elim method [ none ↦ [] | some m ↦ ("a", m) ∷ [] ];
  request_wizard_next_keys = ("a", key) ∷ [];
  wizard_next_in_flight = [];
  wizard_next_response_cache = [];
  wizard_next_waiters = waiters;
  wizard_start_waiters = [];
  owner = some 1;
  ready_message = none;
  result_message = none;
  runtime_requested = true;
  wizard_session_id = some "s";
  wizard_snapshot = undefined;
  wizard_start_in_flight = false;
  status_message = waiting_status;
  sent = [];
}

abbrev waiting : Waiter
waiting = record { port = 2; request_id = "b" }

choose_owner-unfold_example :
    choose_owner failing (state none [])
    ≡ choose_step failing (choose_owner failing) (state none [])
choose_owner-unfold_example = choose_owner-unfold failing (state none [])

Reach-Inv_example : Inv (
    on_message calm 1
      (plain (request byok_runtime_start none "a" undefined))
      (on_connect calm 2 (on_connect calm 1 initial)))
unfolding initial on_connect admit send send_with log send_result send_result_option
    send_ready_message send_ready_option JsMap.get
Reach-Inv_example =
    Reach-Inv {h = calm}
      {s = on_message calm 1 (plain (request byok_runtime_start none "a" undefined))
        (on_connect calm 2 (on_connect calm 1 initial))}
      (later (later (later start (connects 1 initial)) (connects 2 (on_connect calm 1 initial))) (
        receives 1 (plain (request byok_runtime_start none "a" undefined))
          (on_connect calm 2 (on_connect calm 1 initial)) (λ id e. refl)))

disconnect_owner_example :
    disconnect calm 1 (state none []) ≡ appointed 2 (forget_owner (remove_port 1 (state none [])))
unfolding JsSet.delete forget_owner clear_wizard_next_deduplication remove_port
disconnect_owner_example = disconnect_owner calm (state none []) 1 2 (λ p m. refl) refl refl

remember_wizard_next_response_lem_example :
    (length
        (remember_wizard_next_response key
          (response undefined)
          (state none [])).wizard_next_response_cache
      ≤ 32)
    × (JsMap.get key
          (remember_wizard_next_response key
            (response undefined)
            (state none [])).wizard_next_response_cache
        ≡ some (response undefined))
remember_wizard_next_response_lem_example =
    remember_wizard_next_response_lem key (response undefined) (state none []) (omega arith)

two_tabs_example :
    (route_owner_output calm (response undefined) (
      on_message calm 2
        (plain second_request)
        (on_message calm 1 (plain first_request) (state none [])))).sent
    ≡ []
      ++ ((1, owner_input first_request)
          ∷ (1, relay (response undefined))
          ∷ (2, relay (with_id (response undefined) "b"))
          ∷ [])
unfolding wizard_next_key answer_key value_text property field_of has_own JsMap.get JsSet.has
    is_response
two_tabs_example =
    two_tabs calm 1 2 1 first_request second_request (response undefined) "a" "b" key
      (state none []) (λ p m. refl) refl refl refl refl refl refl refl refl (omega arith) refl refl
      refl tt

route_owner_output-next_example :
    let waiters : List (NextKey × List Waiter) = (key, waiting ∷ []) ∷ [] in
    let s : Coordinator = state (some wizard_next) waiters in
    let t = route_owner_output calm (response undefined) s in
    (t.sent
      ≡ []
        ++ ((1, relay (response undefined))
            ∷ replies (or_else (JsMap.get key waiters) []) (response undefined)))
    × (JsMap.get key t.wizard_next_waiters ≡ none)
    × (JsMap.get key t.wizard_next_response_cache ≡ some (response undefined))
unfolding JsMap.get is_response
route_owner_output-next_example =
    route_owner_output-next calm "a" 1 key (response undefined)
      (state (some wizard_next) ((key, waiting ∷ []) ∷ [])) (λ p m. refl) refl refl refl refl refl
      refl tt (omega arith)

cancel_drops_waiters_example :
    let s : Coordinator = state (some wizard_cancel) ((key, waiting ∷ []) ∷ []) in
    let t = route_owner_output calm (response undefined) s in
    (t.sent ≡ [] ++ (1, relay (response undefined)) ∷ [])
    × (t.wizard_next_waiters ≡ [])
    × (t.wizard_next_in_flight ≡ [])
unfolding JsMap.get is_response
cancel_drops_waiters_example =
    cancel_drops_waiters calm (λ p m. refl) "a" 1 (response undefined)
      (state (some wizard_cancel) ((key, waiting ∷ []) ∷ [])) refl refl refl refl

new_session_drops_waiters_example :
    let s : Coordinator = state (some wizard_next) ((key, waiting ∷ []) ∷ []) in
    let moved : RuntimeMessage = response (obj (field "sessionId" (str "t") end)) in
    let t = route_owner_output calm moved s in
    (t.sent ≡ [] ++ (1, relay moved) ∷ []) × (t.wizard_next_waiters ≡ [])
unfolding JsMap.get is_response property field_of session_changes
new_session_drops_waiters_example =
    new_session_drops_waiters calm (λ p m. refl) "a" 1
      (response (obj (field "sessionId" (str "t") end)))
      (state (some wizard_next) ((key, waiting ∷ []) ∷ [])) refl refl refl key
      (field "sessionId" (str "t") end) "t" refl refl refl refl refl refl
