-- ===== src/Coordinator/Route.antt =====
-- src/openclaw-shared-worker.ts: what the owner's runtime says, and to whom it is passed on
-- (`rememberWizardNextResponse`, `rememberWizardResult`, `sharedReady`, `routeOwnerOutput`).
pub mod Cache
pub mod Replies
pub mod Sessions
use clawsembly_kernel.Prelude.{
  ℕ, String, Bool, true, false, not, ◌&&◌, ◌||◌, ◌≡◌, Option, none, some, List, [], ◌∷◌,
  if◌then◌else◌, ◌==◌, string_eq, length, ltb, is_some, or_else,
}
use clawsembly_kernel.Prelude.JsMap
use clawsembly_kernel.Prelude.JsSet
use clawsembly_kernel.Js.{
  Js, Fields, undefined, str, obj, as_string, property, put_field, is_undefined,
}
use clawsembly_kernel.Coordinator.{
  Port, Method, wizard_start, wizard_next, wizard_status, wizard_cancel, MessageType,
  wizard_rpc_response, wizard_capability_response, wizard_capability_config_response,
  wizard_gateway_ready, byok_runtime_status, shared_runtime_result, RuntimeMessage, Outgoing, relay,
  NextKey, key_eq, Waiter, Host, Coordinator,
}
use clawsembly_kernel.Coordinator.Owner.{clear_wizard_next_deduplication, is_owner, send, broadcast}

abbrev pub cache_limit : ℕ
cache_limit = 32

-- The `while` loop of `rememberWizardNextResponse`, which drops the oldest entry.
unfoldable pub evict : List (NextKey × RuntimeMessage) → List (NextKey × RuntimeMessage)
evict [] = []
evict (entry ∷ cache) =
    let rest = evict cache in
    if ltb cache_limit (length (entry ∷ cache)) then rest else entry ∷ cache

unfoldable pub remember_wizard_next_response : NextKey → RuntimeMessage → Coordinator → Coordinator
remember_wizard_next_response key response s = record s {
  wizard_next_response_cache = evict (JsMap.set key response s.wizard_next_response_cache);
}

-- `wizardSessionId` where it is truthy.
abbrev pub truthy_text : Option String → Option String
truthy_text none = none
truthy_text (some t) = if t == "" then none else some t

-- `if (wizardSessionId && candidate.sessionId !== wizardSessionId)`
unfoldable pub session_changes : Option String → String → Bool
session_changes current session_id = elim (truthy_text current) [
  | none ↦ false
  | some old ↦ not (session_id == old)
]

unfoldable pub enter_session : String → Coordinator → Coordinator
enter_session session_id s =
    record (if session_changes s.wizard_session_id session_id
      then clear_wizard_next_deduplication s
      else s) { wizard_session_id = some session_id }

-- `{ ...candidate, sessionId: wizardSessionId }` where the result has no session of its own.
unfoldable pub with_session : Option String → Fields → Js
with_session current fs = elim (truthy_text current) [
  | none ↦ obj fs
  | some session_id ↦
      if is_undefined (property (obj fs) "sessionId")
      then obj (put_field "sessionId" (str session_id) fs)
      else obj fs
]

abbrev pub set_snapshot : Fields → Coordinator → Coordinator
set_snapshot fs s = record s { wizard_snapshot = with_session s.wizard_session_id fs }

unfoldable pub remember_fields : Option String → Fields → Coordinator → Coordinator
remember_fields none fs s = set_snapshot fs s
remember_fields (some session_id) fs s = set_snapshot fs (enter_session session_id s)

unfoldable pub remember_wizard_result : Js → Coordinator → Coordinator
unfolding remember_fields
remember_wizard_result (obj fs) s = remember_fields (as_string (property (obj fs) "sessionId")) fs s
remember_wizard_result result s = record s { wizard_snapshot = result }

unfoldable pub is_response : MessageType → Bool
is_response wizard_rpc_response = true
is_response wizard_capability_response = true
is_response wizard_capability_config_response = true
is_response _ = false

abbrev pub shared_ready : RuntimeMessage → RuntimeMessage
shared_ready message = record message {
  owner_boot_mode = message.boot_mode;
  boot_mode = str "shared";
}

-- `port === owner ? message : sharedReady(message)`
unfoldable pub ready_for : Coordinator → Port → RuntimeMessage → Outgoing
ready_for s port message = relay (if is_owner s port then message else shared_ready message)

unfoldable pub take_request : String → Coordinator → Coordinator
take_request id s = record s {
  request_owners = JsMap.delete id s.request_owners;
  request_methods = JsMap.delete id s.request_methods;
  request_wizard_next_keys = JsMap.delete id s.request_wizard_next_keys;
}

abbrev pub with_id : RuntimeMessage → String → RuntimeMessage
with_id message id = record message { request_id = some id }

-- The first `if` on the method: `wizardSnapshot` and `wizardSessionId` follow the wizard.
unfoldable pub remember : RuntimeMessage → Option Method → Coordinator → Coordinator
remember response (some wizard_cancel) s =
    clear_wizard_next_deduplication
      (record s { wizard_snapshot = undefined; wizard_session_id = none })
remember response (some wizard_start) s =
    if response.ok then remember_wizard_result response.result s else s
remember response (some wizard_next) s =
    if response.ok then remember_wizard_result response.result s else s
remember response (some wizard_status) s =
    if response.ok then remember_wizard_result response.result s else s
remember response _ s = s

-- `if (requester || method)`: an empty method name is falsy.
unfoldable pub is_known : Option Port → Option Method → Bool
is_known (some requester) method = true
is_known none (some (Method.other name)) = not (name == "")
is_known none (some method) = true
is_known none none = false

module _ (h : Host) where
  unfoldable pub reply_to : Option Port → RuntimeMessage → Coordinator → Coordinator
  reply_to none response s = s
  reply_to (some requester) response s = send h requester (relay response) s

  unfoldable pub serve : List Waiter → RuntimeMessage → Coordinator → Coordinator
  serve [] response s = s
  serve (waiter ∷ waiters) response s =
      serve waiters response (send h waiter.port (relay (with_id response waiter.request_id)) s)

  unfoldable pub serve_next_waiters : NextKey → RuntimeMessage → Coordinator → Coordinator
  serve_next_waiters key response s =
      let waiters = or_else (JsMap.get key s.wizard_next_waiters) [] in
      let served = serve waiters response s in
      record served { wizard_next_waiters = JsMap.delete key served.wizard_next_waiters }

  unfoldable pub finish_next : NextKey → RuntimeMessage → Coordinator → Coordinator
  finish_next key response s =
      let landed = record s { wizard_next_in_flight = JsSet.delete key s.wizard_next_in_flight } in
      serve_next_waiters key response
        (if response.ok then remember_wizard_next_response key response landed else landed)

  unfoldable pub finish_start : RuntimeMessage → Coordinator → Coordinator
  finish_start response s =
      serve s.wizard_start_waiters response
        (record s { wizard_start_in_flight = false; wizard_start_waiters = [] })

  unfoldable pub finish :
      Option Method → Option NextKey → RuntimeMessage → Coordinator → Coordinator
  finish (some wizard_next) (some key) response s = finish_next key response s
  finish (some wizard_start) key response s = finish_start response s
  finish method key response s = s

  -- A response whose request is known.
  unfoldable pub answer :
      String → Option Port → Option Method → RuntimeMessage → Coordinator → Coordinator
  answer id requester method response s =
      let key = JsMap.get id s.request_wizard_next_keys in
      finish method key response
        (reply_to requester response (remember response method (take_request id s)))

  unfoldable pub send_ready : List Port → RuntimeMessage → Coordinator → Coordinator
  send_ready [] message s = s
  send_ready (port ∷ ports) message s =
      send_ready ports message (send h port (ready_for s port message) s)

  -- All that is no answer to a known request.
  unfoldable pub publish_type : MessageType → RuntimeMessage → Coordinator → Coordinator
  publish_type wizard_gateway_ready message s =
      send_ready s.ports message (record s { ready_message = some message })
  publish_type byok_runtime_status message s =
      broadcast h (relay message) (record s { status_message = relay message })
  publish_type shared_runtime_result message s =
      broadcast h (relay message) (record s { result_message = some message })
  publish_type _ message s = broadcast h (relay message) s

  unfoldable pub publish : RuntimeMessage → Coordinator → Coordinator
  unfolding publish_type
  publish message s = publish_type message.type message s

  unfoldable pub route_response : String → RuntimeMessage → Coordinator → Coordinator
  route_response id message s =
      let requester = JsMap.get id s.request_owners in
      let method = JsMap.get id s.request_methods in
      if is_known requester method then answer id requester method message s else publish message s

  unfoldable pub route_by_id : Option String → RuntimeMessage → Coordinator → Coordinator
  route_by_id none message s = publish message s
  route_by_id (some id) message s =
      if is_response message.type then route_response id message s else publish message s

  unfoldable pub route_owner_output : RuntimeMessage → Coordinator → Coordinator
  unfolding route_by_id
  route_owner_output message s = route_by_id message.request_id message s
