-- ===== src/Coordinator/Handle.antt =====
-- src/openclaw-shared-worker.ts: `wizardNextKey`, `isRuntimeOperation`, the handler of a port's
-- messages and `onconnect`.
pub mod Deduplication
pub mod Scenario
use clawsembly_kernel.Prelude.{
  ℕ, String, Bool, true, false, not, ◌&&◌, ◌||◌, ◌≡◌, Option, none, some, List, [], ◌∷◌, ◌++◌,
  if◌then◌else◌, nat_eq, string_eq, is_some, or_else,
}
use clawsembly_kernel.Prelude.JsMap
use clawsembly_kernel.Prelude.JsSet
use clawsembly_kernel.Js.{Js, undefined, as_string, property, has_own, is_record, is_undefined}
use clawsembly_kernel.Coordinator.{
  Port, Method, wizard_start, wizard_next, MessageType, onboarding_runtime_start,
  byok_runtime_start, wizard_rpc_request, wizard_capability_attach, wizard_capability_configure,
  wizard_rpc_response, RuntimeMessage, Outgoing, relay, owner_notice, follower_notice, owner_start,
  owner_input, PortMessage, disconnects, owner_output, plain, NextKey, key_eq, Stringified, text,
  nothing, throws, Waiter, Host, Coordinator,
}
use clawsembly_kernel.Coordinator.Owner.{is_owner, send, disconnect}
use clawsembly_kernel.Coordinator.Route.{with_id, ready_for, route_owner_output}

infixl 5 ◌>>=◌
abbrev pub ◌>>=◌ {ℓ κ} : {A : Type ℓ} {B : Type κ} → Option A → (A → Option B) → Option B
none >>= k = none
some a >>= k = k a

abbrev pub record_or_none : Js → Option Js
record_or_none v = if is_record v then some v else none

module _ (h : Host) where
  -- `Object.hasOwn(answer, "value") ? JSON.stringify(answer.value) ?? "undefined" : "<no-value>"`
  unfoldable pub value_text : Js → Option String
  value_text answer =
      if has_own answer "value"
      then (elim (h.stringify (property answer "value")) [
        | text t ↦ some t
        | nothing ↦ some "undefined"
        | throws ↦ none
      ])
      else some "<no-value>"

  unfoldable pub answer_key : Js → Option NextKey
  answer_key params = do
    given ← record_or_none params
    session_id ← as_string (property given "sessionId")
    answer ← record_or_none (property given "answer")
    step_id ← as_string (property answer "stepId")
    value ← value_text answer
    some (record { session_id = session_id; step_id = step_id; value = value })

  unfoldable pub wizard_next_key : RuntimeMessage → Option NextKey
  wizard_next_key message = elim message.type [
    | wizard_rpc_request ↦ elim message.method [
      | some wizard_next ↦ answer_key message.params
      | _ ↦ none
    ]
    | _ ↦ none
  ]

unfoldable pub is_runtime_operation : MessageType → Bool
is_runtime_operation wizard_rpc_request = true
is_runtime_operation wizard_capability_attach = true
is_runtime_operation wizard_capability_configure = true
is_runtime_operation _ = false

unfoldable pub is_wizard_start : RuntimeMessage → Bool
is_wizard_start message = elim message.type [
  | wizard_rpc_request ↦ elim message.method [ some wizard_start ↦ true | _ ↦ false ]
  | _ ↦ false
]

unfoldable pub snapshot_response : String → Js → RuntimeMessage
snapshot_response id snapshot = record {
  type = wizard_rpc_response;
  method = none;
  ok = true;
  params = undefined;
  request_id = some id;
  result = snapshot;
  boot_mode = undefined;
  owner_boot_mode = undefined;
  rest = undefined;
}

abbrev pub set_method : String → Option Method → List (String × Method) → List (String × Method)
set_method id none methods = methods
set_method id (some method) methods = JsMap.set id method methods

abbrev pub set_next_key :
    String → Option NextKey → List (String × NextKey) → List (String × NextKey)
set_next_key id none keys = keys
set_next_key id (some key) keys = JsMap.set id key keys

-- What is written down of a request before it is forwarded.
unfoldable pub register :
    Port → String → Option NextKey → RuntimeMessage → Coordinator → Coordinator
register port id key message s = record s {
  request_owners = JsMap.set id port s.request_owners;
  request_methods = set_method id message.method s.request_methods;
  wizard_start_in_flight = is_wizard_start message || s.wizard_start_in_flight;
  request_wizard_next_keys = set_next_key id key s.request_wizard_next_keys;
}

unfoldable pub push_next_waiter : NextKey → Waiter → Coordinator → Coordinator
push_next_waiter key waiter s = record s {
  wizard_next_waiters =
      JsMap.set key (or_else (JsMap.get key s.wizard_next_waiters) [] ++ waiter ∷ [])
        s.wizard_next_waiters;
}

module _ (h : Host) (port owner : Port) (message : RuntimeMessage) where
  -- The last part of the handler: note the request, and forward it.
  unfoldable pub forward : Option String → Option NextKey → Coordinator → Coordinator
  forward none key s = send h owner (owner_input message) s
  forward (some id) key s = send h owner (owner_input message) (register port id key message s)

  -- `wizard.start` is answered from the snapshot, or joins the one that is in flight.
  unfoldable pub start_or_forward : Option String → Option NextKey → Coordinator → Coordinator
  start_or_forward none key s = forward none key s
  start_or_forward (some id) key s =
      if is_wizard_start message && not (is_undefined s.wizard_snapshot)
      then send h port (relay (snapshot_response id s.wizard_snapshot)) s
      else if is_wizard_start message && s.wizard_start_in_flight
      then record s {
        wizard_start_waiters =
            s.wizard_start_waiters ++ record { port = port; request_id = id } ∷ [];
      }
      else forward (some id) key s

  unfoldable pub cached_or_forward :
      Option RuntimeMessage → String → NextKey → Coordinator → Coordinator
  cached_or_forward (some cached) id key s = send h port (relay (with_id cached id)) s
  cached_or_forward none id key s =
      if JsSet.has key s.wizard_next_in_flight
      then push_next_waiter key (record { port = port; request_id = id }) s
      else start_or_forward (some id) (some key)
          (record s { wizard_next_in_flight = JsSet.add key s.wizard_next_in_flight })

  unfoldable pub next_or_forward : String → NextKey → Coordinator → Coordinator
  unfolding cached_or_forward
  next_or_forward id key s = cached_or_forward (JsMap.get key s.wizard_next_response_cache) id key s

  unfoldable pub operate : Option String → Option NextKey → Coordinator → Coordinator
  operate (some id) (some key) s = next_or_forward id key s
  operate id key s = start_or_forward id key s

module _ (h : Host) where
  unfoldable pub start_option : Option Port → Coordinator → Coordinator
  start_option none s = s
  start_option (some owner) s = send h owner owner_start s

  unfoldable pub start_runtime : Coordinator → Coordinator
  unfolding start_option
  start_runtime s = start_option s.owner s

  -- `if (!isRuntimeOperation(message) || !owner) return;` and what follows.
  unfoldable pub request_option : Option Port → Port → RuntimeMessage → Coordinator → Coordinator
  request_option none port message s = s
  request_option (some owner) port message s =
      operate h port owner message message.request_id (wizard_next_key h message) s

  unfoldable pub request : Port → RuntimeMessage → Coordinator → Coordinator
  unfolding request_option
  request port message s =
      if is_runtime_operation message.type then request_option s.owner port message s else s

  unfoldable pub on_plain : MessageType → Port → RuntimeMessage → Coordinator → Coordinator
  on_plain onboarding_runtime_start port message s =
      start_runtime (record s { runtime_requested = true })
  on_plain byok_runtime_start port message s = start_runtime (record s { runtime_requested = true })
  on_plain _ port message s = request port message s

  unfoldable pub on_message : Port → PortMessage → Coordinator → Coordinator
  unfolding on_plain
  on_message port disconnects s = disconnect h port s
  on_message port (owner_output message) s =
      if is_owner s port then route_owner_output h message s else s
  on_message port (plain message) s = on_plain message.type port message s

  unfoldable pub send_result_option : Option RuntimeMessage → Port → Coordinator → Coordinator
  send_result_option none port s = s
  send_result_option (some message) port s = send h port (relay message) s

  unfoldable pub send_ready_option : Option RuntimeMessage → Port → Coordinator → Coordinator
  send_ready_option none port s = s
  send_ready_option (some message) port s = send h port (ready_for s port message) s

  unfoldable pub send_result : Port → Coordinator → Coordinator
  unfolding send_result_option
  send_result port s = send_result_option s.result_message port s

  unfoldable pub send_ready_message : Port → Coordinator → Coordinator
  unfolding send_ready_option
  send_ready_message port s = send_ready_option s.ready_message port s

  abbrev pub send_status : Port → Coordinator → Coordinator
  send_status port s = send h port s.status_message s

  -- `ports.add(port)`, and the first port becomes the owner.
  unfoldable pub admit : Port → Coordinator → Coordinator
  admit port s = record s { ports = JsSet.add port s.ports; owner = some (or_else s.owner port) }

  unfoldable pub on_connect : Port → Coordinator → Coordinator
  on_connect port s =
      let notice = if is_some s.owner then follower_notice else owner_notice in
      send_ready_message port
        (send_result port (send_status port (send h port notice (admit port s))))
