-- ===== src/Coordinator/Invariant/Events.antt =====
-- src/openclaw-shared-worker.ts: the invariant, event by event and over histories.
use clawsembly_kernel.Prelude.{
  ◌≡◌, refl, String, false, Option, none, some, List, [], ◌∷◌, arith, head?, string_eq, nat_eq,
  Bool-cases, inl, inr, or_else,
}
use clawsembly_kernel.Prelude.JsMap
use clawsembly_kernel.Prelude.JsSet
use clawsembly_kernel.Coordinator.{
  Port, Method, wizard_next, MessageType, onboarding_runtime_start, byok_runtime_start,
  RuntimeMessage, relay, owner_start, owner_input, PortMessage, disconnects, owner_output, plain,
  NextKey, key_eq, Host, Coordinator, initial,
}
use clawsembly_kernel.Coordinator.Tracked.{Tracked-ask, Tracked-register, Tracked-wait}
use clawsembly_kernel.Coordinator.Route.{with_id, ready_for}
use clawsembly_kernel.Coordinator.Handle.{
  wizard_next_key, is_runtime_operation, is_wizard_start, snapshot_response, register,
  push_next_waiter, forward, start_or_forward, cached_or_forward, next_or_forward, operate,
  start_option, start_runtime, request_option, request, on_plain, on_message, send_result_option,
  send_ready_option, send_result, send_ready_message, admit, on_connect,
}
use clawsembly_kernel.Coordinator.Handle.Deduplication.{key-shape}
use clawsembly_kernel.Coordinator.Invariant.{Inv, send-InvBut, disconnect-InvBut, initial-Inv}
use clawsembly_kernel.Coordinator.Invariant.Answers.{route_owner_output-Inv}

-- The request's id is not that of a `wizard.next` that is still with the owner.
abbrev pub IsFresh : RuntimeMessage → Coordinator → Type 0
IsFresh message s =
    (id : String) → message.request_id ≡ some id → JsMap.get id s.request_wizard_next_keys ≡ none

-- A message that reaches the worker, with fresh ids on requests.
abbrev pub IsFreshMessage : PortMessage → Coordinator → Type 0
IsFreshMessage disconnects s = Unit
IsFreshMessage (owner_output message) s = Unit
IsFreshMessage (plain message) s = IsFresh message s

module _ (h : Host) (port owner : Port) (message : RuntimeMessage) where
  register-Inv :
      (id : String) (method : Option Method) (s : Coordinator)
      → message.method ≡ method
      → JsMap.get id s.request_wizard_next_keys ≡ none
      → Inv s
      → Inv (register port id none message s)
  unfolding register
  register-Inv id none s e fresh v = simp e v
  register-Inv id (some method) s e fresh v =
      simp e (v.0, v.1, Tracked-register id method fresh v.2)

  forward-Inv :
      (o : Option String) (s : Coordinator)
      → ((id : String) → o ≡ some id → JsMap.get id s.request_wizard_next_keys ≡ none)
      → Inv s
      → Inv (forward h port owner message o none s)
  unfolding forward
  forward-Inv none s fresh v = send-InvBut h none owner (owner_input message) s v
  forward-Inv (some id) s fresh v =
      send-InvBut h none owner (owner_input message) _
        (register-Inv id message.method s refl (fresh id refl) v)

  start_or_forward-Inv :
      (o : Option String) (s : Coordinator)
      → ((id : String) → o ≡ some id → JsMap.get id s.request_wizard_next_keys ≡ none)
      → Inv s
      → Inv (start_or_forward h port owner message o none s)
  unfolding start_or_forward
  start_or_forward-Inv none s fresh v = forward-Inv none s fresh v
  start_or_forward-Inv (some id) s fresh v = ground (
    arith,
    forward-Inv (some id) s fresh v,
    send-InvBut h none port (relay (snapshot_response id s.wizard_snapshot)) s v,
  )

  -- A `wizard.next` that is neither cached nor in flight is forwarded.
  ask-Inv :
      (id : String) (key : NextKey) (s : Coordinator)
      → message.method ≡ some wizard_next
      → is_wizard_start message ≡ false
      → JsMap.get id s.request_wizard_next_keys ≡ none
      → Inv s
      → Inv (
          start_or_forward h port owner message
            (some id)
            (some key)
            (record s { wizard_next_in_flight = JsSet.add key s.wizard_next_in_flight }))
  unfolding start_or_forward forward register
  ask-Inv id key s m e fresh v =
      simp (e, m)
        (send-InvBut h none owner (owner_input message) _ (v.0, v.1, Tracked-ask id key fresh v.2))

  next_or_forward-Inv :
      (id : String) (key : NextKey) (s : Coordinator)
      → message.method ≡ some wizard_next
      → is_wizard_start message ≡ false
      → JsMap.get id s.request_wizard_next_keys ≡ none
      → Inv s
      → Inv (next_or_forward h port owner message id key s)
  unfolding next_or_forward
  next_or_forward-Inv id key s m e fresh v = by_cache (JsMap.get key s.wizard_next_response_cache)
    where
      by_cache :
          (o : Option RuntimeMessage) → Inv (cached_or_forward h port owner message o id key s)
      by_cache (some cached) =
          unfold cached_or_forward in send-InvBut h none port (relay (with_id cached id)) s v
      by_cache none =
          unfold cached_or_forward push_next_waiter in
          elim (Bool-cases (JsSet.has key s.wizard_next_in_flight)) [
            | inl flies ↦ rw flies (v.0, v.1, Tracked-wait key _ flies v.2)
            | inr free ↦ rw free (ask-Inv id key s m e fresh v)
          ]

  operate-Inv :
      (o : Option String) (key : Option NextKey) (s : Coordinator)
      → wizard_next_key h message ≡ key
      → ((id : String) → o ≡ some id → JsMap.get id s.request_wizard_next_keys ≡ none)
      → Inv s
      → Inv (operate h port owner message o key s)
  unfolding operate
  operate-Inv (some id) (some key) s k fresh v =
      let (_, m, e) = key-shape h message key k in
      next_or_forward-Inv id key s m e (fresh id refl) v
  operate-Inv (some id) none s k fresh v = start_or_forward-Inv (some id) s fresh v
  operate-Inv none none s k fresh v = start_or_forward-Inv none s fresh v
  operate-Inv none (some key) s k fresh v =
      unfold start_or_forward forward in send-InvBut h none owner (owner_input message) s v

module _ (h : Host) where
  start_runtime-Inv : (s : Coordinator) → Inv s → Inv (start_runtime h s)
  unfolding start_runtime
  start_runtime-Inv s v = by_owner s.owner
    where
      by_owner : (o : Option Port) → Inv (start_option h o s)
      by_owner none = unfold start_option in v
      by_owner (some owner) = unfold start_option in send-InvBut h none owner owner_start s v

  request-Inv :
      (port : Port) (message : RuntimeMessage) (s : Coordinator)
      → IsFresh message s
      → Inv s
      → Inv (request h port message s)
  unfolding request
  request-Inv port message s fresh v = elim (Bool-cases (is_runtime_operation message.type)) [
    | inl e ↦ rw e (by_owner s.owner)
    | inr e ↦ rw e v
  ]
    where
      by_owner : (o : Option Port) → Inv (request_option h o port message s)
      by_owner none = unfold request_option in v
      by_owner (some owner) =
          unfold request_option in
          operate-Inv h port owner message message.request_id _ s refl fresh v

  on_plain-Inv :
      (type : MessageType) (port : Port) (message : RuntimeMessage) (s : Coordinator)
      → IsFresh message s
      → Inv s
      → Inv (on_plain h type port message s)
  unfolding on_plain
  on_plain-Inv onboarding_runtime_start port message s fresh v = start_runtime-Inv _ v
  on_plain-Inv byok_runtime_start port message s fresh v = start_runtime-Inv _ v
  on_plain-Inv _ port message s fresh v = request-Inv port message s fresh v

  -- Every message that a port sends, from the owner or not, keeps the invariant, whatever posts
  -- fail on the way, if a request does not reuse the id of a `wizard.next` that is outstanding:
  -- the oldest connected tab is the owner, at most 32 responses are cached, and each waiter waits
  -- for a key in flight whose request the owner still has to answer.
  pub on_message-Inv :
      (port : Port) (message : PortMessage) (s : Coordinator)
      → IsFreshMessage message s
      → Inv s
      → Inv (on_message h port message s)
  unfolding on_message
  on_message-Inv port disconnects s fresh v = disconnect-InvBut h none port s v
  on_message-Inv port (owner_output message) s fresh v =
      ground (arith, route_owner_output-Inv h message s v)
  on_message-Inv port (plain message) s fresh v = on_plain-Inv message.type port message s fresh v

  admit-IsLed :
      (port : Port) (ports : List Port) (owner : Option Port)
      → owner ≡ head? ports
      → some (or_else owner port) ≡ head? (JsSet.add port ports)
  unfolding JsSet.add
  admit-IsLed port [] none e = refl
  admit-IsLed port [] (some o) e = cc
  admit-IsLed port (p ∷ ports) none e = cc
  admit-IsLed port (p ∷ ports) (some o) e = ground (arith, nat_eq.beq_iff p port)

  send_result-Inv : (port : Port) (s : Coordinator) → Inv s → Inv (send_result h port s)
  unfolding send_result
  send_result-Inv port s v = by_message s.result_message
    where
      by_message : (o : Option RuntimeMessage) → Inv (send_result_option h o port s)
      by_message none = unfold send_result_option in v
      by_message (some m) = unfold send_result_option in send-InvBut h none port (relay m) s v

  send_ready_message-Inv :
      (port : Port) (s : Coordinator) → Inv s → Inv (send_ready_message h port s)
  unfolding send_ready_message
  send_ready_message-Inv port s v = by_message s.ready_message
    where
      by_message : (o : Option RuntimeMessage) → Inv (send_ready_option h o port s)
      by_message none = unfold send_ready_option in v
      by_message (some m) =
          unfold send_ready_option in send-InvBut h none port (ready_for s port m) s v

  pub on_connect-Inv : (port : Port) (s : Coordinator) → Inv s → Inv (on_connect h port s)
  unfolding on_connect admit
  on_connect-Inv port s v = send_ready_message-Inv port _ (
      send_result-Inv port _ (
        send-InvBut h none port _ _
          (send-InvBut h none port _ _ (admit-IsLed port s.ports s.owner v.0, v.1, v.2))))

-- The events of the worker.
pub data Step (h : Host) : Coordinator → Coordinator → Type 0 where
  connects : (port : Port) (s : Coordinator) → Step h s (on_connect h port s)
  receives :
      (port : Port) (message : PortMessage) (s : Coordinator)
      → IsFreshMessage message s
      → Step h s (on_message h port message s)

pub data Reach (h : Host) : Coordinator → Type 0 where
  start : Reach h initial
  later : {s t : Coordinator} → Reach h s → Step h s t → Reach h t

Step-Inv : {h : Host} {s t : Coordinator} → Step h s t → Inv s → Inv t
Step-Inv {h} (connects port s) v = on_connect-Inv h port s v
Step-Inv {h} (receives port message s fresh) v = on_message-Inv h port message s fresh v

-- After any history of connections and messages in which no request reuses the id of an
-- outstanding `wizard.next`, whatever posts failed: the oldest connected tab is the owner, at most
-- 32 responses are cached, and each waiter waits for a key in flight whose request the owner still
-- has to answer.
pub Reach-Inv : {h : Host} {s : Coordinator} → Reach h s → Inv s
Reach-Inv start = initial-Inv
Reach-Inv (later r st) = Step-Inv st (Reach-Inv r)
