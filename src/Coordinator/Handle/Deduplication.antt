-- ===== src/Coordinator/Handle/Deduplication.antt =====
-- src/openclaw-shared-worker.ts: the requests that `wizard.next` keys hold back.
use clawsembly_kernel.Prelude.{
  ◌≡◌, ◌∙◌, String, true, false, Option, none, some, [], ◌∷◌, arith, string_eq, nat_eq,
}
use clawsembly_kernel.Prelude.JsMap
use clawsembly_kernel.Prelude.JsSet
use clawsembly_kernel.Coordinator.{
  Port, wizard_next, wizard_rpc_request, RuntimeMessage, relay, owner_input, plain, NextKey, key_eq,
  Host, Coordinator,
}
use clawsembly_kernel.Coordinator.Owner.Quiet.{IsQuiet, logs, send-quiet}
use clawsembly_kernel.Coordinator.Route.{with_id}
use clawsembly_kernel.Coordinator.Handle.{
  wizard_next_key, is_runtime_operation, is_wizard_start, register, push_next_waiter, forward,
  start_or_forward, cached_or_forward, next_or_forward, operate, request_option, request, on_plain,
  on_message,
}

-- A message with a key is a `wizard.next` request.
pub key-shape :
    (h : Host) (message : RuntimeMessage) (k : NextKey)
    → wizard_next_key h message ≡ some k
    → (message.type ≡ wizard_rpc_request)
      × (message.method ≡ some wizard_next)
      × (is_wizard_start message ≡ false)
unfolding wizard_next_key is_wizard_start
key-shape h message k e = ground arith

-- What is noted of a `wizard.next` that is forwarded.
abbrev pub asked : Port → String → NextKey → Coordinator → Coordinator
asked port id k s = record s {
  request_owners = JsMap.set id port s.request_owners;
  request_methods = JsMap.set id wizard_next s.request_methods;
  request_wizard_next_keys = JsMap.set id k s.request_wizard_next_keys;
  wizard_next_in_flight = JsSet.add k s.wizard_next_in_flight;
}

module _ (h : Host) (quiet : IsQuiet h) (port owner : Port) (message : RuntimeMessage) (id : String)
    (k : NextKey) (s : Coordinator) (key : wizard_next_key h message ≡ some k)
    (named : message.request_id ≡ some id) (owned : s.owner ≡ some owner) where
  to_next : on_message h port (plain message) s ≡ next_or_forward h port owner message id k s
  unfolding on_message on_plain request is_runtime_operation request_option operate
  to_next = simp (key-shape h message k key).0 (opened s.owner owned)
    where
      opened :
          (o : Option Port)
          → o ≡ some owner
          → request_option h o port message s ≡ next_or_forward h port owner message id k s
      opened none e = cc
      opened (some q) e = let same : q ≡ owner = cc in simp (same, key, named)

  -- A cached answer goes to the tab that asks, under its own request id, and nobody else hears.
  pub cached_next :
      (cached : RuntimeMessage)
      → JsMap.get k s.wizard_next_response_cache ≡ some cached
      → on_message h port (plain message) s ≡ logs ((port, relay (with_id cached id)) ∷ []) s
  unfolding next_or_forward cached_or_forward
  cached_next cached hit = to_next ∙ simp (hit, send-quiet h quiet)

  -- While the key is in flight the request only joins the waiters.
  pub waiting_next :
      JsMap.get k s.wizard_next_response_cache ≡ none
      → JsSet.has k s.wizard_next_in_flight ≡ true
      → on_message h port (plain message) s
        ≡ push_next_waiter k (record { port = port; request_id = id }) s
  unfolding next_or_forward cached_or_forward
  waiting_next miss flies = to_next ∙ simp (miss, flies)

  -- Otherwise the owner receives it, once.
  pub forwarded_next :
      JsMap.get k s.wizard_next_response_cache ≡ none
      → JsSet.has k s.wizard_next_in_flight ≡ false
      → on_message h port (plain message) s
        ≡ logs ((owner, owner_input message) ∷ []) (asked port id k s)
  unfolding next_or_forward cached_or_forward start_or_forward forward register
  forwarded_next miss free =
      to_next
      ∙ simp (
        miss,
        free,
        (key-shape h message k key).2,
        (key-shape h message k key).1,
        send-quiet h quiet,
      )
