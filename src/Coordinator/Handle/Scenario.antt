-- ===== src/Coordinator/Handle/Scenario.antt =====
-- src/openclaw-shared-worker.ts: two tabs submit the same answer to the same wizard step.
use clawsembly_kernel.Prelude.{
  ◌≤◌, ◌≡◌, refl, ◌∙◌, ap, String, true, false, none, some, [], ◌∷◌, ◌++◌, append_assoc, length,
  string_eq, nat_eq, ==_refl,
}
use clawsembly_kernel.Prelude.JsMap
use clawsembly_kernel.Prelude.JsSet
use clawsembly_kernel.Coordinator.{
  Port, wizard_next, RuntimeMessage, relay, owner_input, plain, NextKey, key_eq, Host, Coordinator,
}
use clawsembly_kernel.Coordinator.Owner.Quiet.{IsQuiet, logs}
use clawsembly_kernel.Coordinator.Route.{with_id, is_response, route_owner_output}
use clawsembly_kernel.Coordinator.Route.Replies.{StaysIn, route_owner_output-next}
use clawsembly_kernel.Coordinator.Handle.{wizard_next_key, push_next_waiter, on_message}
use clawsembly_kernel.Coordinator.Handle.Deduplication.{asked, forwarded_next, waiting_next}

-- The state after two tabs have asked.
pub two_asked :
    (h : Host) (p q owner : Port) (first second : RuntimeMessage) (id id' : String) (k : NextKey)
    (s : Coordinator)
    → IsQuiet h
    → s.owner ≡ some owner
    → wizard_next_key h first ≡ some k
    → wizard_next_key h second ≡ some k
    → first.request_id ≡ some id
    → second.request_id ≡ some id'
    → JsMap.get k s.wizard_next_response_cache ≡ none
    → JsSet.has k s.wizard_next_in_flight ≡ false
    → on_message h q (plain second) (on_message h p (plain first) s)
      ≡ push_next_waiter k
          (record { port = q; request_id = id' })
          (logs ((owner, owner_input first) ∷ []) (asked p id k s))
two_asked h p q owner first second id id' k s quiet owned k1 k2 n1 n2 miss free =
    ap (on_message h q (plain second))
      (forwarded_next h quiet p owner first id k s k1 n1 owned miss free)
    ∙ waiting_next h quiet q owner second id' k _ k2 n2 owned miss
        (JsSet.has-add k k s.wizard_next_in_flight ∙ rw (==_refl k) refl)

-- Two tabs submit the same answer to the same step of the wizard, and the owner answers the request
-- that reached it: if no post fails, the wizard stays in its session and no other tab had asked,
-- then the owner received exactly one request, each tab one response, under its own request id,
-- and nothing else was posted.
pub two_tabs :
    (h : Host) (p q owner : Port) (first second response : RuntimeMessage) (id id' : String)
    (k : NextKey) (s : Coordinator)
    → IsQuiet h
    → s.owner ≡ some owner
    → wizard_next_key h first ≡ some k
    → wizard_next_key h second ≡ some k
    → first.request_id ≡ some id
    → second.request_id ≡ some id'
    → JsMap.get k s.wizard_next_response_cache ≡ none
    → JsSet.has k s.wizard_next_in_flight ≡ false
    → JsMap.get k s.wizard_next_waiters ≡ none
    → length s.wizard_next_response_cache ≤ 32
    → response.request_id ≡ some id
    → is_response response.type ≡ true
    → response.ok ≡ true
    → StaysIn response.result s.wizard_session_id
    → (route_owner_output h response
        (on_message h q (plain second) (on_message h p (plain first) s))).sent
      ≡ s.sent
        ++ ((owner, owner_input first)
            ∷ (p, relay response)
            ∷ (q, relay (with_id response id'))
            ∷ [])
two_tabs h p q owner first second response id id' k s quiet owned k1 k2 n1 n2 miss free alone small
      r type ok stays =
    ap (λ t. (route_owner_output h response t).sent)
      (two_asked h p q owner first second id id' k s quiet owned k1 k2 n1 n2 miss free)
    ∙ (route_owner_output-next h id p k response after quiet r type ok
        (unfold push_next_waiter in JsMap.get-set id id p s.request_owners ∙ rw (==_refl id) refl)
        (unfold push_next_waiter in
          JsMap.get-set id id wizard_next s.request_methods ∙ rw (==_refl id) refl)
        (unfold push_next_waiter in
          JsMap.get-set id id k s.request_wizard_next_keys ∙ rw (==_refl id) refl)
        (unfold push_next_waiter in stays) (unfold push_next_waiter in small)).0
    ∙ (unfold push_next_waiter in simp (JsMap.get-set, ==_refl k, alone, append_assoc))
  where
    after : Coordinator
    after =
        push_next_waiter k (record { port = q; request_id = id' })
          (logs ((owner, owner_input first) ∷ []) (asked p id k s))
