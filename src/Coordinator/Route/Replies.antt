-- ===== src/Coordinator/Route/Replies.antt =====
-- src/openclaw-shared-worker.ts: who is told what the owner's runtime answers.
use clawsembly_kernel.Prelude.{
  ◌≤◌, ◌≡◌, refl, sym, ◌∙◌, ap, String, true, false, Option, none, some, List, [], ◌∷◌, ◌++◌,
  append_assoc, append-nil, length, string_eq, ==_refl, or_else,
}
use clawsembly_kernel.Prelude.JsMap
use clawsembly_kernel.Prelude.JsSet
use clawsembly_kernel.Js.{Js, Fields, obj, as_string, property}
use clawsembly_kernel.Coordinator.{
  Port, Method, wizard_next, RuntimeMessage, Outgoing, relay, NextKey, key_eq, Waiter, Host,
  Coordinator,
}
use clawsembly_kernel.Coordinator.Owner.Quiet.{IsQuiet, logs, send-quiet}
use clawsembly_kernel.Coordinator.Route.{
  session_changes, enter_session, remember_fields, remember_wizard_result,
  remember_wizard_next_response, take_request, with_id, remember, is_known, is_response, reply_to,
  serve, serve_next_waiters, finish_next, finish, answer, route_response, route_by_id,
  route_owner_output,
}
use clawsembly_kernel.Coordinator.Route.Cache.{remember_wizard_next_response_lem}

-- One answer for each waiter, under the id of its own request.
abbrev pub replies : List Waiter → RuntimeMessage → List (Port × Outgoing)
replies [] response = []
replies (w ∷ ws) response = (w.port, relay (with_id response w.request_id)) ∷ replies ws response

-- The result does not leave the wizard's session.
abbrev pub KeepsSession : Option String → Option String → Type 0
KeepsSession none current = Unit {0}
KeepsSession (some id) current = session_changes current id ≡ false

abbrev pub StaysIn : Js → Option String → Type 0
StaysIn (obj fs) current = KeepsSession (as_string (property (obj fs) "sessionId")) current
StaysIn _ current = Unit {0}

-- The parts that deduplication stands on are those of `s`.
pub record SameWaiters (s t : Coordinator) : Type 0 where
  pub sent : t.sent ≡ s.sent
  pub cache : t.wizard_next_response_cache ≡ s.wizard_next_response_cache
  pub waiters : t.wizard_next_waiters ≡ s.wizard_next_waiters

SameWaiters-refl : (s : Coordinator) → SameWaiters s s
SameWaiters-refl s = record { sent = refl; cache = refl; waiters = refl }

remember_fields-same :
    (o : Option String) (fs : Fields) (s : Coordinator)
    → KeepsSession o s.wizard_session_id
    → SameWaiters s (remember_fields o fs s)
unfolding remember_fields enter_session
remember_fields-same none fs s stays = record { sent = refl; cache = refl; waiters = refl }
remember_fields-same (some id) fs s stays = record {
  sent = simp stays;
  cache = simp stays;
  waiters = simp stays;
}

remember_wizard_result-same :
    (result : Js) (s : Coordinator)
    → StaysIn result s.wizard_session_id
    → SameWaiters s (remember_wizard_result result s)
unfolding remember_wizard_result
remember_wizard_result-same (obj fs) s stays = remember_fields-same _ fs s stays
remember_wizard_result-same _ s stays = record { sent = refl; cache = refl; waiters = refl }

module _ (h : Host) (quiet : IsQuiet h) where
  serve-quiet :
      (ws : List Waiter) (response : RuntimeMessage) (s : Coordinator)
      → serve h ws response s ≡ logs (replies ws response) s
  unfolding serve
  serve-quiet [] response s = λ i. record s { sent = sym (append-nil s.sent) i }
  serve-quiet (w ∷ ws) response s =
      let reply = relay (with_id response w.request_id) in
      ap (serve h ws response) (send-quiet h quiet w.port reply s)
      ∙ serve-quiet ws response (logs ((w.port, reply) ∷ []) s)
      ∙ λ i. record s { sent = append_assoc s.sent ((w.port, reply) ∷ []) (replies ws response) i }

  -- The state in which a good response has landed.
  abbrev pub landed : NextKey → RuntimeMessage → Coordinator → Coordinator
  landed k response s =
      remember_wizard_next_response k response
        (record s { wizard_next_in_flight = JsSet.delete k s.wizard_next_in_flight })

  pub finish_next-quiet :
      (k : NextKey) (response : RuntimeMessage) (s : Coordinator)
      → response.ok ≡ true
      → finish_next h k response s
        ≡ record (logs
            (replies (or_else (JsMap.get k s.wizard_next_waiters) []) response)
            (landed k response s)) { wizard_next_waiters = JsMap.delete k s.wizard_next_waiters }
  unfolding finish_next serve_next_waiters remember_wizard_next_response
  finish_next-quiet k response s ok = simp (ok, serve-quiet)

  pub reply-quiet :
      (p : Port) (response : RuntimeMessage) (s : Coordinator)
      → reply_to h (some p) response s ≡ logs ((p, relay response) ∷ []) s
  unfolding reply_to
  reply-quiet p response s = send-quiet h quiet p (relay response) s

  -- A known response is answered.
  pub route-answer :
      (id : String) (p : Port) (method : Method) (response : RuntimeMessage) (s : Coordinator)
      → response.request_id ≡ some id
      → is_response response.type ≡ true
      → JsMap.get id s.request_owners ≡ some p
      → JsMap.get id s.request_methods ≡ some method
      → route_owner_output h response s ≡ answer h id (some p) (some method) response s
  unfolding route_owner_output route_by_id route_response is_known
  route-answer id p method response s r t o m = simp (r, t, o, m)

  -- The state when the requester has been told, and the answer has been remembered.
  abbrev pub told : String → Port → RuntimeMessage → Coordinator → Coordinator
  told id p response s =
      logs ((p, relay response) ∷ []) (remember_wizard_result response.result (take_request id s))

  pub answer_next :
      (id : String) (p : Port) (k : NextKey) (response : RuntimeMessage) (s : Coordinator)
      → response.ok ≡ true
      → JsMap.get id s.request_wizard_next_keys ≡ some k
      → answer h id (some p) (some wizard_next) response s
        ≡ finish_next h k response (told id p response s)
  unfolding answer remember finish
  answer_next id p k response s ok key = simp (ok, key, reply-quiet)

-- The owner's answer to a `wizard.next` of the key `k`, where no post fails and the wizard stays in
-- its session: the tab that asked is told, then each waiter of `k` once and in order, under its own
-- request id, and nothing else is posted; no waiter of `k` is left, and, if the cache was within
-- its bound, a later request with the key finds the answer in it.
pub route_owner_output-next :
    (h : Host) (id : String) (p : Port) (k : NextKey) (response : RuntimeMessage) (s : Coordinator)
    → IsQuiet h
    → response.request_id ≡ some id
    → is_response response.type ≡ true
    → response.ok ≡ true
    → JsMap.get id s.request_owners ≡ some p
    → JsMap.get id s.request_methods ≡ some wizard_next
    → JsMap.get id s.request_wizard_next_keys ≡ some k
    → StaysIn response.result s.wizard_session_id
    → length s.wizard_next_response_cache ≤ 32
    → let t = route_owner_output h response s in
      (t.sent
        ≡ s.sent
          ++ ((p, relay response)
              ∷ replies (or_else (JsMap.get k s.wizard_next_waiters) []) response))
      × (JsMap.get k t.wizard_next_waiters ≡ none)
      × (JsMap.get k t.wizard_next_response_cache ≡ some response)
route_owner_output-next h id p k response s quiet r type ok o m key stays small =
    rw whole (posts, served, found)
  where
    same : SameWaiters s (remember_wizard_result response.result (take_request id s))
    same =
        unfold take_request in
        let e = remember_wizard_result-same response.result (take_request id s) stays in
        record { sent = e.sent; cache = e.cache; waiters = e.waiters }

    u : Coordinator
    u = told h quiet id p response s

    whole :
        route_owner_output h response s
        ≡ record (logs
            (replies (or_else (JsMap.get k u.wizard_next_waiters) []) response)
            (landed h quiet k response u)) {
              wizard_next_waiters = JsMap.delete k u.wizard_next_waiters;
            }
    whole =
        route-answer h quiet id p wizard_next response s r type o m
        ∙ answer_next h quiet id p k response s ok key
        ∙ finish_next-quiet h quiet k response u ok

    posts :
        (landed h quiet k response u).sent
          ++ replies (or_else (JsMap.get k u.wizard_next_waiters) []) response
        ≡ s.sent
          ++ ((p, relay response)
              ∷ replies (or_else (JsMap.get k s.wizard_next_waiters) []) response)
    posts = unfold remember_wizard_next_response in simp (same.sent, same.waiters, append_assoc)

    served : JsMap.get k (JsMap.delete k u.wizard_next_waiters) ≡ none
    served = JsMap.get-delete k k u.wizard_next_waiters ∙ rw (==_refl k) refl

    found : JsMap.get k (landed h quiet k response u).wizard_next_response_cache ≡ some response
    found = (remember_wizard_next_response_lem k response _ (rw same.cache small)).1
