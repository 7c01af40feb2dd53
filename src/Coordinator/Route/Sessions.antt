-- ===== src/Coordinator/Route/Sessions.antt =====
-- What happens to the waiters of duplicated `wizard.next` requests when the wizard's session ends
-- or changes.
use clawsembly_kernel.Prelude.{◌≡◌, refl, String, true, some, [], ◌∷◌, ◌++◌, append-nil, string_eq}
use clawsembly_kernel.Prelude.JsMap
use clawsembly_kernel.Js.{Fields, obj, as_string, property}
use clawsembly_kernel.Coordinator.{
  Port, wizard_next, wizard_cancel, RuntimeMessage, relay, NextKey, key_eq, Host, Coordinator,
}
use clawsembly_kernel.Coordinator.Owner.{clear_wizard_next_deduplication}
use clawsembly_kernel.Coordinator.Owner.Quiet.{IsQuiet}
use clawsembly_kernel.Coordinator.Route.{
  session_changes, enter_session, set_snapshot, remember_fields, remember_wizard_result,
  remember_wizard_next_response, take_request, remember, is_response, finish, answer,
  route_owner_output,
}
use clawsembly_kernel.Coordinator.Route.Replies.{
  reply-quiet, route-answer, told, answer_next, finish_next-quiet,
}

module _ (h : Host) (quiet : IsQuiet h) (id : String) (p : Port) (response : RuntimeMessage)
    (s : Coordinator) (r : response.request_id ≡ some id) (type : is_response response.type ≡ true)
    (o : JsMap.get id s.request_owners ≡ some p) where
  -- When the owner answers a `wizard.cancel` and no post fails, the tab that asked is told and
  -- nobody else: the waiters of every duplicated `wizard.next` are dropped without an answer.
  pub cancel_drops_waiters :
      JsMap.get id s.request_methods ≡ some wizard_cancel
      → let t = route_owner_output h response s in
        (t.sent ≡ s.sent ++ (p, relay response) ∷ [])
        × (t.wizard_next_waiters ≡ [])
        × (t.wizard_next_in_flight ≡ [])
  unfolding answer remember finish take_request clear_wizard_next_deduplication
  cancel_drops_waiters m =
      rw (route-answer h quiet id p wizard_cancel response s r type o m, reply-quiet h quiet)
        (refl, refl, refl)

  -- When the answer to a `wizard.next` carries a session other than the wizard's and no post fails,
  -- the tab that asked is told and nobody else: the waiters of that very request, and of all the
  -- others, are dropped without an answer.
  pub new_session_drops_waiters :
      (k : NextKey) (fs : Fields) (session_id : String)
      → response.ok ≡ true
      → JsMap.get id s.request_methods ≡ some wizard_next
      → JsMap.get id s.request_wizard_next_keys ≡ some k
      → response.result ≡ obj fs
      → as_string (property (obj fs) "sessionId") ≡ some session_id
      → session_changes s.wizard_session_id session_id ≡ true
      → let t = route_owner_output h response s in
        (t.sent ≡ s.sent ++ (p, relay response) ∷ []) × (t.wizard_next_waiters ≡ [])
  unfolding remember_wizard_next_response clear_wizard_next_deduplication take_request JsMap.get
      JsMap.delete
  new_session_drops_waiters k fs session_id ok m key result session changes =
      rw
        (
          route-answer h quiet id p wizard_next response s r type o m,
          answer_next h quiet id p k response s ok key,
          finish_next-quiet h quiet k response (told h quiet id p response s) ok,
        )
        (simp (entered, append-nil), simp entered)
    where
      entered :
          remember_wizard_result response.result (take_request id s)
          ≡ set_snapshot fs (record (clear_wizard_next_deduplication (take_request id s)) {
            wizard_session_id = some session_id;
          })
      entered =
          unfold remember_wizard_result remember_fields enter_session in
          simp (result, session, changes)
