-- ===== src/Coordinator/Owner/Quiet.antt =====
-- The operations where no post fails, and what a failover tells the remaining ports.
use clawsembly_kernel.Prelude.{
  ◌≡◌, refl, sym, ap, ◌∙◌, Bool, true, false, Option, none, some, List, [], ◌∷◌, ◌++◌, append_assoc,
  append-nil, arith, head?, length, if◌then◌else◌, nat_eq, ==_refl,
}
use clawsembly_kernel.Prelude.JsSet
use clawsembly_kernel.Js.{undefined}
use clawsembly_kernel.Coordinator.{
  Port, Outgoing, owner_start, owner_notice, restoring_status, Host, Coordinator,
}
use clawsembly_kernel.Coordinator.Owner.{
  is_owner, forget_owner, clear_wizard_next_deduplication, remove_port, log, disconnect_with,
  disconnect, send, broadcast, send_with, broadcast_with, send_option_with, send_owner_with,
  start_owner_with, announce_with, choose_first_with, choose_step, choose_owner_fuel, choose_owner,
}

-- No `postMessage` throws.
abbrev pub IsQuiet : Host → Type 0
IsQuiet h = (p : Port) (m : Outgoing) → h.post_throws p m ≡ false

abbrev pub to_all : List Port → Outgoing → List (Port × Outgoing)
to_all [] m = []
to_all (p ∷ ports) m = (p, m) ∷ to_all ports m

abbrev pub logs : List (Port × Outgoing) → Coordinator → Coordinator
logs posts s = record s { sent = s.sent ++ posts }

abbrev pub start_posts : Bool → Port → List (Port × Outgoing)
start_posts true first = (first, owner_start) ∷ []
start_posts false first = []

-- The state in which `first` has been made the owner, and everyone has been told.
abbrev pub appointed : Port → Coordinator → Coordinator
appointed first s = record s {
  owner = some first;
  ready_message = none;
  result_message = none;
  status_message = restoring_status;
  sent =
      s.sent
      ++ (to_all s.ports restoring_status
          ++ ((first, owner_notice) ∷ start_posts s.runtime_requested first));
}

module _ (h : Host) (quiet : IsQuiet h) where
  send_with-quiet :
      (choose : Coordinator → Coordinator) (p : Port) (m : Outgoing) (s : Coordinator)
      → send_with h choose p m s ≡ logs ((p, m) ∷ []) s
  unfolding send_with log
  send_with-quiet choose p m s = rw (quiet p m)

  broadcast_with-quiet :
      (choose : Coordinator → Coordinator) (ports : List Port) (m : Outgoing) (s : Coordinator)
      → broadcast_with h choose ports m s ≡ logs (to_all ports m) s
  unfolding broadcast_with
  broadcast_with-quiet choose [] m s = λ i. record s { sent = sym (append-nil s.sent) i }
  broadcast_with-quiet choose (p ∷ ports) m s =
      ap (broadcast_with h choose ports m) (send_with-quiet choose p m s)
      ∙ broadcast_with-quiet choose ports m (logs ((p, m) ∷ []) s)
      ∙ λ i. record s { sent = append_assoc s.sent ((p, m) ∷ []) (to_all ports m) i }

  pub send-quiet : (p : Port) (m : Outgoing) (s : Coordinator) → send h p m s ≡ logs ((p, m) ∷ []) s
  unfolding send
  send-quiet p m s = send_with-quiet (choose_owner h) p m s

  pub broadcast-quiet :
      (m : Outgoing) (s : Coordinator) → broadcast h m s ≡ logs (to_all s.ports m) s
  unfolding broadcast
  broadcast-quiet m s = broadcast_with-quiet (choose_owner h) s.ports m s

  send_option_with-quiet :
      (choose : Coordinator → Coordinator) (o : Option Port) (first : Port) (m : Outgoing)
      (s : Coordinator)
      → o ≡ some first
      → send_option_with h choose o m s ≡ logs ((first, m) ∷ []) s
  unfolding send_option_with
  send_option_with-quiet choose none first m s e = cc
  send_option_with-quiet choose (some p) first m s e =
      let same : p ≡ first = cc in rw same (send_with-quiet choose first m s)

  start-quiet :
      (choose : Coordinator → Coordinator) (first : Port) (s : Coordinator) (requested : Bool)
      → s.owner ≡ some first
      → (if requested then send_owner_with h choose owner_start s else s)
        ≡ logs (start_posts requested first) s
  unfolding send_owner_with
  start-quiet choose first s false e = λ i. record s { sent = sym (append-nil s.sent) i }
  start-quiet choose first s true e = send_option_with-quiet choose s.owner first owner_start s e

  start_owner_with-quiet :
      (choose : Coordinator → Coordinator) (first : Port) (s : Coordinator)
      → s.owner ≡ some first
      → start_owner_with h choose s ≡ logs (start_posts s.runtime_requested first) s
  unfolding start_owner_with
  start_owner_with-quiet choose first s e = start-quiet choose first s s.runtime_requested e

  announce_with-quiet :
      (choose : Coordinator → Coordinator) (first : Port) (s : Coordinator)
      → announce_with h choose first s ≡ appointed first s
  unfolding announce_with send_owner_with send_option_with
  announce_with-quiet choose first s =
      let named : Coordinator = record s {
        owner = some first;
        ready_message = none;
        result_message = none;
        status_message = restoring_status;
      } in
      let heard = broadcast_with-quiet choose s.ports restoring_status named in
      let posts = to_all s.ports restoring_status in
      ap (λ t. start_owner_with h choose (send_owner_with h choose owner_notice t)) heard
      ∙ ap (start_owner_with h choose)
          (send_with-quiet choose first owner_notice (logs posts named))
      ∙ start_owner_with-quiet choose first (logs ((first, owner_notice) ∷ []) (logs posts named))
          refl
      ∙ λ i. record named {
        sent = regroup s.sent posts first (start_posts s.runtime_requested first) i;
      }
    where
      regroup :
          (a b : List (Port × Outgoing)) (p : Port) (c : List (Port × Outgoing))
          → ((a ++ b) ++ (p, owner_notice) ∷ []) ++ c ≡ a ++ (b ++ ((p, owner_notice) ∷ c))
      regroup a b p c = simp append_assoc

disconnect-appointed :
    (h : Host) (s : Coordinator) (p first : Port)
    → IsQuiet h
    → s.owner ≡ some p
    → head? (JsSet.delete p s.ports) ≡ some first
    → disconnect h p s ≡ appointed first (forget_owner (remove_port p s))
unfolding disconnect disconnect_with choose_owner choose_owner_fuel choose_step
disconnect-appointed h s p first quiet e next = rw owns (
    chosen (head? (forget_owner (remove_port p s)).ports)
      (unfold forget_owner clear_wizard_next_deduplication remove_port in next))
  where
    owns : is_owner s p ≡ true
    owns = unfold is_owner in ground (arith, ==_refl p)

    chosen :
        (o : Option Port)
        → o ≡ some first
        → choose_first_with h
            (choose_owner_fuel h (length (forget_owner (remove_port p s)).ports))
            o
            (forget_owner (remove_port p s))
          ≡ appointed first (forget_owner (remove_port p s))
    chosen none q = cc
    chosen (some f) q =
        let same : f ≡ first = cc in
        rw same (
          unfold choose_first_with in
          announce_with-quiet h quiet _ first (forget_owner (remove_port p s)))

-- When the owner disconnects and no post fails, the oldest remaining tab becomes the owner: every
-- remaining tab hears that the runtime is restored, the new owner is told of its role, and to start
-- if a start was ever requested; every pending request, waiter, cached response and the wizard's
-- snapshot are forgotten, and nothing else is posted.
pub disconnect_owner :
    (h : Host) (s : Coordinator) (p first : Port)
    → IsQuiet h
    → s.owner ≡ some p
    → head? (JsSet.delete p s.ports) ≡ some first
    → disconnect h p s ≡ record s {
      ports = JsSet.delete p s.ports;
      owner = some first;
      ready_message = none;
      result_message = none;
      status_message = restoring_status;
      request_owners = [];
      request_methods = [];
      request_wizard_next_keys = [];
      wizard_next_in_flight = [];
      wizard_next_response_cache = [];
      wizard_next_waiters = [];
      wizard_snapshot = undefined;
      wizard_session_id = none;
      wizard_start_in_flight = false;
      wizard_start_waiters = [];
      sent =
          s.sent
          ++ (to_all (JsSet.delete p s.ports) restoring_status
              ++ ((first, owner_notice) ∷ start_posts s.runtime_requested first));
    }
unfolding forget_owner clear_wizard_next_deduplication remove_port
disconnect_owner h s p first quiet e next = disconnect-appointed h s p first quiet e next
