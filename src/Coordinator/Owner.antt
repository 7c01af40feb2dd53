-- ===== src/Coordinator/Owner.antt =====
-- src/openclaw-shared-worker.ts: `send`, `broadcast`, `chooseOwner`, `disconnect`. A failing post
-- disconnects its port, which may choose a new owner, which posts again: the recursion is cut by
-- fuel, and takes at most one round for each port.
pub mod Termination
pub mod Led
pub mod Keeps
pub mod Quiet
use clawsembly_kernel.Prelude.{
  ℕ, zero, suc, Bool, true, false, String, ◌≡◌, Option, none, some, List, [], ◌∷◌, ◌++◌,
  if◌then◌else◌, ◌==◌, nat_eq, length, head?,
}
use clawsembly_kernel.Prelude.JsSet
use clawsembly_kernel.Js.{undefined}
use clawsembly_kernel.Coordinator.{
  Port, Outgoing, restoring_status, owner_notice, owner_start, Host, Coordinator,
}

unfoldable pub clear_wizard_next_deduplication : Coordinator → Coordinator
clear_wizard_next_deduplication s = record s {
  request_wizard_next_keys = [];
  wizard_next_in_flight = [];
  wizard_next_response_cache = [];
  wizard_next_waiters = [];
}

-- The loop of `disconnect` over `requestOwners`.
unfoldable pub drop_owned : Port → List (String × Port) → List (String × Port)
drop_owned port [] = []
drop_owned port ((id, owner) ∷ m) =
    let rest = drop_owned port m in if owner == port then rest else (id, owner) ∷ rest

-- What `disconnect` resets once the owner is gone.
unfoldable pub forget_owner : Coordinator → Coordinator
unfolding clear_wizard_next_deduplication
forget_owner s = record (clear_wizard_next_deduplication s) {
  owner = none;
  request_owners = [];
  request_methods = [];
  wizard_snapshot = undefined;
  wizard_session_id = none;
  wizard_start_in_flight = false;
  wizard_start_waiters = [];
}

unfoldable pub is_owner : Coordinator → Port → Bool
is_owner s port = elim s.owner [ none ↦ false | some owner ↦ owner == port ]

unfoldable pub remove_port : Port → Coordinator → Coordinator
remove_port port s = record s {
  ports = JsSet.delete port s.ports;
  request_owners = drop_owned port s.request_owners;
}

unfoldable pub log : Port → Outgoing → Coordinator → Coordinator
log port message s = record s { sent = s.sent ++ (port, message) ∷ [] }

module _ (h : Host) (choose : Coordinator → Coordinator) where
  -- `disconnect`, `send` and `broadcast`, given `chooseOwner`.
  unfoldable pub disconnect_with : Port → Coordinator → Coordinator
  disconnect_with port s =
      let gone = remove_port port s in if is_owner s port then choose (forget_owner gone) else gone

  unfoldable pub send_with : Port → Outgoing → Coordinator → Coordinator
  send_with port message s =
      if h.post_throws port message then disconnect_with port s else log port message s

  unfoldable pub broadcast_with : List Port → Outgoing → Coordinator → Coordinator
  broadcast_with [] message s = s
  broadcast_with (port ∷ ports) message s = broadcast_with ports message (send_with port message s)

  -- `send(owner, message)` in `chooseOwner`, where nested calls may have left no owner: then
  -- `undefined.postMessage` throws, and `disconnect(undefined)` finds `owner === port`.
  unfoldable pub send_option_with : Option Port → Outgoing → Coordinator → Coordinator
  send_option_with none message s = choose (forget_owner s)
  send_option_with (some owner) message s = send_with owner message s

  unfoldable pub send_owner_with : Outgoing → Coordinator → Coordinator
  unfolding send_option_with
  send_owner_with message s = send_option_with s.owner message s

  unfoldable pub start_owner_with : Coordinator → Coordinator
  start_owner_with s = if s.runtime_requested then send_owner_with owner_start s else s

  unfoldable pub announce_with : Port → Coordinator → Coordinator
  announce_with first s = start_owner_with (
      send_owner_with owner_notice (
        broadcast_with s.ports restoring_status (record s {
          owner = some first;
          ready_message = none;
          result_message = none;
          status_message = restoring_status;
        })))

  unfoldable pub choose_first_with : Option Port → Coordinator → Coordinator
  choose_first_with none s = record s { owner = none }
  choose_first_with (some first) s = announce_with first s

  -- The body of `chooseOwner`, given itself.
  unfoldable pub choose_step : Coordinator → Coordinator
  choose_step s = choose_first_with (head? s.ports) s

unfoldable pub choose_owner_fuel : Host → ℕ → Coordinator → Coordinator
choose_owner_fuel h zero s = s
choose_owner_fuel h (suc n) s = choose_step h (choose_owner_fuel h n) s

module _ (h : Host) where
  unfoldable pub choose_owner : Coordinator → Coordinator
  choose_owner s = choose_owner_fuel h (suc (length s.ports)) s

  unfoldable pub disconnect : Port → Coordinator → Coordinator
  disconnect = disconnect_with h choose_owner

  unfoldable pub send : Port → Outgoing → Coordinator → Coordinator
  send = send_with h choose_owner

  unfoldable pub broadcast : Outgoing → Coordinator → Coordinator
  broadcast message s = broadcast_with h choose_owner s.ports message s
