-- ===== src/Coordinator/Owner/Keeps.antt =====
-- A property that the elementary updates keep is kept by `send`, `broadcast`, `chooseOwner` and
-- `disconnect`, whatever posts fail.
use clawsembly_kernel.Prelude.{ℕ, zero, suc, Option, none, some, List, [], ◌∷◌, arith, head?}
use clawsembly_kernel.Coordinator.{
  Port, Outgoing, owner_start, owner_notice, restoring_status, Host, Coordinator,
}
use clawsembly_kernel.Coordinator.Owner.{
  forget_owner, remove_port, log, disconnect_with, disconnect, send, broadcast, send_with,
  broadcast_with, send_option_with, send_owner_with, start_owner_with, announce_with,
  choose_first_with, choose_step, choose_owner_fuel, choose_owner,
}

pub record Keeps (P : Coordinator → Type 0) : Type 0 where
  pub logged : (p : Port) (m : Outgoing) (s : Coordinator) → P s → P (log p m s)
  pub removed : (p : Port) (s : Coordinator) → P s → P (remove_port p s)
  pub forgotten : (s : Coordinator) → P s → P (forget_owner s)
  pub orphaned : (s : Coordinator) → P s → P (record s { owner = none })
  pub appointed :
      (p : Port) (s : Coordinator)
      → P s
      → P (record s {
        owner = some p;
        ready_message = none;
        result_message = none;
        status_message = restoring_status;
      })

module _ (h : Host) (P : Coordinator → Type 0) (k : Keeps P) where
  module _ (choose : Coordinator → Coordinator) (c : (s : Coordinator) → P s → P (choose s)) where
    disconnect_with-keeps : (p : Port) (s : Coordinator) → P s → P (disconnect_with h choose p s)
    unfolding disconnect_with
    disconnect_with-keeps p s v =
        let gone = k.removed p s v in ground (arith, c _ (k.forgotten _ gone))

    send_with-keeps :
        (p : Port) (m : Outgoing) (s : Coordinator) → P s → P (send_with h choose p m s)
    unfolding send_with
    send_with-keeps p m s v = ground (arith, disconnect_with-keeps p s v, k.logged p m s v)

    broadcast_with-keeps :
        (ports : List Port) (m : Outgoing) (s : Coordinator)
        → P s
        → P (broadcast_with h choose ports m s)
    unfolding broadcast_with
    broadcast_with-keeps [] m s v = v
    broadcast_with-keeps (p ∷ ports) m s v =
        broadcast_with-keeps ports m (send_with h choose p m s) (send_with-keeps p m s v)

    send_option_with-keeps :
        (o : Option Port) (m : Outgoing) (s : Coordinator)
        → P s
        → P (send_option_with h choose o m s)
    unfolding send_option_with
    send_option_with-keeps none m s v = c _ (k.forgotten s v)
    send_option_with-keeps (some o) m s v = send_with-keeps o m s v

    send_owner_with-keeps :
        (m : Outgoing) (s : Coordinator) → P s → P (send_owner_with h choose m s)
    unfolding send_owner_with
    send_owner_with-keeps m s v = send_option_with-keeps s.owner m s v

    start_owner_with-keeps : (s : Coordinator) → P s → P (start_owner_with h choose s)
    unfolding start_owner_with
    start_owner_with-keeps s v = ground (arith, send_owner_with-keeps owner_start s v)

    choose_first_with-keeps :
        (o : Option Port) (s : Coordinator) → P s → P (choose_first_with h choose o s)
    unfolding choose_first_with announce_with
    choose_first_with-keeps none s v = k.orphaned s v
    choose_first_with-keeps (some first) s v = start_owner_with-keeps _ (
        send_owner_with-keeps owner_notice _
          (broadcast_with-keeps s.ports restoring_status _ (k.appointed first s v)))

    choose_step-keeps : (s : Coordinator) → P s → P (choose_step h choose s)
    unfolding choose_step
    choose_step-keeps s v = choose_first_with-keeps (head? s.ports) s v

  choose_owner_fuel-keeps : (f : ℕ) (s : Coordinator) → P s → P (choose_owner_fuel h f s)
  unfolding choose_owner_fuel
  choose_owner_fuel-keeps zero s v = v
  choose_owner_fuel-keeps (suc f) s v =
      choose_step-keeps (choose_owner_fuel h f) (choose_owner_fuel-keeps f) s v

  pub choose_owner-keeps : (s : Coordinator) → P s → P (choose_owner h s)
  unfolding choose_owner
  choose_owner-keeps s v = choose_owner_fuel-keeps _ s v

  pub disconnect-keeps : (p : Port) (s : Coordinator) → P s → P (disconnect h p s)
  unfolding disconnect
  disconnect-keeps p s v = disconnect_with-keeps (choose_owner h) choose_owner-keeps p s v

  pub send-keeps : (p : Port) (m : Outgoing) (s : Coordinator) → P s → P (send h p m s)
  unfolding send
  send-keeps p m s v = send_with-keeps (choose_owner h) choose_owner-keeps p m s v

  pub broadcast-keeps : (m : Outgoing) (s : Coordinator) → P s → P (broadcast h m s)
  unfolding broadcast
  broadcast-keeps m s v = broadcast_with-keeps (choose_owner h) choose_owner-keeps s.ports m s v
