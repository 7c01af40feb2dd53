-- ===== src/Coordinator/Invariant.antt =====
-- src/openclaw-shared-worker.ts: the coordinator's invariant.
pub mod Answers
pub mod Events
use clawsembly_kernel.Prelude.{
  ℕ, ◌≤◌, ◌≡◌, String, Bool, true, false, Option, none, some, List, [], ◌∷◌, arith, length, refl,
}
use clawsembly_kernel.Prelude.JsSet
use clawsembly_kernel.Coordinator.{
  Port, Outgoing, RuntimeMessage, NextKey, key_eq, Waiter, Host, Coordinator, initial,
}
use clawsembly_kernel.Coordinator.Tracked.{Tracked, IsTrackedBut, Tracked-empty}
use clawsembly_kernel.Coordinator.Owner.{
  forget_owner, clear_wizard_next_deduplication, remove_port, log, disconnect, send, broadcast,
}
use clawsembly_kernel.Coordinator.Owner.Led.{IsLed}
use clawsembly_kernel.Coordinator.Owner.Termination.{disconnect-IsLed, send-IsLed, broadcast-IsLed}
use clawsembly_kernel.Coordinator.Owner.Keeps.{Keeps, send-keeps, broadcast-keeps, disconnect-keeps}

abbrev pub IsSound : Option NextKey → Coordinator → Type 0
IsSound x s = (length s.wizard_next_response_cache ≤ 32) × IsTrackedBut x s

-- The oldest tab owns the runtime, the cache is bounded, and, apart from the key `x`, each waiter
-- waits for a request that is with the owner.
abbrev pub InvBut : Option NextKey → Coordinator → Type 0
InvBut x s = IsLed s × (length s.wizard_next_response_cache ≤ 32) × IsTrackedBut x s

abbrev pub Inv : Coordinator → Type 0
Inv = InvBut none

pub IsSound-Keeps : (x : Option NextKey) → Keeps (IsSound x)
unfolding log remove_port forget_owner clear_wizard_next_deduplication
IsSound-Keeps x = record {
  logged = λ p m s v. v;
  removed = λ p s v. v;
  forgotten = λ s v. (omega arith, Tracked-empty x []);
  orphaned = λ s v. v;
  appointed = λ p s v. v;
}

-- The key `k` stays out of flight.
abbrev pub IsLanded : NextKey → Coordinator → Type 0
IsLanded k s = JsSet.has k s.wizard_next_in_flight ≡ false

pub IsLanded-Keeps : (k : NextKey) → Keeps (IsLanded k)
unfolding log remove_port forget_owner clear_wizard_next_deduplication JsSet.has
IsLanded-Keeps k = record {
  logged = λ p m s v. v;
  removed = λ p s v. v;
  forgotten = λ s v. refl;
  orphaned = λ s v. v;
  appointed = λ p s v. v;
}

module _ (h : Host) (x : Option NextKey) where
  pub send-InvBut :
      (p : Port) (m : Outgoing) (s : Coordinator) → InvBut x s → InvBut x (send h p m s)
  send-InvBut p m s v =
      let (cached, tracked) = send-keeps h (IsSound x) (IsSound-Keeps x) p m s (v.1, v.2) in
      (send-IsLed h p m s v.0, cached, tracked)

  pub broadcast-InvBut : (m : Outgoing) (s : Coordinator) → InvBut x s → InvBut x (broadcast h m s)
  broadcast-InvBut m s v =
      let (cached, tracked) = broadcast-keeps h (IsSound x) (IsSound-Keeps x) m s (v.1, v.2) in
      (broadcast-IsLed h m s v.0, cached, tracked)

  pub disconnect-InvBut : (p : Port) (s : Coordinator) → InvBut x s → InvBut x (disconnect h p s)
  disconnect-InvBut p s v =
      let (cached, tracked) = disconnect-keeps h (IsSound x) (IsSound-Keeps x) p s (v.1, v.2) in
      (disconnect-IsLed h p s v.0, cached, tracked)

pub clear-InvBut :
    (x : Option NextKey) (s : Coordinator) → IsLed s → InvBut x (clear_wizard_next_deduplication s)
unfolding clear_wizard_next_deduplication
clear-InvBut x s led = (led, omega arith, Tracked-empty x s.request_methods)

pub initial-Inv : Inv initial
unfolding initial
initial-Inv = (refl, omega arith, Tracked-empty none [])
