-- ===== src/Coordinator/Owner/Led.antt =====
-- src/openclaw-shared-worker.ts: the owner and the oldest connected port.
use clawsembly_kernel.Prelude.{
  ℕ, ◌≤◌, ◌<◌, ◌≡◌, refl, sym, Bool, true, false, Option, none, some, List, [], ◌∷◌, arith, ◌==◌,
  nat_eq, length, head?, Bool-cases, Option-cases, inl, inr,
}
use clawsembly_kernel.Prelude.JsSet
use clawsembly_kernel.Coordinator.{
  Port, Outgoing, owner_start, owner_notice, restoring_status, Host, Coordinator,
}
use clawsembly_kernel.Coordinator.Owner.{
  is_owner, forget_owner, remove_port, log, disconnect_with, send_with, broadcast_with,
  send_option_with, send_owner_with, start_owner_with, announce_with, choose_first_with,
  choose_step,
}

abbrev pub IsLed : Coordinator → Type 0
IsLed s = s.owner ≡ head? s.ports

-- Led, with at most `n` ports.
abbrev pub IsSafe : ℕ → Coordinator → Type 0
IsSafe n s = IsLed s × (length s.ports ≤ n)

-- What `chooseOwner` must do where fewer than `n` ports are left.
abbrev pub IsGood : ℕ → (Coordinator → Coordinator) → Type 0
IsGood n choose = (t : Coordinator) → length t.ports < n → IsSafe (length t.ports) (choose t)

pub head?-delete_self :
    (p : Port) (ports : List Port)
    → head? ports ≡ some p
    → length (JsSet.delete p ports) < length ports
unfolding JsSet.delete
head?-delete_self p [] h = cc
head?-delete_self p (x ∷ ports) h =
    ground (arith, nat_eq.beq_iff x p, JsSet.length-delete-le p ports)

head?-delete_ne :
    (p : Port) (ports : List Port) (owner : Option Port)
    → owner ≡ head? ports
    → (elim owner as (λ _. Bool) [ none ↦ false | some o ↦ o == p ]) ≡ false
    → owner ≡ head? (JsSet.delete p ports)
unfolding JsSet.delete
head?-delete_ne p [] owner h e = h
head?-delete_ne p (x ∷ ports) none h e = cc
head?-delete_ne p (x ∷ ports) (some o) h e = ground (arith, nat_eq.beq_iff x p, nat_eq.beq_iff o p)

pub pos_of_head? : {p : Port} (ports : List Port) → head? ports ≡ some p → 0 < length ports
pos_of_head? [] e = cc
pos_of_head? (x ∷ ports) e = omega arith

module _ (h : Host) (n : ℕ) (choose : Coordinator → Coordinator) (good : IsGood n choose) where
  -- What holds where the owner is disconnected: `chooseOwner` is called with fewer ports.
  pub owner_gone :
      (p : Port) (s : Coordinator)
      → IsSafe n s
      → is_owner s p ≡ true
      → length (forget_owner (remove_port p s)).ports < n
  unfolding is_owner forget_owner remove_port
  owner_gone p s (led, bound) e = elim (Option-cases s.owner) [
    | inl missing ↦ ground arith
    | inr (o, found) ↦
        omega (arith, head?-delete_self p s.ports (ground (arith, nat_eq.beq_iff o p)))
  ]

  pub disconnect_with-IsSafe :
      (p : Port) (s : Coordinator) → IsSafe n s → IsSafe n (disconnect_with h choose p s)
  unfolding disconnect_with remove_port
  disconnect_with-IsSafe p s safe = elim (Bool-cases (is_owner s p)) [
    | inl e ↦
        let below = owner_gone p s safe e in
        let next = good (forget_owner (remove_port p s)) below in rw e (next.0, omega arith)
    | inr e ↦ rw e (kept e, omega (arith, JsSet.length-delete-le p s.ports, safe.1))
  ]
    where
      kept : is_owner s p ≡ false → IsLed (remove_port p s)
      kept e = unfold is_owner in head?-delete_ne p s.ports s.owner safe.0 e

  pub send_with-IsSafe :
      (p : Port) (m : Outgoing) (s : Coordinator) → IsSafe n s → IsSafe n (send_with h choose p m s)
  unfolding send_with log
  send_with-IsSafe p m s safe = ground (arith, disconnect_with-IsSafe p s safe)

  pub broadcast_with-IsSafe :
      (ports : List Port) (m : Outgoing) (s : Coordinator)
      → IsSafe n s
      → IsSafe n (broadcast_with h choose ports m s)
  unfolding broadcast_with
  broadcast_with-IsSafe [] m s safe = safe
  broadcast_with-IsSafe (p ∷ ports) m s safe =
      broadcast_with-IsSafe ports m (send_with h choose p m s) (send_with-IsSafe p m s safe)

  pub owner_missing :
      (s : Coordinator) → 0 < n → IsLed s → s.owner ≡ none → length (forget_owner s).ports < n
  unfolding forget_owner
  owner_missing s pos led e = empty s.ports (ground arith)
    where
      empty : (ports : List Port) → head? ports ≡ none → length ports < n
      empty [] e = omega arith
      empty (p ∷ ports) e = cc

  send_option_with-IsSafe :
      (o : Option Port) (m : Outgoing) (s : Coordinator)
      → s.owner ≡ o
      → 0 < n
      → IsSafe n s
      → IsSafe n (send_option_with h choose o m s)
  unfolding send_option_with
  send_option_with-IsSafe none m s e pos safe =
      let below = owner_missing s pos safe.0 e in
      let next = good (forget_owner s) below in (next.0, omega arith)
  send_option_with-IsSafe (some o) m s e pos safe = send_with-IsSafe o m s safe

  pub send_owner_with-IsSafe :
      (m : Outgoing) (s : Coordinator)
      → 0 < n
      → IsSafe n s
      → IsSafe n (send_owner_with h choose m s)
  unfolding send_owner_with
  send_owner_with-IsSafe m s pos safe = send_option_with-IsSafe s.owner m s refl pos safe

  pub start_owner_with-IsSafe :
      (s : Coordinator) → 0 < n → IsSafe n s → IsSafe n (start_owner_with h choose s)
  unfolding start_owner_with
  start_owner_with-IsSafe s pos safe = ground (arith, send_owner_with-IsSafe owner_start s pos safe)

module _ (h : Host) (choose : Coordinator → Coordinator) (s : Coordinator)
    (good : IsGood (length s.ports) choose) where
  choose_first_with-IsSafe :
      (o : Option Port)
      → head? s.ports ≡ o
      → IsSafe (length s.ports) (choose_first_with h choose o s)
  unfolding choose_first_with announce_with
  choose_first_with-IsSafe none e = (sym e, omega arith)
  choose_first_with-IsSafe (some first) e =
      start_owner_with-IsSafe h (length s.ports) choose good _ pos (
        send_owner_with-IsSafe h (length s.ports) choose good owner_notice _ pos (
          broadcast_with-IsSafe h (length s.ports) choose good s.ports restoring_status _
            (sym e, omega arith)))
    where
      pos : 0 < length s.ports
      pos = pos_of_head? s.ports e

  pub choose_step-IsSafe : IsSafe (length s.ports) (choose_step h choose s)
  unfolding choose_step
  choose_step-IsSafe = choose_first_with-IsSafe (head? s.ports) refl
