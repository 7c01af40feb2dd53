-- ===== src/Coordinator/Owner/Termination.antt =====
-- src/openclaw-shared-worker.ts: the nested calls of `chooseOwner`, and the fuel that they take.
use clawsembly_kernel.Prelude.{
  ℕ, zero, suc, ◌<◌, ◌≡◌, refl, sym, ap, ◌∙◌, Option, none, some, List, [], ◌∷◌, arith, length,
  head?, Bool-cases, inl, inr,
}
use clawsembly_kernel.Coordinator.{
  Port, Outgoing, owner_start, owner_notice, restoring_status, Host, Coordinator,
}
use clawsembly_kernel.Coordinator.Owner.{
  is_owner, disconnect_with, disconnect, send, broadcast, send_with, broadcast_with,
  send_option_with, send_owner_with, start_owner_with, announce_with, choose_first_with,
  choose_step, choose_owner_fuel, choose_owner,
}
use clawsembly_kernel.Coordinator.Owner.Led.{
  IsLed, pos_of_head?, IsSafe, IsGood, owner_gone, disconnect_with-IsSafe, send_with-IsSafe,
  broadcast_with-IsSafe, owner_missing, send_owner_with-IsSafe, choose_step-IsSafe,
}

-- The two agree where fewer than `n` ports are left.
abbrev Agree : ℕ → (c d : Coordinator → Coordinator) → Type 0
Agree n c d = (t : Coordinator) → length t.ports < n → c t ≡ d t

module _ (h : Host) (n : ℕ) (c d : Coordinator → Coordinator) (good : IsGood n c)
    (agree : Agree n c d) where
  disconnect_with-agree :
      (p : Port) (s : Coordinator) → IsSafe n s → disconnect_with h c p s ≡ disconnect_with h d p s
  unfolding disconnect_with
  disconnect_with-agree p s safe = elim (Bool-cases (is_owner s p)) [
    | inl e ↦ rw e (agree _ (owner_gone h n c good p s safe e))
    | inr e ↦ rw e
  ]

  send_with-agree :
      (p : Port) (m : Outgoing) (s : Coordinator)
      → IsSafe n s
      → send_with h c p m s ≡ send_with h d p m s
  unfolding send_with
  send_with-agree p m s safe = ground (arith, disconnect_with-agree p s safe)

  broadcast_with-agree :
      (ports : List Port) (m : Outgoing) (s : Coordinator)
      → IsSafe n s
      → broadcast_with h c ports m s ≡ broadcast_with h d ports m s
  unfolding broadcast_with
  broadcast_with-agree [] m s safe = refl
  broadcast_with-agree (p ∷ ports) m s safe =
      broadcast_with-agree ports m (send_with h c p m s) (send_with-IsSafe h n c good p m s safe)
      ∙ ap (broadcast_with h d ports m) (send_with-agree p m s safe)

  send_option_with-agree :
      (o : Option Port) (m : Outgoing) (s : Coordinator)
      → s.owner ≡ o
      → 0 < n
      → IsSafe n s
      → send_option_with h c o m s ≡ send_option_with h d o m s
  unfolding send_option_with
  send_option_with-agree none m s e pos safe = agree _ (owner_missing h n c good s pos safe.0 e)
  send_option_with-agree (some o) m s e pos safe = send_with-agree o m s safe

  send_owner_with-agree :
      (m : Outgoing) (s : Coordinator)
      → 0 < n
      → IsSafe n s
      → send_owner_with h c m s ≡ send_owner_with h d m s
  unfolding send_owner_with
  send_owner_with-agree m s pos safe = send_option_with-agree s.owner m s refl pos safe

  start_owner_with-agree :
      (s : Coordinator) → 0 < n → IsSafe n s → start_owner_with h c s ≡ start_owner_with h d s
  unfolding start_owner_with
  start_owner_with-agree s pos safe = ground (arith, send_owner_with-agree owner_start s pos safe)

module _ (h : Host) (c d : Coordinator → Coordinator) (s : Coordinator)
    (good : IsGood (length s.ports) c) (agree : Agree (length s.ports) c d) where
  choose_first_with-agree :
      (o : Option Port) → head? s.ports ≡ o → choose_first_with h c o s ≡ choose_first_with h d o s
  unfolding choose_first_with announce_with
  choose_first_with-agree none e = refl
  choose_first_with-agree (some first) e =
      let n = length s.ports in
      let pos = pos_of_head? s.ports e in
      let chosen : Coordinator = record s {
        owner = some first;
        ready_message = none;
        result_message = none;
        status_message = restoring_status;
      } in
      let safe : IsSafe n chosen = (sym e, omega arith) in
      let heard = broadcast_with-IsSafe h n c good s.ports restoring_status chosen safe in
      let told = send_owner_with-IsSafe h n c good owner_notice _ pos heard in
      start_owner_with-agree h n c d good agree _ pos told
      ∙ ap (start_owner_with h d) (
          send_owner_with-agree h n c d good agree owner_notice _ pos heard
          ∙ ap (send_owner_with h d owner_notice)
              (broadcast_with-agree h n c d good agree s.ports restoring_status chosen safe))

  choose_step-agree : choose_step h c s ≡ choose_step h d s
  unfolding choose_step
  choose_step-agree = choose_first_with-agree (head? s.ports) refl

choose_owner_fuel-IsGood : (h : Host) (f : ℕ) → IsGood f (choose_owner_fuel h f)
unfolding choose_owner_fuel
choose_owner_fuel-IsGood h zero t below = elim below [ ]
choose_owner_fuel-IsGood h (suc f) t below =
    choose_step-IsSafe h (choose_owner_fuel h f) t
      (λ u lt. choose_owner_fuel-IsGood h f u (omega arith))

-- Any two amounts of fuel above the number of ports give the same state.
pub choose_owner_fuel-stable :
    (h : Host) (f g : ℕ) (t : Coordinator)
    → length t.ports < f
    → length t.ports < g
    → choose_owner_fuel h f t ≡ choose_owner_fuel h g t
unfolding choose_owner_fuel
choose_owner_fuel-stable h zero g t below below' = elim below [ ]
choose_owner_fuel-stable h (suc f) zero t below below' = elim below' [ ]
choose_owner_fuel-stable h (suc f) (suc g) t below below' =
    choose_step-agree h (choose_owner_fuel h f) (choose_owner_fuel h g) t
      (λ u lt. choose_owner_fuel-IsGood h f u (omega arith))
      (λ u lt. choose_owner_fuel-stable h f g u (omega arith) (omega arith))

pub choose_owner-IsGood : (h : Host) (n : ℕ) → IsGood n (choose_owner h)
unfolding choose_owner
choose_owner-IsGood h n t below = choose_owner_fuel-IsGood h (suc (length t.ports)) t (omega arith)

-- `chooseOwner` always ends, whatever posts fail: with one round for each connected port,
-- `choose_owner` satisfies the recursive equation of the source, in which every failing post
-- may call `chooseOwner` again.
pub choose_owner-unfold :
    (h : Host) (s : Coordinator) → choose_owner h s ≡ choose_step h (choose_owner h) s
unfolding choose_owner choose_owner_fuel
choose_owner-unfold h s =
    choose_step-agree h (choose_owner_fuel h (length s.ports)) (choose_owner h) s
      (choose_owner_fuel-IsGood h (length s.ports))
      (λ t lt.
        choose_owner_fuel-stable h (length s.ports) (suc (length t.ports)) t lt (omega arith))

-- With `send`, `broadcast` and `disconnect` the oldest port stays the owner.
pub disconnect-IsLed : (h : Host) (p : Port) (s : Coordinator) → IsLed s → IsLed (disconnect h p s)
unfolding disconnect
disconnect-IsLed h p s led =
    (disconnect_with-IsSafe h (length s.ports) (choose_owner h) (choose_owner-IsGood h _) p s
      (led, omega arith)).0

pub send-IsLed :
    (h : Host) (p : Port) (m : Outgoing) (s : Coordinator) → IsLed s → IsLed (send h p m s)
unfolding send
send-IsLed h p m s led =
    (send_with-IsSafe h (length s.ports) (choose_owner h) (choose_owner-IsGood h _) p m s
      (led, omega arith)).0

pub broadcast-IsLed :
    (h : Host) (m : Outgoing) (s : Coordinator) → IsLed s → IsLed (broadcast h m s)
unfolding broadcast
broadcast-IsLed h m s led =
    (broadcast_with-IsSafe h (length s.ports) (choose_owner h) (choose_owner-IsGood h _) s.ports m s
      (led, omega arith)).0
