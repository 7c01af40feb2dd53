-- ===== src/Broker/World/Finish.antt =====
-- worker/byok-broker.mjs: the budget when a reserved request uses the credential.
use clawsembly_kernel.Prelude.{
  ℕ, ◌+◌, ◌≤◌, ◌≡◌, ◌≢◌, sym, ap, subst, ◌∙◌, inl, inr, Option, none, some, List, [], ◌∷◌, ◌++◌,
  arith, All, All-without, length, length-append, or_else,
}
use clawsembly_kernel.Broker.{SessionState, pending, ready, Session, Store, Env, UpstreamRequest}
use clawsembly_kernel.Broker.Forward.{activate, finish_request}
use clawsembly_kernel.Broker.World.{Task, World, on_finish}
use clawsembly_kernel.Broker.World.Keeps.{
  SameLimits, IsActivated, activate-IsActivated, length-send-le,
}
use clawsembly_kernel.Broker.World.Budget.{IsLimited, IsReserved, used, Unreserved, IsStored, Inv}

nonempty : (before : List Task) (task : Task) (after : List Task) → before ++ task ∷ after ≢ []
nonempty [] task after e = cc
nonempty (x ∷ before) task after e = cc

length-without :
    (before : List Task) (task : Task) (after : List Task)
    → length (before ++ task ∷ after) ≡ length (before ++ after) + 1
length-without before task after =
    omega (arith, length-append before (task ∷ after), length-append before after)

module _ (e : ℕ) (w : World) (answered : ℕ) (before : List Task) (task : Task) (after : List Task)
    (new : List UpstreamRequest) (v : Inv e w) (later : w.now ≤ answered)
    (shape : w.reserved ≡ before ++ task ∷ after) (small : length new ≤ 1) where
  finished : Store → World
  finished store = record w {
    store = store;
    now = answered;
    reserved = before ++ after;
    sent = w.sent ++ new;
  }

  used-finished-le : (store : Store) → used (finished store) ≤ used w
  unfolding finished
  used-finished-le store =
      omega
        (arith, length-append w.sent new, small, length-without before task after, ap length shape)

  ready_of_reserved :
      (st : SessionState) → Unreserved st w.reserved → Unreserved st (before ++ after)
  ready_of_reserved ready u = tt
  ready_of_reserved pending u = absurd (nonempty before task after (sym shape ∙ u))

  split : IsReserved e task × All (IsReserved e) (before ++ after)
  split = All-without (IsReserved e) before task after (subst (All (IsReserved e)) shape v.tasks)

  same-IsStored : (o : Option Session) → IsStored e w o → IsStored e (finished w.store) o
  unfolding finished
  same-IsStored none h = omega (arith, h, later)
  same-IsStored (some s) (limited, alarm, counted, unreserved) = (
    limited,
    elim alarm [ inl h ↦ inl h | inr h ↦ inr (omega arith) ],
    elim counted [
      | inl h ↦ inl (omega (arith, used-finished-le w.store, h))
      | inr h ↦ inr (omega arith)
    ],
    ready_of_reserved s.state unreserved,
  )

  IsLimited-same : (s t : Session) → SameLimits s t → IsLimited e s → IsLimited e t
  IsLimited-same s t k limited = record {
    ends = k.expires_at ∙ limited.ends;
    limit = k.max_requests ∙ limited.limit;
    within = rw k.request_count limited.within;
  }

  refreshed-IsStored :
      (t : Session) (o : Option Session)
      → IsStored e w o
      → SameLimits (or_else o task.0) t
      → IsStored e (finished (record w.store { session = some t })) (some t)
  unfolding finished
  refreshed-IsStored t none h k = (
    IsLimited-same task.0 t k split.0.0,
    inr (omega arith),
    inr (omega arith),
    subst (λ st. Unreserved st (before ++ after)) (sym (k.state ∙ split.0.1)) tt,
  )
  refreshed-IsStored t (some s) (limited, alarm, counted, unreserved) k = (
    IsLimited-same s t k limited,
    elim alarm [ inl h ↦ inl h | inr h ↦ inr (omega arith) ],
    elim counted [
      | inl h ↦ inl (omega (arith, used-finished-le w.store, h, k.request_count))
      | inr h ↦ inr (omega arith)
    ],
    subst (λ st. Unreserved st (before ++ after)) (sym k.state)
        (ready_of_reserved s.state unreserved),
  )

  finished-Inv :
      (store : Store)
      → IsActivated (or_else w.store.session task.0) w.store store
      → Inv e (finished store)
  unfolding finished
  finished-Inv store (inl same) = rw same (record {
    tasks = split.1;
    budget = omega (arith, used-finished-le w.store, v.budget);
    stored = same-IsStored w.store.session v.stored;
  })
  finished-Inv store (inr (t, same, k)) = rw same (record {
    tasks = split.1;
    budget = omega (arith, used-finished-le w.store, v.budget);
    stored = refreshed-IsStored t w.store.session v.stored k;
  })

pub on_finish-Inv :
    (env : Env) (e : ℕ) (answered : ℕ) (before : List Task) (task : Task) (after : List Task)
    (w : World)
    → w.now ≤ answered
    → w.reserved ≡ before ++ task ∷ after
    → Inv e w
    → Inv e (on_finish env answered task (before ++ after) w)
unfolding on_finish finish_request finished
on_finish-Inv env e answered before task after w later shape v =
    finished-Inv e w answered before task after _ v later shape
      (length-send-le env task.1 (activate env w.now answered task.0 w.store).1)
      (activate env w.now answered task.0 w.store).0
      (activate-IsActivated env w.now answered task.0 w.store)
