-- ===== src/Broker/World/Budget.antt =====
-- worker/byok-broker.mjs: the budget of a capability over its histories.
use clawsembly_kernel.Prelude.{
  ℕ, ◌+◌, ◌≤◌, ◌<◌, ◌≡◌, refl, subst, true, false, ◌⊎◌, inl, inr, Option, none, some, List, [], ◌∷◌,
  ◌++◌, arith, All, All-append, length, length-append, ltb,
}
use clawsembly_kernel.JsText.{Text}
use clawsembly_kernel.Broker.{
  SessionState, pending, ready, Session, Store, Request, Env, Flow, stop, go, ◌>>=◌, ◌>>◌, require,
  present, digest_equal,
}
use clawsembly_kernel.Broker.Poll.{is_ready}
use clawsembly_kernel.Broker.Forward.{
  Kind, Parsed, is_usable, check_request, reservable, reserve, count_request,
}
use clawsembly_kernel.Broker.World.{Task, World, add_checked, add_reserved, on_check, on_reserve}
use clawsembly_kernel.Broker.World.Keeps.{go_of_bind, of_require, lt_of_test, go-inj}

-- A session that ends at `e`, within the budget.
pub record IsLimited (e : ℕ) (s : Session) : Type 0 where
  pub ends : s.expires_at ≡ e
  pub limit : s.max_requests ≡ 64
  pub within : s.request_count ≤ 64

abbrev pub IsReserved : ℕ → Task → Type 0
IsReserved e task = IsLimited e task.0 × (task.0.state ≡ ready)

abbrev pub used : World → ℕ
used w = length w.reserved + length w.sent

-- Nobody has reserved anything of a pending session.
abbrev pub Unreserved : SessionState → List Task → Type 0
Unreserved ready tasks = Unit {0}
Unreserved pending tasks = tasks ≡ []

-- Until the session ends, its count is that of the requests, and the alarm is set for its end.
abbrev pub IsStored : ℕ → World → Option Session → Type 0
IsStored e w none = e ≤ w.now
IsStored e w (some s) =
    IsLimited e s
    × ((w.store.alarm ≡ some e) ⊎ (e ≤ w.now))
    × ((used w ≤ s.request_count) ⊎ (e ≤ w.now))
    × Unreserved s.state w.reserved

pub record Inv (e : ℕ) (w : World) : Type 0 where
  pub tasks : All (IsReserved e) w.reserved
  pub budget : used w ≤ 64
  pub stored : IsStored e w w.store.session

module _ (env : Env) where
  -- What a reservation has checked.
  pub record IsReservable (bearer : Text) (now : ℕ) (store : Store) (s : Session) : Type 0 where
    pub current : store.session ≡ some s
    pub usable : is_usable s ≡ true
    pub live : now < s.expires_at
    pub known : digest_equal (env.digest bearer) s.guest_digest ≡ true
    pub room : s.request_count < s.max_requests

  pub reservable-eq :
      (bearer : Text) (now : ℕ) (store : Store) (s : Session)
      → reservable env bearer now store ≡ go s
      → IsReservable bearer now store s
  unfolding reservable
  reservable-eq bearer now store s e = by_session store.session refl e
    where
      by_session :
          (o : Option Session)
          → store.session ≡ o
          → ◌≡◌ {A = Flow Session}
              (present o "capability_not_found" 404 >>= λ current.
                require (is_usable current) "capability_revoked" 403
                >> (require (ltb now current.expires_at) "capability_expired" 403
                    >> (require
                          (digest_equal (env.digest bearer) current.guest_digest)
                          "unauthorized"
                          401
                        >> (require
                              (ltb current.request_count current.max_requests)
                              "request_budget_exhausted"
                              429
                            >> go current))))
              (go s)
          → IsReservable bearer now store s
      by_session none q h = cc
      by_session (some c) q h =
          let (_, p1, h1) = go_of_bind (require (is_usable c) "capability_revoked" 403) _ h in
          let (_, p2, h2) =
            go_of_bind (require (ltb now c.expires_at) "capability_expired" 403) _ h1 in
          let (_, p3, h3) =
            go_of_bind
              (require (digest_equal (env.digest bearer) c.guest_digest) "unauthorized" 401) _ h2 in
          let (_, p4, h4) =
            go_of_bind (require (ltb c.request_count c.max_requests) "request_budget_exhausted" 429)
              _ h3 in
          subst (IsReservable bearer now store) (go-inj c s h4) (record {
            current = q;
            usable = of_require _ "capability_revoked" 403 p1;
            live = lt_of_test _ _ (of_require _ "capability_expired" 403 p2);
            known = of_require _ "unauthorized" 401 p3;
            room = lt_of_test _ _ (of_require _ "request_budget_exhausted" 429 p4);
          })

ready_of_usable : (s : Session) → is_usable s ≡ true → s.state ≡ ready
unfolding is_usable
ready_of_usable s h = by_state s.state refl (ground arith)
  where
    by_state : (st : SessionState) → s.state ≡ st → is_ready s.state ≡ true → s.state ≡ ready
    by_state ready e r = e
    by_state pending e r = let c : is_ready s.state ≡ false = rw e refl in cc

module _ (env : Env) (e : ℕ) where
  pub on_check-Inv :
      (kind : Kind) (request : Request) (w : World) → Inv e w → Inv e (on_check env kind request w)
  unfolding on_check
  on_check-Inv kind request w v = by_flow (check_request env kind request w.now w.store)
    where
      by_flow : (o : Flow Parsed) → Inv e (add_checked o w)
      by_flow (stop answer) = v
      by_flow (go parsed) = record {
        tasks = v.tasks;
        budget = v.budget;
        stored = kept w.store.session v.stored;
      }
        where
          kept :
              (o : Option Session)
              → IsStored e w o
              → IsStored e (record w { checked = w.checked ++ parsed ∷ [] }) o
          kept none h = h
          kept (some s) h = h

  -- A session that still lives has a count of all requests, and its alarm is set.
  pub live_session :
      (s : Session) (w : World)
      → Inv e w
      → w.store.session ≡ some s
      → w.now < s.expires_at
      → IsLimited e s
        × (w.store.alarm ≡ some e)
        × (used w ≤ s.request_count)
        × Unreserved s.state w.reserved
  live_session s w v c live =
      let (limited, alarm, counted, unreserved) = subst (IsStored e w) c v.stored in
      let alive : w.now < e = rw (← limited.ends) live in
      (
        limited,
        elim alarm [ inl h ↦ h | inr h ↦ absurd (omega arith) ],
        elim counted [ inl h ↦ h | inr h ↦ absurd (omega arith) ],
        unreserved,
      )

  pub on_reserve-Inv :
      (parsed : Parsed) (rest : List Parsed) (w : World)
      → Inv e w
      → Inv e (on_reserve env parsed rest w)
  unfolding on_reserve reserve
  on_reserve-Inv parsed rest w v = by_flow (reservable env parsed.bearer w.now w.store) refl
    where
      kept : (o : Option Session) → IsStored e w o → IsStored e (record w { checked = rest }) o
      kept none h = h
      kept (some s) h = h

      by_flow :
          (o : Flow Session)
          → reservable env parsed.bearer w.now w.store ≡ o
          → let r : Store × Flow Session = elim o [
            | stop answer ↦ (w.store, stop answer)
            | go current ↦ (
              record w.store { session = some (count_request env current) },
              go (count_request env current),
            )
          ] in
            Inv e (add_reserved r.1 parsed (record w { store = r.0; checked = rest }))
      by_flow (stop answer) q = record {
        tasks = v.tasks;
        budget = v.budget;
        stored = kept w.store.session v.stored;
      }
      by_flow (go s) q =
          let r = reservable-eq env parsed.bearer w.now w.store s q in
          let st = ready_of_usable s r.usable in
          let (limited, alarm, counted, unreserved) = live_session s w v r.current r.live in
          let limited' : IsLimited e (count_request env s) = record {
            ends = limited.ends;
            limit = limited.limit;
            within = omega (arith, r.room, limited.limit);
          } in
          let size = length-append w.reserved ((count_request env s, parsed) ∷ []) in
          record {
            tasks = All-append (IsReserved e) w.reserved _ v.tasks ((limited', st), tt);
            budget = omega (arith, size, counted, r.room, limited.limit);
            stored = (limited', inl alarm, inl (omega (arith, size, counted)), rw st tt);
          }
