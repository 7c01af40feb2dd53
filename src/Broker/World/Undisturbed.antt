-- ===== src/Broker/World/Undisturbed.antt =====
-- worker/byok-broker.mjs: a model request that nothing interrupts, and the first one after `issue`.
use clawsembly_kernel.Prelude.{
  ℕ, ◌≡◌, refl, ap, ◌∙◌, true, false, not, ◌&&◌, some, [], ◌∷◌, arith, or_else,
}
use clawsembly_kernel.Broker.{api_key_auth, Session, Store, Request, Env, go, digest_equal}
use clawsembly_kernel.Broker.Forward.{
  Kind, Parsed, is_usable, has_credential, reservable, reserve, count_request, needs_refresh,
  refresh_open_ai_credential, activate, finish_request, upstream_request, answer_upstream,
  forward_model_request,
}
use clawsembly_kernel.Broker.World.Admission.{IsAdmitted, IsAdmitted-check_request, test_of_lt}

module _ (env : Env) where
  reservable_of :
      (kind : Kind) (request : Request) (now : ℕ) (store : Store) (parsed : Parsed) (s : Session)
      → IsAdmitted env kind request now store parsed s
      → reservable env parsed.bearer now store ≡ go s
  unfolding reservable
  reservable_of kind request now store parsed s a =
      let known = ap (λ b. digest_equal (env.digest b) s.guest_digest) a.bearer ∙ a.known in
      rw a.current
        (rw a.usable (rw (test_of_lt _ _ a.live) (rw known (rw (test_of_lt _ _ a.room) refl))))

  no_refresh :
      (now : ℕ) (s : Session) → s.auth_type ≡ api_key_auth → needs_refresh env now s ≡ false
  unfolding needs_refresh
  no_refresh now s auth = rw auth refl

  finish_request-key :
      (now answered : ℕ) (reserved : Session) (parsed : Parsed) (store : Store)
      → store.session ≡ some reserved
      → reserved.auth_type ≡ api_key_auth
      → (not reserved.revoked && has_credential reserved) ≡ true
      → finish_request env now answered reserved parsed store ≡ (
        store,
        answer_upstream env (env.provider_fetch (upstream_request env reserved parsed)),
        upstream_request env reserved parsed ∷ [],
      )
  unfolding finish_request activate refresh_open_ai_credential
  finish_request-key now answered reserved parsed store current auth usable =
      let latest = or_else store.session reserved in
      let same : latest ≡ reserved = ap (λ o. or_else o reserved) current in
      let steady : needs_refresh env now latest ≡ false = rw same (no_refresh now reserved auth) in
      let ready : (not latest.revoked && has_credential latest) ≡ true = rw same usable in
      rw (steady, finish_request) (rw ready (rw same refl))

  reserve-IsAdmitted :
      (kind : Kind) (request : Request) (now : ℕ) (store : Store) (parsed : Parsed) (s : Session)
      → IsAdmitted env kind request now store parsed s
      → reserve env parsed.bearer now store
        ≡ (record store { session = some (count_request env s) }, go (count_request env s))
  unfolding reserve
  reserve-IsAdmitted kind request now store parsed s a =
      rw (reservable_of kind request now store parsed s a, reserve) refl

  counted_credential :
      (s : Session)
      → s.auth_type ≡ api_key_auth
      → has_credential (count_request env s) ≡ has_credential s
  unfolding has_credential
  counted_credential s auth = rw auth refl

  counted_request :
      (s : Session) (parsed : Parsed)
      → s.auth_type ≡ api_key_auth
      → upstream_request env (count_request env s) parsed ≡ upstream_request env s parsed
  unfolding upstream_request
  counted_request s parsed auth = rw auth refl

  -- A request that passes the checks and that nothing interrupts is counted and sent once, with
  -- the key of the session, and the answer is that of the provider.
  pub forward_model_request-IsAdmitted :
      (kind : Kind) (request : Request) (now answered : ℕ) (store : Store) (parsed : Parsed)
      (s : Session)
      → IsAdmitted env kind request now store parsed s
      → s.auth_type ≡ api_key_auth
      → forward_model_request env kind request now answered store ≡ (
        record store { session = some (count_request env s) },
        answer_upstream env (env.provider_fetch (upstream_request env s parsed)),
        upstream_request env s parsed ∷ [],
      )
  unfolding forward_model_request is_usable
  forward_model_request-IsAdmitted kind request now answered store parsed s a auth =
      let usable = a.usable in
      let ready : (not s.revoked && has_credential s) ≡ true = ground (arith, usable) in
      let counted = counted_credential s auth in
      rw (IsAdmitted-check_request env kind request now store parsed s a, forward_model_request)
        (rw (reserve-IsAdmitted kind request now store parsed s a) (
          rw (← counted_request s parsed auth) (
            rw (ap (λ r. r.0) (reserve-IsAdmitted kind request now store parsed s a)) (
              finish_request-key now answered (count_request env s) parsed
                (record store { session = some (count_request env s) }) refl auth
                (rw counted ready)))))
