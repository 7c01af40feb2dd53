-- ===== src/Broker/World/Confined.antt =====
-- worker/byok-broker.mjs: what the capability of an API key lets through to the provider.
pub mod Events
pub mod Sent
use clawsembly_kernel.Prelude.{
  ℕ, ◌+◌, ◌≤◌, ◌<◌, ◌≡◌, refl, sym, ap, subst, ◌∙◌, Bool, true, false, not, ◌&&◌, ◌⊎◌, inl, inr,
  Option, none, some, List, [], ◌∷◌, ◌++◌, arith, All, All-append, All-without, length, or_else,
}
use clawsembly_kernel.JsText.{Text}
use clawsembly_kernel.Byok.{ApiPath, chat_completions}
use clawsembly_kernel.Broker.{
  AuthType, api_key_auth, SessionState, ready, Session, Store, Request, Env, Flow, stop, go, ◌>>=◌,
  ◌>>◌, require, digest_equal, validate_completion, upstream_of, original, UpstreamRequest,
  max_request_bytes, is_truthy, bearer_token,
}
use clawsembly_kernel.Broker.Issue.{Secrets, IssueInput, issued_session, issue_session}
use clawsembly_kernel.Broker.Poll.{PollTimes, is_ready, poll_open_ai_device_code}
use clawsembly_kernel.Broker.Forward.{
  Kind, completion_kind, responses_kind, Parsed, serves, is_valid_request, has_credential,
  check_request, reservable, reserve, count_request, needs_refresh, refresh_open_ai_credential,
  activate, send, finish_request, upstream_request, revoke, revoked_session, on_alarm,
}
use clawsembly_kernel.Broker.World.{
  Task, World, add_checked, add_reserved, on_check, on_reserve, on_finish, on_poll, on_revoke,
  opened, Step, waits, checks, reserves, finishes, polls, revokes, expires, Steps, here, then_step,
}
use clawsembly_kernel.Broker.World.Budget.{IsReservable, reservable-eq}
use clawsembly_kernel.Broker.World.Polled.{
  IsPollable, IsPolled, unchanged, postponed, readied, poll-IsPolled,
}
use clawsembly_kernel.Broker.World.Admission.{IsReadable, IsAdmitted, check_request-IsAdmitted}
use clawsembly_kernel.Broker.World.Keeps.{go_of_bind, of_require, IsRevocation, revoke-IsRevocation}

module _ (env : Env) (guest : Text) (input : IssueInput) where
  -- The session that was issued, or what a revocation leaves of it.
  pub record IsOwn (s : Session) : Type 0 where
    pub auth : s.auth_type ≡ api_key_auth
    pub state : s.state ≡ ready
    pub provider : s.provider ≡ input.provider
    pub model : s.model ≡ input.model
    pub path : s.api_path ≡ chat_completions
    pub key : (s.api_key ≡ some input.api_key) ⊎ (s.api_key ≡ none)
    pub digest : s.guest_digest ≡ some (env.digest guest)

  -- A completion of the model that was chosen, from one whose token has the digest of the secrets.
  pub record IsGranted (parsed : Parsed) : Type 0 where
    pub short : length parsed.bytes ≤ max_request_bytes
    pub parses : env.parse_json parsed.bytes ≡ some parsed.value
    pub valid : validate_completion parsed.value input.model ≡ true
    pub known : digest_equal (env.digest parsed.bearer) (some (env.digest guest)) ≡ true

  -- A request to the provider that was chosen, with the key that was given, and the body unchanged.
  pub record IsConfined (r : UpstreamRequest) : Type 0 where
    pub url : r.url ≡ upstream_of input.provider
    pub credential : r.credential ≡ some input.api_key
    pub account : r.account_id ≡ none
    pub parsed : Parsed
    pub body : r.body ≡ original parsed.bytes
    pub granted : IsGranted parsed

  abbrev pub AllOwn : Option Session → Type 0
  AllOwn none = Unit
  AllOwn (some s) = IsOwn s

  abbrev pub IsTask : Task → Type 0
  IsTask task = IsOwn task.0 × IsGranted task.1

  pub record Inv (w : World) : Type 0 where
    pub stored : AllOwn w.store.session
    pub checked : All IsGranted w.checked
    pub reserved : All IsTask w.reserved
    pub sent : All IsConfined w.sent

  pub passed-IsGranted :
      (kind : Kind) (request : Request) (now : ℕ) (store : Store) (parsed : Parsed) (s : Session)
      → IsOwn s
      → IsAdmitted env kind request now store parsed s
      → IsGranted parsed
  unfolding is_valid_request
  passed-IsGranted kind request now store parsed s own a = record {
    short = rw a.bytes a.readable.short;
    parses = rw a.bytes a.readable.parses;
    valid =
        by_kind kind (subst (λ p. serves kind p ≡ true) own.path a.served)
          (subst (λ m. is_valid_request kind parsed.value m ≡ true) own.model a.valid);
    known =
        rw a.bearer (
          subst (λ d. digest_equal (env.digest (bearer_token request)) d ≡ true) own.digest
            a.known);
  }
    where
      by_kind :
          (kind : Kind)
          → serves kind chat_completions ≡ true
          → is_valid_request kind parsed.value input.model ≡ true
          → validate_completion parsed.value input.model ≡ true
      by_kind completion_kind h k = k
      by_kind responses_kind h k = cc

  has_key : (s : Session) → IsOwn s → has_credential s ≡ true → s.api_key ≡ some input.api_key
  unfolding has_credential
  has_key s own h = elim own.key [ inl k ↦ k | inr k ↦ absurd (keyless k h) ]
    where
      keyless : s.api_key ≡ none → has_credential s ≡ true → ⊥
      keyless k h = let e : has_credential s ≡ false = rw own.auth (rw k refl) in cc

  sent-IsConfined :
      (s : Session) (parsed : Parsed)
      → IsOwn s
      → IsGranted parsed
      → has_credential s ≡ true
      → IsConfined (upstream_request env s parsed)
  unfolding upstream_request
  sent-IsConfined s parsed own granted h = record {
    url = rw own.auth (ap upstream_of own.provider);
    credential = rw own.auth (has_key s own h);
    account = rw own.auth refl;
    parsed = parsed;
    body = rw own.auth refl;
    granted = granted;
  }

  latest-IsOwn :
      (o : Option Session) (reserved : Session)
      → AllOwn o
      → IsOwn reserved
      → IsOwn (or_else o reserved)
  latest-IsOwn none reserved h own = own
  latest-IsOwn (some s) reserved h own = h

  pub finish-IsConfined :
      (now answered : ℕ) (task : Task) (store : Store)
      → IsTask task
      → AllOwn store.session
      → let r = finish_request env now answered task.0 task.1 store in
        (r.0 ≡ store) × All IsConfined r.2
  unfolding finish_request activate refresh_open_ai_credential needs_refresh
  finish-IsConfined now answered task store (own, granted) stored =
      let latest = or_else store.session task.0 in
      let held = latest-IsOwn store.session task.0 stored own in
      let steady : needs_refresh env now latest ≡ false = rw held.auth refl in
      rw steady (refl, by_test latest held (not latest.revoked && has_credential latest) refl)
    where
      by_test :
          (s : Session)
          → IsOwn s
          → (usable : Bool) → (not s.revoked && has_credential s) ≡ usable
          → All IsConfined (send env task.1 (require usable "capability_revoked" 403 >> go s)).1
      by_test s held false h = tt
      by_test s held true h = (sent-IsConfined s task.1 held granted (ground (arith, h)), tt)
