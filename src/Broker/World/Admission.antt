-- ===== src/Broker/World/Admission.antt =====
-- worker/byok-broker.mjs: the checks of `forwardModelRequest` opened one by one.
use clawsembly_kernel.Prelude.{
  ℕ, ◌≤◌, ◌<◌, ◌≡◌, refl, ap, subst, true, Option, none, some, arith, ltb, leb, length, codes,
}
use clawsembly_kernel.Js.{Js}
use clawsembly_kernel.JsText.{Text}
use clawsembly_kernel.Broker.{
  Bytes, Session, Store, Request, Env, Flow, go, require, present, is_post, digest_equal,
  bearer_token, read_bounded_json, has_prefix_lower, or_empty, is_within, max_request_bytes,
}
use clawsembly_kernel.Broker.Forward.{
  Kind, Parsed, serves, is_usable, is_valid_request, check_request,
}
use clawsembly_kernel.Broker.World.Keeps.{go_of_bind, of_require, lt_of_test}

pub test_of_lt : (m n : ℕ) → m < n → ltb m n ≡ true
test_of_lt m n h = ground arith

test_of_le : (m n : ℕ) → m ≤ n → leb m n ≡ true
test_of_le m n h = ground arith

le_of_test : (m n : ℕ) → leb m n ≡ true → m ≤ n
le_of_test m n h = ground arith

session-inj : {s t : Session} → ◌≡◌ {A = Flow Session} (go s) (go t) → s ≡ t
session-inj h = cc

parsed-inj : {s t : Parsed} → ◌≡◌ {A = Flow Parsed} (go s) (go t) → s ≡ t
parsed-inj h = cc

value-inj : {s t : Js} → ◌≡◌ {A = Flow Js} (go s) (go t) → s ≡ t
value-inj h = cc

module _ (env : Env) where
  pub record IsReadable (request : Request) (value : Js) : Type 0 where
    pub is_json : has_prefix_lower (codes "application/json") (or_empty request.content_type) ≡ true
    pub announced : is_within request.content_length ≡ true
    pub short : length request.body ≤ max_request_bytes
    pub parses : env.parse_json request.body ≡ some value

  read_bounded_json-eq :
      (request : Request) (value : Js)
      → read_bounded_json env request ≡ go value
      → IsReadable request value
  unfolding read_bounded_json
  read_bounded_json-eq request value e =
      let (_, p1, h1) =
        go_of_bind
          (require (has_prefix_lower (codes "application/json") (or_empty request.content_type))
            "invalid_request" 400)
          _ e in
      let (_, p2, h2) =
        go_of_bind (require (is_within request.content_length) "body_too_large" 413) _ h1 in
      let (_, p3, h3) =
        go_of_bind (require (leb (length request.body) max_request_bytes) "body_too_large" 413) _
          h2 in
      record {
        is_json = of_require _ "invalid_request" 400 p1;
        announced = of_require _ "body_too_large" 413 p2;
        short = le_of_test _ _ (of_require _ "body_too_large" 413 p3);
        parses = by_parse (env.parse_json request.body) h3;
      }
    where
      by_parse : (o : Option Js) → present o "invalid_request" 400 ≡ go value → o ≡ some value
      by_parse none h = cc
      by_parse (some v) h = ap some (value-inj h)

  read_bounded_json_of :
      (request : Request) (value : Js)
      → IsReadable request value
      → read_bounded_json env request ≡ go value
  unfolding read_bounded_json
  read_bounded_json_of request value r =
      rw r.is_json (rw r.announced (rw (test_of_le _ _ r.short) (rw r.parses refl)))

  -- The tests that a model request has passed.
  pub record IsAdmitted (kind : Kind) (request : Request) (now : ℕ) (store : Store)
      (parsed : Parsed) (s : Session) : Type 0 where
    pub post : is_post request ≡ true
    pub current : store.session ≡ some s
    pub usable : is_usable s ≡ true
    pub served : serves kind s.api_path ≡ true
    pub live : now < s.expires_at
    pub known : digest_equal (env.digest (bearer_token request)) s.guest_digest ≡ true
    pub room : s.request_count < s.max_requests
    pub readable : IsReadable request parsed.value
    pub valid : is_valid_request kind parsed.value s.model ≡ true
    pub bytes : parsed.bytes ≡ request.body
    pub bearer : parsed.bearer ≡ bearer_token request

  pub check_request-IsAdmitted :
      (kind : Kind) (request : Request) (now : ℕ) (store : Store) (parsed : Parsed)
      → check_request env kind request now store ≡ go parsed
      → (s : Session) × IsAdmitted kind request now store parsed s
  unfolding check_request
  check_request-IsAdmitted kind request now store parsed e =
      let (_, p1, h1) = go_of_bind (require (is_post request) "method_not_allowed" 405) _ e in
      let (s, p2, h2) = go_of_bind (present store.session "capability_not_found" 404) _ h1 in
      let (_, p3, h3) = go_of_bind (require (is_usable s) "capability_revoked" 403) _ h2 in
      let (_, p4, h4) =
        go_of_bind (require (serves kind s.api_path) "request_outside_capability" 400) _ h3 in
      let (_, p5, h5) = go_of_bind (require (ltb now s.expires_at) "capability_expired" 403) _ h4 in
      let (_, p6, h6) =
        go_of_bind
          (require (digest_equal (env.digest (bearer_token request)) s.guest_digest) "unauthorized"
            401)
          _ h5 in
      let (_, p7, h7) =
        go_of_bind (require (ltb s.request_count s.max_requests) "request_budget_exhausted" 429) _
          h6 in
      let (value, p8, h8) = go_of_bind (read_bounded_json env request) _ h7 in
      let (_, p9, h9) =
        go_of_bind (require (is_valid_request kind value s.model) "request_outside_capability" 400)
          _ h8 in
      let same = parsed-inj h9 in
      (
        s,
        subst (λ parsed. IsAdmitted kind request now store parsed s) same
            (record {
              post = of_require _ "method_not_allowed" 405 p1;
              current = by_session store.session s p2;
              usable = of_require _ "capability_revoked" 403 p3;
              served = of_require _ "request_outside_capability" 400 p4;
              live = lt_of_test _ _ (of_require _ "capability_expired" 403 p5);
              known = of_require _ "unauthorized" 401 p6;
              room = lt_of_test _ _ (of_require _ "request_budget_exhausted" 429 p7);
              readable = read_bounded_json-eq request value p8;
              valid = of_require _ "request_outside_capability" 400 p9;
              bytes = refl;
              bearer = refl;
            }),
      )
    where
      by_session :
          (o : Option Session) (s : Session)
          → present o "capability_not_found" 404 ≡ go s
          → o ≡ some s
      by_session none s h = cc
      by_session (some t) s h = ap some (session-inj h)

  same_parsed :
      {parsed : Parsed} {bytes : Bytes} {bearer : Text}
      → parsed.bytes ≡ bytes
      → parsed.bearer ≡ bearer
      → ◌≡◌ {A = Flow Parsed}
          (go (record { value = parsed.value; bytes = bytes; bearer = bearer }))
          (go parsed)
  same_parsed {parsed} p q = rw (← p) (rw (← q) refl)

  pub IsAdmitted-check_request :
      (kind : Kind) (request : Request) (now : ℕ) (store : Store) (parsed : Parsed) (s : Session)
      → IsAdmitted kind request now store parsed s
      → check_request env kind request now store ≡ go parsed
  unfolding check_request
  IsAdmitted-check_request kind request now store parsed s a = rw a.post (
      rw a.current (
        rw a.usable (
          rw a.served (
            rw (test_of_lt _ _ a.live) (
              rw a.known (
                rw (test_of_lt _ _ a.room) (
                  rw (read_bounded_json_of request parsed.value a.readable)
                    (rw a.valid (same_parsed a.bytes a.bearer)))))))))
