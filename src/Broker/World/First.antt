-- ===== src/Broker/World/First.antt =====
-- worker/byok-broker.mjs: the first model request of a capability that `issue` made.
use clawsembly_kernel.Prelude.{
  ℕ, ◌+◌, ◌<◌, ◌≡◌, refl, sym, ap, subst, ◌∙◌, Bool, true, false, Option, none, some, [], ◌∷◌,
  arith, codes, nat_eq, codes_eq, list_beq,
}
use clawsembly_kernel.Js.{Js, str, property, is_true}
use clawsembly_kernel.JsText.{Text}
use clawsembly_kernel.Bridge.Compare.{AreUnits, fixed_length_equal_iff}
use clawsembly_kernel.Broker.{
  Store, Request, Env, Flow, go, require, present, digest_equal, bearer_token, is_post, original,
  upstream_of, validate_completion, ttl_ms, is_truthy, is_api_key, valid_api_key, keep_if,
  valid_model, provider_of, read_bounded_json,
}
use clawsembly_kernel.Broker.Issue.{
  Secrets, IssueInput, issue_input, issue_session, issued_session, issue, is_free,
}
use clawsembly_kernel.Broker.Forward.{
  completion_kind, Parsed, is_usable, has_credential, is_valid_request, upstream_request,
  forward_model_request,
}
use clawsembly_kernel.Broker.World.Keeps.{go_of_bind}
use clawsembly_kernel.Broker.World.Admission.{IsReadable, IsAdmitted}
use clawsembly_kernel.Broker.World.Undisturbed.{forward_model_request-IsAdmitted}

input-inj : {s t : IssueInput} → ◌≡◌ {A = Flow IssueInput} (go s) (go t) → s ≡ t
input-inj h = cc

keep_if-some :
    (test : Bool) (value key : Text) → keep_if test value ≡ some key → (test ≡ true) × (value ≡ key)
keep_if-some true value key h = (refl, cc)
keep_if-some false value key h = cc

valid_api_key-is_api_key :
    (v : Js) (key : Text) → valid_api_key v ≡ some key → is_api_key key ≡ true
unfolding valid_api_key
valid_api_key-is_api_key (str s) key h =
    let (good, same) = keep_if-some (is_api_key (codes s)) (codes s) key h in
    ap is_api_key (sym same) ∙ good
valid_api_key-is_api_key _ key h = cc

is_api_key-is_truthy : (key : Text) → is_api_key key ≡ true → is_truthy (some key) ≡ true
unfolding is_api_key list_beq
is_api_key-is_truthy [] h = ground (arith, h)
is_api_key-is_truthy (k ∷ key) h = refl

issue_input-is_truthy :
    (env : Env) (request : Request) (store : Store) (input : IssueInput)
    → issue_input env request store ≡ go input
    → is_truthy (some input.api_key) ≡ true
unfolding issue_input
issue_input-is_truthy env request store input e =
    let (_, _, h1) = go_of_bind (require (is_post request) "method_not_allowed" 405) _ e in
    let (value, _, h2) = go_of_bind (read_bounded_json env request) _ h1 in
    let (_, _, h3) =
      go_of_bind
        (present (provider_of (property value "provider")) "invalid_capability_request" 400) _ h2 in
    let (key, p, h4) =
      go_of_bind
        (present (valid_api_key (property value "apiKey")) "invalid_capability_request" 400) _ h3 in
    let (_, _, h5) =
      go_of_bind (present (valid_model (property value "model")) "invalid_capability_request" 400) _
        h4 in
    let (_, _, h6) = go_of_bind (require (is_free store) "capability_already_issued" 409) _ h5 in
    let same : key ≡ input.api_key = ap (λ i. i.api_key) (input-inj h6) in
    let valid = by_key (valid_api_key (property value "apiKey")) key p in
    is_api_key-is_truthy input.api_key (
      subst (λ k. is_api_key k ≡ true) same
        (valid_api_key-is_api_key (property value "apiKey") key valid))
  where
    by_key :
        (o : Option Text) (key : Text)
        → present o "invalid_capability_request" 400 ≡ go key
        → o ≡ some key
    by_key none key h = cc
    by_key (some k) key h = cc

digest_equal_self : (t : Text) → AreUnits t → digest_equal t (some t) ≡ true
unfolding digest_equal
digest_equal_self t units = (fixed_length_equal_iff t t units units).1 refl

-- After an API key was issued, a completion request with the guest's secret and for the chosen
-- model, until the capability expires, goes once to the chosen provider, with the key that was
-- given and its own body, if digests consist of 16-bit code units.
pub forward_model_request-issue :
    (env : Env) (request model_request : Request) (secrets : Secrets) (now at answered : ℕ)
    (store : Store) (input : IssueInput) (value : Js)
    → issue_input env request store ≡ go input
    → AreUnits (env.digest secrets.guest)
    → is_post model_request ≡ true
    → bearer_token model_request ≡ secrets.guest
    → IsReadable env model_request value
    → validate_completion value input.model ≡ true
    → at < now + ttl_ms
    → (forward_model_request env completion_kind model_request at answered
        (issue env request secrets now store).0).2
      ≡ record {
        url = upstream_of input.provider;
        credential = some input.api_key;
        account_id = none;
        accepts_stream = is_true (property value "stream");
        body = original model_request.body;
      }
        ∷ []
unfolding issue issue_session issued_session upstream_request is_usable has_credential
    is_valid_request
forward_model_request-issue env request model_request secrets now at answered store input value e
      units post bearer readable valid live =
    let s = issued_session env secrets now input in
    let parsed : Parsed = record {
      value = value;
      bytes = model_request.body;
      bearer = bearer_token model_request;
    } in
    let issued : Store = record { session = some s; alarm = some (now + ttl_ms) } in
    let key = issue_input-is_truthy env request store input e in
    let admitted : IsAdmitted env completion_kind model_request at issued parsed s = record {
      post = post;
      current = refl;
      usable = rw key refl;
      served = refl;
      live = live;
      known = rw bearer (digest_equal_self (env.digest secrets.guest) units);
      room = omega arith;
      readable = readable;
      valid = valid;
      bytes = refl;
      bearer = refl;
    } in
    rw e (
      rw
        (forward_model_request-IsAdmitted env completion_kind model_request at answered issued
          parsed s admitted refl)
        refl)
