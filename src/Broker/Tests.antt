-- ===== src/Broker/Tests.antt =====
-- Tests of the broker's model: an issued key, its first request, a revocation.
use clawsembly_kernel.Prelude.{
  ◌+◌, ◌%◌, ◌≤◌, ◌≡◌, ◌≢◌, ◌↔◌, refl, sym, ap, subst, ◌∙◌, Option, String, true, false, none, some,
  [], ◌∷◌, ◌++◌, arith, all, any, length, codes, list_beq, ◌==◌, if◌then◌else◌, nat_eq, codes_eq,
  string_eq,
}
use clawsembly_kernel.Js.{
  Js, null, bool, num, str, arr, obj, Fields, end, field, nil, cons, property, field_of, is_true,
}
use clawsembly_kernel.JsText.{Text, is_digit, is_lower, is_upper, split}
use clawsembly_kernel.Bridge.{fixed_length_equal, difference, bit_xor, bit_or}
use clawsembly_kernel.Broker.{
  Session, Store, Request, Env, UpstreamRequest, original, openai_oauth, go, is_post, bearer_token,
  after_prefix, digest_equal, read_bounded_json, has_prefix_lower, to_lower, validate_completion,
  is_nonempty_array, openai_provider, is_api_key, is_control, is_model, is_model_char,
  is_alphanumeric, valid_api_key, valid_model, provider_of,
}
use clawsembly_kernel.Broker.Issue.{
  Secrets, IssueInput, issue_session, issued_session, issue, issue_input, is_ok,
}
use clawsembly_kernel.Broker.Forward.{
  completion_kind, Parsed, is_usable, has_credential, is_valid_request, check_request, reservable,
  reserve, needs_refresh, refresh_open_ai_credential, activate, finish_request, upstream_request,
  forward_model_request, revoked_session, revocable, revoke, count_request, refreshed_session,
  has_new_tokens, with_new_tokens, on_alarm,
}
use clawsembly_kernel.Broker.World.{
  World, on_check, on_reserve, on_finish, opened, on_revoke, checks, reserves, finishes, issued,
  later, Steps, here, then_step,
}
use clawsembly_kernel.Broker.World.Limit.{length-sent-le}
use clawsembly_kernel.Broker.World.Admission.{IsReadable}
use clawsembly_kernel.Broker.World.Entitled.{IsEntitled, check_request_iff}
use clawsembly_kernel.Broker.World.First.{forward_model_request-issue}
use clawsembly_kernel.Broker.World.Expired.{finish_request-on_alarm}
use clawsembly_kernel.Broker.Forward.Bounds.{IsBounded, total-bounded_chunks-le}
use clawsembly_kernel.Broker.Forward.Response.{bounded_chunks}
use clawsembly_kernel.Broker.Forward.Sanitize.{sanitize_codex_responses}
use clawsembly_kernel.Broker.Forward.Refused.{IsSanitized, sanitize_codex_responses-keys}
use clawsembly_kernel.Broker.Identity.{
  trimmed, resolve_open_ai_identity, decode_jwt_payload, token_expiry, positive_milliseconds, max,
}
use clawsembly_kernel.AgentTurn.{trim, trim_start, is_space}
use clawsembly_kernel.Bridge.Compare.{AreUnits}
use clawsembly_kernel.Broker.World.Revocation.{RefusesNone, HasErased, done, next}
use clawsembly_kernel.Broker.World.Revocation.Quiet.{sent-revoke}
use clawsembly_kernel.Broker.World.Refines.{Move, allows, view, Step-Move}

abbrev completion : Js
completion = obj (field "model" (str "m") (field "messages" (arr (cons null nil)) end))

-- A digest that keeps 16-bit code units as they are.
abbrev low : Text → Text
low [] = []
low (c ∷ t) = c % 65536 ∷ low t

low-AreUnits : (t : Text) → AreUnits (low t)
low-AreUnits [] = tt
low-AreUnits (c ∷ t) = (omega arith, low-AreUnits t)

abbrev simple : Env
simple = record {
  oauth = λ r. some (record { status = 400; value = obj end });
  provider_fetch = λ r. some (record { status = 200; headers = []; chunks = codes "ok" ∷ [] });
  digest = low;
  parse_json = λ b. some completion;
  decode_segment = λ t. none;
  milliseconds = λ v. none;
  epoch_ms = λ v. none;
}

abbrev secrets : Secrets
secrets = record { guest = codes "guest"; admin = codes "admin" }

abbrev input : IssueInput
input = record { provider = openai_provider; api_key = codes "sk-12345"; model = codes "m" }

abbrev with_bearer : String → Request
with_bearer token = record {
  method = "POST";
  content_type = some (codes "application/json");
  content_length = none;
  authorization = some (codes token);
  body = codes "{}";
}

abbrev model_request : Request
model_request = with_bearer "Bearer guest"

abbrev parsed : Parsed
parsed = record { value = completion; bytes = codes "{}"; bearer = codes "guest" }

abbrev opened_0 : World
opened_0 = opened simple (issue_session simple secrets 0 input).0 0

abbrev opened_1 : World
opened_1 = on_check simple completion_kind model_request opened_0

checked_once : opened_1.checked ≡ [] ++ parsed ∷ []
unfolding on_check check_request issue_session issued_session is_post is_usable has_credential
    bearer_token after_prefix digest_equal read_bounded_json has_prefix_lower to_lower
    validate_completion is_nonempty_array is_valid_request property field_of list_beq
    fixed_length_equal difference bit_xor bit_or
checked_once = refl

abbrev opened_2 : World
opened_2 = on_reserve simple parsed [] opened_1

abbrev counted : Session
counted = count_request simple (issued_session simple secrets 0 input)

reserved_once : opened_2.reserved ≡ [] ++ (counted, parsed) ∷ []
unfolding on_check check_request issue_session issued_session is_post is_usable has_credential
    bearer_token after_prefix digest_equal read_bounded_json has_prefix_lower to_lower
    validate_completion is_nonempty_array is_valid_request property field_of list_beq
    fixed_length_equal difference bit_xor bit_or on_reserve reserve reservable
reserved_once = refl

abbrev opened_3 : World
opened_3 = on_finish simple 5 (counted, parsed) [] opened_2

abbrev key_request : UpstreamRequest
key_request = record {
  url = "https://api.openai.com/v1/chat/completions";
  credential = some (codes "sk-12345");
  account_id = none;
  accepts_stream = false;
  body = original (codes "{}");
}

sent_once : opened_3.sent ≡ key_request ∷ []
unfolding on_check check_request issue_session issued_session is_post is_usable has_credential
    bearer_token after_prefix digest_equal read_bounded_json has_prefix_lower to_lower
    validate_completion is_nonempty_array is_valid_request property field_of list_beq
    fixed_length_equal difference bit_xor bit_or on_reserve reserve reservable on_finish
    finish_request activate refresh_open_ai_credential needs_refresh upstream_request
sent_once = refl

earlier : opened_2.now ≤ 5
unfolding on_check check_request issue_session issued_session is_post is_usable has_credential
    bearer_token after_prefix digest_equal read_bounded_json has_prefix_lower to_lower
    validate_completion is_nonempty_array is_valid_request property field_of list_beq
    fixed_length_equal difference bit_xor bit_or on_reserve reserve reservable
earlier = omega arith

length-sent-le_example : length opened_3.reserved + length opened_3.sent ≤ 64
length-sent-le_example = length-sent-le simple opened_3 (
    later
      (later (later (issued secrets 0 input) (checks completion_kind model_request))
        (reserves [] parsed [] checked_once))
      (finishes 5 [] (counted, parsed) [] earlier reserved_once))

abbrev run : Steps simple opened_0 opened_3
run =
    then_step
      (then_step (then_step here (checks completion_kind model_request))
        (reserves [] parsed [] checked_once))
      (finishes 5 [] (counted, parsed) [] earlier reserved_once)

run_2 : Steps simple opened_0 opened_1
run_2 = then_step here (checks completion_kind model_request)

Step-Move_example :
    (view opened_0.store.session ≡ allows 64)
    × Move (view opened_1.store.session) (view opened_2.store.session)
Step-Move_example =
    Step-Move simple secrets 0 input opened_1 opened_2 run_2 (reserves [] parsed [] checked_once)

abbrev revocation : Request
revocation = with_bearer "Bearer admin"

refuses : RefusesNone simple
refuses response e =
    let same : record { status = 400; value = obj end } ≡ response = cc in ap is_ok (sym same)

abbrev revoked_2 : World
revoked_2 = on_revoke simple revocation opened_2

abbrev revoked_3 : World
revoked_3 = on_finish simple 5 (counted, parsed) [] revoked_2

still_stored : revoked_3.store.session ≢ none
unfolding on_check check_request issue_session issued_session is_post is_usable has_credential
    bearer_token after_prefix digest_equal read_bounded_json has_prefix_lower to_lower
    validate_completion is_nonempty_array is_valid_request property field_of list_beq
    fixed_length_equal difference bit_xor bit_or on_reserve reserve reservable on_finish
    finish_request activate refresh_open_ai_credential needs_refresh upstream_request on_revoke
    revoke revocable revoked_session
still_stored e = cc

earlier_revoked : revoked_2.now ≤ 5
unfolding on_revoke
earlier_revoked = earlier

reserved_before : revoked_2.reserved ≡ [] ++ (counted, parsed) ∷ []
unfolding on_revoke
reserved_before = reserved_once

revocation_posts : is_post revocation ≡ true
unfolding is_post
revocation_posts = refl

stored_counted : opened_2.store.session ≡ some counted
unfolding on_check check_request issue_session issued_session is_post is_usable has_credential
    bearer_token after_prefix digest_equal read_bounded_json has_prefix_lower to_lower
    validate_completion is_nonempty_array is_valid_request property field_of list_beq
    fixed_length_equal difference bit_xor bit_or on_reserve reserve reservable
stored_counted = refl

admin_known : digest_equal (codes "admin") (some counted.admin_digest) ≡ true
unfolding on_check check_request issue_session issued_session is_post is_usable has_credential
    bearer_token after_prefix digest_equal read_bounded_json has_prefix_lower to_lower
    validate_completion is_nonempty_array is_valid_request property field_of list_beq
    fixed_length_equal difference bit_xor bit_or
admin_known = refl

admin_bearer : bearer_token revocation ≡ codes "admin"
unfolding bearer_token after_prefix
admin_bearer = refl

sent-revoke_example : (revoked_3.sent ≡ opened_2.sent) × HasErased revoked_3.store
sent-revoke_example =
    sent-revoke simple revocation opened_2 revoked_3 counted refuses revocation_posts stored_counted
      (rw admin_bearer admin_known)
      (next done (finishes 5 [] (counted, parsed) [] earlier_revoked reserved_before) still_stored)

stored_digest :
    (s : Session) (d : Text)
    → opened_0.store.session ≡ some s
    → s.guest_digest ≡ some d
    → AreUnits d
unfolding issue_session issued_session
stored_digest s d e g =
    let same : ◌≡◌ {A = Option Text} (some (low (codes "guest"))) (some d) =
      ap (λ o. option_digest o) e ∙ g in
    subst AreUnits (text-inj same) (low-AreUnits (codes "guest"))
  where
    option_digest : Option Session → Option Text
    option_digest none = none
    option_digest (some t) = t.guest_digest

    text-inj : {x y : Text} → ◌≡◌ {A = Option Text} (some x) (some y) → x ≡ y
    text-inj h = cc

check_request_iff_example :
    (check_request simple completion_kind model_request 0 opened_0.store ≡ go parsed)
    ↔ ((s : Session) × IsEntitled simple completion_kind model_request 0 opened_0.store parsed s)
check_request_iff_example =
    check_request_iff simple completion_kind model_request 0 opened_0.store parsed low-AreUnits
      stored_digest

issuing_body : Js
issuing_body = obj (
    field "provider" (str "openai") (field "apiKey" (str "sk-12345") (field "model" (str "m") end)))

abbrev issuing : Env
issuing = record simple {
  parse_json = λ b. if b == codes "{}" then some completion else some issuing_body;
}

abbrev issue_request : Request
issue_request = record model_request { authorization = none; body = codes "i" }

abbrev unissued : Store
unissued = record { session = none; alarm = none }

issued_input : issue_input issuing issue_request unissued ≡ go input
unfolding on_check check_request issue_session issued_session is_post is_usable has_credential
    bearer_token after_prefix digest_equal read_bounded_json has_prefix_lower to_lower
    validate_completion is_nonempty_array is_valid_request property field_of list_beq
    fixed_length_equal difference bit_xor bit_or issue_input valid_api_key is_api_key is_control
    valid_model is_model is_model_char is_alphanumeric provider_of any all is_upper is_lower
    is_digit issuing_body
issued_input = refl

units : AreUnits (codes "guest")
units = (omega arith, (omega arith, (omega arith, (omega arith, (omega arith, tt)))))

guest_bearer : bearer_token model_request ≡ codes "guest"
unfolding bearer_token after_prefix
guest_bearer = refl

readable : IsReadable issuing model_request completion
unfolding has_prefix_lower to_lower list_beq
readable = record { is_json = refl; announced = refl; short = omega arith; parses = refl }

valid : validate_completion completion (codes "m") ≡ true
unfolding validate_completion is_nonempty_array property field_of list_beq
valid = refl

posts : is_post model_request ≡ true
unfolding is_post
posts = refl

forward_model_request-issue_example :
    (forward_model_request issuing completion_kind model_request 7 9
      (issue issuing issue_request secrets 3 unissued).0).2
    ≡ record key_request { accepts_stream = is_true (property completion "stream") } ∷ []
forward_model_request-issue_example =
    forward_model_request-issue issuing issue_request model_request secrets 3 7 9 unissued input
      completion issued_input units posts guest_bearer readable valid (omega arith)

-- An account whose token has run out, and a service that renews it.
abbrev renewal : Js
renewal = obj (field "access_token" (str "a2") (field "expires_in" (num 3600) end))

abbrev renewing : Env
renewing = record simple { oauth = λ r. some (record { status = 200; value = renewal }) }

abbrev account : Session
account = record counted {
  auth_type = openai_oauth;
  api_key = none;
  access_token = some (codes "a1");
  refresh_token = some (codes "r1");
  account_id = some (codes "id");
}

abbrev fresh : Session
fresh = record account { access_token = some (codes "a2"); token_expires_at = 1005 }

due : needs_refresh renewing 0 account ≡ true
unfolding needs_refresh issued_session
due = refl

renewed : refreshed_session renewing 5 account ≡ go fresh
unfolding refreshed_session has_new_tokens with_new_tokens property field_of trimmed trim trim_start
    is_space list_beq resolve_open_ai_identity decode_jwt_payload token_expiry positive_milliseconds
    max split issued_session
renewed = refl

finish_request-on_alarm_example :
    (finish_request renewing 0 5 account parsed (on_alarm opened_2.store)).0
    ≡ record { session = some fresh; alarm = none }
finish_request-on_alarm_example =
    finish_request-on_alarm renewing 0 5 account fresh parsed opened_2.store due renewed

total-bounded_chunks-le_example :
    IsBounded 0 (codes "ab" ∷ codes "c" ∷ []) (bounded_chunks 0 (codes "ab" ∷ codes "c" ∷ []))
total-bounded_chunks-le_example = total-bounded_chunks-le (codes "ab" ∷ codes "c" ∷ [])

abbrev with_store : Fields
with_store = field "store" (bool true) (field "model" (str "m") end)

sanitize_codex_responses-keys_example :
    IsSanitized with_store (sanitize_codex_responses (obj with_store))
sanitize_codex_responses-keys_example = sanitize_codex_responses-keys with_store
