-- ===== src/Worker/Capability.antt =====
-- worker/index.mjs: the requests that go on to a broker (`issueByokCapability`,
-- `startOpenAiDeviceAuthorization`, `routeByokCapability`).
use clawsembly_kernel.Prelude.{
  ℕ, String, Bool, not, ◌&&◌, Option, none, some, List, [], ◌++◌, if◌then◌else◌, ◌==◌, nat_eq,
  codes_eq, string_eq, leb, codes, or_else,
}
use clawsembly_kernel.JsText.{Text}
use clawsembly_kernel.Broker.{
  Store, Request, Grant, Device, Body, granted, started, Reply, reply, rejected, UpstreamRequest,
  Env,
}
use clawsembly_kernel.Broker.Issue.{Secrets, issue, start_open_ai_device_code}
use clawsembly_kernel.Broker.Poll.{PollTimes, poll_open_ai_device_code}
use clawsembly_kernel.Broker.Forward.{Kind, forward_model_request, revoke}
use clawsembly_kernel.Worker.{
  Incoming, Answer, byok_error, passed, routed_grant, routed_start, thrown, is_same_origin,
  parse_routed_capability, routed,
}

-- The brokers by their ids; one that has not been used has nothing stored.
abbrev pub Objects : Type 0
Objects = Text → Store

unfoldable pub put_store : Text → Store → Objects → Objects
put_store id store objects j = if j == id then store else objects j

-- `namespace` says whether there are brokers, `id_from_string` is `none` where it throws; the rest
-- is what the brokers draw and read.
pub record Platform : Type 0 where
  pub namespace : Bool
  pub new_id : Text
  pub id_from_string : Text → Option Text
  pub broker : Env
  pub secrets : Secrets
  pub times : PollTimes

-- What the worker did: the brokers' stores, what went to the providers, and its answer.
pub record Outcome : Type 0 where
  pub objects : Objects
  pub sent : List UpstreamRequest
  pub answer : Answer

abbrev pub is_ok_status : ℕ → Bool
is_ok_status status = leb 200 status && leb status 299

abbrev pub routed_grant_of : Text → Grant → Grant
routed_grant_of id g = record g {
  token = routed id g.token;
  admin_token = elim g.admin_token [ none ↦ none | some t ↦ some (routed id t) ];
}

abbrev pub base_url : Text → Text
base_url origin = origin ++ codes "/api/byok/v1"

-- A body that is no grant has no `capability` to read.
abbrev pub answer_grant : Text → Text → Body → ℕ → Answer
answer_grant id origin (granted g) status =
    routed_grant status (routed_grant_of id g) (base_url origin)
answer_grant id origin body status = thrown

unfoldable pub answer_issue : Text → Text → Reply → Answer
answer_issue id origin rejected = thrown
answer_issue id origin (reply status body) =
    if is_ok_status status then answer_grant id origin body status else passed (reply status body)

abbrev pub routed_device_of : Text → Device → Device
routed_device_of id d = record d {
  poll_token = routed id d.poll_token;
  admin_token = routed id d.admin_token;
}

abbrev pub answer_device : Text → Text → Body → ℕ → Answer
answer_device id origin (started d) status =
    routed_start status (routed_device_of id d) (origin ++ codes "/api/oauth/openai/device/poll")
answer_device id origin body status = thrown

unfoldable pub answer_start : Text → Text → Reply → Answer
answer_start id origin rejected = thrown
answer_start id origin (reply status body) =
    if is_ok_status status then answer_device id origin body status else passed (reply status body)

-- The answer of a poll: a grant that has a token is routed; any other body has been read by then,
-- and cannot be passed on.
abbrev pub answer_ready : Text → Text → ℕ → Body → Answer
answer_ready id origin status (granted g) =
    if g.token == []
    then thrown
    else routed_grant status (record g { token = routed id g.token }) (base_url origin)
answer_ready id origin status body = thrown

unfoldable pub answer_poll : Text → Text → Reply → Answer
answer_poll id origin rejected = thrown
answer_poll id origin (reply status body) =
    if is_ok_status status && not (status == 202)
    then answer_ready id origin status body
    else passed (reply status body)

abbrev pub answer_other : Reply → Answer
answer_other rejected = thrown
answer_other (reply status body) = passed (reply status body)

-- The paths that `routeByokCapability` is called with.
pub data Routed : Type 0 where
  model : Kind → Routed
  revocation poll : Routed

abbrev pub content_type_of : Incoming → Text
content_type_of request = or_else request.content_type (codes "application/octet-stream")

-- The request to a new broker, with the body that came.
abbrev pub creating_request : Incoming → Request
creating_request request = record {
  method = "POST";
  content_type = some (content_type_of request);
  content_length = none;
  authorization = none;
  body = request.body;
}

abbrev pub model_request : Text → Incoming → Request
model_request secret request = record {
  method = "POST";
  content_type = some (content_type_of request);
  content_length = none;
  authorization = some (codes "Bearer " ++ secret);
  body = request.body;
}

abbrev pub plain_request : Text → Request
plain_request secret = record {
  method = "POST";
  content_type = none;
  content_length = none;
  authorization = some (codes "Bearer " ++ secret);
  body = [];
}

module _ (platform : Platform) where
  abbrev pub refuse : Objects → String → ℕ → Outcome
  refuse objects code status = record {
    objects = objects;
    sent = [];
    answer = byok_error code status;
  }

  abbrev pub now : ℕ
  now = platform.times.now

  -- The guards of the two handlers that make a broker.
  abbrev pub creating : Incoming → Objects → Outcome → Outcome
  creating request objects outcome =
      if not (request.method == "POST")
      then refuse objects "method_not_allowed" 405
      else if not (is_same_origin request)
      then refuse objects "cross_origin_denied" 403
      else if not platform.namespace
      then refuse objects "byok_broker_unavailable" 503
      else outcome

  unfoldable pub issue_byok_capability : Incoming → Objects → Outcome
  issue_byok_capability request objects =
      let id = platform.new_id in
      let result =
        issue platform.broker (creating_request request) platform.secrets now (objects id) in
      creating request objects (record {
        objects = put_store id result.0 objects;
        sent = [];
        answer = answer_issue id request.url_origin result.1;
      })

  unfoldable pub start_open_ai_device_authorization : Incoming → Objects → Outcome
  start_open_ai_device_authorization request objects =
      let id = platform.new_id in
      let result =
        start_open_ai_device_code platform.broker (creating_request request) platform.secrets now
          (objects id) in
      creating request objects (record {
        objects = put_store id result.0 objects;
        sent = [];
        answer = answer_start id request.url_origin result.1;
      })

  abbrev pub model_outcome : Text → Objects → Store × Reply × List UpstreamRequest → Outcome
  model_outcome id objects (store, answer, sent) = record {
    objects = put_store id store objects;
    sent = sent;
    answer = answer_other answer;
  }

  abbrev pub other_outcome : Text → Objects → (Reply → Answer) → Store × Reply → Outcome
  other_outcome id objects answer (store, result) = record {
    objects = put_store id store objects;
    sent = [];
    answer = answer result;
  }

  -- The call of the broker that is named `object`, for a token that named `id`.
  unfoldable pub call_broker : Routed → Text → Text → Text → Incoming → Objects → Outcome
  call_broker (model kind) object id secret request objects = model_outcome object objects (
      forward_model_request platform.broker kind (model_request secret request) now
        platform.times.settled (objects object))
  call_broker revocation object id secret request objects =
      other_outcome object objects answer_other
        (revoke platform.broker (plain_request secret) (objects object))
  call_broker poll object id secret request objects =
      other_outcome object objects (answer_poll id request.url_origin) (
        poll_open_ai_device_code platform.broker (plain_request secret) platform.secrets.guest
          platform.times (objects object))

  abbrev pub to_object : Routed → Text → Text → Incoming → Objects → Option Text → Outcome
  to_object path id secret request objects none = refuse objects "unauthorized" 401
  to_object path id secret request objects (some object) =
      call_broker path object id secret request objects

  abbrev pub to_capability : Routed → Incoming → Objects → Option (Text × Text) → Outcome
  to_capability path request objects none = refuse objects "unauthorized" 401
  to_capability path request objects (some (id, secret)) =
      to_object path id secret request objects (platform.id_from_string id)

  unfoldable pub route_byok_capability : Routed → Incoming → Objects → Outcome
  route_byok_capability path request objects =
      if not (request.method == "POST")
      then refuse objects "method_not_allowed" 405
      else if not platform.namespace
      then refuse objects "byok_broker_unavailable" 503
      else to_capability path request objects (parse_routed_capability request.authorization)
