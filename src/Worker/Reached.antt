-- ===== src/Worker/Reached.antt =====
-- worker/index.mjs: the paths of a broker that `routeByokCapability` calls.
use clawsembly_kernel.Prelude.{◌≡◌, refl, list_beq, codes}
use clawsembly_kernel.JsText.{Text}
use clawsembly_kernel.Broker.Fetch.{fetch}
use clawsembly_kernel.Broker.Forward.{completion_kind, responses_kind}
use clawsembly_kernel.Worker.{Incoming}
use clawsembly_kernel.Worker.Capability.{
  Objects, Platform, put_store, Routed, model, revocation, poll, model_request, plain_request,
  call_broker,
}
use clawsembly_kernel.Broker.{Request}

abbrev path_of : Routed → Text
path_of (model completion_kind) = codes "/v1/chat/completions"
path_of (model responses_kind) = codes "/v1/responses"
path_of revocation = codes "/revoke"
path_of poll = codes "/oauth/openai/device/poll"

abbrev request_of : Routed → Text → Incoming → Request
request_of (model kind) secret request = model_request secret request
request_of revocation secret request = plain_request secret
request_of poll secret request = plain_request secret

-- What a call does to the store and sends is what the broker's `fetch` does at its path.
call_broker-fetch :
    (platform : Platform) (path : Routed) (object id secret : Text) (request : Incoming)
    (objects : Objects)
    → let r =
        fetch platform.broker platform.secrets platform.times
          (path_of path)
          (request_of path secret request)
          (objects object) in
      let outcome = call_broker platform path object id secret request objects in
      (outcome.objects ≡ put_store object r.0 objects) × (outcome.sent ≡ r.2)
unfolding call_broker fetch list_beq
call_broker-fetch platform (model completion_kind) object id secret request objects = (refl, refl)
call_broker-fetch platform (model responses_kind) object id secret request objects = (refl, refl)
call_broker-fetch platform revocation object id secret request objects = (refl, refl)
call_broker-fetch platform poll object id secret request objects = (refl, refl)
