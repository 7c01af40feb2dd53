-- ===== src/Broker/Fetch.antt =====
-- worker/byok-broker.mjs: `fetch`, the choice of a broker's handler by the path.
use clawsembly_kernel.Prelude.{List, [], if◌then◌else◌, ◌==◌, nat_eq, codes_eq, codes}
use clawsembly_kernel.JsText.{Text}
use clawsembly_kernel.Broker.{Store, Request, Reply, UpstreamRequest, Env, error_response}
use clawsembly_kernel.Broker.Issue.{Secrets, issue, start_open_ai_device_code}
use clawsembly_kernel.Broker.Poll.{PollTimes, poll_open_ai_device_code}
use clawsembly_kernel.Broker.Forward.{
  completion_kind, responses_kind, forward_model_request, revoke,
}

-- A handler that sends nothing to a provider.
abbrev quiet : Store × Reply → Store × Reply × List UpstreamRequest
quiet (store, answer) = (store, answer, [])

-- The secrets and the times are what the handler draws and reads, each request between whose parts
-- nothing else happens.
unfoldable pub fetch :
    Env
    → Secrets
    → PollTimes
    → (pathname : Text) → Request
    → Store
    → Store × Reply × List UpstreamRequest
fetch env secrets times pathname request store =
    if pathname == codes "/issue"
    then quiet (issue env request secrets times.now store)
    else if pathname == codes "/oauth/openai/device/start"
    then quiet (start_open_ai_device_code env request secrets times.now store)
    else if pathname == codes "/oauth/openai/device/poll"
    then quiet (poll_open_ai_device_code env request secrets.guest times store)
    else if pathname == codes "/v1/chat/completions"
    then forward_model_request env completion_kind request times.now times.settled store
    else if pathname == codes "/v1/responses"
    then forward_model_request env responses_kind request times.now times.settled store
    else if pathname == codes "/revoke"
    then quiet (revoke env request store)
    else (store, error_response "not_found" 404, [])
