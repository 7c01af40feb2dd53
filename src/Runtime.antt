-- ===== src/Runtime.antt =====
-- src/byok-runtime.ts: the runtime frame, between the page around it, the shared worker and the
-- probe that boots OpenClaw. What a handler does besides changing the variables is logged.
pub mod Start
pub mod Once
mod Tests
use clawsembly_kernel.Prelude.{
  String, Bool, true, false, not, ◌&&◌, ◌||◌, Option, none, some, List, [], ◌∷◌, ◌++◌,
  if◌then◌else◌, ◌==◌, string_eq, codes, or_else,
}
use clawsembly_kernel.Js.{
  Js, undefined, str, obj, end, field, property, is_record, is_text, as_string,
}
use clawsembly_kernel.JsText.{is_request_id}
use clawsembly_kernel.Byok.{Url, is_secure_byok_base_url, Slot, stage_byok_capability_handoff}

-- `typeof value === "string" && value.length > 0`
unfoldable pub is_filled : Js → Bool
is_filled (str s) = not (s == "")
is_filled _ = false

abbrev pub is_secure_text : (String → Bool) → Js → Bool
is_secure_text secure (str s) = secure s
is_secure_text secure _ = false

abbrev pub is_string : Js → Bool
is_string (str s) = true
is_string _ = false

unfoldable pub is_runtime_operation_message : Js → Bool
is_runtime_operation_message value =
    let type = property value "type" in
    is_record value
    && ((elim (property value "requestId") [ str s ↦ is_request_id (codes s) | _ ↦ false ])
        && (is_text "clawsembly:wizard-capability-attach" type
            || (is_text "clawsembly:wizard-capability-configure" type
                || is_text "clawsembly:wizard-rpc-request" type)))

module _ (parse_url : String → Option Url) where
  -- The tests on `message.capability`; what is no object has no `providerId`.
  unfoldable pub is_start_capability : Js → Bool
  is_start_capability capability =
      is_text "clawsembly-byok" (property capability "providerId")
      && (is_filled (property capability "apiKey")
          && ((is_text "/v1/chat/completions" (property capability "apiPath")
                || is_text "/v1/responses" (property capability "apiPath"))
              && (is_secure_text (is_secure_byok_base_url parse_url) (property capability "baseUrl")
                  && (is_string (property capability "expiresAt")
                      && ((is_text "openai-completions" (property capability "modelApi")
                            || is_text "openai-chatgpt-responses" (property capability "modelApi"))
                          && (is_filled (property capability "model")
                              && (is_text "clawsembly-byok" (property capability "openClawProvider")
                                  || is_text "openai"
                                      (property capability "openClawProvider"))))))))

  unfoldable pub is_runtime_start_message : Js → Bool
  is_runtime_start_message value =
      is_record value
      && (is_text "clawsembly:onboarding-runtime-start" (property value "type")
          || (is_text "clawsembly:byok-runtime-start" (property value "type")
              && is_start_capability (property value "capability")))

pub data Effect : Type 0 where
  to_port to_parent to_listener owner_output : Js → Effect
  start_probe start_with_lock install_host : Effect

-- The variables of the module, the slot of the capability, and the two elements of the page, where
-- `has_page` says that they exist.
pub record Runtime : Type 0 where
  pub started : Bool
  pub shared_runtime_port : Bool
  pub shared_runtime_owner : Bool
  pub shared_owner_started : Bool
  pub shared_owner_message_listener : Bool
  pub has_page : Bool
  pub status_state : String
  pub status_text : String
  pub result_text : String
  pub slot : Slot
  pub effects : List Effect

abbrev pub effect : Effect → Runtime → Runtime
effect e r = record r { effects = r.effects ++ e ∷ [] }

unfoldable pub send_shared_owner_output : Js → Runtime → Runtime
send_shared_owner_output message r =
    if r.shared_runtime_port then effect (owner_output message) r else r

unfoldable pub install_shared_owner_host : Runtime → Runtime
install_shared_owner_host r = if r.has_page then effect install_host r else r

unfoldable pub start_shared_owner : Runtime → Runtime
start_shared_owner r =
    if not r.shared_runtime_owner || r.shared_owner_started
    then r
    else effect start_probe (install_shared_owner_host (record r { shared_owner_started = true }))

-- The members of the host that the probe uses; `trimmed` is `value?.trim() ?? ""`.
unfoldable pub host_set_status : String → String → Runtime → Runtime
host_set_status value trimmed r =
    send_shared_owner_output
      (obj (
        field "type" (str "clawsembly:byok-runtime-status")
          (field "state" (str r.status_state) (field "label" (str trimmed) end))))
      (record r { status_text = value })

unfoldable pub host_set_result : String → Runtime → Runtime
host_set_result value r =
    send_shared_owner_output
      (obj (field "type" (str "clawsembly:shared-runtime-result") (field "text" (str value) end)))
      (record r { result_text = value })

unfoldable pub host_add_message_listener : Runtime → Runtime
host_add_message_listener r = record r { shared_owner_message_listener = true }

unfoldable pub show_status : Js → Runtime → Runtime
show_status message r =
    if r.has_page
    then record r {
      status_state = or_else (as_string (property message "state")) "running";
      status_text =
          or_else (as_string (property message "label")) "Shared OpenClaw runtime is starting…";
    }
    else r

unfoldable pub show_result : Js → Runtime → Runtime
show_result message r =
    if r.has_page
    then record r { result_text = or_else (as_string (property message "text")) "" }
    else r

unfoldable pub hear_input : Js → Runtime → Runtime
hear_input message r =
    if r.shared_owner_message_listener
    then effect (to_listener (property message "message")) r
    else r

-- `sharedRuntimePort.onmessage`, which is set where there is a port.
unfoldable pub on_port_message : Js → Runtime → Runtime
on_port_message message r =
    let type = property message "type" in
    if not r.shared_runtime_port
    then r
    else if is_text "clawsembly:shared-runtime-owner" type
    then install_shared_owner_host (record r { shared_runtime_owner = true })
    else if is_text "clawsembly:shared-runtime-follower" type
    then record r { shared_runtime_owner = false }
    else if is_text "clawsembly:shared-runtime-owner-start" type
    then start_shared_owner r
    else if is_text "clawsembly:shared-runtime-owner-input" type
    then hear_input message r
    else if is_text "clawsembly:byok-runtime-status" type
    then effect (to_parent message) (show_status message r)
    else if is_text "clawsembly:shared-runtime-result" type
    then show_result message r
    else effect (to_parent message) r

module _ (parse_url : String → Option Url) where
  unfoldable pub stage_if_byok : Js → Runtime → Runtime
  stage_if_byok message r =
      if is_text "clawsembly:byok-runtime-start" (property message "type")
      then record r { slot = stage_byok_capability_handoff (property message "capability") r.slot }
      else r

  -- The first start message starts the runtime, here or through the shared worker.
  unfoldable pub start_runtime : Js → Runtime → Runtime
  unfolding stage_if_byok
  start_runtime message r =
      if r.shared_runtime_port
      then effect (to_port message) (record r { started = true })
      else effect start_with_lock (stage_if_byok message (record r { started = true }))

  -- The listener of the window's messages; `trusted` is the test on the event's origin and source.
  unfoldable pub on_window_message : Bool → Js → Runtime → Runtime
  on_window_message trusted message r =
      if not trusted
      then r
      else if r.shared_runtime_port && is_runtime_operation_message message
      then effect (to_port message) r
      else if r.started || not (is_runtime_start_message parse_url message)
      then r
      else start_runtime message r
