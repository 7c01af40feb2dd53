-- ===== src/AgentTurn/Tests.antt =====
-- Tests of the validators, at a completed turn.
use clawsembly_kernel.Prelude.{◌≡◌, refl, true, false, ◌↔◌, any, all, filter_by, list_beq}
use clawsembly_kernel.Js.{Js, bool, num, str, arr, nil, cons, obj, end, field, property, field_of}
use clawsembly_kernel.AgentTurn.{
  trim, trim_start, is_space, is_exact_text, is_filled_string, has_ok_envelope, is_good_attempt,
  is_good_trace, is_good_meta, is_exact_payload, is_completed_agent_turn_response,
  is_completed_workspace_tool_turn_response, are_workspace_payloads, is_workspace_denied_write_text,
  is_good_tool_summary, is_tool_name,
}
use clawsembly_kernel.AgentTurn.Workspace.{
  CompletedWorkspaceTurn, is_completed_workspace_tool_turn_response_iff,
}
use clawsembly_kernel.AgentTurn.Meaning.{CompletedAgentTurn, is_completed_agent_turn_response_iff}

abbrev turn_meta : Js
turn_meta = obj (
    field "aborted" (bool false) (
      field "stopReason" (str "stop") (
        field "finalAssistantVisibleText" (str "done") (
          field "finalAssistantRawText" (str " done ") (
            field "executionTrace"
              (obj (
                field "fallbackUsed" (bool false) (
                  field "attempts"
                    (arr (
                      cons
                        (obj (field "result" (str "success") (field "stage" (str "assistant") end)))
                        nil))
                    end)))
              (field "replayInvalid" (bool false) end))))))

abbrev turn : Js
turn = obj (
    field "runId" (str "r") (
      field "status" (str "ok") (
        field "summary" (str "completed") (
          field "result"
            (obj (
              field "payloads" (arr (cons (obj (field "text" (str "done") end)) nil))
                (field "meta" turn_meta end)))
            end))))

turn_accepted : is_completed_agent_turn_response turn "done" ≡ true
unfolding is_completed_agent_turn_response has_ok_envelope is_filled_string is_good_meta
    is_good_trace is_good_attempt is_exact_payload is_exact_text trim trim_start is_space property
    field_of any list_beq
turn_accepted = refl

is_completed_agent_turn_response_iff_example :
    (is_completed_agent_turn_response turn "done" ≡ true) ↔ CompletedAgentTurn turn "done"
is_completed_agent_turn_response_iff_example = is_completed_agent_turn_response_iff turn "done"

-- A turn of the workspace tools: the answer, and the report of a denied write.
abbrev tool_meta : Js
tool_meta = obj (
    field "aborted" (bool false) (
      field "stopReason" (str "stop") (
        field "finalAssistantVisibleText" (str "done") (
          field "finalAssistantRawText" (str "done") (
            field "executionTrace"
              (obj (
                field "fallbackUsed" (bool false) (
                  field "attempts"
                    (arr (
                      cons
                        (obj (field "result" (str "success") (field "stage" (str "assistant") end)))
                        nil))
                    end)))
              (field "replayInvalid" (bool true) (
                field "toolSummary"
                  (obj (
                    field "calls" (num 3) (
                      field "failures" (num 1)
                        (field "tools" (arr (cons (str "write") (cons (str "read") nil))) end))))
                  end)))))))

abbrev tool_turn : Js
tool_turn = obj (
    field "runId" (str "r") (
      field "status" (str "ok") (
        field "summary" (str "completed") (
          field "result"
            (obj (
              field "payloads"
                (arr (
                  cons (obj (field "text" (str " done") end)) (
                    cons
                      (obj (
                        field "text"
                          (str "⚠\u{fe0f} Write: `to /openclaw/.clawsembly-outside.txt` failed")
                          end))
                      nil)))
                (field "meta" tool_meta end)))
            end))))

tool_turn_accepted : is_completed_workspace_tool_turn_response tool_turn "done" ≡ true
unfolding is_completed_workspace_tool_turn_response are_workspace_payloads
    is_workspace_denied_write_text is_good_tool_summary is_tool_name has_ok_envelope
    is_filled_string is_good_meta is_good_trace is_good_attempt is_exact_text trim trim_start
    is_space property field_of any all filter_by list_beq
tool_turn_accepted = refl

is_completed_workspace_tool_turn_response_iff_example :
    (is_completed_workspace_tool_turn_response tool_turn "done" ≡ true)
    ↔ CompletedWorkspaceTurn tool_turn "done"
is_completed_workspace_tool_turn_response_iff_example =
    is_completed_workspace_tool_turn_response_iff tool_turn "done"
