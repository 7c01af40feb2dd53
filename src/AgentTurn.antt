-- ===== src/AgentTurn.antt =====
-- src/openclaw-agent-turn-response.ts: the validators of an agent turn's JSON response.
pub mod Meaning
pub mod Payloads
pub mod Workspace
mod Tests
use clawsembly_kernel.Prelude.{
  ℕ, String, Bool, true, false, not, ◌&&◌, ◌||◌, Option, none, some, List, [], ◌∷◌, if◌then◌else◌,
  ◌==◌, nat_eq, string_eq, codes_eq, list_beq, leb, length, any, all, filter_by, codes,
}
use mathlib.Core.List.{reverse}
use clawsembly_kernel.Js.{
  Js, str, property, is_record, is_array, items, is_text, is_num, is_true, is_false,
}

-- The white space and line terminators that `trim` removes.
unfoldable pub is_space : ℕ → Bool
is_space c =
    (leb 9 c && leb c 13)
    || (c == 32
        || (c == 0xa0
            || (c == 0x1680
                || ((leb 0x2000 c && leb c 0x200a)
                    || (c == 0x2028
                        || (c == 0x2029
                            || (c == 0x202f || (c == 0x205f || (c == 0x3000 || c == 0xfeff)))))))))

unfoldable pub trim_start : List ℕ → List ℕ
trim_start [] = []
trim_start (c ∷ cs) = let rest = trim_start cs in if is_space c then rest else c ∷ cs

-- `value.trim()`
unfoldable pub trim : List ℕ → List ℕ
trim cs = reverse (trim_start (reverse (trim_start cs)))

unfoldable pub is_exact_text : String → Js → Bool
is_exact_text expected (str s) = trim (codes s) == codes expected
is_exact_text expected _ = false

-- The two members of `workspaceDeniedWriteTexts`: a warning sign (U+26A0, U+FE0F), in the second
-- text a writing hand too (U+270D, U+FE0F), and the report.
abbrev pub plain_denial : List ℕ
plain_denial = 0x26a0 ∷ 0xfe0f ∷ codes " Write: `to /openclaw/.clawsembly-outside.txt` failed"

abbrev pub decorated_denial : List ℕ
decorated_denial =
    0x26a0
    ∷ 0xfe0f
    ∷ 32
    ∷ 0x270d
    ∷ 0xfe0f
    ∷ codes " Write: `to /openclaw/.clawsembly-outside.txt (14 chars)` failed"

unfoldable pub is_workspace_denied_write_text : Js → Bool
is_workspace_denied_write_text (str s) =
    trim (codes s) == plain_denial || trim (codes s) == decorated_denial
is_workspace_denied_write_text _ = false

-- `typeof value === "string" && value.length !== 0`
unfoldable pub is_filled_string : Js → Bool
is_filled_string (str s) = not (s == "")
is_filled_string _ = false

-- The first guard of both validators.
unfoldable pub has_ok_envelope : Js → Bool
has_ok_envelope value =
    is_record value
    && (is_filled_string (property value "runId")
        && (is_text "ok" (property value "status")
            && (is_text "completed" (property value "summary")
                && is_record (property value "result"))))

unfoldable pub is_good_attempt : Js → Bool
is_good_attempt attempt =
    is_record attempt
    && (is_text "success" (property attempt "result")
        && is_text "assistant" (property attempt "stage"))

-- `meta.executionTrace`
unfoldable pub is_good_trace : Js → Bool
is_good_trace trace =
    is_record trace
    && (is_false (property trace "fallbackUsed")
        && (is_array (property trace "attempts")
            && any is_good_attempt (items (property trace "attempts"))))

-- The part of `meta` that both validators ask for.
unfoldable pub is_good_meta : String → Js → Bool
is_good_meta expected meta =
    is_record meta
    && (is_false (property meta "aborted")
        && (is_text "stop" (property meta "stopReason")
            && (is_exact_text expected (property meta "finalAssistantVisibleText")
                && (is_exact_text expected (property meta "finalAssistantRawText")
                    && is_good_trace (property meta "executionTrace")))))

unfoldable pub is_exact_payload : String → Js → Bool
is_exact_payload expected payload =
    is_record payload && is_exact_text expected (property payload "text")

unfoldable pub is_completed_agent_turn_response : Js → String → Bool
is_completed_agent_turn_response value expected =
    let payloads = property (property value "result") "payloads" in
    let meta = property (property value "result") "meta" in
    not (expected == "")
    && (has_ok_envelope value
        && (is_array payloads
            && (any (is_exact_payload expected) (items payloads)
                && (is_good_meta expected meta && is_false (property meta "replayInvalid")))))

unfoldable pub is_tool_name : Js → Bool
is_tool_name tool = is_text "read" tool || is_text "write" tool

-- `meta.toolSummary`
unfoldable pub is_good_tool_summary : Js → Bool
is_good_tool_summary summary =
    let tools = items (property summary "tools") in
    is_record summary
    && (is_num 3 (property summary "calls")
        && (is_num 1 (property summary "failures")
            && (is_array (property summary "tools")
                && (length tools == 2
                    && (all is_tool_name tools
                        && (any (is_text "read") tools && any (is_text "write") tools))))))

unfoldable pub are_workspace_payloads : String → Js → Bool
are_workspace_payloads expected payloads =
    let all_payloads = items payloads in
    is_array payloads
    && (length all_payloads == 2
        && (all is_record all_payloads
            && (length (
                    filter_by (λ payload. is_exact_text expected (property payload "text"))
                      all_payloads)
                  == 1
                && length (
                    filter_by (λ payload. is_workspace_denied_write_text (property payload "text"))
                      all_payloads)
                  == 1)))

unfoldable pub is_completed_workspace_tool_turn_response : Js → String → Bool
is_completed_workspace_tool_turn_response value expected =
    let meta = property (property value "result") "meta" in
    not (expected == "")
    && (has_ok_envelope value
        && (are_workspace_payloads expected (property (property value "result") "payloads")
            && (is_good_meta expected meta
                && (is_true (property meta "replayInvalid")
                    && is_good_tool_summary (property meta "toolSummary")))))
