-- ===== src/AgentTurn/Meaning.antt =====
-- src/openclaw-agent-turn-response.ts: what an accepted response says, field by field.
use clawsembly_kernel.Prelude.{
  ◌≡◌, ◌≢◌, String, Bool, true, false, ◌⊎◌, ◌↔◌, List, [], ◌∷◌, arith, any, string_eq, nat_eq,
  codes_eq, codes,
}
use clawsembly_kernel.Js.{
  Js, undefined, null, bool, num, other_num, str, arr_with, obj, property, is_record, is_array,
  items,
}
use clawsembly_kernel.Js.Laws.{is_text_iff, is_true_iff, is_false_iff}
use clawsembly_kernel.AgentTurn.{
  trim, is_exact_text, is_filled_string, has_ok_envelope, is_good_attempt, is_good_trace,
  is_good_meta, is_exact_payload, is_completed_agent_turn_response,
  is_completed_workspace_tool_turn_response,
}

-- Some element of the list has the property.
abbrev pub Some : (Js → Type 0) → List Js → Type 0
Some P [] = ⊥
Some P (v ∷ vs) = P v ⊎ Some P vs

pub any_iff :
    (p : Js → Bool) (P : Js → Type 0)
    → ((v : Js) → (p v ≡ true) ↔ P v)
    → (vs : List Js) → (any p vs ≡ true) ↔ Some P vs
unfolding any
any_iff p P h [] = (λ e. cc, λ e. absurd e)
any_iff p P h (v ∷ vs) = ground (arith, h v, any_iff p P h vs)

-- The value is a text that reads `expected` between white space.
abbrev pub Reads : String → Js → Type 0
Reads expected (str s) = trim (codes s) ≡ codes expected
Reads expected _ = ⊥

pub is_exact_text_iff :
    (expected : String) (v : Js) → (is_exact_text expected v ≡ true) ↔ Reads expected v
unfolding is_exact_text
is_exact_text_iff expected (str s) = codes_eq.beq_iff _ _
is_exact_text_iff expected undefined = ((λ e. cc), λ e. absurd e)
is_exact_text_iff expected null = ((λ e. cc), λ e. absurd e)
is_exact_text_iff expected (bool b) = ((λ e. cc), λ e. absurd e)
is_exact_text_iff expected (num n) = ((λ e. cc), λ e. absurd e)
is_exact_text_iff expected (other_num n) = ((λ e. cc), λ e. absurd e)
is_exact_text_iff expected (arr_with vs fs) = ((λ e. cc), λ e. absurd e)
is_exact_text_iff expected (obj fs) = ((λ e. cc), λ e. absurd e)

pub record GoodAttempt (v : Js) : Type 0 where
  pub object : is_record v ≡ true
  pub result : property v "result" ≡ str "success"
  pub stage : property v "stage" ≡ str "assistant"

is_good_attempt_iff : (v : Js) → (is_good_attempt v ≡ true) ↔ GoodAttempt v
unfolding is_good_attempt
is_good_attempt_iff v = ground (
  arith,
  is_text_iff "success" (property v "result"),
  is_text_iff "assistant" (property v "stage"),
)

pub record GoodMeta (expected : String) (meta : Js) : Type 0 where
  pub object : is_record meta ≡ true
  pub aborted : property meta "aborted" ≡ bool false
  pub stop : property meta "stopReason" ≡ str "stop"
  pub visible : Reads expected (property meta "finalAssistantVisibleText")
  pub raw : Reads expected (property meta "finalAssistantRawText")
  pub trace : is_record (property meta "executionTrace") ≡ true
  pub fallback : property (property meta "executionTrace") "fallbackUsed" ≡ bool false
  pub attempts : is_array (property (property meta "executionTrace") "attempts") ≡ true
  pub succeeded : Some GoodAttempt (items (property (property meta "executionTrace") "attempts"))

pub is_good_meta_iff :
    (expected : String) (meta : Js) → (is_good_meta expected meta ≡ true) ↔ GoodMeta expected meta
unfolding is_good_meta is_good_trace
is_good_meta_iff expected meta = ground (
  arith,
  is_false_iff (property meta "aborted"),
  is_text_iff "stop" (property meta "stopReason"),
  is_exact_text_iff expected (property meta "finalAssistantVisibleText"),
  is_exact_text_iff expected (property meta "finalAssistantRawText"),
  is_false_iff (property (property meta "executionTrace") "fallbackUsed"),
  any_iff is_good_attempt GoodAttempt is_good_attempt_iff
      (items (property (property meta "executionTrace") "attempts")),
)

abbrev pub Filled : Js → Type 0
Filled (str s) = s ≢ ""
Filled _ = ⊥

is_filled_string_iff : (v : Js) → (is_filled_string v ≡ true) ↔ Filled v
unfolding is_filled_string
is_filled_string_iff (str s) = ground (arith, string_eq.beq_iff s "")
is_filled_string_iff undefined = ((λ e. cc), λ e. absurd e)
is_filled_string_iff null = ((λ e. cc), λ e. absurd e)
is_filled_string_iff (bool b) = ((λ e. cc), λ e. absurd e)
is_filled_string_iff (num n) = ((λ e. cc), λ e. absurd e)
is_filled_string_iff (other_num n) = ((λ e. cc), λ e. absurd e)
is_filled_string_iff (arr_with vs fs) = ((λ e. cc), λ e. absurd e)
is_filled_string_iff (obj fs) = ((λ e. cc), λ e. absurd e)

pub record Envelope (value : Js) : Type 0 where
  pub object : is_record value ≡ true
  pub run_id : Filled (property value "runId")
  pub status : property value "status" ≡ str "ok"
  pub summary : property value "summary" ≡ str "completed"
  pub result : is_record (property value "result") ≡ true

pub has_ok_envelope_iff : (value : Js) → (has_ok_envelope value ≡ true) ↔ Envelope value
unfolding has_ok_envelope
has_ok_envelope_iff value = ground (
  arith,
  is_filled_string_iff (property value "runId"),
  is_text_iff "ok" (property value "status"),
  is_text_iff "completed" (property value "summary"),
)

abbrev pub ExactPayload : String → Js → Type 0
ExactPayload expected payload =
    (is_record payload ≡ true) × Reads expected (property payload "text")

is_exact_payload_iff :
    (expected : String) (v : Js) → (is_exact_payload expected v ≡ true) ↔ ExactPayload expected v
unfolding is_exact_payload
is_exact_payload_iff expected v = ground (arith, is_exact_text_iff expected (property v "text"))

-- A completed assistant turn.
pub record CompletedAgentTurn (value : Js) (expected : String) : Type 0 where
  pub filled : expected ≢ ""
  pub envelope : Envelope value
  pub payloads : is_array (property (property value "result") "payloads") ≡ true
  pub replied : Some (ExactPayload expected) (items (property (property value "result") "payloads"))
  pub meta : GoodMeta expected (property (property value "result") "meta")
  pub replayable : property (property (property value "result") "meta") "replayInvalid" ≡ bool false

-- The validator of ordinary turns accepts exactly the completed assistant turns: the envelope says
-- "ok" and "completed" with a run id, a payload and both final texts read the expected text between
-- white space, the run was not aborted, stopped by itself, used no fallback and has a successful
-- assistant attempt, and the replay is valid.
pub is_completed_agent_turn_response_iff :
    (value : Js) (expected : String)
    → (is_completed_agent_turn_response value expected ≡ true) ↔ CompletedAgentTurn value expected
unfolding is_completed_agent_turn_response
is_completed_agent_turn_response_iff value expected =
    let payloads = property (property value "result") "payloads" in
    let meta = property (property value "result") "meta" in
    ground (
      arith,
      string_eq.beq_iff expected "",
      has_ok_envelope_iff value,
      any_iff (is_exact_payload expected) (ExactPayload expected) (is_exact_payload_iff expected)
          (items payloads),
      is_good_meta_iff expected meta,
      is_false_iff (property meta "replayInvalid"),
    )

-- No response is accepted both as an ordinary turn and as the workspace tool turn.
never_both :
    (value : Js) (expected : String)
    → is_completed_agent_turn_response value expected ≡ true
    → is_completed_workspace_tool_turn_response value expected ≡ false
unfolding is_completed_agent_turn_response is_completed_workspace_tool_turn_response
never_both value expected e =
    let replay = property (property (property value "result") "meta") "replayInvalid" in
    ground (arith, is_false_iff replay, is_true_iff replay)
