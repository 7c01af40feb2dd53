-- ===== src/AgentTurn/Workspace.antt =====
-- src/openclaw-agent-turn-response.ts: what an accepted workspace tool turn says.
use clawsembly_kernel.Prelude.{
  ◌≡◌, ◌≢◌, refl, String, Bool, true, false, ◌&&◌, ◌⊎◌, inl, inr, Bool-cases, ◌↔◌, List, [], ◌∷◌,
  arith, any, all, string_eq, nat_eq, length, ◌==◌,
}
use clawsembly_kernel.Js.{Js, bool, num, str, property, is_record, is_array, items, is_text}
use clawsembly_kernel.Js.Laws.{is_text_iff, is_num_iff, is_true_iff}
use clawsembly_kernel.AgentTurn.{
  is_tool_name, is_good_tool_summary, is_completed_workspace_tool_turn_response,
}
use clawsembly_kernel.AgentTurn.Payloads.{ArePair, are_workspace_payloads_iff}
use clawsembly_kernel.AgentTurn.Meaning.{Envelope, has_ok_envelope_iff, GoodMeta, is_good_meta_iff}

-- Two tools, one of them "read" and the other "write".
abbrev pub AreReadAndWrite : List Js → Type 0
AreReadAndWrite tools =
    (tools ≡ str "read" ∷ str "write" ∷ []) ⊎ (tools ≡ str "write" ∷ str "read" ∷ [])

abbrev tools_test : List Js → Bool
tools_test tools =
    length tools == 2
    && (all is_tool_name tools && (any (is_text "read") tools && any (is_text "write") tools))

not_both : (v : Js) → is_text "read" v ≡ true → is_text "write" v ≡ false
not_both v r = elim (Bool-cases (is_text "write" v)) [
  | inl w ↦
      let a : v ≡ str "read" = (is_text_iff "read" v).0 r in
      let b : v ≡ str "write" = (is_text_iff "write" v).0 w in cc
  | inr n ↦ n
]

tools_test_iff : (tools : List Js) → (tools_test tools ≡ true) ↔ AreReadAndWrite tools
unfolding is_tool_name all any
tools_test_iff [] = ((λ e. cc), λ e. elim e [ inl f ↦ cc | inr f ↦ cc ])
tools_test_iff (a ∷ []) = ((λ e. cc), λ e. elim e [ inl f ↦ cc | inr f ↦ cc ])
tools_test_iff (a ∷ b ∷ []) = (
  (λ e. elim (Bool-cases (is_text "read" a)) [
    | inl r ↦
        let first : a ≡ str "read" = (is_text_iff "read" a).0 r in
        let second : b ≡ str "write" = (is_text_iff "write" b).0 (ground (arith, not_both a)) in
        inl (cc)
    | inr n ↦
        let first : a ≡ str "write" = (is_text_iff "write" a).0 (ground arith) in
        let second : b ≡ str "read" = (is_text_iff "read" b).0 (ground arith) in inr (cc)
  ]),
  λ e. elim e [
    | inl f ↦
        let first : a ≡ str "read" = cc in
        let second : b ≡ str "write" = cc in rw (first, second) refl
    | inr f ↦
        let first : a ≡ str "write" = cc in
        let second : b ≡ str "read" = cc in rw (first, second) refl
  ],
)
tools_test_iff (a ∷ b ∷ c ∷ tools) =
    ((λ e. ground (arith, e)), λ e. elim e [ inl f ↦ cc | inr f ↦ cc ])

pub record CompletedWorkspaceTurn (value : Js) (expected : String) : Type 0 where
  pub filled : expected ≢ ""
  pub envelope : Envelope value
  pub payloads : is_array (property (property value "result") "payloads") ≡ true
  pub pair : ArePair expected (items (property (property value "result") "payloads"))
  pub meta : GoodMeta expected (property (property value "result") "meta")
  pub replay : property (property (property value "result") "meta") "replayInvalid" ≡ bool true
  pub summary :
      is_record (property (property (property value "result") "meta") "toolSummary") ≡ true
  pub calls :
      property (property (property (property value "result") "meta") "toolSummary") "calls" ≡ num 3
  pub failures :
      property (property (property (property value "result") "meta") "toolSummary") "failures"
      ≡ num 1
  pub listed :
      is_array
        (property (property (property (property value "result") "meta") "toolSummary") "tools")
      ≡ true
  pub tools : AreReadAndWrite (
      items (property (property (property (property value "result") "meta") "toolSummary") "tools"))

-- The validator of the workspace tool turn accepts exactly the turns with the envelope of a
-- completed run, two payloads of which exactly one says what is expected and exactly one that a
-- write was denied in one of its two forms, the meta data of a completed assistant turn, an
-- invalid replay, three calls with one failure, and two tools, one "read" and the other "write".
pub is_completed_workspace_tool_turn_response_iff :
    (value : Js) (expected : String)
    → (is_completed_workspace_tool_turn_response value expected ≡ true)
      ↔ CompletedWorkspaceTurn value expected
unfolding is_completed_workspace_tool_turn_response is_good_tool_summary
is_completed_workspace_tool_turn_response_iff value expected =
    let meta = property (property value "result") "meta" in
    let summary = property meta "toolSummary" in
    ground (
      arith,
      string_eq.beq_iff expected "",
      has_ok_envelope_iff value,
      are_workspace_payloads_iff expected (property (property value "result") "payloads"),
      is_good_meta_iff expected meta,
      is_true_iff (property meta "replayInvalid"),
      is_num_iff 3 (property summary "calls"),
      is_num_iff 1 (property summary "failures"),
      tools_test_iff (items (property summary "tools")),
    )
