-- ===== src/Coordinator.antt =====
-- src/openclaw-shared-worker.ts: the SharedWorker that lets several tabs share one OpenClaw
-- runtime. State, messages and keys; the operations are in the child modules.
pub mod Tracked
pub mod Invariant
pub mod Owner
pub mod Route
pub mod Handle
mod Tests
use clawsembly_kernel.Prelude.{
  ℕ, String, Bool, true, false, ◌&&◌, ◌≡◌, ◌↔◌, refl, Option, none, some, List, [], ◌∷◌, arith, Eq,
  ◌==◌, string_eq, nat_eq,
}
use clawsembly_kernel.Js.{Js, undefined}

-- A `MessagePort`, by its identity.
abbrev pub Port : Type 0
Port = ℕ

-- `message.type`: the literals that the worker compares with; `other` is any other value.
pub data MessageType : Type 0 where
  onboarding_runtime_start byok_runtime_start : MessageType
  wizard_rpc_request wizard_capability_attach wizard_capability_configure : MessageType
  wizard_rpc_response wizard_capability_response wizard_capability_config_response : MessageType
  wizard_gateway_ready byok_runtime_status shared_runtime_result : MessageType
  other : Js → MessageType

pub data Method : Type 0 where
  wizard_start wizard_next wizard_status wizard_cancel : Method
  other : String → Method

-- An object message. `method` and `request_id` are `none` where the value is not a string, `ok` is
-- `message.ok === true`, and `rest` holds the fields that the worker only passes on.
pub record RuntimeMessage : Type 0 where
  pub type : MessageType
  pub method : Option Method
  pub ok : Bool
  pub params : Js
  pub request_id : Option String
  pub result : Js
  pub boot_mode : Js
  pub owner_boot_mode : Js
  pub rest : Js

-- What the worker posts to a port.
pub data Outgoing : Type 0 where
  waiting_status restoring_status : Outgoing
  owner_notice follower_notice owner_start : Outgoing
  owner_input : RuntimeMessage → Outgoing
  relay : RuntimeMessage → Outgoing

-- What a port's message handler receives, by the first three tests on `message.type`.
pub data PortMessage : Type 0 where
  disconnects : PortMessage
  owner_output : RuntimeMessage → PortMessage
  plain : RuntimeMessage → PortMessage

-- `JSON.stringify([sessionId, stepId, value])`, which is injective, as the three texts.
pub record NextKey : Type 0 where
  pub session_id : String
  pub step_id : String
  pub value : String

unfoldable pub key_beq : NextKey → NextKey → Bool
key_beq a b = a.session_id == b.session_id && (a.step_id == b.step_id && a.value == b.value)

pub key_beq_iff : (a b : NextKey) → (key_beq a b ≡ true) ↔ (a ≡ b)
unfolding key_beq
key_beq_iff a b = ground (
  arith,
  string_eq.beq_iff a.session_id b.session_id,
  string_eq.beq_iff a.step_id b.step_id,
  string_eq.beq_iff a.value b.value,
)

instance abbrev pub key_eq : Eq NextKey
key_eq = record { beq = key_beq; beq_iff = key_beq_iff }

pub record Waiter : Type 0 where
  pub port : Port
  pub request_id : String

-- What `JSON.stringify` gives: a text, `undefined`, or an exception.
pub data Stringified : Type 0 where
  text : String → Stringified
  nothing throws : Stringified

-- The platform: whether `postMessage` throws, and `JSON.stringify` of an answer's value.
pub record Host : Type 0 where
  pub post_throws : Port → Outgoing → Bool
  pub stringify : Js → Stringified

-- The module's variables, and the log of what was posted, oldest first.
pub record Coordinator : Type 0 where
  pub ports : List Port
  pub request_owners : List (String × Port)
  pub request_methods : List (String × Method)
  pub request_wizard_next_keys : List (String × NextKey)
  pub wizard_next_in_flight : List NextKey
  pub wizard_next_response_cache : List (NextKey × RuntimeMessage)
  pub wizard_next_waiters : List (NextKey × List Waiter)
  pub wizard_start_waiters : List Waiter
  pub owner : Option Port
  pub ready_message : Option RuntimeMessage
  pub result_message : Option RuntimeMessage
  pub runtime_requested : Bool
  pub wizard_session_id : Option String
  pub wizard_snapshot : Js
  pub wizard_start_in_flight : Bool
  pub status_message : Outgoing
  pub sent : List (Port × Outgoing)

pub initial : Coordinator
initial = record {
  ports = [];
  request_owners = [];
  request_methods = [];
  request_wizard_next_keys = [];
  wizard_next_in_flight = [];
  wizard_next_response_cache = [];
  wizard_next_waiters = [];
  wizard_start_waiters = [];
  owner = none;
  ready_message = none;
  result_message = none;
  runtime_requested = false;
  wizard_session_id = none;
  wizard_snapshot = undefined;
  wizard_start_in_flight = false;
  status_message = waiting_status;
  sent = [];
}
