-- ===== src/Runtime/Once.antt =====
-- src/byok-runtime.ts: histories of events, and the starts of the runtime's probe.
use clawsembly_kernel.Prelude.{
  ℕ, suc, ◌+◌, ◌≤◌, ◌≡◌, refl, String, Bool, true, false, Option, List, [], ◌∷◌, ◌++◌, arith,
  if◌then◌else◌,
}
use clawsembly_kernel.Js.{Js, property}
use clawsembly_kernel.Byok.{Url}
use clawsembly_kernel.Runtime.{
  Effect, to_port, to_parent, to_listener, owner_output, start_probe, start_with_lock, install_host,
  Runtime, send_shared_owner_output, install_shared_owner_host, start_shared_owner, host_set_status,
  host_set_result, host_add_message_listener, show_status, show_result, hear_input, on_port_message,
  stage_if_byok, start_runtime, on_window_message,
}

-- The events of the frame.
pub data Event : Type 0 where
  port_message : Js → Event
  window_message : Bool → Js → Event
  status_set : String → String → Event
  result_set : String → Event
  listener_added : Event

abbrev pub handle : (String → Option Url) → Event → Runtime → Runtime
handle parse_url (port_message message) r = on_port_message message r
handle parse_url (window_message trusted message) r = on_window_message parse_url trusted message r
handle parse_url (status_set value trimmed) r = host_set_status value trimmed r
handle parse_url (result_set value) r = host_set_result value r
handle parse_url listener_added r = host_add_message_listener r

abbrev pub handle_all : (String → Option Url) → List Event → Runtime → Runtime
handle_all parse_url [] r = r
handle_all parse_url (e ∷ events) r = handle_all parse_url events (handle parse_url e r)

-- The number of times that the probe is started.
abbrev pub probes : List Effect → ℕ
probes [] = 0
probes (start_probe ∷ effects) = suc (probes effects)
probes (start_with_lock ∷ effects) = suc (probes effects)
probes (_ ∷ effects) = probes effects

probes-append : (xs ys : List Effect) → probes (xs ++ ys) ≡ probes xs + probes ys
probes-append [] ys = omega arith
probes-append (start_probe ∷ xs) ys = omega (arith, probes-append xs ys)
probes-append (start_with_lock ∷ xs) ys = omega (arith, probes-append xs ys)
probes-append (to_port v ∷ xs) ys = probes-append xs ys
probes-append (to_parent v ∷ xs) ys = probes-append xs ys
probes-append (to_listener v ∷ xs) ys = probes-append xs ys
probes-append (owner_output v ∷ xs) ys = probes-append xs ys
probes-append (install_host ∷ xs) ys = probes-append xs ys

-- With a port the probe has been started if the owner has, without one if the page has asked.
abbrev launched : Bool → Bool → Bool → ℕ
launched true started owner_started = if owner_started then 1 else 0
launched false started owner_started = if started then 1 else 0

abbrev pub IsCounted : Runtime → Type 0
IsCounted r = probes r.effects ≡ launched r.shared_runtime_port r.started r.shared_owner_started

start_shared_owner-IsCounted :
    (r : Runtime) → r.shared_runtime_port ≡ true → IsCounted r → IsCounted (start_shared_owner r)
unfolding start_shared_owner install_shared_owner_host
start_shared_owner-IsCounted r port v = ground (
  arith,
  probes-append r.effects (install_host ∷ []),
  probes-append r.effects (start_probe ∷ []),
  probes-append (r.effects ++ install_host ∷ []) (start_probe ∷ []),
)

-- An effect other than a start leaves the count.
quiet_effect :
    (r : Runtime) (e : Effect)
    → probes (e ∷ []) ≡ 0
    → IsCounted r
    → probes (r.effects ++ e ∷ []) ≡ launched r.shared_runtime_port r.started r.shared_owner_started
quiet_effect r e q v = omega (arith, probes-append r.effects (e ∷ []), q, v)

on_port_message-IsCounted :
    (message : Js) (r : Runtime) → IsCounted r → IsCounted (on_port_message message r)
unfolding on_port_message install_shared_owner_host hear_input show_status show_result
on_port_message-IsCounted message r v = ground (
  arith,
  start_shared_owner-IsCounted r,
  quiet_effect r install_host refl,
  quiet_effect r (to_listener (property message "message")) refl,
  quiet_effect r (to_parent message) refl,
)

start_runtime-IsCounted :
    (parse_url : String → Option Url) (message : Js) (r : Runtime)
    → r.started ≡ false
    → IsCounted r
    → IsCounted (start_runtime parse_url message r)
unfolding start_runtime stage_if_byok
start_runtime-IsCounted parse_url message r fresh v = ground (
  arith,
  probes-append r.effects (to_port message ∷ []),
  probes-append r.effects (start_with_lock ∷ []),
)

on_window_message-IsCounted :
    (parse_url : String → Option Url) (trusted : Bool) (message : Js) (r : Runtime)
    → IsCounted r
    → IsCounted (on_window_message parse_url trusted message r)
unfolding on_window_message
on_window_message-IsCounted parse_url trusted message r v =
    ground
      (arith, start_runtime-IsCounted parse_url message r, quiet_effect r (to_port message) refl)

send_shared_owner_output-IsCounted :
    (message : Js) (r : Runtime) → IsCounted r → IsCounted (send_shared_owner_output message r)
unfolding send_shared_owner_output
send_shared_owner_output-IsCounted message r v =
    ground (arith, quiet_effect r (owner_output message) refl)

handle-IsCounted :
    (parse_url : String → Option Url) (e : Event) (r : Runtime)
    → IsCounted r
    → IsCounted (handle parse_url e r)
handle-IsCounted parse_url (port_message message) r v = on_port_message-IsCounted message r v
handle-IsCounted parse_url (window_message trusted message) r v =
    on_window_message-IsCounted parse_url trusted message r v
handle-IsCounted parse_url (status_set value trimmed) r v =
    unfold host_set_status in
    send_shared_owner_output-IsCounted _ (record r { status_text = value }) v
handle-IsCounted parse_url (result_set value) r v =
    unfold host_set_result in
    send_shared_owner_output-IsCounted _ (record r { result_text = value }) v
handle-IsCounted parse_url listener_added r v = unfold host_add_message_listener in v

handle_all-IsCounted :
    (parse_url : String → Option Url) (events : List Event) (r : Runtime)
    → IsCounted r
    → IsCounted (handle_all parse_url events r)
handle_all-IsCounted parse_url [] r v = v
handle_all-IsCounted parse_url (e ∷ events) r v =
    handle_all-IsCounted parse_url events (handle parse_url e r) (handle-IsCounted parse_url e r v)

launched-le : (port started owner_started : Bool) → launched port started owner_started ≤ 1
launched-le true started owner_started = ground arith
launched-le false started owner_started = ground arith

-- From a state in which nothing was started, whatever messages the page and the shared worker send
-- and whatever the probe reports, the probe that boots OpenClaw is started at most once.
pub starts_once :
    (parse_url : String → Option Url) (events : List Event) (r : Runtime)
    → r.started ≡ false
    → r.shared_owner_started ≡ false
    → r.effects ≡ []
    → probes (handle_all parse_url events r).effects ≤ 1
starts_once parse_url events r s o e =
    let t = handle_all parse_url events r in
    omega (
      arith,
      handle_all-IsCounted parse_url events r (initially r.shared_runtime_port),
      launched-le t.shared_runtime_port t.started t.shared_owner_started,
    )
  where
    initially : (port : Bool) → probes r.effects ≡ launched port r.started r.shared_owner_started
    initially true = rw (e, o) refl
    initially false = rw (e, s) refl
