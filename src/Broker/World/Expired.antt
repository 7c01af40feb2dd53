-- ===== src/Broker/World/Expired.antt =====
-- worker/byok-broker.mjs: a request that was reserved before the alarm and is sent after it.
use clawsembly_kernel.Prelude.{◌≡◌, ℕ, refl, true, none, some}
use clawsembly_kernel.Broker.{Session, Store, Env, go}
use clawsembly_kernel.Broker.Forward.{
  Parsed, needs_refresh, refreshed_session, refresh_open_ai_credential, activate, finish_request,
  on_alarm,
}

-- A request that reserved its place before the alarm, and whose token is to be renewed, puts a
-- session with the new credential back into the storage, with no alarm that would delete it.
pub finish_request-on_alarm :
    (env : Env) (now answered : ℕ) (reserved fresh : Session) (parsed : Parsed) (store : Store)
    → needs_refresh env now reserved ≡ true
    → refreshed_session env answered reserved ≡ go fresh
    → (finish_request env now answered reserved parsed (on_alarm store)).0
      ≡ record { session = some fresh; alarm = none }
unfolding finish_request activate refresh_open_ai_credential on_alarm
finish_request-on_alarm env now answered reserved fresh parsed store due renewed =
    rw due (rw renewed refl)
