-- ===== src/Boot.antt =====
-- src/openclaw-boot-cache.ts and src/openclaw-runtime-recovery.ts: the id of the boot snapshot's
-- store, the choice of a warm or a cold boot, and the epoch in the shared runtime's name.
pub mod Identity
mod Tests
use clawsembly_kernel.Prelude.{
  ℕ, String, Bool, true, false, not, ◌&&◌, Option, none, some, List, [], ◌∷◌, ◌++◌, if◌then◌else◌,
  ◌==◌, codes_eq, leb, length, all, take, codes,
}
use clawsembly_kernel.JsText.{Text, is_id_char}
use clawsembly_kernel.Opfs.{is_sha256}

-- `createOpenClawBootStoreId`, which throws on anything but two digests.
unfoldable pub create_open_claw_boot_store_id : (artifact_sha256 image_sha256 : Text) → Option Text
create_open_claw_boot_store_id artifact_sha256 image_sha256 =
    if is_sha256 artifact_sha256 && is_sha256 image_sha256
    then some
        (codes "clawsembly-onboard-v1-" ++ (take 12 artifact_sha256 ++ b'-' ∷ take 12 image_sha256))
    else none

-- What a boot gives: a value, or an error's message.
pub data Booted (A : Type 0) : Type 0 where
  booted : A → Booted A
  failed : String → Booted A

pub data BootMode : Type 0 where
  cold warm : BootMode

pub record BootResolution (A : Type 0) : Type 0 where
  pub fallback_error : Option String
  pub mode : BootMode
  pub value : A

unfoldable pub cold_boot_after : {A : Type 0} → String → Booted A → Booted (BootResolution A)
cold_boot_after message (booted value) =
    booted (record { fallback_error = some message; mode = cold; value = value })
cold_boot_after message (failed e) = failed e

-- With the messages that `onRestoreFailure` was called with.
unfoldable pub restore_or_create_open_claw_boot_state :
    {A : Type 0} (restore cold_boot : Booted A) → Booted (BootResolution A) × List String
restore_or_create_open_claw_boot_state (booted value) cold_boot =
    (booted (record { fallback_error = none; mode = warm; value = value }), [])
restore_or_create_open_claw_boot_state (failed message) cold_boot =
    (cold_boot_after message cold_boot, message ∷ [])

-- `/^[A-Za-z0-9_-]{1,64}$/u`
unfoldable pub is_runtime_epoch : Text → Bool
is_runtime_epoch value = not (value == []) && (leb (length value) 64 && all is_id_char value)

-- Local storage: the items by their keys, or an exception at each use.
pub data Storage : Type 0 where
  items : (Text → Option Text) → Storage
  unavailable : Storage

abbrev pub shared_runtime_epoch_storage_key : Text
shared_runtime_epoch_storage_key = codes "clawsembly-openclaw-runtime-epoch-v1"

abbrev pub initial_epoch : Text
initial_epoch = codes "initial"

-- `localStorage.setItem`
unfoldable pub set_item : Text → Text → (Text → Option Text) → Text → Option Text
set_item key value stored k = if k == key then some value else stored k

abbrev pub accepted_epoch : Option Text → Text
accepted_epoch none = initial_epoch
accepted_epoch (some stored) = if is_runtime_epoch stored then stored else initial_epoch

unfoldable pub stored_epoch : Storage → Text
stored_epoch (items stored) = accepted_epoch (stored shared_runtime_epoch_storage_key)
stored_epoch unavailable = initial_epoch

-- From the `runtimeEpoch` of the page's query and the storage.
unfoldable pub read_shared_runtime_epoch : Option Text → Storage → Text
read_shared_runtime_epoch (some requested) storage =
    if is_runtime_epoch requested then requested else stored_epoch storage
read_shared_runtime_epoch none storage = stored_epoch storage

-- The new epoch, a random UUID, and the storage; setting the item may throw.
unfoldable pub rotate_shared_runtime_epoch : Text → Storage → Text × Storage
rotate_shared_runtime_epoch epoch (items stored) =
    (epoch, items (set_item shared_runtime_epoch_storage_key epoch stored))
rotate_shared_runtime_epoch epoch unavailable = (epoch, unavailable)
