-- ===== src/Boot/Tests.antt =====
-- Tests of the boot's names.
use clawsembly_kernel.Prelude.{◌≡◌, refl, true, some, all, codes}
use clawsembly_kernel.JsText.{Text, is_hex}
use clawsembly_kernel.Opfs.{is_sha256, is_store_id}
use clawsembly_kernel.Boot.{
  create_open_claw_boot_store_id, is_runtime_epoch, unavailable, read_shared_runtime_epoch,
}
use clawsembly_kernel.Boot.Identity.{
  is_store_id-create_open_claw_boot_store_id, is_runtime_epoch-read_shared_runtime_epoch,
}

abbrev digest : Text
digest = codes "0123456789abcdef0123456789abcdef0123456789abcdef0123456789abcdef"

created :
    create_open_claw_boot_store_id digest digest
    ≡ some (codes "clawsembly-onboard-v1-0123456789ab-0123456789ab")
unfolding create_open_claw_boot_store_id is_sha256 is_hex all
created = refl

is_store_id-create_open_claw_boot_store_id_example :
    is_store_id (codes "clawsembly-onboard-v1-0123456789ab-0123456789ab") ≡ true
is_store_id-create_open_claw_boot_store_id_example =
    is_store_id-create_open_claw_boot_store_id digest digest
      (codes "clawsembly-onboard-v1-0123456789ab-0123456789ab") created

is_runtime_epoch-read_shared_runtime_epoch_example :
    is_runtime_epoch (read_shared_runtime_epoch (some (codes "a b")) unavailable) ≡ true
is_runtime_epoch-read_shared_runtime_epoch_example =
    is_runtime_epoch-read_shared_runtime_epoch (some (codes "a b")) unavailable
