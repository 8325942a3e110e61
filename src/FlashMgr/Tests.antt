-- ===== src/FlashMgr/Tests.antt =====
-- Witnesses of the firmware images.
use nic_ob_fw.Common.{ℕ, zero, ◌≡◌, ◌<◌, refl, false, List, [], ◌∷◌, some, none, arith, get_or, suc}
use nic_ob_fw.Types.{rtos_ok}
use nic_ob_fw.Firmware.{Firmware}
use nic_ob_fw.Sample.{Chip, esp, esp-IsClock, chip, firmware}
use nic_ob_fw.Rtos.{rtos_get_tick_ms, rtos_delay_ms}
use nic_ob_fw.Hal.NicChip.{nic_chip_hal_spi_transfer}
use nic_ob_fw.Flash.{
  spi_flash_cmd_write_enable, spi_flash_cmd_sector_erase, spi_flash_cmd_page_program,
  spi_flash_cmd_wait_ready,
}
use nic_ob_fw.Flash.Nor.{contents}
use nic_ob_fw.Flash.Ops.{flash_ops}
use nic_ob_fw.Flash.Runs.{Runs}
use nic_ob_fw.FlashMgr.{write_image_to_staging}
use nic_ob_fw.FlashMgr.Plan.{image_plan}
use nic_ob_fw.FlashMgr.Staging.{write_image_to_staging-Runs}
use nic_ob_fw.FlashMgr.Stored.{
  OnlyPrograms, write_image_to_staging-Holds, write_image_to_staging_never_erases,
}
use nic_ob_fw.FlashMgr.Image.{Holds}

abbrev image : List ℕ
image = 0xe9 ∷ 3 ∷ []

write_image_to_staging-Runs_example :
    Runs esp (write_image_to_staging esp 4096 (some image) 2) firmware (image_plan 3 4096 image 2)
write_image_to_staging-Runs_example =
    write_image_to_staging-Runs esp 4096 image 2 firmware esp-IsClock (omega arith)

write_image_to_staging_never_erases_example : OnlyPrograms esp 5 image 2 firmware
write_image_to_staging_never_erases_example =
    write_image_to_staging_never_erases esp 5 image 2 firmware esp-IsClock (omega arith)
      (omega arith)

-- The state after the image was written.
abbrev written : Firmware
written = elim (write_image_to_staging esp 4096 (some image) 2 firmware) [
  | none ↦ firmware
  | some (err, after) ↦ after
]

write_returns : write_image_to_staging esp 4096 (some image) 2 firmware ≡ some (rtos_ok, written)
unfolding write_image_to_staging spi_flash_cmd_write_enable spi_flash_cmd_sector_erase
    spi_flash_cmd_page_program spi_flash_cmd_wait_ready nic_chip_hal_spi_transfer rtos_get_tick_ms
    rtos_delay_ms
write_returns = refl

image_bytes : (i : ℕ) → get_or image i 0 < 256
image_bytes zero = omega arith
image_bytes (suc zero) = omega arith
image_bytes (suc (suc i)) = omega arith

-- A chip of zeros.
abbrev zeros : Chip
zeros = record { bytes = λ _. 0; latch = false; busy = false }

write_image_to_staging-Holds_example :
    Holds chip
      (contents chip esp firmware.world zeros)
      (contents chip esp written.world zeros)
      4096
      image
      2
unfolding flash_ops
write_image_to_staging-Holds_example =
    write_image_to_staging-Holds esp chip zeros 4096 image 2 firmware written esp-IsClock
      (omega arith) image_bytes refl (omega arith) refl write_returns
