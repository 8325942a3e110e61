-- ===== src/FlashMgr.antt =====
-- components/nic_flash_mgr/src/nic_flash_mgr.c: the thread that writes firmware images.
pub mod Plan
pub mod Staging
pub mod Image
pub mod Stored
pub mod Faults
mod Tests
use nic_ob_fw.Common.{
  ℕ, zero, suc, ◌+◌, ◌-◌, ◌%◌, List, true, false, Option, none, some, ltb, ◌==◌, if◌then◌else◌, u16,
  u32, drop,
}
use nic_ob_fw.Types.{
  RtosErr, rtos_ok, FlashCmd, flash_page_size, flash_sector_size, update_start, update_abort,
  flash_cmd_code,
}
use nic_ob_fw.Platform.{Esp, Item, flash_item}
use nic_ob_fw.Firmware.{
  FlashMgr, fw_idle, fw_receiving, fw_verifying, fw_error, M, pure, fault, ◌>>=◌, ◌>>◌, get, modify,
}
use nic_ob_fw.Rtos.{rtos_queue_receive, rtos_wait_forever}
use nic_ob_fw.Flash.{
  check, spi_flash_cmd_init, spi_flash_cmd_write_enable, spi_flash_cmd_sector_erase,
  spi_flash_cmd_page_program, spi_flash_cmd_wait_ready,
}

abbrev update_flash : (FlashMgr → FlashMgr) → M (Unit {0})
update_flash f = modify λ s. record s { flash_mgr = f s.flash_mgr }

-- `data += chunk`.
abbrev pub advance : Option (List ℕ) → ℕ → Option (List ℕ)
advance none n = none
advance (some bytes) n = some (drop n bytes)

-- The length of the next page write.
abbrev pub chunk_of : ℕ → ℕ
chunk_of remaining = if ltb flash_page_size remaining then flash_page_size else u16 remaining

module _ (esp : Esp) where
  -- The typed wrapper, which the compiler inlines.
  abbrev pub flash_cmd_queue_receive : ℕ → M (RtosErr × Option Item)
  flash_cmd_queue_receive timeout_ms = do
    s ← get
    rtos_queue_receive esp s.flash_mgr.cmd_queue timeout_ms

  -- The erase at a sector boundary.
  unfoldable pub erase_if_boundary : ℕ → M RtosErr
  erase_if_boundary addr =
      if addr % flash_sector_size == 0
      then (do
        enabled ← spi_flash_cmd_write_enable esp
        check enabled (do
          erased ← spi_flash_cmd_sector_erase esp addr
          check erased (spi_flash_cmd_wait_ready esp 3000)))
      else pure rtos_ok

  -- The write of one page.
  unfoldable pub write_page : ℕ → Option (List ℕ) → ℕ → M RtosErr
  write_page addr bytes chunk = do
    enabled ← spi_flash_cmd_write_enable esp
    check enabled (do
      programmed ← spi_flash_cmd_page_program esp addr bytes chunk
      check programmed (spi_flash_cmd_wait_ready esp 100))

  -- The loop; `bytes` is `none` for a null pointer.
  unfoldable pub write_loop : ℕ → ℕ → Option (List ℕ) → ℕ → M RtosErr
  unfolding erase_if_boundary write_page
  write_loop zero addr bytes remaining = fault
  write_loop (suc fuel) addr bytes remaining = elim (ltb 0 remaining) [
    | false ↦ pure rtos_ok
    | true ↦ do
      erased ← erase_if_boundary addr
      check erased (do
        let chunk = chunk_of remaining
        written ← write_page addr bytes chunk
        elim written [
          | rtos_ok ↦ write_loop fuel (u32 (addr + chunk)) (advance bytes chunk) (remaining - chunk)
          | err ↦ pure err
        ])
  ]

  -- A round for each byte is more than enough.
  unfoldable pub write_image_to_staging : ℕ → Option (List ℕ) → ℕ → M RtosErr
  unfolding write_loop
  write_image_to_staging offset bytes size = write_loop (suc size) offset bytes size

  unfoldable pub handle_update_start : FlashCmd → M RtosErr
  unfolding write_image_to_staging
  handle_update_start cmd = do
    update_flash λ f. record f { fw_state = fw_receiving; update_active = true }
    err ← write_image_to_staging cmd.image_offset none cmd.image_size
    (elim err [
      | rtos_ok ↦ do
        update_flash λ f. record f { fw_state = fw_verifying }
        update_flash λ f. record f { fw_state = fw_idle; update_active = false }
        pure rtos_ok
      | failure ↦ do update_flash λ f. record f { fw_state = fw_error }; pure failure
    ])

  unfoldable pub handle_update_abort : M RtosErr
  handle_update_abort = do
    update_flash λ f. record f { fw_state = fw_idle; update_active = false }
    pure rtos_ok

  unfoldable pub nic_flash_mgr_init : ℕ → M RtosErr
  nic_flash_mgr_init cmd_queue = do
    update_flash λ f. record f { cmd_queue = cmd_queue; fw_state = fw_idle }
    spi_flash_cmd_init esp

  -- The `switch` of the task: the other commands are not implemented.
  unfoldable pub dispatch_flash_cmd : FlashCmd → M (Unit {0})
  unfolding handle_update_start handle_update_abort
  dispatch_flash_cmd cmd =
      if cmd.cmd_type == flash_cmd_code update_start
      then (do handle_update_start cmd; pure tt)
      else if cmd.cmd_type == flash_cmd_code update_abort
      then (do handle_update_abort; pure tt)
      else pure tt

  -- One round of `nic_flash_mgr_task`.
  unfoldable pub nic_flash_mgr_round : M (Unit {0})
  unfolding dispatch_flash_cmd
  nic_flash_mgr_round = do
    r ← flash_cmd_queue_receive rtos_wait_forever
    (elim r.0 [
      | rtos_ok ↦ elim r.1 [
        | some item ↦ elim item [ flash_item cmd ↦ dispatch_flash_cmd cmd | other ↦ fault ]
        | none ↦ fault
      ]
      | failure ↦ pure tt
    ])
