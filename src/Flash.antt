-- ===== src/Flash.antt =====
-- components/spi_flash_cmd/src/spi_flash_cmd.c: the JEDEC commands of the SPI flash.
pub mod Ops
pub mod Runs
pub mod Clock
pub mod Nor
pub mod Commands
pub mod Poll
pub mod Ready
mod Tests
use nic_ob_fw.Common.{
  ℕ, zero, suc, ◌+◌, List, [], ◌∷◌, true, false, Option, none, some, bit_and, ltb, ◌==◌,
  if◌then◌else◌, ◌>>>◌, u8, u16, sub32, get_or, take, length, leb, ◌++◌,
}
use nic_ob_fw.Types.{RtosErr, rtos_ok, rtos_err_timeout, rtos_err_fail, flash_page_size}
use nic_ob_fw.Platform.{Esp}
use nic_ob_fw.Firmware.{M, pure, fault, ◌>>=◌, ◌>>◌, defined}
use nic_ob_fw.Rtos.{rtos_get_tick_ms, rtos_delay_ms}
use nic_ob_fw.Hal.NicChip.{nic_chip_hal_spi_transfer}

abbrev pub flash_cmd_write_enable : ℕ
flash_cmd_write_enable = 0x06

abbrev pub flash_cmd_read_status : ℕ
flash_cmd_read_status = 0x05

abbrev pub flash_cmd_page_program : ℕ
flash_cmd_page_program = 0x02

abbrev pub flash_cmd_sector_erase : ℕ
flash_cmd_sector_erase = 0x20

abbrev pub flash_cmd_read_data : ℕ
flash_cmd_read_data = 0x03

abbrev pub flash_cmd_read_jedec_id : ℕ
flash_cmd_read_jedec_id = 0x9f

abbrev pub flash_status_busy : ℕ
flash_status_busy = 0x01

-- A command byte and the three low bytes of an address.
unfoldable pub command_frame : ℕ → ℕ → List ℕ
command_frame cmd addr = cmd ∷ u8 (addr >>> 16) ∷ u8 (addr >>> 8) ∷ u8 addr ∷ []

-- `if (err != RTOS_OK) { return err; }` before the rest.
abbrev pub check : RtosErr → M RtosErr → M RtosErr
check rtos_ok rest = rest
check err rest = pure err

-- What `memcpy(&tx[4], data, len)` copies, with `none` for a null pointer: a copy of one byte or more
-- from it, or from past the end of the array, is undefined.
unfoldable pub page_bytes : Option (List ℕ) → ℕ → Option (List ℕ)
page_bytes none zero = some []
page_bytes none (suc len) = none
page_bytes (some bytes) len = if leb len (length bytes) then some (take len bytes) else none

module _ (esp : Esp) where
  unfoldable pub send_cmd_with_addr : ℕ → ℕ → M RtosErr
  send_cmd_with_addr cmd addr = do
    r ← nic_chip_hal_spi_transfer esp (some (command_frame cmd addr)) false 4
    pure r.0

  -- The error code, and the status byte, which the source stores on success only.
  unfoldable pub read_status : M (RtosErr × ℕ)
  read_status = do
    r ← nic_chip_hal_spi_transfer esp (some (flash_cmd_read_status ∷ 0x00 ∷ [])) true 2
    pure (r.0, get_or r.1 1 0)

  -- The error code, and the manufacturer, device and capacity bytes, stored on success only.
  unfoldable pub spi_flash_cmd_read_id : M (RtosErr × List ℕ)
  spi_flash_cmd_read_id = do
    r ← nic_chip_hal_spi_transfer esp (some (flash_cmd_read_jedec_id ∷ 0 ∷ 0 ∷ 0 ∷ [])) true 4
    pure (r.0, get_or r.1 1 0 ∷ get_or r.1 2 0 ∷ get_or r.1 3 0 ∷ [])

  unfoldable pub spi_flash_cmd_init : M RtosErr
  spi_flash_cmd_init = do r ← spi_flash_cmd_read_id; pure r.0

  -- The error code, and the bytes left in `buf`.
  unfoldable pub spi_flash_cmd_read : ℕ → ℕ → M (RtosErr × List ℕ)
  spi_flash_cmd_read addr len = do
    r ← nic_chip_hal_spi_transfer esp (some (command_frame flash_cmd_read_data addr)) false 4
    (elim r.0 [
      | rtos_ok ↦ nic_chip_hal_spi_transfer esp none true (u16 len)
      | err ↦ pure (err, [])
    ])

  -- `bytes` is `none` for a null pointer, from which a copy of one byte or more is undefined.
  unfoldable pub spi_flash_cmd_page_program : ℕ → Option (List ℕ) → ℕ → M RtosErr
  unfolding page_bytes
  spi_flash_cmd_page_program addr bytes len =
      if ltb flash_page_size len then pure rtos_err_fail else (do
        payload ← defined (page_bytes bytes len)
        r ←
            nic_chip_hal_spi_transfer esp
              (some (command_frame flash_cmd_page_program addr ++ payload)) false (4 + len)
        pure r.0)

  unfoldable pub spi_flash_cmd_sector_erase : ℕ → M RtosErr
  unfolding send_cmd_with_addr
  spi_flash_cmd_sector_erase addr = send_cmd_with_addr flash_cmd_sector_erase addr

  unfoldable pub spi_flash_cmd_write_enable : M RtosErr
  spi_flash_cmd_write_enable = do
    r ← nic_chip_hal_spi_transfer esp (some (flash_cmd_write_enable ∷ [])) false 1
    pure r.0

  -- The polling loop, from its start at the reading `start`. `none` is also what is left when the
  -- fuel runs out.
  unfoldable pub wait_ready_loop : ℕ → ℕ → ℕ → M RtosErr
  unfolding read_status
  wait_ready_loop zero start timeout_ms = fault
  wait_ready_loop (suc fuel) start timeout_ms = do
    r ← read_status
    (elim r.0 [
      | rtos_ok ↦ elim (bit_and r.1 flash_status_busy == 0) [
        | true ↦ pure rtos_ok
        | false ↦ do
          rtos_delay_ms esp 1
          now ← rtos_get_tick_ms esp
          elim (ltb (sub32 now start) timeout_ms) [
            | true ↦ wait_ready_loop fuel start timeout_ms
            | false ↦ pure rtos_err_timeout
          ]
      ]
      | err ↦ pure err
    ])

  unfoldable pub spi_flash_cmd_wait_ready : ℕ → M RtosErr
  unfolding wait_ready_loop
  spi_flash_cmd_wait_ready timeout_ms = do
    start ← rtos_get_tick_ms esp
    wait_ready_loop (esp.polls_in timeout_ms) start timeout_ms
