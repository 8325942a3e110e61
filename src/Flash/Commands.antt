-- ===== src/Flash/Commands.antt =====
-- What each command of the flash carries out.
use nic_ob_fw.Common.{
  refl, ℕ, ◌+◌, ◌*◌, ◌%◌, ◌^◌, ◌≤◌, ◌≡◌, ap, List, [], ◌∷◌, ◌++◌, some, false, arith, u8, ◌>>>◌,
  take, length, le→leb, le→ltb_false,
}
use nic_ob_fw.Types.{RtosErr, flash_page_size}
use nic_ob_fw.Platform.{Answer, Esp}
use nic_ob_fw.Firmware.{Firmware, M, pure, ◌>>=◌}
use nic_ob_fw.Hal.NicChip.{nic_chip_hal_spi_transfer}
use nic_ob_fw.Flash.{
  command_frame, flash_cmd_write_enable, flash_cmd_sector_erase, flash_cmd_page_program, page_bytes,
  send_cmd_with_addr, spi_flash_cmd_write_enable, spi_flash_cmd_sector_erase,
  spi_flash_cmd_page_program,
}
use nic_ob_fw.Flash.Ops.{enable, erase, program, tx_ops}
use nic_ob_fw.Flash.Runs.{Extends-refl, Runs, Runs-after, transfer-Runs}

-- The three bytes of a frame give the low 24 bits of the address.
wire_address-mod :
    (addr : ℕ) → u8 (addr >>> 16) * 65536 + u8 (addr >>> 8) * 256 + u8 addr ≡ addr % 2 ^ 24
wire_address-mod addr = omega arith

erase_ops :
    (addr : ℕ) (a : Answer)
    → tx_ops a (some (command_frame flash_cmd_sector_erase addr)) ≡ erase (addr % 2 ^ 24) ∷ []
unfolding tx_ops command_frame
erase_ops addr answer = ap (λ (a : ℕ). erase a ∷ []) (wire_address-mod addr)

program_ops :
    (addr : ℕ) (bytes : List ℕ) (a : Answer)
    → tx_ops a (some (command_frame flash_cmd_page_program addr ++ bytes))
      ≡ program (addr % 2 ^ 24) bytes ∷ []
unfolding tx_ops command_frame
program_ops addr bytes answer = ap (λ (a : ℕ). program a bytes ∷ []) (wire_address-mod addr)

module _ (esp : Esp) where
  pub write_enable-Runs : (s : Firmware) → Runs esp (spi_flash_cmd_write_enable esp) s (enable ∷ [])
  unfolding spi_flash_cmd_write_enable tx_ops
  write_enable-Runs s =
      transfer-Runs esp (some (flash_cmd_write_enable ∷ [])) false 1 s _ (λ a. refl)

  pub sector_erase-Runs :
      (addr : ℕ) (s : Firmware)
      → Runs esp (spi_flash_cmd_sector_erase esp addr) s (erase (addr % 2 ^ 24) ∷ [])
  unfolding spi_flash_cmd_sector_erase send_cmd_with_addr
  sector_erase-Runs addr s =
      transfer-Runs esp (some (command_frame flash_cmd_sector_erase addr)) false 4 s _
        (erase_ops addr)

  page_bytes_within :
      (bytes : List ℕ) (len : ℕ)
      → len ≤ length bytes
      → page_bytes (some bytes) len ≡ some (take len bytes)
  unfolding page_bytes
  page_bytes_within bytes len h = rw (le→leb len (length bytes) h)

  pub page_program-Runs :
      (addr : ℕ) (bytes : List ℕ) (len : ℕ) (s : Firmware)
      → len ≤ flash_page_size
      → len ≤ length bytes
      → Runs esp
          (spi_flash_cmd_page_program esp addr (some bytes) len)
          s
          (program (addr % 2 ^ 24) (take len bytes) ∷ [])
  unfolding spi_flash_cmd_page_program
  page_program-Runs addr bytes len s h k =
      Runs-after (spi_flash_cmd_page_program esp addr (some bytes) len) sends s s _ (Extends-refl s)
        (rw (le→ltb_false flash_page_size len h, page_bytes_within bytes len k))
        (transfer-Runs esp (some (command_frame flash_cmd_page_program addr ++ take len bytes))
          false (4 + len) s _ (program_ops addr (take len bytes)))
    where
      sends : M RtosErr
      sends = do
        r ←
            nic_chip_hal_spi_transfer esp
              (some (command_frame flash_cmd_page_program addr ++ take len bytes)) false (4 + len)
        pure r.0
