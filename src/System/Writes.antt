-- ===== src/System/Writes.antt =====
-- Writing an image touches nothing but the platform: what calls leave alone, it leaves alone.
use nic_ob_fw.Common.{ℕ, zero, suc, ◌%◌, List, Bool, Option, ltb, ◌==◌, bit_and, sub32}
use nic_ob_fw.Types.{flash_sector_size, flash_page_size}
use nic_ob_fw.Platform.{Esp, tick_count}
use nic_ob_fw.Firmware.{Firmware}
use nic_ob_fw.Rtos.{rtos_get_tick_ms, rtos_delay_ms}
use nic_ob_fw.Hal.NicChip.{nic_chip_hal_spi_transfer}
use nic_ob_fw.Flash.{
  page_bytes, read_status, spi_flash_cmd_page_program, spi_flash_cmd_sector_erase,
  spi_flash_cmd_write_enable, wait_ready_loop, spi_flash_cmd_wait_ready, send_cmd_with_addr,
  flash_status_busy,
}
use nic_ob_fw.FlashMgr.{chunk_of, erase_if_boundary, write_page, write_loop, write_image_to_staging}
use nic_ob_fw.System.Keeps.{
  IgnoresCalls, Ends, Ends-continue, Ends-defined, Ends-if, Ends-elim, Ends-then, Ends-cases,
}

module _ (esp : Esp) (P : Firmware → Type 0) (called : IgnoresCalls P) where
  spi_transfer-Ends :
      (tx : Option (List ℕ)) (reads : Bool) (n : ℕ) (s : Firmware)
      → P s
      → Ends P (nic_chip_hal_spi_transfer esp tx reads n s)
  unfolding nic_chip_hal_spi_transfer
  spi_transfer-Ends tx reads n s h = Ends-if P s.nic_hal.initialized _ _ s (called _ s tt h) h

  write_enable-Ends : (s : Firmware) → P s → Ends P (spi_flash_cmd_write_enable esp s)
  unfolding spi_flash_cmd_write_enable
  write_enable-Ends s h =
      Ends-continue P (nic_chip_hal_spi_transfer esp _ _ _ s) _ (spi_transfer-Ends _ _ _ s h)
        (λ r t k. k)

  sector_erase-Ends :
      (addr : ℕ) (s : Firmware) → P s → Ends P (spi_flash_cmd_sector_erase esp addr s)
  unfolding spi_flash_cmd_sector_erase send_cmd_with_addr
  sector_erase-Ends addr s h =
      Ends-continue P (nic_chip_hal_spi_transfer esp _ _ _ s) _ (spi_transfer-Ends _ _ _ s h)
        (λ r t k. k)

  page_program-Ends :
      (addr : ℕ) (bytes : Option (List ℕ)) (len : ℕ) (s : Firmware)
      → P s
      → Ends P (spi_flash_cmd_page_program esp addr bytes len s)
  unfolding spi_flash_cmd_page_program
  page_program-Ends addr bytes len s h = Ends-if P (ltb flash_page_size len) _ _ s h (
      Ends-defined P (page_bytes bytes len) _ s (λ payload.
        Ends-continue P (nic_chip_hal_spi_transfer esp _ _ _ s) _ (spi_transfer-Ends _ _ _ s h)
          (λ r t k. k)))

  read_status-Ends : (s : Firmware) → P s → Ends P (read_status esp s)
  unfolding read_status
  read_status-Ends s h =
      Ends-continue P (nic_chip_hal_spi_transfer esp _ _ _ s) _ (spi_transfer-Ends _ _ _ s h)
        (λ r t k. k)

  tick-Ends : (s : Firmware) → P s → Ends P (rtos_get_tick_ms esp s)
  unfolding rtos_get_tick_ms
  tick-Ends s h = called tick_count s tt h

  delay-Ends : (ms : ℕ) (s : Firmware) → P s → Ends P (rtos_delay_ms esp ms s)
  unfolding rtos_delay_ms
  delay-Ends ms s h = called _ s tt h

  wait_loop-Ends :
      (fuel start timeout_ms : ℕ) (s : Firmware)
      → P s
      → Ends P (wait_ready_loop esp fuel start timeout_ms s)
  unfolding wait_ready_loop
  wait_loop-Ends zero start timeout_ms s h = tt
  wait_loop-Ends (suc fuel) start timeout_ms s h =
      Ends-continue P (read_status esp s) _ (read_status-Ends s h) (λ r t k.
        Ends-cases P r.0 _ _ _ _ _ _ t
          (Ends-elim P (bit_and r.1 flash_status_busy == 0) _ _ t k (
            Ends-continue P (rtos_delay_ms esp 1 t) _ (delay-Ends 1 t k) (λ _ u l.
              Ends-continue P (rtos_get_tick_ms esp u) _ (tick-Ends u l) (λ now v m.
                Ends-elim P (ltb (sub32 now start) timeout_ms) _ _ v
                  (wait_loop-Ends fuel start timeout_ms v m) m))))
          k k k k k)

  wait_ready-Ends :
      (timeout_ms : ℕ) (s : Firmware) → P s → Ends P (spi_flash_cmd_wait_ready esp timeout_ms s)
  unfolding spi_flash_cmd_wait_ready rtos_get_tick_ms
  wait_ready-Ends timeout_ms s h =
      wait_loop-Ends (esp.polls_in timeout_ms) _ timeout_ms _ (called _ s tt h)

  erase-Ends : (addr : ℕ) (s : Firmware) → P s → Ends P (erase_if_boundary esp addr s)
  unfolding erase_if_boundary
  erase-Ends addr s h =
      Ends-if P (addr % flash_sector_size == 0) _ _ s
        (Ends-then P (spi_flash_cmd_write_enable esp s) _ (write_enable-Ends s h) (λ t k.
          Ends-then P (spi_flash_cmd_sector_erase esp addr t) _ (sector_erase-Ends addr t k)
            (λ u l. wait_ready-Ends 3000 u l)))
        h

  write_page-Ends :
      (addr : ℕ) (bytes : Option (List ℕ)) (chunk : ℕ) (s : Firmware)
      → P s
      → Ends P (write_page esp addr bytes chunk s)
  unfolding write_page
  write_page-Ends addr bytes chunk s h =
      Ends-then P (spi_flash_cmd_write_enable esp s) _ (write_enable-Ends s h) (λ t k.
        Ends-then P (spi_flash_cmd_page_program esp addr bytes chunk t) _
          (page_program-Ends addr bytes chunk t k) (λ u l. wait_ready-Ends 100 u l))

  write_loop-Ends :
      (fuel addr : ℕ) (bytes : Option (List ℕ)) (remaining : ℕ) (s : Firmware)
      → P s
      → Ends P (write_loop esp fuel addr bytes remaining s)
  unfolding write_loop
  write_loop-Ends zero addr bytes remaining s h = tt
  write_loop-Ends (suc fuel) addr bytes remaining s h =
      Ends-elim P (ltb 0 remaining) _ _ s
        (Ends-then P (erase_if_boundary esp addr s) _ (erase-Ends addr s h) (λ t k.
          Ends-continue P (write_page esp addr bytes (chunk_of remaining) t) _
            (write_page-Ends addr bytes (chunk_of remaining) t k)
            (λ e u l. Ends-cases P e _ _ _ _ _ _ u (write_loop-Ends fuel _ _ _ u l) l l l l l)))
        h

  pub write_image-Ends :
      (offset : ℕ) (bytes : Option (List ℕ)) (size : ℕ) (s : Firmware)
      → P s
      → Ends P (write_image_to_staging esp offset bytes size s)
  unfolding write_image_to_staging
  write_image-Ends offset bytes size s h = write_loop-Ends (suc size) offset bytes size s h
