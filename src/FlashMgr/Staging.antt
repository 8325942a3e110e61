-- ===== src/FlashMgr/Staging.antt =====
-- `write_image_to_staging` always returns, and carries out its plan up to the first failure.
use nic_ob_fw.Common.{
  ℕ, zero, suc, ◌+◌, ◌-◌, ◌%◌, ◌^◌, ◌≤◌, ◌<◌, ◌≡◌, ◌≢◌, refl, List, [], ◌∷◌, some, inl, inr, arith,
  ltb, ltb→lt, ◌==◌, u32, Bool-cases, take, drop, length, length-drop,
}
use nic_ob_fw.Types.{RtosErr, rtos_ok, flash_sector_size}
use nic_ob_fw.Types.Errors.{on_failure}
use nic_ob_fw.Platform.{Esp}
use nic_ob_fw.Firmware.{Firmware, M, pure, ◌>>=◌}
use nic_ob_fw.Flash.{
  check, spi_flash_cmd_write_enable, spi_flash_cmd_sector_erase, spi_flash_cmd_page_program,
  spi_flash_cmd_wait_ready,
}
use nic_ob_fw.Flash.Ops.{FlashOp, enable, not_busy, erase, program}
use nic_ob_fw.Flash.Clock.{IsClock}
use nic_ob_fw.Flash.Runs.{Runs, Runs-pure, Runs-bind, Runs-check}
use nic_ob_fw.Flash.Ready.{spi_flash_cmd_wait_ready-Runs}
use nic_ob_fw.Flash.Commands.{write_enable-Runs, sector_erase-Runs, page_program-Runs}
use nic_ob_fw.FlashMgr.{erase_if_boundary, write_page, write_loop, write_image_to_staging, chunk_of}
use nic_ob_fw.FlashMgr.Plan.{erase_plan, image_plan, chunk_bounds}

module _ (esp : Esp) (clock : IsClock esp) where
  wait-Runs :
      (timeout_ms : ℕ) (s : Firmware)
      → timeout_ms ≤ 2 ^ 31
      → Runs esp (spi_flash_cmd_wait_ready esp timeout_ms) s (not_busy ∷ [])
  wait-Runs = spi_flash_cmd_wait_ready-Runs esp clock

  erase_if_boundary-Runs :
      (addr : ℕ) (s : Firmware) → Runs esp (erase_if_boundary esp addr) s (erase_plan addr)
  unfolding erase_if_boundary erase_plan
  erase_if_boundary-Runs addr s = elim (Bool-cases (addr % flash_sector_size == 0)) [
    | inl boundary ↦ rw boundary (
        Runs-check (spi_flash_cmd_write_enable esp) erase_and_wait s (enable ∷ [])
          (erase (addr % 2 ^ 24) ∷ not_busy ∷ []) (write_enable-Runs esp s)
          (λ t.
            Runs-check (spi_flash_cmd_sector_erase esp addr) (spi_flash_cmd_wait_ready esp 3000) t
              (erase (addr % 2 ^ 24) ∷ []) (not_busy ∷ []) (sector_erase-Runs esp addr t)
              (λ u. wait-Runs 3000 u (omega arith))))
    | inr inside ↦ rw inside (Runs-pure s)
  ]
    where
      erase_and_wait : M RtosErr
      erase_and_wait = do
        erased ← spi_flash_cmd_sector_erase esp addr
        check erased (spi_flash_cmd_wait_ready esp 3000)

  -- The program of a page, and the poll.
  abbrev ops_of : ℕ → List ℕ → ℕ → List FlashOp
  ops_of addr bytes chunk = program (addr % 2 ^ 24) (take chunk bytes) ∷ not_busy ∷ []

  write_page-Runs :
      (addr : ℕ) (bytes : List ℕ) (chunk : ℕ) (s : Firmware)
      → chunk ≤ 256
      → chunk ≤ length bytes
      → Runs esp (write_page esp addr (some bytes) chunk) s (enable ∷ ops_of addr bytes chunk)
  unfolding write_page
  write_page-Runs addr bytes chunk s h k =
      Runs-check (spi_flash_cmd_write_enable esp) program_and_wait s (enable ∷ [])
        (ops_of addr bytes chunk) (write_enable-Runs esp s)
        (λ t.
          Runs-check (spi_flash_cmd_page_program esp addr (some bytes) chunk)
            (spi_flash_cmd_wait_ready esp 100) t (program (addr % 2 ^ 24) (take chunk bytes) ∷ [])
            (not_busy ∷ []) (page_program-Runs esp addr bytes chunk t h k)
            (λ u. wait-Runs 100 u (omega arith)))
    where
      program_and_wait : M RtosErr
      program_and_wait = do
        programmed ← spi_flash_cmd_page_program esp addr (some bytes) chunk
        check programmed (spi_flash_cmd_wait_ready esp 100)

  -- After a page: the next round, or the error.
  abbrev after_page : ℕ → ℕ → List ℕ → ℕ → RtosErr → M RtosErr
  after_page fuel addr bytes remaining written = elim written [
    | rtos_ok ↦
        write_loop esp fuel (u32 (addr + chunk_of remaining))
          (some (drop (chunk_of remaining) bytes)) (remaining - chunk_of remaining)
    | err ↦ pure err
  ]

  after_page_stops :
      (fuel addr : ℕ) (bytes : List ℕ) (remaining : ℕ) (e : RtosErr)
      → e ≢ rtos_ok
      → after_page fuel addr bytes remaining e ≡ pure e
  after_page_stops fuel addr bytes remaining =
      on_failure (λ e. after_page fuel addr bytes remaining e ≡ pure e) refl refl refl refl refl

  write_loop-Runs :
      (fuel addr : ℕ) (bytes : List ℕ) (remaining : ℕ) (s : Firmware)
      → remaining < fuel
      → remaining ≤ length bytes
      → Runs esp
          (write_loop esp fuel addr (some bytes) remaining)
          s
          (image_plan fuel addr bytes remaining)
  unfolding write_loop image_plan
  write_loop-Runs zero addr bytes remaining s h k = absurd (omega arith)
  write_loop-Runs (suc fuel) addr bytes remaining s h k = elim (Bool-cases (ltb 0 remaining)) [
    | inr finished ↦ rw (finished, image_plan, write_loop) (Runs-pure s)
    | inl more ↦
        let chunk = chunk_of remaining in
        let bounds = chunk_bounds remaining (ltb→lt 0 remaining more) in
        rw (more, image_plan, write_loop)
          (Runs-check (erase_if_boundary esp addr)
            (write_page esp addr (some bytes) chunk >>= after_page fuel addr bytes remaining) s
            (erase_plan addr) _ (erase_if_boundary-Runs addr s)
            (λ t.
              Runs-bind (write_page esp addr (some bytes) chunk)
                (after_page fuel addr bytes remaining) t (enable ∷ ops_of addr bytes chunk) _
                (write_page-Runs addr bytes chunk t bounds.1 (omega (arith, bounds.2)))
                (after_page_stops fuel addr bytes remaining)
                (λ u.
                  write_loop-Runs fuel (u32 (addr + chunk)) (drop chunk bytes) (remaining - chunk) u
                    (omega (arith, bounds.0)) (omega (arith, length-drop chunk bytes)))))
  ]

-- With a clock and an image of at least `size` bytes, from any state, the call returns; it touches
-- nothing but the platform; the write enables, erases and page programs made, and the polls that
-- ended with a chip that is not busy, are the beginning of the image's plan; and all of the plan if
-- it returns `RTOS_OK`.
pub write_image_to_staging-Runs :
    (esp : Esp) (offset : ℕ) (bytes : List ℕ) (size : ℕ) (s : Firmware)
    → IsClock esp
    → size ≤ length bytes
    → Runs esp
        (write_image_to_staging esp offset (some bytes) size)
        s
        (image_plan (suc size) offset bytes size)
unfolding write_image_to_staging
write_image_to_staging-Runs esp offset bytes size s clock have =
    write_loop-Runs esp clock (suc size) offset bytes size s (omega arith) have
