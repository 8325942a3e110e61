-- ===== src/FlashMgr/Faults.antt =====
-- The update command as it is written: the image is read through a null pointer.
use nic_ob_fw.Common.{
  ℕ, zero, suc, ◌+◌, ◌-◌, ◌<◌, ◌≡◌, ◌≢◌, refl, sym, ◌∙◌, true, none, some, inl, inr, arith, lt→ltb,
  u32, Option-cases,
}
use nic_ob_fw.Types.{RtosErr, rtos_ok, FlashCmd}
use nic_ob_fw.Types.Errors.{on_failure, RtosErr-cases}
use nic_ob_fw.Platform.{Esp}
use nic_ob_fw.Firmware.{Firmware, fw_receiving, fw_error, M, pure, ◌>>=◌, bind-eq}
use nic_ob_fw.Flash.{
  check, page_bytes, spi_flash_cmd_write_enable, spi_flash_cmd_page_program,
  spi_flash_cmd_wait_ready,
}
use nic_ob_fw.Flash.Runs.{check_stops}
use nic_ob_fw.FlashMgr.{
  chunk_of, erase_if_boundary, write_page, write_loop, write_image_to_staging, handle_update_start,
}
use nic_ob_fw.FlashMgr.Plan.{chunk_bounds}

-- The computation does not return `RTOS_OK` from any state: it fails, or its behaviour is undefined.
abbrev NeverOk : M RtosErr → Type 0
NeverOk m = (s t : Firmware) → m s ≢ some (rtos_ok, t)

module _ (m : M RtosErr) (k : RtosErr → M RtosErr)
    (stops : (e : RtosErr) → e ≢ rtos_ok → k e ≡ pure e) where
  err_is_not_ok : (e : RtosErr) (u t : Firmware) → e ≢ rtos_ok → k e u ≢ some (rtos_ok, t)
  err_is_not_ok e u t bad is =
      let stopped : pure e u ≡ some (rtos_ok, t) = rw (stops e bad) at is in
      let same : e ≡ rtos_ok = cc in bad same

  NeverOk-cases :
      (s t : Firmware)
      → ((u : Firmware) → m s ≡ some (rtos_ok, u) → k rtos_ok u ≢ some (rtos_ok, t))
      → (m >>= k) s ≢ some (rtos_ok, t)
  NeverOk-cases s t ok_case is = elim (Option-cases (m s)) [
    | inl stuck ↦ absurd (cc)
    | inr ((e, u), returns) ↦ by_err e u returns (sym (bind-eq m k s returns) ∙ is)
  ]
    where
      by_err : (e : RtosErr) (u : Firmware) → m s ≡ some (e, u) → k e u ≢ some (rtos_ok, t)
      by_err e u returns = elim (RtosErr-cases e) [
        | inl ok ↦ rw ok (ok_case u (rw ok at returns))
        | inr bad ↦ err_is_not_ok e u t bad
      ]

  NeverOk-second : NeverOk (k rtos_ok) → NeverOk (m >>= k)
  NeverOk-second never s t = NeverOk-cases s t (λ u _. never u t)

  NeverOk-first : NeverOk m → NeverOk (m >>= k)
  NeverOk-first never s t = NeverOk-cases s t (λ u returns. absurd (never s u returns))

module _ (esp : Esp) where
  null_page : (len : ℕ) → 0 < len → page_bytes none len ≡ none
  unfolding page_bytes
  null_page zero h = elim h [ ]
  null_page (suc len) h = refl

  page_program_null :
      (addr len : ℕ) → 0 < len → NeverOk (spi_flash_cmd_page_program esp addr none len)
  unfolding spi_flash_cmd_page_program
  page_program_null addr len h s t = ground (arith, null_page len h)

  write_page_null : (addr chunk : ℕ) → 0 < chunk → NeverOk (write_page esp addr none chunk)
  unfolding write_page
  write_page_null addr chunk h =
      NeverOk-second (spi_flash_cmd_write_enable esp)
        (λ e. check e (
          spi_flash_cmd_page_program esp addr none chunk >>= λ p.
          check p (spi_flash_cmd_wait_ready esp 100)))
        (check_stops _)
        (NeverOk-first (spi_flash_cmd_page_program esp addr none chunk)
          (λ p. check p (spi_flash_cmd_wait_ready esp 100)) (check_stops _)
          (page_program_null addr chunk h))

  -- What follows a page.
  abbrev after_null_page : ℕ → ℕ → ℕ → RtosErr → M RtosErr
  after_null_page fuel addr remaining written = elim written [
    | rtos_ok ↦
        write_loop esp fuel (u32 (addr + chunk_of remaining)) none (remaining - chunk_of remaining)
    | err ↦ pure err
  ]

  after_null_page_stops :
      (fuel addr remaining : ℕ) (e : RtosErr)
      → e ≢ rtos_ok
      → after_null_page fuel addr remaining e ≡ pure e
  after_null_page_stops fuel addr remaining =
      on_failure (λ e. after_null_page fuel addr remaining e ≡ pure e) refl refl refl refl refl

  write_loop_null :
      (fuel addr remaining : ℕ)
      → 0 < remaining
      → NeverOk (write_loop esp (suc fuel) addr none remaining)
  unfolding write_loop
  write_loop_null fuel addr remaining h =
      let more = lt→ltb 0 remaining h in
      rw (more, write_loop)
        (NeverOk-second (erase_if_boundary esp addr)
          (λ e.
            check e (
              write_page esp addr none (chunk_of remaining)
              >>= after_null_page fuel addr remaining))
          (check_stops _)
          (NeverOk-first (write_page esp addr none (chunk_of remaining))
            (after_null_page fuel addr remaining) (after_null_page_stops fuel addr remaining)
            (write_page_null addr (chunk_of remaining) (chunk_bounds remaining h).0)))

  pub write_image_null :
      (offset size : ℕ) → 0 < size → NeverOk (write_image_to_staging esp offset none size)
  unfolding write_image_to_staging
  write_image_null offset size h = write_loop_null size offset size h

  -- The state with the update marked as running.
  abbrev pub started : Firmware → Firmware
  started s = record s {
    flash_mgr = record s.flash_mgr { fw_state = fw_receiving; update_active = true };
  }

  abbrev pub failed : Firmware → Firmware
  failed t = record t { flash_mgr = record t.flash_mgr { fw_state = fw_error } }

  -- What the handler does with the result of the write.
  pub update_failed :
      (cmd : FlashCmd) (s t : Firmware) (e : RtosErr)
      → write_image_to_staging esp cmd.image_offset none cmd.image_size (started s) ≡ some (e, t)
      → e ≢ rtos_ok
      → handle_update_start esp cmd s ≡ some (e, failed t)
  unfolding handle_update_start
  update_failed cmd s t e w =
      let Fails : RtosErr → Type 0 = λ (f : RtosErr).
        write_image_to_staging esp cmd.image_offset none cmd.image_size (started s) ≡ some (f, t)
        → handle_update_start esp cmd s ≡ some (f, failed t) in
      λ bad. on_failure Fails (λ q. rw q) (λ q. rw q) (λ q. rw q) (λ q. rw q) (λ q. rw q) e bad w

  pub update_stuck :
      (cmd : FlashCmd) (s : Firmware)
      → write_image_to_staging esp cmd.image_offset none cmd.image_size (started s) ≡ none
      → handle_update_start esp cmd s ≡ none
  unfolding handle_update_start
  update_stuck cmd s w = rw w
