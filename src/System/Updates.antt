-- ===== src/System/Updates.antt =====
-- The update command: how the update state ends up, and that what holds at all times is kept.
use nic_ob_fw.Common.{
  ℕ, ◌<◌, ◌≡◌, ◌≢◌, ◌∙◌, refl, ap, true, false, none, some, inl, inr, arith, Option-cases,
  Bool-cases, ◌==◌, Option, List,
}
use nic_ob_fw.Types.{RtosErr, rtos_ok, FlashCmd, flash_cmd_code, update_start, update_abort}
use nic_ob_fw.Platform.{Esp, HwCall, queue_send, queue_send_from_isr}
use nic_ob_fw.Firmware.{Firmware, MainQueues, FlashMgr, fw_idle, fw_receiving, fw_error}
use nic_ob_fw.FlashMgr.{
  write_loop, write_image_to_staging, handle_update_start, handle_update_abort, dispatch_flash_cmd,
}
use nic_ob_fw.FlashMgr.Faults.{write_image_null, started, failed, update_failed, update_stuck}
use nic_ob_fw.System.{IsSound, IsRunning, Fits}
use nic_ob_fw.System.Sound.{called-IsSound}
use nic_ob_fw.System.Keeps.{
  Ends, Ends-continue, Ends-if, Ends-cases, Ends-returns, IsQuiet, IgnoresCalls,
}
use nic_ob_fw.System.Writes.{write_image-Ends}

-- Other values for the update state.
pub updated-IsSound :
    (f : FlashMgr → FlashMgr) (s : Firmware)
    → (f s.flash_mgr).cmd_queue ≡ s.flash_mgr.cmd_queue
    → IsSound s
    → IsSound (record s { flash_mgr = f s.flash_mgr })
updated-IsSound f s queue h =
    let (rx, nic, flash, cmd, isr_rx, isr_nic, distinct) = h.linked in
    record {
      linked = (rx, nic, flash, queue ∙ cmd, isr_rx, isr_nic, distinct);
      transmits = h.transmits;
      reassembly = h.reassembly;
      cache = record { sized = h.cache.sized; calibrated = h.cache.calibrated };
      typed = h.typed;
      log = h.log;
      suited = h.suited;
    }

IsQuiet-Fits : (q : MainQueues) (c : HwCall) → IsQuiet c → Fits q c
IsQuiet-Fits q (queue_send handle item ticks) h = elim h [ ]
IsQuiet-Fits q (queue_send_from_isr handle item) h = elim h [ ]
IsQuiet-Fits q other h = h

pub IsSound-IgnoresCalls : IgnoresCalls IsSound
IsSound-IgnoresCalls c s quiet h = called-IsSound c s (IsQuiet-Fits s.main c quiet) h

-- What an update command comes to: without an image it succeeds at once; with one it fails with an
-- error, or is undefined.
pub data Settles (esp : Esp) (cmd : FlashCmd) (s : Firmware) : Type 0 where
  nothing_to_write :
      cmd.image_size ≡ 0
      → handle_update_start esp cmd s
        ≡ some (
          rtos_ok,
          record s { flash_mgr = record s.flash_mgr { fw_state = fw_idle; update_active = false } },
        )
      → Settles esp cmd s
  left_active :
      (e : RtosErr) (t : Firmware)
      → 0 < cmd.image_size
      → handle_update_start esp cmd s ≡ some (e, t)
      → e ≢ rtos_ok
      → t.flash_mgr ≡ record s.flash_mgr { fw_state = fw_error; update_active = true }
      → Settles esp cmd s
  no_result : 0 < cmd.image_size → handle_update_start esp cmd s ≡ none → Settles esp cmd s

module _ (esp : Esp) where
  -- Writing leaves the manager's variables alone.
  write_keeps :
      (f : FlashMgr) (offset : ℕ) (bytes : Option (List ℕ)) (size : ℕ) (s : Firmware)
      → s.flash_mgr ≡ f
      → Ends (λ t. t.flash_mgr ≡ f) (write_image_to_staging esp offset bytes size s)
  write_keeps f = write_image-Ends esp (λ t. t.flash_mgr ≡ f) (λ c s quiet same. same)

  with_image : (cmd : FlashCmd) (s : Firmware) → 0 < cmd.image_size → Settles esp cmd s
  with_image cmd s h =
      elim (Option-cases
        (write_image_to_staging esp cmd.image_offset none cmd.image_size (started esp s))) [
          | inl stuck ↦ no_result h (update_stuck esp cmd s stuck)
          | inr ((e, t), returns) ↦
              let bad = λ (is : e ≡ rtos_ok).
                write_image_null esp cmd.image_offset cmd.image_size h (started esp s) t
                  (rw is at returns) in
              let same : t.flash_mgr ≡ (started esp s).flash_mgr =
                Ends-returns (λ u. u.flash_mgr ≡ (started esp s).flash_mgr) _
                  (write_keeps _ cmd.image_offset none cmd.image_size (started esp s) refl)
                  returns in
              left_active e (failed esp t) h (update_failed esp cmd s t e returns bad) bad
                (ap (λ (f : FlashMgr). record f { fw_state = fw_error }) same)
        ]

  without_image : (cmd : FlashCmd) (s : Firmware) → cmd.image_size ≡ 0 → Settles esp cmd s
  unfolding handle_update_start write_image_to_staging write_loop
  without_image cmd s empty = nothing_to_write empty (rw empty)

-- From any state, an update command without an image returns `RTOS_OK` at once, with the update
-- idle and inactive and nothing else changed; with an image of one byte or more it is undefined, or
-- returns an error with the state `FW_STATE_ERROR` and the update still marked as active.
pub handle_update_start-Settles : (esp : Esp) (cmd : FlashCmd) (s : Firmware) → Settles esp cmd s
handle_update_start-Settles esp cmd s = elim (Bool-cases (cmd.image_size == 0)) [
  | inl empty ↦ without_image esp cmd s (ground (arith, empty))
  | inr image ↦ with_image esp cmd s (ground (arith, image))
]

module _ (esp : Esp) where
  start-IsSound :
      (cmd : FlashCmd) (s : Firmware) → IsSound s → Ends IsSound (handle_update_start esp cmd s)
  unfolding handle_update_start
  start-IsSound cmd s h =
      Ends-continue IsSound
        (write_image_to_staging esp cmd.image_offset none cmd.image_size (started esp s)) _
        (write_image-Ends esp IsSound IsSound-IgnoresCalls cmd.image_offset none cmd.image_size
          (started esp s)
          (updated-IsSound (λ f. record f { fw_state = fw_receiving; update_active = true }) s refl
            h))
        (λ e t k.
          let stopped = updated-IsSound (λ f. record f { fw_state = fw_error }) t refl k in
          Ends-cases IsSound e _ _ _ _ _ _ t
            (updated-IsSound (λ f. record f { fw_state = fw_idle; update_active = false }) t refl k)
            stopped stopped stopped stopped stopped)

  start-IsRunning :
      (cmd : FlashCmd) (s : Firmware) → IsSound s → Ends IsRunning (handle_update_start esp cmd s)
  start-IsRunning cmd s h = go (handle_update_start-Settles esp cmd s)
    where
      sound : {e : RtosErr} {t : Firmware} → handle_update_start esp cmd s ≡ some (e, t) → IsSound t
      sound = Ends-returns IsSound (handle_update_start esp cmd s) (start-IsSound cmd s h)

      go : Settles esp cmd s → Ends IsRunning (handle_update_start esp cmd s)
      go (nothing_to_write empty returns) =
          rw returns (record { sound = sound returns; settled = inl (refl, refl) })
      go (left_active e t image returns bad is) = rw returns (record {
        sound = sound returns;
        settled = inr (ap (λ f. f.fw_state) is, ap (λ f. f.update_active) is);
      })
      go (no_result image returns) = rw returns tt

  pub dispatch-IsRunning :
      (cmd : FlashCmd) (s : Firmware) → IsRunning s → Ends IsRunning (dispatch_flash_cmd esp cmd s)
  unfolding dispatch_flash_cmd handle_update_abort
  dispatch-IsRunning cmd s h =
      Ends-if IsRunning (cmd.cmd_type == flash_cmd_code update_start) _ _ s
        (Ends-continue IsRunning (handle_update_start esp cmd s) _ (start-IsRunning cmd s h.sound)
          (λ e t k. k))
        (Ends-if IsRunning (cmd.cmd_type == flash_cmd_code update_abort) _ _ s
          (record {
            sound =
                updated-IsSound (λ f. record f { fw_state = fw_idle; update_active = false }) s refl
                  h.sound;
            settled = inl (refl, refl);
          })
          h)
