-- ===== src/System/Messages.antt =====
-- The thread of the BMC manager keeps what holds between two steps: a message, an event, and the
-- liveness check.
use nic_ob_fw.Common.{arith, ℕ, ◌≡◌, refl, List, ◌++◌, All, All-append}
use nic_ob_fw.Types.{BmcRxMsg, NicEventMsg, PldmMsg}
use nic_ob_fw.Platform.{Esp, HwCall, World, IsSized, tick_count}
use nic_ob_fw.Firmware.{Firmware}
use nic_ob_fw.Rtos.{rtos_get_tick_ms}
use nic_ob_fw.Protocol.Mctp.{Reassembly}
use nic_ob_fw.Protocol.Mctp.Contract.{IsValid}
use nic_ob_fw.GenMgr.{nic_gen_mgr_handle_nic_event, nic_gen_mgr_log_sel_event}
use nic_ob_fw.GenMgr.Sel.{store_event-Logs}
use nic_ob_fw.BmcMgr.{handle_bmc_msg, handle_nic_event, liveness_check, liveness_round}
use nic_ob_fw.BmcMgr.Wire.{update_command}
use nic_ob_fw.BmcMgr.Decide.{
  Decides, reading, no_such_sensor, update_queued, update_refused, unknown,
}
use nic_ob_fw.BmcMgr.Handle.{
  Handles, ignored, no_request, answered, overrun, seen, handle_bmc_msg-Handles,
}
use nic_ob_fw.BmcMgr.Drain.{IsPosted}
use nic_ob_fw.System.{IsSound, IsRunning, IsLinked, Fits}
use nic_ob_fw.System.Sound.{called-IsSound}
use nic_ob_fw.System.Keeps.{Ends, Ends-if, Ends-continue}

-- Some more calls.
pub calls-IsSound :
    (calls : List HwCall) (s : Firmware)
    → All (Fits s.main) calls
    → IsSound s
    → IsSound (record s { world = calls ++ s.world })
calls-IsSound calls s fits h = record {
  linked = h.linked;
  transmits = h.transmits;
  reassembly = h.reassembly;
  cache = record { sized = h.cache.sized; calibrated = h.cache.calibrated };
  typed = h.typed;
  log = h.log;
  suited = All-append (Fits s.main) calls s.world fits h.suited;
}

seen-IsSound :
    (esp : Esp) (r : Reassembly) (s : Firmware) → IsValid r → IsSound s → IsSound (seen esp s r)
seen-IsSound esp r s valid h = record {
  linked = h.linked;
  transmits = h.transmits;
  reassembly = valid;
  cache = record { sized = h.cache.sized; calibrated = h.cache.calibrated };
  typed = h.typed;
  log = h.log;
  suited = (tt, h.suited);
}

-- The calls that a decision takes: an update command goes to its queue.
Decides-Fits :
    (esp : Esp) (msg : PldmMsg) (s : Firmware) (calls : List HwCall) (cc : ℕ) (content : List ℕ)
    → Decides esp msg s calls cc content
    → IsLinked s
    → All (Fits s.main) calls
unfolding update_command
Decides-Fits esp msg s calls cc content (reading is known) linked = (tt, (tt, tt))
Decides-Fits esp msg s calls cc content (no_such_sensor is beyond) linked = tt
Decides-Fits esp msg s calls cc content (update_queued is sent) linked =
    let (rx, nic, flash, cmd, isr_rx, isr_nic, distinct) = linked in ((flash, refl), tt)
Decides-Fits esp msg s calls cc content (update_refused is refused) linked =
    let (rx, nic, flash, cmd, isr_rx, isr_nic, distinct) = linked in ((flash, refl), tt)
Decides-Fits esp msg s calls cc content (unknown no_reading no_update) linked = tt

module _ (esp : Esp) (u : (w : World) → IsSized (esp.uninit w)) where
  pub handle_bmc_msg-Ends :
      (m : BmcRxMsg) (s : Firmware)
      → IsPosted m
      → IsRunning s
      → Ends IsRunning (handle_bmc_msg esp m s)
  handle_bmc_msg-Ends m s posted h = go (
      handle_bmc_msg-Handles esp m s posted.0 posted.1 u h.sound.transmits h.sound.reassembly
        (omega (arith, h.sound.cache.calibrated)))
    where
      running : {t : Firmware} → IsSound t → t.flash_mgr ≡ s.flash_mgr → IsRunning t
      running sound same = record { sound = sound; settled = rw same h.settled }

      go : Handles esp m s → Ends IsRunning (handle_bmc_msg esp m s)
      go (ignored few returns) =
          rw returns (running (seen-IsSound esp s.mctp s h.sound.reassembly h.sound) refl)
      go (no_request r got e few valid returns) =
          rw returns (running (seen-IsSound esp r s valid h.sound) refl)
      go (answered r p msg e is whole valid returns responds) =
          let sound = seen-IsSound esp r s valid h.sound in
          let fits =
            Decides-Fits esp msg (seen esp s r) responds.calls responds.cc responds.content
              responds.decides sound.linked in
          rw (returns, responds.returns)
            (running
              (called-IsSound _ _ tt (calls-IsSound responds.calls (seen esp s r) fits sound)) refl)
      go (overrun r p e long returns) = rw returns tt

module _ (esp : Esp) where
  -- An event in the log.
  log_event-Ends :
      (event_type event_data : ℕ) (s : Firmware)
      → IsRunning s
      → Ends IsRunning (nic_gen_mgr_log_sel_event esp event_type event_data s)
  unfolding nic_gen_mgr_log_sel_event rtos_get_tick_ms
  log_event-Ends event_type event_data s h =
      let (history, logs) = h.sound.log in
      record {
        sound = record {
          linked = h.sound.linked;
          transmits = h.sound.transmits;
          reassembly = h.sound.reassembly;
          cache = record { sized = h.sound.cache.sized; calibrated = h.sound.cache.calibrated };
          typed = h.sound.typed;
          log = (_, store_event-Logs s.gen_mgr history event_type event_data _ logs);
          suited = (tt, h.sound.suited);
        };
        settled = h.settled;
      }

  pub handle_nic_event-Ends :
      (event : NicEventMsg) (s : Firmware)
      → IsRunning s
      → Ends IsRunning (handle_nic_event esp event s)
  unfolding handle_nic_event nic_gen_mgr_handle_nic_event nic_gen_mgr_log_sel_event rtos_get_tick_ms
  handle_nic_event-Ends event s h = log_event-Ends event.event_type event.event_data s h

  liveness_check-Ends : (s : Firmware) → IsRunning s → Ends IsRunning (liveness_check esp s)
  unfolding liveness_check rtos_get_tick_ms
  liveness_check-Ends s h = record {
    sound = called-IsSound tick_count s tt h.sound;
    settled = h.settled;
  }

  pub liveness_round-Ends : (s : Firmware) → IsRunning s → Ends IsRunning (liveness_round esp s)
  unfolding liveness_round
  liveness_round-Ends s h =
      Ends-continue IsRunning (liveness_check esp s) _ (liveness_check-Ends s h) (λ alive t k.
        Ends-if IsRunning alive _ _ t k (
          Ends-continue IsRunning (nic_gen_mgr_log_sel_event esp _ 0 t) _ (log_event-Ends _ 0 t k)
            (λ e u l. l)))
