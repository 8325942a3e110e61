-- ===== src/System/Handover.antt =====
-- A firmware update, from the BMC's request over the queue to the thread of the flash manager.
use nic_ob_fw.Common.{
  ℕ, ◌+◌, ◌<◌, ◌≤◌, ◌≡◌, ◌≢◌, refl, sym, ◌∙◌, List, [], ◌∷◌, ◌++◌, ◌^◌, true, false, none, some,
  arith, length, ==_iff,
}
use nic_ob_fw.Types.{RtosErr, rtos_ok, PldmMsg, FlashCmd, flash_cmd_code, update_start}
use nic_ob_fw.Platform.{
  Esp, World, HwCall, IsSized, flash_item, queue_receive, i2c_slave_write_buffer,
}
use nic_ob_fw.Platform.Fifo.{pending, IsFifo}
use nic_ob_fw.Firmware.{Firmware, fw_idle, fw_error}
use nic_ob_fw.Rtos.{rtos_queue_receive, ms_to_ticks}
use nic_ob_fw.FlashMgr.{handle_update_start, dispatch_flash_cmd, nic_flash_mgr_round}
use nic_ob_fw.BmcMgr.Wire.{bytes_32, update_command}
use nic_ob_fw.BmcMgr.Encoding.{update_command-bytes_32}
use nic_ob_fw.BmcMgr.Decide.{
  Decides, IsUpdate, update_call, reading, no_such_sensor, update_queued, update_refused, unknown,
}
use nic_ob_fw.BmcMgr.Dispatch.{Responds, dispatch_pldm-Responds}
use nic_ob_fw.System.{IsRunning}
use nic_ob_fw.System.Updates.{
  Settles, nothing_to_write, left_active, no_result, handle_update_start-Settles,
}

-- The command that updates partition 0 with `size` bytes at `offset`.
abbrev pub update_at : ℕ → ℕ → FlashCmd
update_at offset size = record {
  cmd_type = flash_cmd_code update_start;
  target_partition = 0;
  reserved = 0;
  image_offset = offset;
  image_size = size;
}

-- The state after the flash manager's thread has received something.
abbrev pub woken_up : Firmware → Firmware
woken_up s = record s { world = queue_receive s.flash_mgr.cmd_queue 0xffff_ffff ∷ s.world }

-- What a round of the flash manager makes of the command.
pub data CarriesOut (esp : Esp) (cmd : FlashCmd) (s : Firmware) : Type 0 where
  empty_image :
      cmd.image_size ≡ 0
      → nic_flash_mgr_round esp s
        ≡ some (
          tt,
          record (woken_up s) {
            flash_mgr = record s.flash_mgr { fw_state = fw_idle; update_active = false };
          },
        )
      → CarriesOut esp cmd s
  fails :
      (e : RtosErr) (t : Firmware)
      → 0 < cmd.image_size
      → handle_update_start esp cmd (woken_up s) ≡ some (e, t)
      → e ≢ rtos_ok
      → nic_flash_mgr_round esp s ≡ some (tt, t)
      → t.flash_mgr ≡ record s.flash_mgr { fw_state = fw_error; update_active = true }
      → CarriesOut esp cmd s
  undefined :
      0 < cmd.image_size
      → handle_update_start esp cmd (woken_up s) ≡ none
      → nic_flash_mgr_round esp s ≡ none
      → CarriesOut esp cmd s

-- What the completion code comes to, after the response: nothing is queued, or the command is the only
-- one in the queue, and is carried out.
pub data HandsOver (esp : Esp) (cmd : FlashCmd) (t : Firmware) : ℕ → Type 0 where
  refused : pending esp t.flash_mgr.cmd_queue t.world ≡ [] → HandsOver esp cmd t 1
  handed_over :
      pending esp t.flash_mgr.cmd_queue t.world ≡ flash_item cmd ∷ []
      → pending esp t.flash_mgr.cmd_queue (woken_up t).world ≡ []
      → CarriesOut esp cmd t
      → HandsOver esp cmd t 0

module _ (esp : Esp) (fifo : IsFifo esp) (cmd : FlashCmd) (s : Firmware)
    (is : cmd.cmd_type ≡ flash_cmd_code update_start) where
  settled :
      nic_flash_mgr_round esp s ≡ dispatch_flash_cmd esp cmd (woken_up s)
      → Settles esp cmd (woken_up s)
      → CarriesOut esp cmd s
  unfolding dispatch_flash_cmd
  settled round (nothing_to_write empty returns) = empty_image empty (round ∙ rw (is, returns) refl)
  settled round (left_active e t image returns bad same) =
      fails e t image returns bad (round ∙ rw (is, returns) refl) same
  settled round (no_result image returns) = undefined image returns (round ∙ rw (is, returns) refl)

  taken :
      pending esp s.flash_mgr.cmd_queue s.world ≡ flash_item cmd ∷ []
      → (pending esp s.flash_mgr.cmd_queue (woken_up s).world ≡ []) × CarriesOut esp cmd s
  unfolding nic_flash_mgr_round rtos_queue_receive ms_to_ticks
  taken waits =
      let queue = s.flash_mgr.cmd_queue in
      let (passes, item) = fifo.delivers s.world queue 0xffff_ffff (flash_item cmd) [] waits in
      (
        rw ((==_iff queue queue).1 refl, passes, waits) refl,
        settled (rw (passes, item) refl) (handle_update_start-Settles esp cmd (woken_up s)),
      )

-- The request was answered, and handed over.
pub record Updates (esp : Esp) (msg : PldmMsg) (cmd : FlashCmd) (s : Firmware) : Type 0 where
  pub responds : Responds esp msg s
  pub hands_over :
      HandsOver esp cmd
        (record s {
          world =
              i2c_slave_write_buffer 0 responds.bytes
                  (8 + length responds.content)
                  (esp.ticks_of_ms 100)
                ∷ responds.calls
              ++ s.world;
        })
        responds.cc

module _ (esp : Esp) (fifo : IsFifo esp) (msg : PldmMsg) (cmd : FlashCmd) (s : Firmware)
    (update : IsUpdate msg) (asks : update_command msg ≡ cmd)
    (is : cmd.cmd_type ≡ flash_cmd_code update_start)
    (same : s.bmc_mgr.flash_cmd_queue ≡ s.flash_mgr.cmd_queue)
    (none_waits : pending esp s.flash_mgr.cmd_queue s.world ≡ []) where
  decided :
      (bytes : List ℕ) (len ticks cc : ℕ) (calls : List HwCall) (content : List ℕ)
      → Decides esp msg s calls cc content
      → HandsOver esp cmd
          (record s { world = i2c_slave_write_buffer 0 bytes len ticks ∷ calls ++ s.world })
          cc
  decided bytes len ticks cc calls content (reading r known) = absurd (omega (arith, update.0, r.0))
  decided bytes len ticks cc calls content (no_such_sensor r beyond) =
      absurd (omega (arith, update.0, r.0))
  decided bytes len ticks cc calls content (update_queued u sent) =
      let t = record s {
        world = i2c_slave_write_buffer 0 bytes len ticks ∷ update_call esp msg s ∷ s.world;
      } in
      let waits : pending esp s.flash_mgr.cmd_queue t.world ≡ flash_item cmd ∷ [] =
        rw ((==_iff _ _).1 same, sent, none_waits, asks) refl in
      let (left, carried) = taken esp fifo cmd t is waits in handed_over waits left carried
  decided bytes len ticks cc calls content (update_refused u sent) =
      refused (rw ((==_iff _ _).1 same, sent) none_waits)
  decided bytes len ticks cc calls content (unknown no_reading no_update) =
      absurd (no_update update)

-- With arrays of their sizes and queues that are first in, first out, in every running state in
-- which no update command waits: a request for an update whose payload has eight bytes or more and
-- starts with an offset and a size, four bytes each and the lowest byte first, is answered once.
-- With an error, nothing is queued. With success, exactly the command with this offset and this
-- size, for partition 0, waits, and the next round of the flash manager takes it. If the size is 0,
-- the round returns with the update idle and inactive; else it fails, with the state
-- `FW_STATE_ERROR` and the update still marked as active, or is undefined, although the BMC was
-- told of a success.
pub dispatch_pldm-Updates :
    (esp : Esp) (offset size : ℕ) (rest : List ℕ) (msg : PldmMsg) (s : Firmware)
    → ((w : World) → IsSized (esp.uninit w))
    → IsFifo esp
    → IsRunning s
    → pending esp s.flash_mgr.cmd_queue s.world ≡ []
    → IsUpdate msg
    → offset < 2 ^ 32
    → size < 2 ^ 32
    → 8 ≤ msg.payload_len
    → msg.payload ≡ bytes_32 offset ++ bytes_32 size ++ rest
    → Updates esp msg (update_at offset size) s
dispatch_pldm-Updates esp offset size rest msg s sized fifo running none_waits update small small2
      long is =
    let (rx, nic, flash, cmd, isr_rx, isr_nic, distinct) = running.sound.linked in
    let r =
      dispatch_pldm-Responds esp msg s sized running.sound.transmits
        (omega (arith, running.sound.cache.calibrated)) in
    let asks = update_command-bytes_32 offset size rest msg small small2 long is in
    record {
      responds = r;
      hands_over =
          decided esp fifo msg (update_at offset size) s update asks refl (flash ∙ sym cmd)
            none_waits r.bytes (8 + length r.content) (esp.ticks_of_ms 100) r.cc r.calls r.content
            r.decides;
    }
