-- ===== src/System/Tests/Handover.antt =====
-- A request for an update of 4096 bytes at 65536, in a state in which no command waits.
use nic_ob_fw.Common.{refl, ◌∷◌, ◌++◌, arith, replicate}
use nic_ob_fw.Types.{PldmMsg}
use nic_ob_fw.Platform.{queue_receive}
use nic_ob_fw.Firmware.{Firmware}
use nic_ob_fw.Sample.{esp-IsSized, message}
use nic_ob_fw.Sample.Fifo.{fifo, fifo-IsFifo}
use nic_ob_fw.BmcMgr.Wire.{bytes_32}
use nic_ob_fw.System.{IsRunning}
use nic_ob_fw.System.Sound.{called-IsRunning}
use nic_ob_fw.System.Handover.{Updates, update_at, dispatch_pldm-Updates}
use nic_ob_fw.System.Tests.{waiting, waiting-IsRunning}

abbrev update_request : PldmMsg
update_request = record message {
  pldm_type = 5;
  command = 0x10;
  payload_len = 8;
  payload = bytes_32 65536 ++ bytes_32 4096 ++ replicate 248 0;
}

abbrev emptied : Firmware
emptied = record waiting { world = queue_receive 4 0xffff_ffff ∷ waiting.world }

emptied-IsRunning : IsRunning emptied
emptied-IsRunning = called-IsRunning (queue_receive 4 0xffff_ffff) waiting tt waiting-IsRunning

dispatch_pldm-Updates_example : Updates fifo update_request (update_at 65536 4096) emptied
dispatch_pldm-Updates_example =
    dispatch_pldm-Updates fifo 65536 4096 (replicate 248 0) update_request emptied esp-IsSized
      fifo-IsFifo emptied-IsRunning refl (refl, refl) (omega arith) (omega arith) (omega arith) refl
