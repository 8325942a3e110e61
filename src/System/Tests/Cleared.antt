-- ===== src/System/Tests/Cleared.antt =====
-- A round in which a whole request, two bytes of noise and two events wait.
use nic_ob_fw.Common.{refl, [], ◌∷◌, ◌++◌, arith, replicate}
use nic_ob_fw.Types.{BmcRxMsg, NicEventMsg}
use nic_ob_fw.Platform.{rx_item, nic_item, queue_send_from_isr}
use nic_ob_fw.Firmware.{Firmware}
use nic_ob_fw.Sample.{esp-IsSized}
use nic_ob_fw.Sample.Fifo.{fifo, fifo-IsFifo}
use nic_ob_fw.Protocol.Mctp.{is_som, is_eom, extract_seq}
use nic_ob_fw.Protocol.Mctp.Receiver.{receiver, receive, accept, fragment}
use nic_ob_fw.System.{IsRunning}
use nic_ob_fw.System.Sound.{called-IsRunning}
use nic_ob_fw.System.Cleared.{Clears, bmc_mgr_round-Clears}
use nic_ob_fw.System.Tests.{waiting, waiting-IsRunning, request, firmware_log}

abbrev in_one_piece : BmcRxMsg
in_one_piece = record { bytes = request ++ replicate 24 0; len = 8 }

abbrev two_bytes : BmcRxMsg
two_bytes = record { bytes = replicate 32 7; len = 2 }

abbrev earlier : NicEventMsg
earlier = record { event_type = 0; event_data = 0; timestamp_ms = 0 }

abbrev later : NicEventMsg
later = record { event_type = 1; event_data = 7; timestamp_ms = 0 }

abbrev after_request : Firmware
after_request = record waiting {
  world = queue_send_from_isr 1 (rx_item in_one_piece) ∷ waiting.world;
}

abbrev after_event : Firmware
after_event = record waiting {
  world = queue_send_from_isr 2 (nic_item later) ∷ after_request.world;
}

abbrev busy : Firmware
busy = record waiting { world = queue_send_from_isr 1 (rx_item two_bytes) ∷ after_event.world }

busy-IsRunning : IsRunning busy
busy-IsRunning =
    called-IsRunning (queue_send_from_isr 1 (rx_item two_bytes)) after_event
      (refl, (refl, omega arith))
      (called-IsRunning (queue_send_from_isr 2 (nic_item later)) after_request refl (
        called-IsRunning (queue_send_from_isr 1 (rx_item in_one_piece)) waiting
          (refl, (refl, omega arith)) waiting-IsRunning))

bmc_mgr_round-Clears_example :
    Clears fifo (in_one_piece ∷ two_bytes ∷ []) (earlier ∷ later ∷ []) [] 3 busy
unfolding receiver receive accept fragment is_som is_eom extract_seq
bmc_mgr_round-Clears_example =
    bmc_mgr_round-Clears fifo (in_one_piece ∷ two_bytes ∷ []) (earlier ∷ later ∷ []) [] 3 busy
      esp-IsSized fifo-IsFifo busy-IsRunning refl (omega arith, (tt, tt)) refl (omega arith)
      (omega arith) firmware_log
