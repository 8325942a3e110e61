-- ===== src/System/Tests/Delivery.antt =====
-- A request in two fragments, which come in over the bus and are answered once; and a request that
-- waits in the queue.
use mathlib.Core.List.{flatten}
use nic_ob_fw.Common.{refl, [], ◌∷◌, arith, replicate}
use nic_ob_fw.Types.{BmcRxMsg}
use nic_ob_fw.Platform.{rx_item, queue_send_from_isr}
use nic_ob_fw.Firmware.{Firmware}
use nic_ob_fw.Sample.{esp-IsSized}
use nic_ob_fw.Sample.Fifo.{fifo, fifo-IsFifo, fifo-HasRoom}
use nic_ob_fw.Protocol.Mctp.{is_som, is_eom, extract_seq}
use nic_ob_fw.Protocol.Mctp.Receiver.{receiver, receive, accept, fragment}
use nic_ob_fw.Protocol.Mctp.Messages.{frames}
use nic_ob_fw.BmcMgr.Replies.Drained.{Empties}
use nic_ob_fw.System.{IsRunning}
use nic_ob_fw.System.Sound.{called-IsRunning}
use nic_ob_fw.System.Emptied.{drain_bmc_rx-Empties}
use nic_ob_fw.System.Arrival.{Block}
use nic_ob_fw.System.Delivery.{Delivers, drain_bmc_rx-Delivers}
use nic_ob_fw.System.Tests.{waiting, waiting-IsRunning}

abbrev first_block : Block
first_block = record { bytes = 1 ∷ 8 ∷ 9 ∷ 0x80 ∷ 1 ∷ 2 ∷ []; len = 6 }

abbrev second_block : Block
second_block = record { bytes = 1 ∷ 8 ∷ 9 ∷ 0x50 ∷ 0x11 ∷ 1 ∷ []; len = 6 }

drain_bmc_rx-Delivers_example :
    Delivers fifo (first_block ∷ second_block ∷ []) (1 ∷ 2 ∷ 0x11 ∷ 1 ∷ []) 3 waiting
unfolding frames is_som is_eom extract_seq flatten
drain_bmc_rx-Delivers_example =
    drain_bmc_rx-Delivers fifo 0 (1 ∷ 2 ∷ []) ((0x11 ∷ 1 ∷ []) ∷ [])
      (first_block ∷ second_block ∷ []) 3 waiting esp-IsSized fifo-IsFifo (fifo-HasRoom 1 8)
      waiting-IsRunning (omega arith) refl
      (
        record { has_header = omega arith; one_block = omega arith; handed_over = omega arith },
        (
          record { has_header = omega arith; one_block = omega arith; handed_over = omega arith },
          tt,
        ),
      )
      refl (omega arith) (omega arith) (omega arith) (omega arith)

-- A whole request, and then two bytes that are less than a header.
abbrev whole_request : BmcRxMsg
whole_request = record { bytes = 1 ∷ 8 ∷ 9 ∷ 0xc0 ∷ 1 ∷ 2 ∷ 0x11 ∷ 1 ∷ replicate 24 0; len = 8 }

abbrev noise : BmcRxMsg
noise = record { bytes = replicate 32 7; len = 2 }

abbrev two_wait : Firmware
two_wait = record waiting {
  world =
      queue_send_from_isr 1 (rx_item noise)
      ∷ queue_send_from_isr 1 (rx_item whole_request)
      ∷ waiting.world;
}

two_wait-IsRunning : IsRunning two_wait
two_wait-IsRunning =
    called-IsRunning (queue_send_from_isr 1 (rx_item noise)) _ (refl, (refl, omega arith))
      (called-IsRunning (queue_send_from_isr 1 (rx_item whole_request)) waiting
        (refl, (refl, omega arith)) waiting-IsRunning)

drain_bmc_rx-Empties_example : Empties fifo (whole_request ∷ noise ∷ []) 3 two_wait
unfolding receiver receive accept fragment is_som is_eom extract_seq
drain_bmc_rx-Empties_example =
    drain_bmc_rx-Empties fifo (whole_request ∷ noise ∷ []) 3 two_wait esp-IsSized fifo-IsFifo
      two_wait-IsRunning refl (omega arith, (tt, tt)) (omega arith)
