-- ===== src/Protocol/Mctp/Tests.antt =====
-- Tests and witnesses of the MCTP code.
use nic_ob_fw.Common.{◌≡◌, ◌<◌, ◌↔◌, refl, [], ◌∷◌, none, arith, replicate}
use nic_ob_fw.Types.{BmcRxMsg}
use nic_ob_fw.Sample.{packet, reassembly}
use nic_ob_fw.Protocol.Mctp.{mctp_process_rx, mctp_frame_tx, is_som, is_eom, extract_seq}
use nic_ob_fw.Protocol.Mctp.Receiver.{receive, receiver, fragment}
use nic_ob_fw.Protocol.Mctp.Contract.{IsFragment, IsValid}
use nic_ob_fw.Protocol.Mctp.Overrun.{Overlong, mctp_process_rx-overrun_iff}
use nic_ob_fw.Protocol.Mctp.Messages.{frames, process_all, Delivered, process_all-frames}
use nic_ob_fw.Protocol.Mctp.Framing.{IsPacket, mctp_frame_tx-overrun_iff}

-- Two fragments of one message: 1, 2, 3 and then 4, 5.
abbrev first : BmcRxMsg
first = record { bytes = 1 ∷ 8 ∷ 9 ∷ 0x80 ∷ 1 ∷ 2 ∷ 3 ∷ replicate 25 0; len = 7 }

abbrev second : BmcRxMsg
second = record { bytes = 1 ∷ 8 ∷ 9 ∷ 0x50 ∷ 4 ∷ 5 ∷ replicate 26 0; len = 6 }

first-IsFragment : IsFragment first
first-IsFragment = record { sized = refl; has_header = omega arith; within = omega arith }

second-IsFragment : IsFragment second
second-IsFragment = record { sized = refl; has_header = omega arith; within = omega arith }

reassembly-IsValid : IsValid reassembly
reassembly-IsValid = record { sized = refl; within = omega arith }

packet-IsPacket : IsPacket packet
packet-IsPacket = record { sized = refl; within = omega arith }

process_all-frames_example :
    Delivered (1 ∷ 2 ∷ 3 ∷ 4 ∷ 5 ∷ []) (process_all (first ∷ second ∷ []) packet reassembly)
unfolding frames fragment is_som is_eom extract_seq mathlib.Core.List.flatten
process_all-frames_example =
    process_all-frames 0 (1 ∷ 2 ∷ 3 ∷ []) ((4 ∷ 5 ∷ []) ∷ []) (first ∷ second ∷ []) packet
      reassembly (first-IsFragment, (second-IsFragment, tt)) refl (omega arith) refl
      reassembly-IsValid

mctp_process_rx-overrun_iff_example :
    (mctp_process_rx first packet reassembly ≡ none)
    ↔ Overlong (receive (receiver reassembly) (fragment first))
mctp_process_rx-overrun_iff_example =
    mctp_process_rx-overrun_iff first packet reassembly first-IsFragment refl reassembly-IsValid

mctp_frame_tx-overrun_iff_example :
    (mctp_frame_tx packet (replicate 32 0) ≡ none) ↔ (28 < packet.payload_len)
mctp_frame_tx-overrun_iff_example =
    mctp_frame_tx-overrun_iff packet (replicate 32 0) packet-IsPacket refl
