-- ===== src/ProtocolHdlr/Tests.antt =====
-- Witness of the protocol handler.
use nic_ob_fw.Common.{refl, ◌∷◌, arith, replicate}
use nic_ob_fw.Types.{BmcRxMsg}
use nic_ob_fw.Sample.{esp, esp-IsSized, message, firmware}
use nic_ob_fw.Protocol.Mctp.Contract.{IsFragment, IsValid}
use nic_ob_fw.ProtocolHdlr.Receive.{Hears, protocol_hdlr_process_rx-Hears}

-- A request for the reading of sensor 1, in one fragment.
abbrev raw : BmcRxMsg
raw = record { bytes = 1 ∷ 8 ∷ 9 ∷ 0xc0 ∷ 1 ∷ 2 ∷ 0x11 ∷ 1 ∷ replicate 24 0; len = 8 }

raw-IsFragment : IsFragment raw
raw-IsFragment = record { sized = refl; has_header = omega arith; within = omega arith }

mctp-IsValid : IsValid firmware.mctp
mctp-IsValid = record { sized = refl; within = omega arith }

protocol_hdlr_process_rx-Hears_example : Hears esp raw message firmware
protocol_hdlr_process_rx-Hears_example =
    protocol_hdlr_process_rx-Hears esp raw message firmware raw-IsFragment
      (esp-IsSized firmware.world) refl mctp-IsValid
