-- ===== src/ProtocolHdlr.antt =====
-- components/protocol_hdlr/src/protocol_hdlr.c: MCTP and PLDM, chained as function calls.
pub mod Receive
mod Tests
use nic_ob_fw.Common.{ℕ, List, Bool, true, false, Option, if◌then◌else◌}
use nic_ob_fw.Types.{RtosErr, rtos_ok, BmcRxMsg, PldmMsg}
use nic_ob_fw.Platform.{Esp}
use nic_ob_fw.Firmware.{M, pure, ◌>>=◌, ◌>>◌, get, modify, defined}
use nic_ob_fw.Hal.Bmc.{bmc_hal_transmit}
use nic_ob_fw.Protocol.Mctp.{mctp_init, mctp_process_rx, mctp_frame_tx}
use nic_ob_fw.Protocol.Pldm.{pldm_init, pldm_parse, pldm_build_response}

unfoldable pub protocol_hdlr_init : M RtosErr
unfolding mctp_init pldm_init
protocol_hdlr_init = do
  s ← get
  let initial = mctp_init s.mctp
  modify λ s. record s { mctp = initial.1 }
  (elim initial.0 [ rtos_ok ↦ pure pldm_init | err ↦ pure err ])

module _ (esp : Esp) where
  -- Whether there is a message, and what is left in `*pldm_out`. The packet starts uninitialised.
  unfoldable pub protocol_hdlr_process_rx : BmcRxMsg → PldmMsg → M (Bool × PldmMsg)
  protocol_hdlr_process_rx raw pldm_out = do
    s ← get
    rx ← defined (mctp_process_rx raw (esp.uninit s.world).mctp_pkt s.mctp)
    modify λ s. record s { mctp = rx.state }
    if rx.complete
        then (do
          parsed ← defined (pldm_parse rx.pkt pldm_out)
          pure (elim parsed.0 [ rtos_ok ↦ (true, parsed.1) | err ↦ (false, parsed.1) ]))
        else pure (false, pldm_out)

  -- The response packet and the frame's buffer start uninitialised.
  unfoldable pub protocol_hdlr_send_response : PldmMsg → Option (List ℕ) → ℕ → ℕ → M RtosErr
  protocol_hdlr_send_response request resp_data resp_len completion_code = do
    s ← get
    let start = esp.uninit s.world
    built ← defined (pldm_build_response request resp_data resp_len completion_code start.mctp_pkt)
    (elim built.0 [
      | rtos_ok ↦ do
        frame ← defined (mctp_frame_tx built.1 start.tx_buf)
        bmc_hal_transmit esp frame.0 frame.1
      | err ↦ pure err
    ])
