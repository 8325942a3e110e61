-- ===== src/BmcMgr/Dispatch.antt =====
-- The frame that goes out for a request.
use nic_ob_fw.Common.{
  ℕ, ◌+◌, ◌≤◌, ◌≡◌, refl, sym, ap, ◌∙◌, List, ◌∷◌, ◌++◌, true, some, arith, if◌then◌else◌, take,
  length, length-take,
}
use nic_ob_fw.Types.{RtosErr, rtos_ok, rtos_err_fail, PldmMsg}
use nic_ob_fw.Platform.{Esp, IsSized, World, HwCall, is_positive, i2c_slave_write_buffer}
use nic_ob_fw.Firmware.{Firmware}
use nic_ob_fw.Hal.Bmc.{bmc_hal_transmit}
use nic_ob_fw.Protocol.Mctp.{mctp_frame_tx}
use nic_ob_fw.Protocol.Mctp.Framing.{IsPacket, framed, mctp_frame_tx_fits, framed_prefix}
use nic_ob_fw.Protocol.Pldm.{clamp_response}
use nic_ob_fw.Protocol.Pldm.Response.{Answers, pldm_build_response-Answers}
use nic_ob_fw.ProtocolHdlr.{protocol_hdlr_send_response}
use nic_ob_fw.BmcMgr.{dispatch_pldm}
use nic_ob_fw.BmcMgr.Wire.{Response}
use nic_ob_fw.BmcMgr.Decide.{Decides, dispatch_command-Decided}

-- The frame went out as the last call, after the calls that the decision took: the packet's header,
-- the request's codes, the completion code and the content.
pub record Responds (esp : Esp) (msg : PldmMsg) (s : Firmware) : Type 0 where
  pub calls : List HwCall
  pub cc : ℕ
  pub content : List ℕ
  pub decides : Decides esp msg s calls cc content
  pub bytes : List ℕ
  pub returns :
      dispatch_pldm esp msg s
      ≡ some (
        tt,
        record s {
          world =
              i2c_slave_write_buffer 0 bytes (8 + length content) (esp.ticks_of_ms 100) ∷ calls
              ++ s.world;
        },
      )
  pub frame :
      let header = (esp.uninit (calls ++ s.world)).mctp_pkt in
      take (8 + length content) bytes
      ≡ header.hdr_version ∷ header.dest_eid ∷ header.src_eid ∷ 0xc0 ∷ msg.instance_id
        ∷ msg.pldm_type ∷ msg.command ∷ cc ∷ content
  pub fits : 8 + length content ≤ 24

module _ (esp : Esp) (msg : PldmMsg) (r : Response) (s : Firmware)
    (u : IsSized (esp.uninit s.world)) (ready : s.bmc_hal.initialized ≡ true)
    (sized : r.len ≤ length r.buf) (short : r.len ≤ 16) where
  abbrev content : List ℕ
  content = take r.len r.buf

  -- The response and its frame went out.
  record Sent : Type 0 where
    err : RtosErr
    bytes : List ℕ
    returns :
        protocol_hdlr_send_response esp msg (some r.buf) r.len r.cc s
        ≡ some (
          err,
          record s {
            world =
                i2c_slave_write_buffer 0 bytes (8 + length content) (esp.ticks_of_ms 100) ∷ s.world;
          },
        )
    frame :
        let header = (esp.uninit s.world).mctp_pkt in
        take (8 + length content) bytes
        ≡ header.hdr_version ∷ header.dest_eid ∷ header.src_eid ∷ 0xc0 ∷ msg.instance_id
          ∷ msg.pldm_type ∷ msg.command ∷ r.cc ∷ content

  sent : Sent
  unfolding protocol_hdlr_send_response bmc_hal_transmit clamp_response
  sent =
      let (pkt, built, answers, version, dest, src) =
        pldm_build_response-Answers msg r.cc (esp.uninit s.world).mctp_pkt r.buf r.len
          u.mctp_payload sized in
      let cut : clamp_response r.len ≡ r.len = ground arith in
      let answer : Answers msg r.cc content pkt = rw cut at answers in
      let p : IsPacket pkt = record { sized = answer.sized; within = answer.within } in
      let tx_buf = (esp.uninit s.world).tx_buf in
      let len : 4 + pkt.payload_len ≡ 8 + length content = omega (arith, answer.payload_length) in
      let fits : pkt.payload_len ≤ 28 =
        omega (arith, answer.payload_length, length-take r.len r.buf, short) in
      let bytes = framed pkt tx_buf p u.tx_buf in
      let framing : mctp_frame_tx pkt tx_buf ≡ some (bytes, 8 + length content) =
        mctp_frame_tx_fits pkt tx_buf p u.tx_buf fits ∙ ap (λ (n : ℕ). some (bytes, n)) len in
      let call = i2c_slave_write_buffer 0 bytes (8 + length content) (esp.ticks_of_ms 100) in
      record {
        err = if is_positive (esp.answer s.world call) then rtos_ok else rtos_err_fail;
        bytes = bytes;
        returns = rw (built, framing, ready) refl;
        frame =
            ap (λ (n : ℕ). take n bytes) (sym len)
            ∙ framed_prefix pkt tx_buf p u.tx_buf fits
            ∙ rw (answer.holds, version, dest, src) refl;
      }

-- With the transmitter initialised, arrays of their sizes and a sensor count of at most 16, the
-- size of the cache, every request gets exactly one answer: the call returns; it makes the calls
-- that the command decides and then sends a frame of at most 24 bytes, which fits the buffer, with
-- the request's codes, the completion code and the content.
pub dispatch_pldm-Responds :
    (esp : Esp) (msg : PldmMsg) (s : Firmware)
    → ((w : World) → IsSized (esp.uninit w))
    → s.bmc_hal.initialized ≡ true
    → s.sensor_mgr.cache.count ≤ 16
    → Responds esp msg s
unfolding dispatch_pldm
dispatch_pldm-Responds esp msg s u ready inside =
    let buf = (esp.uninit s.world).resp_buf in
    let d = dispatch_command-Decided esp msg buf s (u s.world).resp_buf inside in
    let after = record s { world = d.calls ++ s.world } in
    let out = sent esp msg d.response after (u after.world) ready d.sized d.short in
    let len = length-take d.response.len d.response.buf in
    record {
      calls = d.calls;
      cc = d.response.cc;
      content = take d.response.len d.response.buf;
      decides = d.decides;
      bytes = out.bytes;
      returns = rw (d.returns, out.returns) refl;
      frame = out.frame;
      fits = omega (arith, len, d.short);
    }
