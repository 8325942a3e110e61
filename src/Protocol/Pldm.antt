-- ===== src/Protocol/Pldm.antt =====
-- components/protocol_hdlr/src/pldm.c, with the codes of include/protocol_hdlr.h: requests are
-- parsed out of a packet's payload, and responses are built into one. A call is `none` where a
-- `memcpy` leaves an array.
pub mod Parse
pub mod Response
mod Tests
use nic_ob_fw.Common.{
  ℕ, ◌+◌, ◌-◌, List, Option, none, some, ltb, ◌==◌, if◌then◌else◌, u16, ◌>>=◌, get_or, set, drop,
  memcpy,
}
use nic_ob_fw.Types.{
  RtosErr, rtos_ok, rtos_err_fail, MctpPacket, PldmMsg, pldm_max_payload, mctp_max_payload,
}

abbrev pub pldm_type_sensor_monitoring : ℕ
pldm_type_sensor_monitoring = 2

abbrev pub pldm_type_fw_update : ℕ
pldm_type_fw_update = 5

abbrev pub pldm_cmd_get_sensor_reading : ℕ
pldm_cmd_get_sensor_reading = 0x11

abbrev pub pldm_cmd_request_update : ℕ
pldm_cmd_request_update = 0x10

abbrev pub pldm_cc_success : ℕ
pldm_cc_success = 0x00

abbrev pub pldm_cc_error : ℕ
pldm_cc_error = 0x01

abbrev pub pldm_cc_invalid_cmd : ℕ
pldm_cc_invalid_cmd = 0x04

abbrev pub pldm_get_type : PldmMsg → ℕ
pldm_get_type msg = msg.pldm_type

abbrev pub pldm_get_command : PldmMsg → ℕ
pldm_get_command msg = msg.command

unfoldable pub pldm_init : RtosErr
pldm_init = rtos_ok

-- The return code, and what is left in `*pldm_out`.
unfoldable pub pldm_parse : MctpPacket → PldmMsg → Option (RtosErr × PldmMsg)
pldm_parse mctp_pkt pldm_out =
    if ltb mctp_pkt.payload_len 3
    then some (rtos_err_fail, pldm_out)
    else let full_len = mctp_pkt.payload_len - 3 in
      let data_len = if ltb pldm_max_payload full_len then pldm_max_payload else full_len in
      let msg = record pldm_out {
        instance_id = get_or mctp_pkt.payload 0 0;
        pldm_type = get_or mctp_pkt.payload 1 0;
        command = get_or mctp_pkt.payload 2 0;
        completion_code = 0;
        payload_len = data_len;
        reserved = 0;
      } in
      if ltb 0 data_len
      then memcpy pldm_out.payload 0 (drop 3 mctp_pkt.payload) data_len
        >>= (λ payload. some (rtos_ok, record msg { payload = payload }))
      else some (rtos_ok, msg)

-- The length that a response's data is cut to.
unfoldable pub clamp_response : ℕ → ℕ
clamp_response resp_len =
    if ltb (mctp_max_payload - 4) resp_len then mctp_max_payload - 4 else resp_len

-- `resp_data` is `none` for a null pointer. The header fields of `*mctp_out` are not written.
unfoldable pub pldm_build_response :
    PldmMsg → Option (List ℕ) → ℕ → ℕ → MctpPacket → Option (RtosErr × MctpPacket)
unfolding clamp_response
pldm_build_response request resp_data resp_len completion_code mctp_out =
    let head0 = set mctp_out.payload 0 request.instance_id in
    let head1 = set head0 1 request.pldm_type in
    let head2 = set head1 2 request.command in
    let head = set head2 3 completion_code in
    let len = clamp_response resp_len in
    elim resp_data [
      | none ↦ some (rtos_ok, record mctp_out { payload = head; payload_len = u16 (4 + resp_len) })
      | some bytes ↦
          if ltb 0 resp_len
          then memcpy head 4 bytes len >>= (λ payload.
            some (rtos_ok, record mctp_out { payload = payload; payload_len = u16 (4 + len) }))
          else some (rtos_ok, record mctp_out { payload = head; payload_len = u16 (4 + resp_len) })
    ]
