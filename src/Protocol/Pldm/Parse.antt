-- ===== src/Protocol/Pldm/Parse.antt =====
-- `pldm_parse` on every length of payload.
use nic_ob_fw.Common.{
  ℕ, ◌+◌, ◌-◌, ◌≤◌, ◌<◌, ◌≡◌, refl, ◌∙◌, some, inl, inr, arith, ltb, get_or, take, drop, length,
  overwrite, memcpy_fits, length-overwrite, take-overwrite_start, length-drop, le→ltb_false, ltb→lt,
  Bool-cases, ◌⊎◌,
}
use nic_ob_fw.Types.{
  rtos_ok, rtos_err_fail, MctpPacket, PldmMsg, pldm_max_payload, mctp_max_payload,
}
use nic_ob_fw.Protocol.Pldm.{pldm_parse}

-- The parsed message: three header bytes and the rest of the payload.
pub record Parsed (pkt : MctpPacket) (msg : PldmMsg) : Type 0 where
  pub instance : msg.instance_id ≡ get_or pkt.payload 0 0
  pub type : msg.pldm_type ≡ get_or pkt.payload 1 0
  pub command : msg.command ≡ get_or pkt.payload 2 0
  pub completion : msg.completion_code ≡ 0
  pub data_length : msg.payload_len ≡ pkt.payload_len - 3
  pub data_bytes :
      take msg.payload_len msg.payload ≡ take (pkt.payload_len - 3) (drop 3 pkt.payload)
  pub sized : length msg.payload ≡ pldm_max_payload

module _ (pkt : MctpPacket) (out : PldmMsg) (pkt_sized : length pkt.payload ≡ mctp_max_payload)
    (out_sized : length out.payload ≡ pldm_max_payload) where
  length-rest : length (drop 3 pkt.payload) ≡ 61
  length-rest = omega (arith, length-drop 3 pkt.payload, pkt_sized)

  -- A payload of fewer than three bytes is refused, and the output is left alone; one of three to
  -- 64 bytes is parsed.
  pub pldm_parse-within :
      pkt.payload_len ≤ mctp_max_payload
      → ((pkt.payload_len < 3) × (pldm_parse pkt out ≡ some (rtos_err_fail, out)))
        ⊎ ((msg : PldmMsg) × (3 ≤ pkt.payload_len)
            × (pldm_parse pkt out ≡ some (rtos_ok, msg))
            × Parsed pkt msg)
  unfolding pldm_parse
  pldm_parse-within within = elim (Bool-cases (ltb pkt.payload_len 3)) [
    | inl short ↦ inl (ltb→lt pkt.payload_len 3 short, rw short)
    | inr long ↦
        let uncut = le→ltb_false pldm_max_payload (pkt.payload_len - 3) (omega arith) in
        elim (Bool-cases (ltb 0 (pkt.payload_len - 3))) [
          | inl more ↦
              let room : 0 + (pkt.payload_len - 3) ≤ length out.payload =
                omega (arith, out_sized) in
              let enough : pkt.payload_len - 3 ≤ length (drop 3 pkt.payload) =
                omega (arith, length-rest) in
              inr (
                record (header (pkt.payload_len - 3)) {
                  payload = overwrite out.payload 0 (drop 3 pkt.payload) (pkt.payload_len - 3);
                },
                ground arith,
                rw (
                  long,
                  uncut,
                  more,
                  memcpy_fits out.payload 0 (drop 3 pkt.payload) (pkt.payload_len - 3) room enough,
                ),
                record {
                  instance = refl;
                  type = refl;
                  command = refl;
                  completion = refl;
                  data_length = refl;
                  data_bytes =
                      take-overwrite_start out.payload (drop 3 pkt.payload) (pkt.payload_len - 3)
                        (omega (arith, out_sized)) enough;
                  sized =
                      length-overwrite out.payload 0 (drop 3 pkt.payload) (pkt.payload_len - 3) room
                        enough
                      ∙ out_sized;
                },
              )
          | inr bare ↦
              let none_left : pkt.payload_len - 3 ≡ 0 = ground arith in
              inr (
                header (pkt.payload_len - 3),
                ground arith,
                rw (long, uncut, bare),
                record {
                  instance = refl;
                  type = refl;
                  command = refl;
                  completion = refl;
                  data_length = refl;
                  data_bytes = rw none_left;
                  sized = out_sized;
                },
              )
        ]
  ]
    where
      header : ℕ → PldmMsg
      header n = record out {
        instance_id = get_or pkt.payload 0 0;
        pldm_type = get_or pkt.payload 1 0;
        command = get_or pkt.payload 2 0;
        completion_code = 0;
        payload_len = n;
        reserved = 0;
      }
