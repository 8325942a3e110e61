-- ===== src/Protocol/Mctp.antt =====
-- components/protocol_hdlr/src/mctp.c: reassembly of messages from fragments, and framing. The
-- module's four static variables are the record `Reassembly`. A call is `none` where a `memcpy`
-- leaves an array, which C leaves undefined.
pub mod Receiver
pub mod Contract
pub mod Refine
pub mod Overrun
pub mod Messages
pub mod Framing
mod Tests
use nic_ob_fw.Common.{
  ℕ, ◌+◌, ◌-◌, List, [], ◌∷◌, Bool, true, false, not, Option, none, some, bit_and, bit_or, ltb,
  ◌==◌, if◌then◌else◌, ◌>>>◌, u16, ◌>>=◌, get_or, drop, replicate, memcpy,
}
use nic_ob_fw.Types.{RtosErr, rtos_ok, BmcRxMsg, MctpPacket, pldm_max_payload}

abbrev pub mctp_flag_som : ℕ
mctp_flag_som = 0x80

abbrev pub mctp_flag_eom : ℕ
mctp_flag_eom = 0x40

abbrev pub mctp_seq_mask : ℕ
mctp_seq_mask = 0x30

pub record Reassembly : Type 0 where
  pub buf : List ℕ
  pub offset : ℕ
  pub expected_seq : ℕ
  pub active : Bool

unfoldable pub extract_seq : ℕ → ℕ
extract_seq flags_seq = bit_and flags_seq mctp_seq_mask >>> 4

unfoldable pub is_som : ℕ → Bool
is_som flags_seq = not (bit_and flags_seq mctp_flag_som == 0)

unfoldable pub is_eom : ℕ → Bool
is_eom flags_seq = not (bit_and flags_seq mctp_flag_eom == 0)

unfoldable pub mctp_init : Reassembly → RtosErr × Reassembly
mctp_init r = (
  rtos_ok,
  record { buf = replicate pldm_max_payload 0; offset = 0; expected_seq = 0; active = false },
)

unfoldable pub mctp_reset : Reassembly → Reassembly
mctp_reset r = record r { offset = 0; expected_seq = 0; active = false }

-- What a call returns, the packet that it leaves in `*pkt_out`, and the module's state after it.
pub record RxResult : Type 0 where
  pub complete : Bool
  pub pkt : MctpPacket
  pub state : Reassembly

-- `return false`.
abbrev pub incomplete : MctpPacket → Reassembly → Option RxResult
incomplete pkt r = some (record { complete = false; pkt = pkt; state = r })

-- The start of a message resets the reassembly.
unfoldable pub begin_message : ℕ → Reassembly → Reassembly
begin_message flags_seq r =
    if is_som flags_seq
    then record r { offset = 0; active = true; expected_seq = extract_seq flags_seq }
    else r

-- The last fragment: the output packet is filled in from the buffer.
unfoldable pub finish_message : BmcRxMsg → MctpPacket → Reassembly → Option RxResult
finish_message raw pkt_out r = do
  payload ← memcpy pkt_out.payload 0 r.buf r.offset
  some (record {
    complete = true;
    pkt = record {
      hdr_version = get_or raw.bytes 0 0;
      dest_eid = get_or raw.bytes 1 0;
      src_eid = get_or raw.bytes 2 0;
      flags_seq = get_or raw.bytes 3 0;
      payload_len = r.offset;
      reserved = 0;
      payload = payload;
    };
    state = record r { active = false; offset = 0 };
  })

-- The payload joins the buffer.
unfoldable pub append_payload : BmcRxMsg → MctpPacket → Reassembly → Option RxResult
append_payload raw pkt_out r = do
  let payload_len = raw.len - 4
  buf ← memcpy r.buf r.offset (drop 4 raw.bytes) payload_len
  let next = record r {
    buf = buf;
    offset = u16 (r.offset + payload_len);
    expected_seq = bit_and (r.expected_seq + 1) 0x03;
  }
  if is_eom (get_or raw.bytes 3 0) then finish_message raw pkt_out next else incomplete pkt_out next

-- The three guards of a fragment once the message has begun.
unfoldable pub check_fragment : BmcRxMsg → MctpPacket → Reassembly → Option RxResult
check_fragment raw pkt_out r =
    if not r.active
    then incomplete pkt_out r
    else if not (extract_seq (get_or raw.bytes 3 0) == r.expected_seq)
    then incomplete pkt_out (mctp_reset r)
    else if ltb pldm_max_payload (r.offset + (raw.len - 4))
    then incomplete pkt_out (mctp_reset r)
    else append_payload raw pkt_out r

unfoldable pub mctp_process_rx : BmcRxMsg → MctpPacket → Reassembly → Option RxResult
mctp_process_rx raw pkt_out r =
    if ltb raw.len 4
    then incomplete pkt_out r
    else check_fragment raw pkt_out (begin_message (get_or raw.bytes 3 0) r)

-- The bytes left in `tx_buf`, and `*tx_len`.
unfoldable pub mctp_frame_tx : MctpPacket → List ℕ → Option (List ℕ × ℕ)
mctp_frame_tx pkt tx_buf =
    let header =
      pkt.hdr_version ∷ pkt.dest_eid ∷ pkt.src_eid ∷ (bit_or mctp_flag_som mctp_flag_eom) ∷ [] in
    do
      with_header ← memcpy tx_buf 0 header 4
      framed ← memcpy with_header 4 pkt.payload pkt.payload_len
      some (framed, u16 (4 + pkt.payload_len))
