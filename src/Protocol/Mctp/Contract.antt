-- ===== src/Protocol/Mctp/Contract.antt =====
-- What it means that the reassembly of mctp.c implements the abstract receiver.
use nic_ob_fw.Common.{ℕ, ◌≤◌, ◌<◌, ◌≡◌, List, true, Option, none, some, get_or, take, length}
use nic_ob_fw.Types.{BmcRxMsg, MctpPacket, pldm_max_payload, mctp_max_payload}
use nic_ob_fw.Protocol.Mctp.{Reassembly, RxResult, incomplete}
use nic_ob_fw.Protocol.Mctp.Receiver.{Receiver, receiver}

-- The buffer keeps its size and the offset stays inside it.
pub record IsValid (r : Reassembly) : Type 0 where
  pub sized : length r.buf ≡ pldm_max_payload
  pub within : r.offset ≤ pldm_max_payload

-- A raw message as the interrupt handler posts it, with at least a header.
pub record IsFragment (m : BmcRxMsg) : Type 0 where
  pub sized : length m.bytes ≡ 32
  pub has_header : 4 ≤ m.len
  pub within : m.len ≤ 32

-- The packet carries the message `p`, under the header of its last fragment.
pub record Carries (m : BmcRxMsg) (p : List ℕ) (pkt : MctpPacket) : Type 0 where
  pub version : pkt.hdr_version ≡ get_or m.bytes 0 0
  pub dest : pkt.dest_eid ≡ get_or m.bytes 1 0
  pub src : pkt.src_eid ≡ get_or m.bytes 2 0
  pub payload_length : pkt.payload_len ≡ length p
  pub payload_bytes : take pkt.payload_len pkt.payload ≡ p
  pub payload_sized : length pkt.payload ≡ mctp_max_payload

-- How the outcome of a call stands to what the abstract receiver does: both wait, both deliver the
-- same message, or the message is longer than the packet's payload and the call overruns it.
pub data Agrees (m : BmcRxMsg) (out : MctpPacket) (res : Option RxResult)
    (spec : Receiver × Option (List ℕ)) : Type 0 where
  waits :
      (r : Reassembly)
      → IsValid r
      → spec ≡ (receiver r, none)
      → res ≡ incomplete out r
      → Agrees m out res spec
  delivers :
      (r : Reassembly) (pkt : MctpPacket) (p : List ℕ)
      → IsValid r
      → spec ≡ (receiver r, some p)
      → length p ≤ mctp_max_payload
      → res ≡ some (record { complete = true; pkt = pkt; state = r })
      → Carries m p pkt
      → Agrees m out res spec
  overruns :
      (s : Receiver) (p : List ℕ)
      → spec ≡ (s, some p)
      → mctp_max_payload < length p
      → res ≡ none
      → Agrees m out res spec
