-- ===== src/Protocol/Mctp/Overrun.antt =====
-- Where `mctp_process_rx` leaves its arrays: `s_reasm_buf` has room for 256 bytes, the payload of
-- `mctp_packet_t` for 64, and the last `memcpy` copies the whole message.
use nic_ob_fw.Common.{ℕ, ◌<◌, ◌≡◌, ◌↔◌, List, Option, none, some, arith, length}
use nic_ob_fw.Types.{BmcRxMsg, MctpPacket, mctp_max_payload}
use nic_ob_fw.Protocol.Mctp.{Reassembly, RxResult, mctp_process_rx}
use nic_ob_fw.Protocol.Mctp.Receiver.{Receiver, receive, fragment, receiver}
use nic_ob_fw.Protocol.Mctp.Refine.{mctp_process_rx-Agrees}
use nic_ob_fw.Protocol.Mctp.Contract.{IsValid, IsFragment, Agrees, waits, delivers, overruns}

-- The abstract receiver delivers a message that the packet has no room for.
abbrev pub Overlong : Receiver × Option (List ℕ) → Type 0
Overlong spec = (s : Receiver) × (p : List ℕ) × (spec ≡ (s, some p)) × (mctp_max_payload < length p)

Agrees-none :
    (m : BmcRxMsg) (out : MctpPacket) (res : Option RxResult) (spec : Receiver × Option (List ℕ))
    → Agrees m out res spec
    → (res ≡ none) ↔ Overlong spec
Agrees-none m out res spec (waits r v e returns) =
    (λ stuck. absurd (cc), λ (s, p, e', long). absurd (cc))
Agrees-none m out res spec (delivers r pkt p v e short returns c) =
    (λ stuck. absurd (cc), λ (s, p', e', long). absurd (ground arith))
Agrees-none m out res spec (overruns s p e long returns) = (λ stuck. (s, p, e, long), λ _. returns)

-- On a fragment of at least four bytes, in a well-formed state and into a packet with room for 64
-- bytes, the call runs past the end of an array exactly when it completes a message longer than
-- those 64 bytes.
pub mctp_process_rx-overrun_iff :
    (m : BmcRxMsg) (out : MctpPacket) (r : Reassembly)
    → IsFragment m
    → length out.payload ≡ mctp_max_payload
    → IsValid r
    → (mctp_process_rx m out r ≡ none) ↔ Overlong (receive (receiver r) (fragment m))
mctp_process_rx-overrun_iff m out r frag sized v =
    Agrees-none m out _ _ (mctp_process_rx-Agrees m out frag sized r v)
