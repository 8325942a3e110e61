-- ===== src/ProtocolHdlr/Receive.antt =====
-- From fragments to requests: `protocol_hdlr_process_rx` against the abstract receiver.
use nic_ob_fw.Common.{
  ℕ, ◌-◌, ◌≤◌, ◌<◌, ◌≡◌, refl, sym, ap, ◌∙◌, List, true, false, some, none, inl, inr, arith, get_or,
  take, drop, length, get_or-take, drop-take,
}
use nic_ob_fw.Types.{BmcRxMsg, MctpPacket, PldmMsg, mctp_max_payload, pldm_max_payload}
use nic_ob_fw.Platform.{Esp, IsSized}
use nic_ob_fw.Firmware.{Firmware}
use nic_ob_fw.Protocol.Mctp.{Reassembly, mctp_process_rx}
use nic_ob_fw.Protocol.Mctp.Receiver.{Receiver, receive, receiver, fragment}
use nic_ob_fw.Protocol.Mctp.Refine.{mctp_process_rx-Agrees}
use nic_ob_fw.Protocol.Mctp.Contract.{
  IsValid, IsFragment, Carries, Agrees, waits, delivers, overruns,
}
use nic_ob_fw.Protocol.Pldm.Parse.{Parsed, pldm_parse-within}
use nic_ob_fw.ProtocolHdlr.{protocol_hdlr_process_rx}

-- The request that a message of three bytes or more is.
pub record IsRequest (p : List ℕ) (msg : PldmMsg) : Type 0 where
  pub instance : msg.instance_id ≡ get_or p 0 0
  pub type : msg.pldm_type ≡ get_or p 1 0
  pub command : msg.command ≡ get_or p 2 0
  pub content : take msg.payload_len msg.payload ≡ drop 3 p

-- How a call stands to what the abstract receiver does with the fragment.
pub data Hears (esp : Esp) (raw : BmcRxMsg) (out : PldmMsg) (s : Firmware) : Type 0 where
  nothing_yet :
      (r : Reassembly)
      → receive (receiver s.mctp) (fragment raw) ≡ (receiver r, none)
      → IsValid r
      → protocol_hdlr_process_rx esp raw out s ≡ some ((false, out), record s { mctp = r })
      → Hears esp raw out s
  too_short :
      (r : Reassembly) (p : List ℕ)
      → receive (receiver s.mctp) (fragment raw) ≡ (receiver r, some p)
      → IsValid r
      → length p < 3
      → protocol_hdlr_process_rx esp raw out s ≡ some ((false, out), record s { mctp = r })
      → Hears esp raw out s
  request :
      (r : Reassembly) (p : List ℕ) (msg : PldmMsg)
      → receive (receiver s.mctp) (fragment raw) ≡ (receiver r, some p)
      → IsValid r
      → 3 ≤ length p
      → length p ≤ mctp_max_payload
      → protocol_hdlr_process_rx esp raw out s ≡ some ((true, msg), record s { mctp = r })
      → IsRequest p msg
      → Hears esp raw out s
  too_long :
      (r : Receiver) (p : List ℕ)
      → receive (receiver s.mctp) (fragment raw) ≡ (r, some p)
      → mctp_max_payload < length p
      → protocol_hdlr_process_rx esp raw out s ≡ none
      → Hears esp raw out s

Parsed-IsRequest :
    (raw : BmcRxMsg) (p : List ℕ) (pkt : MctpPacket) (msg : PldmMsg)
    → Carries raw p pkt
    → 3 ≤ pkt.payload_len
    → Parsed pkt msg
    → IsRequest p msg
Parsed-IsRequest raw p pkt msg c long parsed = record {
  instance = parsed.instance ∙ byte 0 (omega (arith, long));
  type = parsed.type ∙ byte 1 (omega (arith, long));
  command = parsed.command ∙ byte 2 (omega (arith, long));
  content =
      parsed.data_bytes
      ∙ sym (drop-take 3 (pkt.payload_len - 3) pkt.payload)
      ∙ ap (λ (k : ℕ). drop 3 (take k pkt.payload)) (omega (arith, long))
      ∙ ap (drop 3) c.payload_bytes;
}
  where
    byte : (i : ℕ) → i < pkt.payload_len → get_or pkt.payload i 0 ≡ get_or p i 0
    byte i h =
        sym (get_or-take i pkt.payload_len pkt.payload 0 h)
        ∙ ap (λ (xs : List ℕ). get_or xs i 0) c.payload_bytes

-- On a fragment of four to 32 bytes, in a well-formed state and with arrays of their sizes, the
-- call does what the abstract receiver does: it waits when that waits; when a message is complete
-- it hands on its three header bytes and its content as a request, or refuses it if it has fewer
-- than three bytes; and it is undefined exactly for a message of more than 64 bytes.
pub protocol_hdlr_process_rx-Hears :
    (esp : Esp) (raw : BmcRxMsg) (out : PldmMsg) (s : Firmware)
    → IsFragment raw
    → IsSized (esp.uninit s.world)
    → length out.payload ≡ pldm_max_payload
    → IsValid s.mctp
    → Hears esp raw out s
unfolding protocol_hdlr_process_rx
protocol_hdlr_process_rx-Hears esp raw out s frag u sized v =
    go (mctp_process_rx-Agrees raw (esp.uninit s.world).mctp_pkt frag u.mctp_payload s.mctp v)
  where
    go :
        Agrees raw
          (esp.uninit s.world).mctp_pkt
          (mctp_process_rx raw (esp.uninit s.world).mctp_pkt s.mctp)
          (receive (receiver s.mctp) (fragment raw))
        → Hears esp raw out s
    go (waits r v' e returns) = nothing_yet r e v' (rw returns refl)
    go (overruns r p e long returns) = too_long r p e long (rw returns refl)
    go (delivers r pkt p v' e short returns c) =
        elim (pldm_parse-within pkt out c.payload_sized sized
          (omega (arith, c.payload_length, short))) [
            | inl (few, refuses) ↦
                too_short r p e v' (omega (arith, few, c.payload_length))
                  (rw (returns, refuses) refl)
            | inr (msg, long, parses, parsed) ↦
                request r p msg e v' (omega (arith, long, c.payload_length)) short
                  (rw (returns, parses) refl) (Parsed-IsRequest raw p pkt msg c long parsed)
          ]
