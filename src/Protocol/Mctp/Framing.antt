-- ===== src/Protocol/Mctp/Framing.antt =====
-- `mctp_frame_tx`: what it writes, when it fits, and that a receiver gets the packet back.
use nic_ob_fw.Common.{
  ℕ, ◌+◌, ◌-◌, ◌≤◌, ◌<◌, ◌≡◌, ◌↔◌, sym, ap, ◌∙◌, List, [], ◌∷◌, ◌++◌, true, none, some, inl, inr,
  arith, u16, get_or, take, drop, length, memcpy, overwrite, memcpy_fits, memcpy_past_end,
  length-overwrite, take-overwrite, take-overwrite_start, drop-take, get_or-take, Bool-cases, ltb,
  ltb→lt,
}
use nic_ob_fw.Types.{BmcRxMsg, MctpPacket, mctp_max_payload, smb_max_block_size}
use nic_ob_fw.Protocol.Mctp.{
  Reassembly, mctp_frame_tx, mctp_process_rx, is_som, is_eom, extract_seq,
}
use nic_ob_fw.Protocol.Mctp.Receiver.{fragment}
use nic_ob_fw.Protocol.Mctp.Contract.{IsFragment}

-- A packet as the code builds it: the length field lies inside the payload array.
pub record IsPacket (pkt : MctpPacket) : Type 0 where
  pub sized : length pkt.payload ≡ mctp_max_payload
  pub within : pkt.payload_len ≤ mctp_max_payload

module _ (pkt : MctpPacket) (tx_buf : List ℕ) (p : IsPacket pkt)
    (tx_sized : length tx_buf ≡ smb_max_block_size) where
  abbrev header : List ℕ
  header = pkt.hdr_version ∷ pkt.dest_eid ∷ pkt.src_eid ∷ 0xc0 ∷ []

  abbrev with_header : List ℕ
  with_header = overwrite tx_buf 0 header 4

  -- The bytes in `tx_buf` after a framing that fits.
  abbrev pub framed : List ℕ
  framed = overwrite with_header 4 pkt.payload pkt.payload_len

  header_fits : memcpy tx_buf 0 header 4 ≡ some with_header
  header_fits = memcpy_fits tx_buf 0 header 4 (omega arith) (omega arith)

  length-with_header : length with_header ≡ 32
  length-with_header = length-overwrite tx_buf 0 header 4 (omega arith) (omega arith) ∙ tx_sized

  framed_too_long : 28 < pkt.payload_len → mctp_frame_tx pkt tx_buf ≡ none
  unfolding mctp_frame_tx
  framed_too_long long = rw (
    header_fits,
    memcpy_past_end with_header 4 pkt.payload pkt.payload_len (omega (arith, length-with_header)),
  )

  module _ (short : pkt.payload_len ≤ 28) where
    room : 4 + pkt.payload_len ≤ length with_header
    room = omega (arith, length-with_header)

    enough : pkt.payload_len ≤ length pkt.payload
    enough = omega (arith, p.sized, p.within)

    pub mctp_frame_tx_fits : mctp_frame_tx pkt tx_buf ≡ some (framed, 4 + pkt.payload_len)
    unfolding mctp_frame_tx
    mctp_frame_tx_fits =
        let small : u16 (4 + pkt.payload_len) ≡ 4 + pkt.payload_len = omega arith in
        rw (header_fits, memcpy_fits with_header 4 pkt.payload pkt.payload_len room enough, small)

    pub framed_prefix :
        take (4 + pkt.payload_len) framed ≡ header ++ take pkt.payload_len pkt.payload
    framed_prefix =
        take-overwrite with_header 4 pkt.payload pkt.payload_len room enough
        ∙ ap (λ (h : List ℕ). h ++ take pkt.payload_len pkt.payload)
            (take-overwrite_start tx_buf header 4 (omega arith) (omega arith))

    framed_at :
        (i : ℕ)
        → i < 4
        → get_or framed i 0 ≡ get_or (header ++ take pkt.payload_len pkt.payload) i 0
    framed_at i h =
        sym (get_or-take i (4 + pkt.payload_len) framed 0 (omega arith))
        ∙ ap (λ (xs : List ℕ). get_or xs i 0) framed_prefix

    -- The frame as the other side receives it.
    abbrev pub sent : BmcRxMsg
    sent = record { bytes = framed; len = 4 + pkt.payload_len }

    pub sent-IsFragment : IsFragment sent
    sent-IsFragment = record {
      sized =
          length-overwrite with_header 4 pkt.payload pkt.payload_len room enough
          ∙ length-with_header;
      has_header = omega arith;
      within = omega arith;
    }

    -- One fragment, the first and the last of its message.
    pub fragment-sent :
        fragment sent
        ≡ record { som = true; eom = true; seq = 0; body = take pkt.payload_len pkt.payload }
    unfolding fragment is_som is_eom extract_seq
    fragment-sent =
        let flags : get_or framed 3 0 ≡ 0xc0 = framed_at 3 (omega arith) in
        let len : 4 + pkt.payload_len - 4 ≡ pkt.payload_len = omega arith in
        let bytes = sym (drop-take 4 pkt.payload_len framed) ∙ ap (drop 4) framed_prefix in
        rw (flags, len, bytes)

-- Framing runs past the end of the 32-byte transmit buffer exactly when the payload is longer than
-- 28 bytes, for a packet whose length field lies inside its payload array.
pub mctp_frame_tx-overrun_iff :
    (pkt : MctpPacket) (tx_buf : List ℕ)
    → IsPacket pkt
    → length tx_buf ≡ smb_max_block_size
    → (mctp_frame_tx pkt tx_buf ≡ none) ↔ (28 < pkt.payload_len)
mctp_frame_tx-overrun_iff pkt tx_buf p sized = (
  λ stuck. elim (Bool-cases (ltb 28 pkt.payload_len)) [
    | inl long ↦ ltb→lt 28 pkt.payload_len long
    | inr short ↦ let fits = mctp_frame_tx_fits pkt tx_buf p sized (ground arith) in absurd (cc)
  ],
  framed_too_long pkt tx_buf p sized,
)

-- What a receiver has after it was sent the frame of `pkt`: the packet's header and payload.
pub record Echoed (pkt : MctpPacket) (tx_buf : List ℕ) (out : MctpPacket) (r : Reassembly)
    : Type 0 where
  pub bytes : List ℕ
  pub len : ℕ
  pub got : MctpPacket
  pub state : Reassembly
  pub frames : mctp_frame_tx pkt tx_buf ≡ some (bytes, len)
  pub receives :
      mctp_process_rx (record { bytes = bytes; len = len }) out r
      ≡ some (record { complete = true; pkt = got; state = state })
  pub same_version : got.hdr_version ≡ pkt.hdr_version
  pub same_dest : got.dest_eid ≡ pkt.dest_eid
  pub same_src : got.src_eid ≡ pkt.src_eid
  pub same_length : got.payload_len ≡ pkt.payload_len
  pub same_payload : take got.payload_len got.payload ≡ take pkt.payload_len pkt.payload
