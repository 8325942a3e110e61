-- ===== src/Protocol/Mctp/Refine.antt =====
-- The reassembly of mctp.c implements the abstract receiver, fragment by fragment.
use nic_ob_fw.Common.{
  ℕ, ◌+◌, ◌-◌, ◌%◌, ◌≤◌, ◌≡◌, refl, sym, ◌∙◌, List, [], ◌++◌, true, false, none, some, arith, inl,
  inr, u16, ltb, ltb→lt, take-overwrite_start, ◌==◌, if◌then◌else◌, get_or, take, drop, length,
  overwrite, memcpy_fits, memcpy_past_end, length-overwrite, take-overwrite, length-append,
  length-take, length-drop, Bool-cases, bit_and, bit_and_three, le→ltb_false,
}
use nic_ob_fw.Types.{BmcRxMsg, MctpPacket, pldm_max_payload, mctp_max_payload}
use nic_ob_fw.Protocol.Mctp.{
  Reassembly, incomplete, is_eom, is_som, extract_seq, begin_message, finish_message,
  append_payload, check_fragment, mctp_reset, mctp_process_rx,
}
use nic_ob_fw.Protocol.Mctp.Receiver.{idle, receiving, accept, receive, fragment, receiver}
use nic_ob_fw.Protocol.Mctp.Contract.{IsValid, IsFragment, Agrees, waits, delivers, overruns}

module _ (m : BmcRxMsg) (out : MctpPacket) (frag : IsFragment m)
    (out_sized : length out.payload ≡ mctp_max_payload) where
  abbrev body : List ℕ
  body = take (m.len - 4) (drop 4 m.bytes)

  length-body : length body ≡ m.len - 4
  length-body = omega (
    arith,
    length-take (m.len - 4) (drop 4 m.bytes),
    length-drop 4 m.bytes,
    frag.sized,
    frag.has_header,
    frag.within,
  )

  finish-Agrees :
      (r : Reassembly) (p : List ℕ)
      → IsValid r
      → take r.offset r.buf ≡ p
      → length p ≡ r.offset
      → Agrees m out (finish_message m out r) (idle, some p)
  unfolding finish_message receiver
  finish-Agrees r p v e l = elim (Bool-cases (ltb mctp_max_payload r.offset)) [
    | inl long ↦
        let past = ltb→lt mctp_max_payload r.offset long in
        overruns idle p refl (omega arith)
          (rw (memcpy_past_end out.payload 0 r.buf r.offset (omega arith)))
    | inr short ↦
        let fits : r.offset ≤ mctp_max_payload = ground arith in
        let within : r.offset ≤ length r.buf = omega (arith, v.sized, v.within) in
        delivers (record r { active = false; offset = 0 })
          (record {
            hdr_version = get_or m.bytes 0 0;
            dest_eid = get_or m.bytes 1 0;
            src_eid = get_or m.bytes 2 0;
            flags_seq = get_or m.bytes 3 0;
            payload_len = r.offset;
            reserved = 0;
            payload = overwrite out.payload 0 r.buf r.offset;
          })
          p (record { sized = v.sized; within = omega arith }) refl (omega arith)
          (rw (memcpy_fits out.payload 0 r.buf r.offset (omega arith) within))
          (record {
            version = refl;
            dest = refl;
            src = refl;
            payload_length = sym l;
            payload_bytes =
                take-overwrite_start out.payload r.buf r.offset (omega arith) within ∙ e;
            payload_sized =
                length-overwrite out.payload 0 r.buf r.offset (omega arith) within ∙ out_sized;
          })
  ]

  -- The state once the payload is appended.
  abbrev appended : Reassembly → Reassembly
  appended r = record r {
    buf = overwrite r.buf r.offset (drop 4 m.bytes) (m.len - 4);
    offset = u16 (r.offset + (m.len - 4));
    expected_seq = bit_and (r.expected_seq + 1) 0x03;
  }

  module _ (r : Reassembly) (v : IsValid r) (fits : r.offset + (m.len - 4) ≤ pldm_max_payload) where
    room : r.offset + (m.len - 4) ≤ length r.buf
    room = omega (arith, v.sized)

    enough : m.len - 4 ≤ length (drop 4 m.bytes)
    enough = omega (arith, length-drop 4 m.bytes, frag.sized, frag.within)

    offset_grows : u16 (r.offset + (m.len - 4)) ≡ r.offset + (m.len - 4)
    offset_grows = omega arith

    appended-IsValid : IsValid (appended r)
    appended-IsValid = record {
      sized = length-overwrite r.buf r.offset (drop 4 m.bytes) (m.len - 4) room enough ∙ v.sized;
      within = omega (arith, offset_grows);
    }

    appended_bytes : take (appended r).offset (appended r).buf ≡ take r.offset r.buf ++ body
    appended_bytes =
        rw offset_grows (take-overwrite r.buf r.offset (drop 4 m.bytes) (m.len - 4) room enough)

    length-appended : length (take r.offset r.buf ++ body) ≡ (appended r).offset
    length-appended = omega (
      arith,
      length-append (take r.offset r.buf) body,
      length-take r.offset r.buf,
      length-body,
      offset_grows,
      v.sized,
      v.within,
    )

    append_payload-eq : append_payload m out r ≡ (
        if is_eom (get_or m.bytes 3 0)
        then finish_message m out (appended r)
        else incomplete out (appended r))
    unfolding append_payload
    append_payload-eq = rw (memcpy_fits r.buf r.offset (drop 4 m.bytes) (m.len - 4) room enough)

    append-Agrees :
        r.active ≡ true
        → Agrees m out (append_payload m out r) (
            if is_eom (get_or m.bytes 3 0)
            then (idle, some (take r.offset r.buf ++ body))
            else (receiving (take r.offset r.buf ++ body) ((r.expected_seq + 1) % 4), none))
    unfolding receiver
    append-Agrees act = elim (Bool-cases (is_eom (get_or m.bytes 3 0))) [
      | inl last ↦
          rw (append_payload-eq, last)
            (finish-Agrees (appended r) (take r.offset r.buf ++ body) appended-IsValid
              appended_bytes length-appended)
      | inr more ↦
          rw (append_payload-eq, more)
            (waits (appended r) appended-IsValid
              (rw (act, appended_bytes, bit_and_three (r.expected_seq + 1))) refl)
    ]

  begin-IsValid : (flags : ℕ) (r : Reassembly) → IsValid r → IsValid (begin_message flags r)
  unfolding begin_message
  begin-IsValid flags r v = ground arith

  -- The guards.
  check-Agrees :
      (r : Reassembly)
      → IsValid r
      → Agrees m out (check_fragment m out r) (accept (receiver r) (fragment m))
  unfolding check_fragment accept receiver fragment mctp_reset
  check-Agrees r v = elim (Bool-cases r.active) [
    | inr off ↦ simp off (waits r v (simp off) refl)
    | inl on ↦ simp on (elim (Bool-cases (extract_seq (get_or m.bytes 3 0) == r.expected_seq)) [
      | inr skipped ↦ rw skipped (waits dropped dropped-IsValid refl refl)
      | inl next ↦ rw next (elim (Bool-cases (ltb pldm_max_payload (r.offset + (m.len - 4)))) [
        | inl long ↦ rw (long, total, long) (waits dropped dropped-IsValid refl refl)
        | inr short ↦ rw (short, total, short) (append-Agrees r v (ground arith) on)
      ])
    ])
  ]
    where
      dropped : Reassembly
      dropped = record r { offset = 0; expected_seq = 0; active = false }

      dropped-IsValid : IsValid dropped
      dropped-IsValid = record { sized = v.sized; within = omega arith }

      total : length (take r.offset r.buf) + length body ≡ r.offset + (m.len - 4)
      total = omega (arith, length-take r.offset r.buf, length-body, v.sized, v.within)

  -- The start of a message is the abstract receiver's.
  receiver-begin :
      (r : Reassembly)
      → receiver (begin_message (get_or m.bytes 3 0) r)
        ≡ (if (fragment m).som then receiving [] (fragment m).seq else receiver r)
  unfolding receiver begin_message fragment
  receiver-begin r = elim (Bool-cases (is_som (get_or m.bytes 3 0))) [
    | inl start ↦ rw start
    | inr inside ↦ rw inside
  ]

  pub mctp_process_rx-Agrees :
      (r : Reassembly)
      → IsValid r
      → Agrees m out (mctp_process_rx m out r) (receive (receiver r) (fragment m))
  unfolding mctp_process_rx receive
  mctp_process_rx-Agrees r v =
      rw (le→ltb_false m.len 4 frag.has_header, sym (receiver-begin r))
        (check-Agrees (begin_message (get_or m.bytes 3 0) r)
          (begin-IsValid (get_or m.bytes 3 0) r v))
