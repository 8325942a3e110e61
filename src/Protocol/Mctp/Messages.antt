-- ===== src/Protocol/Mctp/Messages.antt =====
-- A message cut into fragments comes out whole.
use mathlib.Core.List.{flatten}
use nic_ob_fw.Common.{
  ℕ, ◌+◌, ◌%◌, ◌≤◌, ◌≡◌, refl, ap, subst, ◌∙◌, List, [], ◌∷◌, ◌++◌, map, append_assoc, append-nil,
  Bool, true, false, Option, none, some, arith, if◌then◌else◌, ◌>>=◌, take, length, All,
  length-append, le→ltb_false, ==_iff,
}
use nic_ob_fw.Types.{BmcRxMsg, MctpPacket, mctp_max_payload}
use nic_ob_fw.Protocol.Mctp.{Reassembly, incomplete, mctp_process_rx}
use nic_ob_fw.Protocol.Mctp.Receiver.{
  Fragment, Receiver, idle, receiving, accept, receive, fragment, receiver,
}
use nic_ob_fw.Protocol.Mctp.Refine.{mctp_process_rx-Agrees}
use nic_ob_fw.Protocol.Mctp.Contract.{
  IsValid, IsFragment, Carries, Agrees, waits, delivers, overruns,
}

-- The fragments that carry the bodies as one message, from the sequence number `seq`.
unfoldable pub frames : Bool → ℕ → List (List ℕ) → List Fragment
frames som seq [] = []
frames som seq (c ∷ []) = record { som = som; eom = true; seq = seq; body = c } ∷ []
frames som seq (c ∷ d ∷ cs) =
    record { som = som; eom = false; seq = seq; body = c } ∷ frames false ((seq + 1) % 4) (d ∷ cs)

-- A call for each raw message in turn, and the packets that come out. Each call has a fresh packet.
unfoldable pub process_all :
    List BmcRxMsg → MctpPacket → Reassembly → Option (List MctpPacket × Reassembly)
process_all [] out r = some ([], r)
process_all (m ∷ ms) out r = do
  one ← mctp_process_rx m out r
  rest ← process_all ms out one.state
  some (if one.complete then one.pkt ∷ rest.0 else rest.0, rest.1)

-- Exactly one packet came out, and it carries `p`.
pub record Delivered (p : List ℕ) (result : Option (List MctpPacket × Reassembly)) : Type 0 where
  pub pkt : MctpPacket
  pub state : Reassembly
  pub returns : result ≡ some (pkt ∷ [], state)
  pub payload_bytes : take pkt.payload_len pkt.payload ≡ p
  pub again : IsValid state
  pub idle_after : receiver state ≡ idle

accept_next :
    (got : List ℕ) (seq : ℕ) (f : Fragment)
    → f.seq ≡ seq
    → length got + length f.body ≤ 256
    → accept (receiving got seq) f ≡ (
        if f.eom
        then (idle, some (got ++ f.body))
        else (receiving (got ++ f.body) ((seq + 1) % 4), none))
unfolding accept
accept_next got seq f e h =
    rw ((==_iff f.seq seq).1 e, le→ltb_false 256 (length got + length f.body) h)

-- What the receiver goes on from: nothing, if the fragment starts a message.
abbrev pub start : Bool → ℕ → Receiver → Receiver
start som seq s = if som then receiving [] seq else s

pub receive_next :
    (s : Receiver) (got : List ℕ) (f : Fragment)
    → start f.som f.seq s ≡ receiving got f.seq
    → length got + length f.body ≤ 256
    → receive s f ≡ (
        if f.eom
        then (idle, some (got ++ f.body))
        else (receiving (got ++ f.body) ((f.seq + 1) % 4), none))
unfolding receive
receive_next s got f e h = rw e (accept_next got f.seq f refl h)

module _ (m : BmcRxMsg) (out : MctpPacket) (frag : IsFragment m)
    (sized : length out.payload ≡ mctp_max_payload) (r : Reassembly) (v : IsValid r) (got : List ℕ)
    (f : Fragment) (is : fragment m ≡ f)
    (from : start f.som f.seq (receiver r) ≡ receiving got f.seq)
    (room : length got + length f.body ≤ mctp_max_payload) where
  agrees : Agrees m out (mctp_process_rx m out r) (
      if f.eom
      then (idle, some (got ++ f.body))
      else (receiving (got ++ f.body) ((f.seq + 1) % 4), none))
  agrees =
      rw (← receive_next (receiver r) got f from (omega arith), ← is)
        (mctp_process_rx-Agrees m out frag sized r v)

  -- A fragment inside a message is kept.
  middle :
      f.eom ≡ false
      → (r' : Reassembly) × (mctp_process_rx m out r ≡ incomplete out r')
        × IsValid r'
        × (receiver r' ≡ receiving (got ++ f.body) ((f.seq + 1) % 4))
  middle more = go (rw more at agrees)
    where
      go :
          Agrees m out (mctp_process_rx m out r) (receiving (got ++ f.body) ((f.seq + 1) % 4), none)
          → (r' : Reassembly) × (mctp_process_rx m out r ≡ incomplete out r')
            × IsValid r'
            × (receiver r' ≡ receiving (got ++ f.body) ((f.seq + 1) % 4))
      go (waits r' v' e returns) = (r', returns, v', cc)
      go (delivers r' pkt p v' e short returns c) = absurd (cc)
      go (overruns s p e long returns) = absurd (cc)

  -- The last fragment delivers.
  pub last :
      f.eom ≡ true
      → (r' : Reassembly) × (pkt : MctpPacket) × (mctp_process_rx m out r
          ≡ some (record { complete = true; pkt = pkt; state = r' }))
        × IsValid r'
        × (receiver r' ≡ idle)
        × Carries m (got ++ f.body) pkt
  last eom = go (rw eom at agrees)
    where
      go :
          Agrees m out (mctp_process_rx m out r) (idle, some (got ++ f.body))
          → (r' : Reassembly) × (pkt : MctpPacket) × (mctp_process_rx m out r
              ≡ some (record { complete = true; pkt = pkt; state = r' }))
            × IsValid r'
            × (receiver r' ≡ idle)
            × Carries m (got ++ f.body) pkt
      go (waits r' v' e returns) = absurd (cc)
      go (delivers r' pkt p v' e short returns c) =
          let same : p ≡ got ++ f.body = cc in
          (r', pkt, returns, v', cc, subst (λ (q : List ℕ). Carries m q pkt) same c)
      go (overruns s p e long returns) =
          let same : got ++ f.body ≡ p = cc in
          absurd (omega (arith, length-append got f.body, ap length same))

-- Reassembly from the middle of a message, or from its start.
deliver :
    (som : Bool) (seq : ℕ) (got c : List ℕ) (cs : List (List ℕ)) (ms : List BmcRxMsg)
    (out : MctpPacket) (r : Reassembly)
    → All IsFragment ms
    → length out.payload ≡ mctp_max_payload
    → IsValid r
    → map fragment ms ≡ frames som seq (c ∷ cs)
    → start som seq (receiver r) ≡ receiving got seq
    → length got + length (flatten (c ∷ cs)) ≤ mctp_max_payload
    → Delivered (got ++ flatten (c ∷ cs)) (process_all ms out r)
unfolding frames process_all flatten
deliver som seq got c [] [] out r frags sized v e from room = absurd (cc)
deliver som seq got c [] (m ∷ m' ∷ ms) out r frags sized v e from room = absurd (cc)
deliver som seq got c [] (m ∷ []) out r frags sized v e from room =
    let f : Fragment = record { som = som; eom = true; seq = seq; body = c } in
    let is : fragment m ≡ f = cc in
    let fits : length got + length c ≤ mctp_max_payload =
      omega (arith, ap length (append-nil c), room) in
    let (r', pkt, returns, v', e', carries) =
      last m out frags.0 sized r v got f is from fits refl in
    record {
      pkt = pkt;
      state = r';
      returns = rw returns;
      payload_bytes = rw append-nil carries.payload_bytes;
      again = v';
      idle_after = e';
    }
deliver som seq got c (d ∷ cs) [] out r frags sized v e from room = absurd (cc)
deliver som seq got c (d ∷ cs) (m ∷ ms) out r frags sized v e from room =
    let f : Fragment = record { som = som; eom = false; seq = seq; body = c } in
    let is : fragment m ≡ f = cc in
    let total = length-append c (flatten (d ∷ cs)) in
    let fits : length got + length c ≤ mctp_max_payload = omega (arith, total, room) in
    let (r', returns, v', e') = middle m out frags.0 sized r v got f is from fits refl in
    let rest =
      deliver false ((seq + 1) % 4) (got ++ c) d cs ms out r' frags.1 sized v' (cc) e'
        (omega (arith, total, length-append got c, room)) in
    record {
      pkt = rest.pkt;
      state = rest.state;
      returns = rw (returns, rest.returns);
      payload_bytes = rest.payload_bytes ∙ append_assoc got c (flatten (d ∷ cs));
      again = rest.again;
      idle_after = rest.idle_after;
    }

-- A message of at most 64 bytes, cut into one or more fragments of any sizes and sent in sequence
-- from any sequence number, comes out of `mctp_process_rx` as exactly one packet, whose payload is
-- the message, whatever state the reassembly was in before; and it is idle and well-formed after.
pub process_all-frames :
    (seq : ℕ) (c : List ℕ) (cs : List (List ℕ)) (ms : List BmcRxMsg) (out : MctpPacket)
    (r : Reassembly)
    → All IsFragment ms
    → map fragment ms ≡ frames true seq (c ∷ cs)
    → length (flatten (c ∷ cs)) ≤ mctp_max_payload
    → length out.payload ≡ mctp_max_payload
    → IsValid r
    → Delivered (flatten (c ∷ cs)) (process_all ms out r)
process_all-frames seq c cs ms out r frags e short sized v =
    deliver true seq [] c cs ms out r frags sized v e refl (omega (arith, short))
