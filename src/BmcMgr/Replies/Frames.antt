-- ===== src/BmcMgr/Replies/Frames.antt =====
-- The requests that the abstract receiver finds in the fragments of one message.
use mathlib.Core.List.{flatten}
use nic_ob_fw.Common.{
  ℕ, ◌+◌, ◌%◌, ◌≤◌, ◌≡◌, refl, ap, ◌∙◌, List, [], ◌∷◌, ◌++◌, map, Bool, true, false, none, some,
  arith, le→ltb_false, if◌then◌else◌, length, length-append, append-nil, append_assoc, All,
}
use nic_ob_fw.Types.{BmcRxMsg, mctp_max_payload}
use nic_ob_fw.Protocol.Mctp.Receiver.{Fragment, Receiver, idle, receiving, fragment}
use nic_ob_fw.Protocol.Mctp.Messages.{frames, start, receive_next}
use nic_ob_fw.BmcMgr.Replies.{heard, request_in, with_request, requests, NoneTooLong}

abbrev pub HasHeader : BmcRxMsg → Type 0
HasHeader m = 4 ≤ m.len

module _ (m : BmcRxMsg) (header : HasHeader m) (s : Receiver) (got : List ℕ) (f : Fragment)
    (is : fragment m ≡ f) (from : start f.som f.seq s ≡ receiving got f.seq)
    (room : length got + length f.body ≤ mctp_max_payload) where
  heard_fragment : heard s m ≡ (
      if f.eom
      then (idle, some (got ++ f.body))
      else (receiving (got ++ f.body) ((f.seq + 1) % 4), none))
  heard_fragment = rw (le→ltb_false m.len 4 header, is) (receive_next s got f from (omega arith))

  heard_middle : f.eom ≡ false → heard s m ≡ (receiving (got ++ f.body) ((f.seq + 1) % 4), none)
  heard_middle more = heard_fragment ∙ rw more refl

  heard_last : f.eom ≡ true → heard s m ≡ (idle, some (got ++ f.body))
  heard_last eom = heard_fragment ∙ rw eom refl

-- From the middle of a message, or from its start.
pub requests-frames :
    (som : Bool) (seq : ℕ) (got c : List ℕ) (cs : List (List ℕ)) (ms : List BmcRxMsg) (s : Receiver)
    → All HasHeader ms
    → map fragment ms ≡ frames som seq (c ∷ cs)
    → start som seq s ≡ receiving got seq
    → length got + length (flatten (c ∷ cs)) ≤ mctp_max_payload
    → (requests s ms ≡ with_request (request_in (some (got ++ flatten (c ∷ cs)))) [])
      × NoneTooLong s ms
unfolding frames flatten
requests-frames som seq got c [] [] s headers e from room = absurd (cc)
requests-frames som seq got c [] (m ∷ m' ∷ ms) s headers e from room = absurd (cc)
requests-frames som seq got c [] (m ∷ []) s headers e from room =
    let f : Fragment = record { som = som; eom = true; seq = seq; body = c } in
    let is : fragment m ≡ f = cc in
    let whole = append-nil c in
    let fits : length got + length c ≤ mctp_max_payload = omega (arith, ap length whole, room) in
    let last = heard_last m headers.0 s got f is from fits refl in
    let size : length (got ++ c) ≤ mctp_max_payload = omega (arith, length-append got c, fits) in
    (rw (last, whole) refl, rw last (size, tt))
requests-frames som seq got c (d ∷ cs) [] s headers e from room = absurd (cc)
requests-frames som seq got c (d ∷ cs) (m ∷ ms) s headers e from room =
    let f : Fragment = record { som = som; eom = false; seq = seq; body = c } in
    let is : fragment m ≡ f = cc in
    let total = length-append c (flatten (d ∷ cs)) in
    let fits : length got + length c ≤ mctp_max_payload = omega (arith, total, room) in
    let middle = heard_middle m headers.0 s got f is from fits refl in
    let (asks, short) =
      requests-frames false ((seq + 1) % 4) (got ++ c) d cs ms
        (receiving (got ++ c) ((seq + 1) % 4)) headers.1 (cc) refl
        (omega (arith, total, length-append got c, room)) in
    (
      rw (middle, asks)
          (ap (λ (p : List ℕ). with_request (request_in (some p)) [])
            (append_assoc got c (flatten (d ∷ cs)))),
      rw middle (tt, short),
    )
