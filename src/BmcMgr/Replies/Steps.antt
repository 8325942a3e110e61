-- ===== src/BmcMgr/Replies/Steps.antt =====
-- One message from a queue that is first in, first out, and what handling it does.
use nic_ob_fw.Common.{
  ℕ, ◌+◌, ◌≤◌, ◌<◌, ◌≡◌, ◌≢◌, refl, ap, ◌∙◌, List, [], ◌∷◌, ◌++◌, false, Option, none, some, inl,
  inr, arith, ltb, lt→ltb, le→ltb_false, ltb→lt, length, ◌==◌, ==_iff, Bool-cases,
}
use nic_ob_fw.Types.{rtos_ok, rtos_err_timeout, BmcRxMsg, PldmMsg, mctp_max_payload}
use nic_ob_fw.Platform.{
  Esp, World, HwCall, IsSized, Item, queue_receive, queue_send, is_pass, i2c_slave_write_buffer,
}
use nic_ob_fw.Platform.Fifo.{pending, IsFifo}
use nic_ob_fw.Firmware.{Firmware}
use nic_ob_fw.Rtos.{rtos_queue_receive}
use nic_ob_fw.Protocol.Mctp.{Reassembly}
use nic_ob_fw.Protocol.Mctp.Receiver.{receiver}
use nic_ob_fw.ProtocolHdlr.Receive.{IsRequest}
use nic_ob_fw.BmcMgr.{handle_bmc_msg, dispatch_pldm}
use nic_ob_fw.BmcMgr.Decide.{
  Decides, reading, no_such_sensor, update_queued, update_refused, unknown,
}
use nic_ob_fw.BmcMgr.Dispatch.{Responds}
use nic_ob_fw.BmcMgr.Handle.{
  Handles, ignored, no_request, answered, overrun, handle_bmc_msg-Handles, handle_bmc_msg_short,
  seen,
}
use nic_ob_fw.BmcMgr.Drain.{IsServing, IsPosted}
use nic_ob_fw.BmcMgr.Replies.{heard, request_in, FitsPacket, Replies, silent, one_response}

sent_elsewhere :
    (esp : Esp) (handle queue : ℕ) (item : Item) (ticks : ℕ) (w : World)
    → handle ≢ queue
    → pending esp queue (queue_send handle item ticks ∷ w) ≡ pending esp queue w
sent_elsewhere esp handle queue item ticks w other = elim (Bool-cases (handle == queue)) [
  | inl same ↦ absurd (other ((==_iff handle queue).0 same))
  | inr differ ↦ rw differ refl
]

-- What a decision calls leaves the queue of the BMC's messages alone.
Decides-pending :
    (esp : Esp) (msg : PldmMsg) (s : Firmware) (queue : ℕ) (calls : List HwCall) (cc : ℕ)
    (content : List ℕ) (w : World)
    → s.bmc_mgr.flash_cmd_queue ≢ queue
    → Decides esp msg s calls cc content
    → pending esp queue (calls ++ w) ≡ pending esp queue w
Decides-pending esp msg s queue calls cc content w other (reading is known) = refl
Decides-pending esp msg s queue calls cc content w other (no_such_sensor is beyond) = refl
Decides-pending esp msg s queue calls cc content w other (update_queued is sent) =
    sent_elsewhere esp (s.bmc_mgr.flash_cmd_queue) queue _ _ w other
Decides-pending esp msg s queue calls cc content w other (update_refused is sent) =
    sent_elsewhere esp (s.bmc_mgr.flash_cmd_queue) queue _ _ w other
Decides-pending esp msg s queue calls cc content w other (unknown a b) = refl

-- One message handled.
pub record Handled (esp : Esp) (m : BmcRxMsg) (u : Firmware) : Type 0 where
  pub after : Firmware
  pub returns : handle_bmc_msg esp m u ≡ some (tt, after)
  pub replies : Replies esp m u after (request_in (heard (receiver u.mctp) m).1)
  pub heard_next : receiver after.mctp ≡ (heard (receiver u.mctp) m).0
  pub same_rx : after.bmc_mgr.bmc_rx_queue ≡ u.bmc_mgr.bmc_rx_queue
  pub same_flash : after.bmc_mgr.flash_cmd_queue ≡ u.bmc_mgr.flash_cmd_queue
  pub same_nic : after.bmc_mgr.nic_event_queue ≡ u.bmc_mgr.nic_event_queue
  pub same_log : after.gen_mgr ≡ u.gen_mgr
  pub kept :
      (queue : ℕ)
      → u.bmc_mgr.flash_cmd_queue ≢ queue
      → pending esp queue after.world ≡ pending esp queue u.world

module _ (esp : Esp) (m : BmcRxMsg) (u : Firmware) where
  -- A response goes out for the request in it.
  answered_by :
      (r : Reassembly) (p : List ℕ) (msg : PldmMsg)
      → heard (receiver u.mctp) m ≡ (receiver r, some p)
      → IsRequest p msg
      → 3 ≤ length p
      → handle_bmc_msg esp m u ≡ dispatch_pldm esp msg (seen esp u r)
      → Responds esp msg (seen esp u r)
      → Handled esp m u
  answered_by r p msg e is long returns responds =
      let sent =
        i2c_slave_write_buffer 0 responds.bytes (8 + length responds.content)
          (esp.ticks_of_ms 100) in
      let heard_request : request_in (heard (receiver u.mctp) m).1 ≡ some p =
        rw (e, le→ltb_false (length p) 3 long) refl in
      record {
        after = record (seen esp u r) { world = sent ∷ responds.calls ++ (seen esp u r).world };
        returns = returns ∙ responds.returns;
        replies = rw heard_request (one_response p msg r is returns responds);
        heard_next = rw e refl;
        same_rx = refl;
        same_flash = refl;
        same_nic = refl;
        same_log = refl;
        kept = λ queue other.
            Decides-pending esp msg (seen esp u r) queue responds.calls responds.cc responds.content
              (seen esp u r).world other responds.decides;
      }

  -- Nothing goes out.
  silent_by :
      (r : Reassembly)
      → receiver r ≡ (heard (receiver u.mctp) m).0
      → request_in (heard (receiver u.mctp) m).1 ≡ none
      → handle_bmc_msg esp m u ≡ some (tt, seen esp u r)
      → Handled esp m u
  silent_by r e none_in returns = record {
    after = seen esp u r;
    returns = returns;
    replies = rw none_in (silent refl);
    heard_next = e;
    same_rx = refl;
    same_flash = refl;
    same_nic = refl;
    same_log = refl;
    kept = λ queue other. refl;
  }

  no_request_in :
      (got : Option (List ℕ)) → ((p : List ℕ) → got ≡ some p → length p < 3) → request_in got ≡ none
  no_request_in none few = refl
  no_request_in (some p) few = rw (lt→ltb (length p) 3 (few p refl)) refl

  fragment_by :
      ltb m.len 4 ≡ false
      → Handles esp m u
      → FitsPacket (heard (receiver u.mctp) m).1
      → Handled esp m u
  fragment_by header (ignored few returns) fits = absurd (ground (arith, header, few))
  fragment_by header (no_request r got e few v returns) fits =
      silent_by r (rw (header, e) refl) (rw (header, e) (no_request_in got few)) returns
  fragment_by header (answered r p msg e is long v returns responds) fits =
      answered_by r p msg (rw (header, e) refl) is long returns responds
  fragment_by header (overrun r p e long returns) fits =
      let short : length p ≤ mctp_max_payload = rw (header, e) at fits in absurd (omega arith)

  pub handled :
      ((w : World) → IsSized (esp.uninit w))
      → IsServing u
      → IsPosted m
      → FitsPacket (heard (receiver u.mctp) m).1
      → Handled esp m u
  handled sized serving posted fits = elim (Bool-cases (ltb m.len 4)) [
    | inl short ↦
        silent_by u.mctp (rw short refl) (rw short refl)
          (handle_bmc_msg_short esp m u (ltb→lt m.len 4 short))
    | inr header ↦
        fragment_by header
          (handle_bmc_msg-Handles esp m u posted.0 posted.1 sized serving.ready serving.valid
            serving.inside)
          fits
  ]

-- What waits in a queue that is first in, first out.
module _ (esp : Esp) (fifo : IsFifo esp) (s : Firmware) (queue : ℕ) where
  abbrev receive_call : HwCall
  receive_call = queue_receive queue (esp.ticks_of_ms 0)

  abbrev pub received : Firmware
  received = record s { world = receive_call ∷ s.world }

  pub received_first :
      (item : Item) (items : List Item)
      → pending esp queue s.world ≡ item ∷ items
      → (rtos_queue_receive esp queue 0 s ≡ some ((rtos_ok, some item), received))
        × (pending esp queue received.world ≡ items)
  unfolding rtos_queue_receive
  received_first item items waits =
      let (passes, is) = fifo.delivers s.world queue (esp.ticks_of_ms 0) item items waits in
      (rw (passes, is) refl, rw ((==_iff queue queue).1 refl, passes, waits) refl)

  pub received_from_empty :
      pending esp queue s.world ≡ []
      → (rtos_queue_receive esp queue 0 s ≡ some ((rtos_err_timeout, none), received))
        × (pending esp queue received.world ≡ [])
  unfolding rtos_queue_receive
  received_from_empty waits =
      let fails : is_pass (esp.answer s.world receive_call) ≡ false =
        ap (λ (n : ℕ). is_pass (esp.answer s.world (queue_receive queue n))) fifo.no_wait
        ∙ fifo.fails s.world queue waits in
      (rw fails refl, rw ((==_iff queue queue).1 refl, fails, waits) refl)

  pub received_elsewhere :
      (other : ℕ) → queue ≢ other → pending esp other received.world ≡ pending esp other s.world
  received_elsewhere other apart = elim (Bool-cases (queue == other)) [
    | inl same ↦ absurd (apart ((==_iff queue other).0 same))
    | inr differ ↦ rw differ refl
  ]
