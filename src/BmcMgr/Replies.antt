-- ===== src/BmcMgr/Replies.antt =====
-- The loop that empties the queue of the BMC's messages, on a queue that is first in, first out: which
-- responses go out.
pub mod Steps
pub mod Frames
pub mod Drained
use nic_ob_fw.Common.{ℕ, ◌≤◌, ◌≡◌, List, [], ◌∷◌, Option, none, some, ltb, if◌then◌else◌, length}
use nic_ob_fw.Types.{rtos_ok, rtos_err_timeout, BmcRxMsg, PldmMsg, mctp_max_payload}
use nic_ob_fw.Platform.{Esp, rx_item, tick_count}
use nic_ob_fw.Firmware.{Firmware}
use nic_ob_fw.Rtos.{rtos_queue_receive}
use nic_ob_fw.Protocol.Mctp.{Reassembly}
use nic_ob_fw.Protocol.Mctp.Receiver.{Receiver, receive, fragment}
use nic_ob_fw.ProtocolHdlr.Receive.{IsRequest}
use nic_ob_fw.BmcMgr.{handle_bmc_msg, dispatch_pldm}
use nic_ob_fw.BmcMgr.Dispatch.{Responds}
use nic_ob_fw.BmcMgr.Handle.{seen}
use nic_ob_fw.BmcMgr.Drain.{Feeds, dry, delivers_one}

-- What the abstract receiver makes of a raw message; one that is shorter than a header is dropped.
abbrev pub heard : Receiver → BmcRxMsg → Receiver × Option (List ℕ)
heard r m = if ltb m.len 4 then (r, none) else receive r (fragment m)

-- The message, if it is long enough for a request.
abbrev pub request_in : Option (List ℕ) → Option (List ℕ)
request_in none = none
request_in (some p) = if ltb (length p) 3 then none else some p

abbrev pub with_request : Option (List ℕ) → List (List ℕ) → List (List ℕ)
with_request none ps = ps
with_request (some p) ps = p ∷ ps

-- The requests that some raw messages complete, in order.
abbrev pub requests : Receiver → List BmcRxMsg → List (List ℕ)
requests r [] = []
requests r (m ∷ ms) = with_request (request_in (heard r m).1) (requests (heard r m).0 ms)

abbrev pub FitsPacket : Option (List ℕ) → Type 0
FitsPacket none = Unit {0}
FitsPacket (some p) = length p ≤ mctp_max_payload

-- No message is longer than the payload of a packet.
abbrev pub NoneTooLong : Receiver → List BmcRxMsg → Type 0
NoneTooLong r [] = Unit {0}
NoneTooLong r (m ∷ ms) = FitsPacket (heard r m).1 × NoneTooLong (heard r m).0 ms

-- What handling one message did: nothing but look at the clock, or answer the request in it.
pub data Replies (esp : Esp) (m : BmcRxMsg) (u v : Firmware) : Option (List ℕ) → Type 0 where
  silent : v.world ≡ tick_count ∷ u.world → Replies esp m u v none
  one_response :
      (p : List ℕ) (msg : PldmMsg) (r : Reassembly)
      → IsRequest p msg
      → handle_bmc_msg esp m u ≡ dispatch_pldm esp msg (seen esp u r)
      → Responds esp msg (seen esp u r)
      → Replies esp m u v (some p)

-- The messages come out of the queue one by one, each is handled, and the requests in them are
-- answered, in order, until the queue is empty.
pub data Answers (esp : Esp) : Firmware → List BmcRxMsg → List (List ℕ) → Firmware → Type 0 where
  empty :
      (s t : Firmware)
      → rtos_queue_receive esp s.bmc_mgr.bmc_rx_queue 0 s ≡ some ((rtos_err_timeout, none), t)
      → Answers esp s [] [] t
  next :
      (s u v t : Firmware) (m : BmcRxMsg) (ms : List BmcRxMsg) (got : Option (List ℕ))
      (ps : List (List ℕ))
      → rtos_queue_receive esp s.bmc_mgr.bmc_rx_queue 0 s ≡ some ((rtos_ok, some (rx_item m)), u)
      → handle_bmc_msg esp m u ≡ some (tt, v)
      → Replies esp m u v got
      → Answers esp v ms ps t
      → Answers esp s (m ∷ ms) (with_request got ps) t

pub Answers-Feeds :
    {esp : Esp} {s t : Firmware} {ms : List BmcRxMsg} {ps : List (List ℕ)}
    → Answers esp s ms ps t
    → Feeds esp s ms t
Answers-Feeds (empty s t r) = dry s t rtos_err_timeout none r (λ e. cc)
Answers-Feeds (next s u v t m ms got ps r handled replies rest) =
    delivers_one s u v t m ms r handled (Answers-Feeds rest)
