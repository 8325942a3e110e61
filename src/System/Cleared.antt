-- ===== src/System/Cleared.antt =====
-- In operation, with queues that are first in, first out: a whole round of `bmc_mgr_task` clears both
-- of its queues.
use nic_ob_fw.Common.{ℕ, ◌<◌, ◌≡◌, ◌≢◌, sym, ◌∙◌, List, [], map, true, false, length}
use nic_ob_fw.Types.{BmcRxMsg, NicEventMsg}
use nic_ob_fw.Platform.{Esp, World, IsSized, rx_item, nic_item, event_group_wait}
use nic_ob_fw.Platform.Fifo.{pending, IsFifo}
use nic_ob_fw.Firmware.{Firmware, SelEntry}
use nic_ob_fw.Rtos.{ms_to_ticks}
use nic_ob_fw.Protocol.Mctp.Receiver.{receiver}
use nic_ob_fw.GenMgr.Sel.{Logs}
use nic_ob_fw.BmcMgr.Replies.{requests, NoneTooLong, Answers, Answers-Feeds}
use nic_ob_fw.BmcMgr.Drain.{drain_bmc_rx-Feeds}
use nic_ob_fw.BmcMgr.Events.{Notifies}
use nic_ob_fw.BmcMgr.Events.Waiting.{waiting-Quiets}
use nic_ob_fw.BmcMgr.Round.{waited, Rounds, bmc_mgr_round-Rounds}
use nic_ob_fw.System.{IsRunning}
use nic_ob_fw.System.Sound.{called-IsRunning}
use nic_ob_fw.System.Emptied.{running-Drained}

-- What a round does: the requests in the messages are answered, the events are logged, the liveness
-- is checked, and nothing is left in the two queues.
pub record Clears (esp : Esp) (ms : List BmcRxMsg) (evs : List NicEventMsg) (h : List SelEntry)
    (fuel : ℕ) (s : Firmware) : Type 0 where
  pub middle : Firmware
  pub answers : Answers esp (waited esp s) ms (requests (receiver s.mctp) ms) middle
  pub last : Firmware
  pub notifies : Notifies esp middle evs last
  pub rounds : Rounds esp fuel evs h s last
  pub no_message_left : pending esp s.bmc_mgr.bmc_rx_queue rounds.checks.after.world ≡ []
  pub no_event_left : pending esp s.bmc_mgr.nic_event_queue rounds.checks.after.world ≡ []

-- With arrays of their sizes and queues that are first in, first out, in every running state: if
-- some messages wait in the queue of the BMC's messages, none of which completes a message of more
-- than 64 bytes, and some events wait in the queue of the NIC's events, a round with more fuel than
-- there are messages and than there are events returns. It has taken exactly these messages, in
-- order, and has answered exactly the requests that the abstract receiver finds in them; then it
-- has handled exactly these events, in order; if the log held the newest events of a history
-- before, it holds those of the history with these events in front and, exactly if the liveness
-- check after them says that the BMC is silent, that event on top; and both queues are empty.
pub bmc_mgr_round-Clears :
    (esp : Esp) (ms : List BmcRxMsg) (evs : List NicEventMsg) (h : List SelEntry) (fuel : ℕ)
    (s : Firmware)
    → ((w : World) → IsSized (esp.uninit w))
    → IsFifo esp
    → IsRunning s
    → pending esp s.bmc_mgr.bmc_rx_queue s.world ≡ map rx_item ms
    → NoneTooLong (receiver s.mctp) ms
    → pending esp s.bmc_mgr.nic_event_queue s.world ≡ map nic_item evs
    → length ms < fuel
    → length evs < fuel
    → Logs s.gen_mgr h
    → Clears esp ms evs h fuel s
bmc_mgr_round-Clears esp ms evs h fuel s sized fifo running waits fits waits2 enough enough2 logs =
    let (rx, nic, flash, cmd, isr_rx, isr_nic, distinct) = running.sound.linked in
    let apart : s.bmc_mgr.bmc_rx_queue ≢ s.bmc_mgr.nic_event_queue =
      λ same. distinct.0 (sym rx ∙ same ∙ nic) in
    let apart2 : s.bmc_mgr.flash_cmd_queue ≢ s.bmc_mgr.nic_event_queue =
      λ same. distinct.2 (sym nic ∙ sym same ∙ flash) in
    let wait = event_group_wait s.bmc_mgr.events 3 true false (ms_to_ticks esp 1000) in
    let woken = called-IsRunning wait s tt running in
    let d = running-Drained esp ms (waited esp s) sized fifo woken waits fits in
    let left = d.kept s.bmc_mgr.nic_event_queue apart apart2 ∙ waits2 in
    let q = waiting-Quiets esp fifo evs d.after (rw (d.same_nic) left) in
    let quiet : pending esp s.bmc_mgr.nic_event_queue q.after.world ≡ [] =
      rw (d.same_nic) at q.none_left in
    let other : d.after.bmc_mgr.nic_event_queue ≢ s.bmc_mgr.bmc_rx_queue =
      λ same. apart (sym same ∙ d.same_nic) in
    let drained =
      drain_bmc_rx-Feeds esp ms fuel (waited esp s) d.after (Answers-Feeds d.answers) enough in
    let r =
      bmc_mgr_round-Rounds esp evs h fuel s d.after q.after drained q.notifies enough2
        (rw (d.same_log) logs) in
    record {
      middle = d.after;
      answers = d.answers;
      last = q.after;
      notifies = q.notifies;
      rounds = r;
      no_message_left =
          r.checks.kept s.bmc_mgr.bmc_rx_queue ∙ q.kept s.bmc_mgr.bmc_rx_queue other ∙ d.none_left;
      no_event_left = r.checks.kept s.bmc_mgr.nic_event_queue ∙ quiet;
    }
