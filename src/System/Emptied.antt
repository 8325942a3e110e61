-- ===== src/System/Emptied.antt =====
-- In operation, with queues that are first in, first out: the BMC's messages that wait are all handled, in
-- the order in which they came, and a request cut into fragments is answered once.
use nic_ob_fw.Common.{arith, ℕ, ◌<◌, ◌≡◌, ◌≢◌, sym, ◌∙◌, List, map, length, All}
use nic_ob_fw.Types.{BmcRxMsg}
use nic_ob_fw.Platform.{Esp, World, IsSized, rx_item}
use nic_ob_fw.Platform.Fifo.{pending, IsFifo}
use nic_ob_fw.Firmware.{Firmware}
use nic_ob_fw.Protocol.Mctp.Receiver.{receiver}
use nic_ob_fw.BmcMgr.Drain.{IsServing, drain_bmc_rx-Feeds}
use nic_ob_fw.BmcMgr.Replies.{NoneTooLong, Answers-Feeds}
use nic_ob_fw.BmcMgr.Replies.Drained.{Empties, Drained, drained}
use nic_ob_fw.System.{WasSent, IsRunning}
use nic_ob_fw.System.Waiting.{pending-WasSent, waiting-IsPosted}

pub running-Drained :
    (esp : Esp) (ms : List BmcRxMsg) (s : Firmware)
    → ((w : World) → IsSized (esp.uninit w))
    → IsFifo esp
    → IsRunning s
    → pending esp s.bmc_mgr.bmc_rx_queue s.world ≡ map rx_item ms
    → NoneTooLong (receiver s.mctp) ms
    → Drained esp ms s
running-Drained esp ms s sized fifo running waits fits =
    let (rx, nic, flash, cmd, isr_rx, isr_nic, distinct) = running.sound.linked in
    let queue = s.bmc_mgr.bmc_rx_queue in
    let all_sent = pending-WasSent esp queue s.world in
    let sent : All (λ i. WasSent queue i s.world) (map rx_item ms) = rw waits at all_sent in
    let posted = waiting-IsPosted s.main queue s.world ms running.sound.suited sent in
    let other : s.bmc_mgr.flash_cmd_queue ≢ queue =
      λ same. distinct.1 (sym rx ∙ sym same ∙ flash) in
    let serving : IsServing s = record {
      ready = running.sound.transmits;
      valid = running.sound.reassembly;
      inside = omega (arith, running.sound.cache.calibrated);
    } in
    drained esp fifo sized ms s serving other waits posted fits

-- With arrays of their sizes and queues that are first in, first out, in every running state: if
-- some messages wait in the queue of the BMC's messages, none of which completes a message of more
-- than 64 bytes, the loop over this queue returns, with a unit of fuel for each of them and one
-- more. It has taken exactly these messages, in the order in which they came, has answered exactly
-- the requests that the abstract receiver finds in them, each with one response and in order, and
-- has left the queue empty.
pub drain_bmc_rx-Empties :
    (esp : Esp) (ms : List BmcRxMsg) (fuel : ℕ) (s : Firmware)
    → ((w : World) → IsSized (esp.uninit w))
    → IsFifo esp
    → IsRunning s
    → pending esp s.bmc_mgr.bmc_rx_queue s.world ≡ map rx_item ms
    → NoneTooLong (receiver s.mctp) ms
    → length ms < fuel
    → Empties esp ms fuel s
drain_bmc_rx-Empties esp ms fuel s sized fifo running waits fits enough =
    let d = running-Drained esp ms s sized fifo running waits fits in
    record {
      after = d.after;
      returns = drain_bmc_rx-Feeds esp ms fuel s d.after (Answers-Feeds d.answers) enough;
      answers = d.answers;
      none_left = d.none_left;
    }
