-- ===== src/System.antt =====
-- The whole firmware: three threads, two interrupt handlers and a timer over one state, and the
-- queues of FreeRTOS between them. A queue copies the bytes of an item without knowing its type, so
-- which item comes out of which queue is a property of all the components together.
pub mod Keeps
pub mod Sound
pub mod Writes
pub mod Updates
pub mod Queues
pub mod Messages
pub mod Interrupts
pub mod Rounds
pub mod Steps
pub mod Start
pub mod Typed
pub mod Request
pub mod Measure
pub mod Waiting
pub mod Emptied
pub mod Cleared
pub mod Handover
pub mod Arrival
pub mod Delivery
mod Tests
use nic_ob_fw.Common.{
  ℕ, ◌≡◌, ◌≢◌, ◌⊎◌, inl, inr, List, [], ◌∷◌, Bool, true, false, Option, some, refl, All,
}
use nic_ob_fw.Types.{update_start, flash_cmd_code}
use nic_ob_fw.Platform.{
  Esp, HwCall, World, Item, rx_item, nic_item, flash_item, queue_send, queue_send_from_isr,
  queue_receive, is_pass,
}
use nic_ob_fw.Firmware.{Firmware, MainQueues, FlashMgr, FwUpdateState, fw_idle, fw_error, SelEntry}
use nic_ob_fw.Protocol.Mctp.Contract.{IsValid}
use nic_ob_fw.GenMgr.Sel.{Logs}
use nic_ob_fw.SensorMgr.Store.{IsCache}
use nic_ob_fw.SensorMgr.Range.{IsTyped}
use nic_ob_fw.BmcMgr.Drain.{IsPosted}

-- The item is of the type that the queue is for: a message of the size that the interrupt handler
-- posts, an event, or an update command.
abbrev pub Suits : MainQueues → ℕ → Item → Type 0
Suits q handle (rx_item m) = (handle ≡ q.bmc_rx_queue) × IsPosted m
Suits q handle (nic_item event) = handle ≡ q.nic_event_queue
Suits q handle (flash_item cmd) =
    (handle ≡ q.flash_cmd_queue) × (cmd.cmd_type ≡ flash_cmd_code update_start)

-- What a call sends suits its queue.
abbrev pub Fits : MainQueues → HwCall → Type 0
Fits q (queue_send handle item ticks) = Suits q handle item
Fits q (queue_send_from_isr handle item) = Suits q handle item
Fits q other = Unit {0}

-- The call sends the item to the queue.
abbrev pub Sends : ℕ → Item → HwCall → Type 0
Sends queue item (queue_send handle it ticks) = (handle ≡ queue) × (it ≡ item)
Sends queue item (queue_send_from_isr handle it) = (handle ≡ queue) × (it ≡ item)
Sends queue item other = ⊥

-- Some call so far sent it.
abbrev pub WasSent : ℕ → Item → World → Type 0
WasSent queue item [] = ⊥
WasSent queue item (c ∷ w) = Sends queue item c ⊎ WasSent queue item w

-- What `xQueueReceive` promises: if it returns `pdPASS`, it delivers an item, and one that was sent
-- to this queue.
pub record IsQueues (esp : Esp) : Type 0 where
  pub delivers :
      (w : World) (queue ticks : ℕ)
      → is_pass (esp.answer w (queue_receive queue ticks)) ≡ true
      → (item : Item) × ((esp.answer w (queue_receive queue ticks)).item ≡ some item)
        × WasSent queue item w

-- The three queues that carry items have different handles, and none is the null pointer.
abbrev pub IsDistinct : MainQueues → Type 0
IsDistinct q =
    (q.bmc_rx_queue ≢ q.nic_event_queue)
    × (q.bmc_rx_queue ≢ q.flash_cmd_queue)
    × (q.nic_event_queue ≢ q.flash_cmd_queue)

-- Every component has the handles of the queues that `main` created.
abbrev pub IsLinked : Firmware → Type 0
IsLinked s =
    (s.bmc_mgr.bmc_rx_queue ≡ s.main.bmc_rx_queue)
    × (s.bmc_mgr.nic_event_queue ≡ s.main.nic_event_queue)
    × (s.bmc_mgr.flash_cmd_queue ≡ s.main.flash_cmd_queue)
    × (s.flash_mgr.cmd_queue ≡ s.main.flash_cmd_queue)
    × (s.isr.bmc_rx_queue ≡ s.main.bmc_rx_queue)
    × (s.isr.nic_event_queue ≡ s.main.nic_event_queue)
    × IsDistinct s.main

-- What holds from the end of the start-up on, also while a thread is at work.
pub record IsSound (s : Firmware) : Type 0 where
  pub linked : IsLinked s
  pub transmits : s.bmc_hal.initialized ≡ true
  pub reassembly : IsValid s.mctp
  pub cache : IsCache s
  pub typed : IsTyped s.sensor_mgr.cache.records
  pub log : (history : List SelEntry) × Logs s.gen_mgr history
  pub suited : All (Fits s.main) s.world

-- The update state in between two commands: idle and inactive, or failed and still active.
abbrev pub IsSettled : FlashMgr → Type 0
IsSettled f =
    ((f.fw_state ≡ fw_idle) × (f.update_active ≡ false))
    ⊎ ((f.fw_state ≡ fw_error) × (f.update_active ≡ true))

-- What holds between two steps of the threads and the interrupt handlers.
pub record IsRunning (s : Firmware) : Type 0 where
  pub sound : IsSound s
  pub settled : IsSettled s.flash_mgr
