-- ===== src/System/Typed.antt =====
-- In operation, the queues deliver only items of the types that their receivers copy them into.
use nic_ob_fw.Common.{ℕ, ◌≢◌}
use nic_ob_fw.Platform.{Esp, World, IsSized, Item, rx_item, nic_item, flash_item}
use nic_ob_fw.Firmware.{Firmware, MainQueues}
use nic_ob_fw.System.{Suits, IsRunning, IsQueues}
use nic_ob_fw.System.Queues.{
  Receives, IsRxItem, IsNicItem, IsUpdateItem, rtos_queue_receive-Receives, receive-Suits,
  Receives-map,
}
use nic_ob_fw.System.Steps.{Reach, Reach-IsRunning}

-- Not one of the three queues that carry items.
abbrev pub IsApart : MainQueues → ℕ → Type 0
IsApart q queue =
    (queue ≢ q.bmc_rx_queue) × (queue ≢ q.nic_event_queue) × (queue ≢ q.flash_cmd_queue)

no_item_at : (q : MainQueues) (queue : ℕ) (item : Item) → IsApart q queue → Suits q queue item → ⊥
no_item_at q queue (rx_item m) apart h = apart.0 h.0
no_item_at q queue (nic_item event) apart h = apart.1 h
no_item_at q queue (flash_item cmd) apart h = apart.2 h.0

-- With arrays of their sizes and queues that deliver only what was sent to them, in every state
-- that the firmware reaches from a running one, and with every timeout: a receive from the BMC
-- manager's two queues and from the flash manager's queue times out, or delivers an item of the
-- type that the caller copies it into, a message of at most 32 bytes, an event, and an update
-- command of the type `FLASH_CMD_UPDATE_START`; and a receive from the sensor manager's queue of
-- alerts, if its handle is none of these three, always times out, since nothing sends to it.
pub Reach-Receives :
    (esp : Esp) (timeout_ms : ℕ) (s t : Firmware)
    → ((w : World) → IsSized (esp.uninit w))
    → IsQueues esp
    → IsRunning s
    → Reach esp s t
    → IsApart t.main t.sensor_mgr.alert_queue
    → Receives esp t.bmc_mgr.bmc_rx_queue timeout_ms IsRxItem t
      × Receives esp t.bmc_mgr.nic_event_queue timeout_ms IsNicItem t
      × Receives esp t.flash_mgr.cmd_queue timeout_ms IsUpdateItem t
      × Receives esp t.sensor_mgr.alert_queue timeout_ms (λ item. ⊥) t
Reach-Receives esp timeout_ms s t sized queues running reach apart =
    let sound = (Reach-IsRunning esp s t sized queues reach running).sound in
    let (rx, nic, cmd) = rtos_queue_receive-Receives esp timeout_ms t queues sound in
    (
      rx,
      nic,
      cmd,
      Receives-map esp _ timeout_ms t (λ item. no_item_at t.main _ item apart)
          (receive-Suits esp _ timeout_ms t queues sound),
    )
