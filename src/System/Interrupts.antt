-- ===== src/System/Interrupts.antt =====
-- The interrupt handlers and the timer keep what holds between two steps.
use nic_ob_fw.Common.{
  ℕ, ◌≤◌, refl, List, Bool, true, false, inl, inr, arith, Bool-cases, ◌==◌, length,
}
use nic_ob_fw.Platform.{
  Esp, Item, World, IsSized, nic_item, rx_item, queue_send_from_isr, yield_from_isr,
}
use nic_ob_fw.Firmware.{Firmware}
use nic_ob_fw.Rtos.{rtos_queue_send_from_isr, rtos_yield_from_isr}
use nic_ob_fw.SensorMgr.{sensor_poll_timer_cb}
use nic_ob_fw.Isr.{bmc_i2c_rx_isr, nic_alert_isr}
use nic_ob_fw.Isr.Copy.{bmc_i2c_rx_isr-Posts, yields}
use nic_ob_fw.System.{IsRunning, Suits}
use nic_ob_fw.System.Sound.{called-IsRunning, sensors-IsRunning}
use nic_ob_fw.System.Keeps.{Ends, Ends-if, Ends-continue}

yields-IsRunning :
    (woken : Bool) (s : Firmware)
    → IsRunning s
    → IsRunning (record s { world = yields woken s.world })
yields-IsRunning true s h = called-IsRunning yield_from_isr s tt h
yields-IsRunning false s h = h

module _ (esp : Esp) (u : (w : World) → IsSized (esp.uninit w)) where
  pub bmc_i2c_rx_isr-Ends :
      (bytes : List ℕ) (len : ℕ) (s : Firmware)
      → len ≤ length bytes
      → IsRunning s
      → Ends IsRunning (bmc_i2c_rx_isr esp bytes len s)
  unfolding bmc_i2c_rx_isr
  bmc_i2c_rx_isr-Ends bytes len s have h = elim (Bool-cases (s.isr.bmc_rx_queue == 0)) [
    | inl no_queue ↦ rw no_queue h
    | inr queue ↦
        let posts = bmc_i2c_rx_isr-Posts esp bytes len s (u s.world) (ground (arith, queue)) have in
        let (rx, nic, flash, cmd, isr_rx, isr_nic, distinct) = h.sound.linked in
        rw (posts.returns) (
          yields-IsRunning posts.woken _ (
            called-IsRunning (queue_send_from_isr s.isr.bmc_rx_queue (rx_item posts.msg)) s
              (isr_rx, (posts.msg_sized, posts.msg_within)) h))
  ]

module _ (esp : Esp) where
  send-Ends :
      (queue : ℕ) (item : Item) (s : Firmware)
      → Suits s.main queue item
      → IsRunning s
      → Ends IsRunning (rtos_queue_send_from_isr esp queue item s)
  unfolding rtos_queue_send_from_isr
  send-Ends queue item s suits h = called-IsRunning (queue_send_from_isr queue item) s suits h

  yield-Ends :
      (woken : Bool) (s : Firmware) → IsRunning s → Ends IsRunning (rtos_yield_from_isr esp woken s)
  unfolding rtos_yield_from_isr
  yield-Ends woken s h = Ends-if IsRunning woken _ _ s (called-IsRunning yield_from_isr s tt h) h

  pub nic_alert_isr-Ends : (s : Firmware) → IsRunning s → Ends IsRunning (nic_alert_isr esp s)
  unfolding nic_alert_isr
  nic_alert_isr-Ends s h =
      let (rx, nic, flash, cmd, isr_rx, isr_nic, distinct) = h.sound.linked in
      Ends-if IsRunning (s.isr.nic_event_queue == 0) _ _ s h (
        Ends-continue IsRunning (rtos_queue_send_from_isr esp s.isr.nic_event_queue _ s) _
          (send-Ends s.isr.nic_event_queue (nic_item _) s isr_nic h) (λ r t k. yield-Ends r.1 t k))

  pub sensor_poll_timer_cb-Ends :
      (s : Firmware) → IsRunning s → Ends IsRunning (sensor_poll_timer_cb esp s)
  unfolding sensor_poll_timer_cb
  sensor_poll_timer_cb-Ends s h =
      sensors-IsRunning (λ m. record m { poll_trigger = true }) s refl refl h.sound.typed h
