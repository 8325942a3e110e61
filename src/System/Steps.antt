-- ===== src/System/Steps.antt =====
-- The firmware in operation: which steps there are, in any order, and what holds in every state that
-- they lead to. A step of a thread is one item of its work; between two of them any interrupt handler,
-- the timer and any other thread may run, also while the main task is still creating threads.
use nic_ob_fw.Common.{ℕ, ◌≤◌, ◌≡◌, ◌≢◌, List, Option, some, length, true, false}
use nic_ob_fw.Types.{RtosErr, rtos_ok, BmcRxMsg, NicEventMsg}
use nic_ob_fw.Platform.{Esp, TaskName, World, IsSized, Item, rx_item, nic_item}
use nic_ob_fw.Firmware.{Firmware}
use nic_ob_fw.Rtos.{rtos_timer_start, rtos_task_create, rtos_queue_receive, rtos_event_group_wait}
use nic_ob_fw.SensorMgr.{sensor_mgr_start, sensor_poll_timer_cb, sensor_mgr_round}
use nic_ob_fw.FlashMgr.{nic_flash_mgr_round}
use nic_ob_fw.BmcMgr.{handle_bmc_msg, handle_nic_event, liveness_round}
use nic_ob_fw.Isr.{bmc_i2c_rx_isr, nic_alert_isr}
use nic_ob_fw.BmcMgr.Drain.{IsPosted}
use nic_ob_fw.System.{IsRunning, IsQueues}
use nic_ob_fw.System.Sound.{called-IsRunning, sensor_mgr_round-Ends}
use nic_ob_fw.System.Keeps.{Ends-returns}
use nic_ob_fw.System.Queues.{Receives, nothing, got, IsRxItem, rtos_queue_receive-Receives}
use nic_ob_fw.System.Messages.{handle_bmc_msg-Ends, handle_nic_event-Ends, liveness_round-Ends}
use nic_ob_fw.System.Interrupts.{bmc_i2c_rx_isr-Ends, nic_alert_isr-Ends, sensor_poll_timer_cb-Ends}
use nic_ob_fw.System.Rounds.{
  FlashRounds, no_command, updated, null_image, nic_flash_mgr_round-FlashRounds,
}

-- One step. The driver hands over as many bytes as it says, or more.
pub data Step (esp : Esp) (s t : Firmware) : Type 0 where
  bus_interrupt :
      (bytes : List ℕ) (len : ℕ)
      → len ≤ length bytes
      → bmc_i2c_rx_isr esp bytes len s ≡ some (tt, t)
      → Step esp s t
  alert_interrupt : nic_alert_isr esp s ≡ some (tt, t) → Step esp s t
  timer_fires : sensor_poll_timer_cb esp s ≡ some (tt, t) → Step esp s t
  bmc_mgr_waits :
      (bits : ℕ)
      → rtos_event_group_wait esp s.bmc_mgr.events 3 true false 1000 s ≡ some (bits, t)
      → Step esp s t
  bmc_mgr_finds_no_message :
      (e : RtosErr) (left : Option Item)
      → rtos_queue_receive esp s.bmc_mgr.bmc_rx_queue 0 s ≡ some ((e, left), t)
      → e ≢ rtos_ok
      → Step esp s t
  bmc_mgr_takes_message :
      (m : BmcRxMsg) (u : Firmware)
      → rtos_queue_receive esp s.bmc_mgr.bmc_rx_queue 0 s ≡ some ((rtos_ok, some (rx_item m)), u)
      → handle_bmc_msg esp m u ≡ some (tt, t)
      → Step esp s t
  bmc_mgr_finds_no_event :
      (e : RtosErr) (left : Option Item)
      → rtos_queue_receive esp s.bmc_mgr.nic_event_queue 0 s ≡ some ((e, left), t)
      → e ≢ rtos_ok
      → Step esp s t
  bmc_mgr_takes_event :
      (event : NicEventMsg) (u : Firmware)
      → rtos_queue_receive esp s.bmc_mgr.nic_event_queue 0 s
        ≡ some ((rtos_ok, some (nic_item event)), u)
      → handle_nic_event esp event u ≡ some (tt, t)
      → Step esp s t
  bmc_mgr_checks_liveness : liveness_round esp s ≡ some (tt, t) → Step esp s t
  sensor_mgr_starts : (e : RtosErr) → sensor_mgr_start esp s ≡ some (e, t) → Step esp s t
  sensor_mgr_runs : sensor_mgr_round esp s ≡ some (tt, t) → Step esp s t
  flash_mgr_runs : nic_flash_mgr_round esp s ≡ some (tt, t) → Step esp s t
  main_creates_task :
      (name : TaskName) (stack_size priority : ℕ) (e : RtosErr)
      → rtos_task_create esp name stack_size priority s ≡ some (e, t)
      → Step esp s t

-- Any number of steps, of any threads and interrupts in any order.
pub data Reach (esp : Esp) : Firmware → Firmware → Type 0 where
  at_start : (s : Firmware) → Reach esp s s
  one_more : (s t u : Firmware) → Reach esp s t → Step esp t u → Reach esp s u

module _ (esp : Esp) where
  received-IsRunning :
      (queue timeout_ms : ℕ) (s t : Firmware) (r : RtosErr × Option Item)
      → rtos_queue_receive esp queue timeout_ms s ≡ some (r, t)
      → IsRunning s
      → IsRunning t
  unfolding rtos_queue_receive
  received-IsRunning queue timeout_ms s t r returns h =
      Ends-returns IsRunning (rtos_queue_receive esp queue timeout_ms s) (called-IsRunning _ s tt h)
        returns

  waited-IsRunning :
      (bits : ℕ) (s t : Firmware)
      → rtos_event_group_wait esp s.bmc_mgr.events 3 true false 1000 s ≡ some (bits, t)
      → IsRunning s
      → IsRunning t
  unfolding rtos_event_group_wait
  waited-IsRunning bits s t returns h =
      Ends-returns IsRunning (rtos_event_group_wait esp s.bmc_mgr.events 3 true false 1000 s)
        (called-IsRunning _ s tt h) returns

  started-IsRunning :
      (e : RtosErr) (s t : Firmware)
      → sensor_mgr_start esp s ≡ some (e, t)
      → IsRunning s
      → IsRunning t
  unfolding sensor_mgr_start rtos_timer_start
  started-IsRunning e s t returns h =
      Ends-returns IsRunning (sensor_mgr_start esp s) (called-IsRunning _ s tt h) returns

  created-IsRunning :
      (name : TaskName) (stack_size priority : ℕ) (e : RtosErr) (s t : Firmware)
      → rtos_task_create esp name stack_size priority s ≡ some (e, t)
      → IsRunning s
      → IsRunning t
  unfolding rtos_task_create
  created-IsRunning name stack_size priority e s t returns h =
      Ends-returns IsRunning (rtos_task_create esp name stack_size priority s)
        (called-IsRunning _ s tt h) returns

  -- A message that the queue delivers has the size of one that an interrupt posts.
  delivered-IsPosted :
      (m : BmcRxMsg) (s u : Firmware)
      → rtos_queue_receive esp s.bmc_mgr.bmc_rx_queue 0 s ≡ some ((rtos_ok, some (rx_item m)), u)
      → Receives esp s.bmc_mgr.bmc_rx_queue 0 IsRxItem s
      → IsPosted m
  delivered-IsPosted m s u returns (nothing timeout) = absurd (cc (returns, timeout))
  delivered-IsPosted m s u returns (got item (n, is, posted) delivers) =
      let same : n ≡ m = cc (returns, delivers, is) in rw (← same) posted

  flash-IsRunning :
      (s t : Firmware)
      → nic_flash_mgr_round esp s ≡ some (tt, t)
      → IsRunning s
      → FlashRounds esp s
      → IsRunning t
  flash-IsRunning s t returns h (no_command timeout is) =
      Ends-returns IsRunning (nic_flash_mgr_round esp s) (rw is (called-IsRunning _ s tt h)) returns
  flash-IsRunning s t returns h (updated cmd e u delivers carried is running) =
      let same : u ≡ t = cc (returns, is) in rw (← same) running
  flash-IsRunning s t returns h (null_image cmd delivers image stuck is) = absurd (cc (returns, is))

module _ (esp : Esp) (u : (w : World) → IsSized (esp.uninit w)) (queues : IsQueues esp) where
  Step-IsRunning : (s t : Firmware) → Step esp s t → IsRunning s → IsRunning t
  Step-IsRunning s t (bus_interrupt bytes len have returns) h =
      Ends-returns IsRunning _ (bmc_i2c_rx_isr-Ends esp u bytes len s have h) returns
  Step-IsRunning s t (alert_interrupt returns) h =
      Ends-returns IsRunning _ (nic_alert_isr-Ends esp s h) returns
  Step-IsRunning s t (timer_fires returns) h =
      Ends-returns IsRunning _ (sensor_poll_timer_cb-Ends esp s h) returns
  Step-IsRunning s t (bmc_mgr_waits bits returns) h = waited-IsRunning esp bits s t returns h
  Step-IsRunning s t (bmc_mgr_finds_no_message e left returns bad) h =
      received-IsRunning esp s.bmc_mgr.bmc_rx_queue 0 s t (e, left) returns h
  Step-IsRunning s t (bmc_mgr_takes_message m v received handled) h =
      let posted =
        delivered-IsPosted esp m s v received
          (rtos_queue_receive-Receives esp 0 s queues h.sound).0 in
      let h2 =
        received-IsRunning esp s.bmc_mgr.bmc_rx_queue 0 s v (rtos_ok, some (rx_item m)) received
          h in
      Ends-returns IsRunning _ (handle_bmc_msg-Ends esp u m v posted h2) handled
  Step-IsRunning s t (bmc_mgr_finds_no_event e left returns bad) h =
      received-IsRunning esp s.bmc_mgr.nic_event_queue 0 s t (e, left) returns h
  Step-IsRunning s t (bmc_mgr_takes_event event v received handled) h =
      let h2 =
        received-IsRunning esp s.bmc_mgr.nic_event_queue 0 s v (rtos_ok, some (nic_item event))
          received h in
      Ends-returns IsRunning _ (handle_nic_event-Ends esp event v h2) handled
  Step-IsRunning s t (bmc_mgr_checks_liveness returns) h =
      Ends-returns IsRunning _ (liveness_round-Ends esp s h) returns
  Step-IsRunning s t (sensor_mgr_starts e returns) h = started-IsRunning esp e s t returns h
  Step-IsRunning s t (main_creates_task name stack_size priority e returns) h =
      created-IsRunning esp name stack_size priority e s t returns h
  Step-IsRunning s t (sensor_mgr_runs returns) h =
      Ends-returns IsRunning _ (sensor_mgr_round-Ends esp s h) returns
  Step-IsRunning s t (flash_mgr_runs returns) h =
      flash-IsRunning esp s t returns h (nic_flash_mgr_round-FlashRounds esp s queues h)

pub Reach-IsRunning :
    (esp : Esp) (s t : Firmware)
    → ((w : World) → IsSized (esp.uninit w))
    → IsQueues esp
    → Reach esp s t
    → IsRunning s
    → IsRunning t
Reach-IsRunning esp s t u queues (at_start _) h = h
Reach-IsRunning esp s t u queues (one_more _ v _ before step) h =
    Step-IsRunning esp u queues v t step (Reach-IsRunning esp s v u queues before h)
