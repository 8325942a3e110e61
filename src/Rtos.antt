-- ===== src/Rtos.antt =====
-- components/rtos_hal/src/rtos_hal.c: the wrappers over FreeRTOS.
use nic_ob_fw.Common.{ℕ, ◌*◌, Bool, Option, none, ◌==◌, if◌then◌else◌, u32}
use nic_ob_fw.Types.{
  RtosErr, rtos_ok, rtos_err_timeout, rtos_err_full, rtos_err_nomem, rtos_err_fail,
}
use nic_ob_fw.Platform.{
  Esp, Answer, Item, TaskName, is_pass, task_create, task_priority_set, task_priority_get,
  task_delay, tick_count, yield_from_isr, enter_critical, exit_critical, queue_create, queue_send,
  queue_send_from_isr, queue_receive, semaphore_create_mutex, semaphore_create_binary,
  semaphore_take, semaphore_give, semaphore_give_from_isr, event_group_create, event_group_wait,
  event_group_set, event_group_set_from_isr, timer_create, timer_start, timer_stop,
}
use nic_ob_fw.Firmware.{M, pure, ◌>>=◌, ◌>>◌, perform}

abbrev pub rtos_wait_forever : ℕ
rtos_wait_forever = 0xffff_ffff

abbrev pub rtos_no_wait : ℕ
rtos_no_wait = 0

module _ (esp : Esp) where
  -- `portMAX_DELAY` is all ones.
  unfoldable pub ms_to_ticks : ℕ → ℕ
  ms_to_ticks ms = if ms == rtos_wait_forever then 0xffff_ffff else esp.ticks_of_ms ms

  abbrev result : RtosErr → Answer → M RtosErr
  result failure a = pure (if is_pass a then rtos_ok else failure)

  unfoldable pub rtos_task_create : TaskName → ℕ → ℕ → M RtosErr
  rtos_task_create name stack_size priority = do
    ret ← perform esp (task_create name stack_size priority)
    result rtos_err_nomem ret

  unfoldable pub rtos_task_priority_set : ℕ → ℕ → M (Unit {0})
  rtos_task_priority_set handle priority = do
    perform esp (task_priority_set handle priority)
    pure tt

  unfoldable pub rtos_task_priority_get : ℕ → M ℕ
  rtos_task_priority_get handle = do
    ret ← perform esp (task_priority_get handle)
    pure (u32 ret.value)

  unfoldable pub rtos_queue_create : ℕ → ℕ → M ℕ
  rtos_queue_create depth item_size = do
    ret ← perform esp (queue_create depth item_size)
    pure ret.value

  unfoldable pub rtos_queue_send : ℕ → Item → ℕ → M RtosErr
  unfolding ms_to_ticks
  rtos_queue_send queue item timeout_ms = do
    ret ← perform esp (queue_send queue item (ms_to_ticks timeout_ms))
    result rtos_err_full ret

  -- The error code, and what `*higher_prio_woken` is set to.
  unfoldable pub rtos_queue_send_from_isr : ℕ → Item → M (RtosErr × Bool)
  rtos_queue_send_from_isr queue item = do
    ret ← perform esp (queue_send_from_isr queue item)
    pure (if is_pass ret then rtos_ok else rtos_err_full, ret.woken)

  -- The error code, and what is left in `*item`, if anything.
  unfoldable pub rtos_queue_receive : ℕ → ℕ → M (RtosErr × Option Item)
  unfolding ms_to_ticks
  rtos_queue_receive queue timeout_ms = do
    ret ← perform esp (queue_receive queue (ms_to_ticks timeout_ms))
    pure (if is_pass ret then (rtos_ok, ret.item) else (rtos_err_timeout, none))

  unfoldable pub rtos_mutex_create : M ℕ
  rtos_mutex_create = do ret ← perform esp semaphore_create_mutex; pure ret.value

  unfoldable pub rtos_mutex_take : ℕ → ℕ → M RtosErr
  unfolding ms_to_ticks
  rtos_mutex_take mutex timeout_ms = do
    ret ← perform esp (semaphore_take mutex (ms_to_ticks timeout_ms))
    result rtos_err_timeout ret

  unfoldable pub rtos_mutex_give : ℕ → M RtosErr
  rtos_mutex_give mutex = do ret ← perform esp (semaphore_give mutex); result rtos_err_fail ret

  unfoldable pub rtos_sema_binary_create : M ℕ
  rtos_sema_binary_create = do ret ← perform esp semaphore_create_binary; pure ret.value

  unfoldable pub rtos_sema_give : ℕ → M RtosErr
  rtos_sema_give sema = do ret ← perform esp (semaphore_give sema); result rtos_err_fail ret

  unfoldable pub rtos_sema_give_from_isr : ℕ → M (RtosErr × Bool)
  rtos_sema_give_from_isr sema = do
    ret ← perform esp (semaphore_give_from_isr sema)
    pure (if is_pass ret then rtos_ok else rtos_err_fail, ret.woken)

  unfoldable pub rtos_sema_take : ℕ → ℕ → M RtosErr
  unfolding ms_to_ticks
  rtos_sema_take sema timeout_ms = do
    ret ← perform esp (semaphore_take sema (ms_to_ticks timeout_ms))
    result rtos_err_timeout ret

  unfoldable pub rtos_event_group_create : M ℕ
  rtos_event_group_create = do ret ← perform esp event_group_create; pure ret.value

  unfoldable pub rtos_event_group_wait : ℕ → ℕ → Bool → Bool → ℕ → M ℕ
  unfolding ms_to_ticks
  rtos_event_group_wait group bits_to_wait clear_on_exit wait_all timeout_ms = do
    ret ←
        perform esp
          (event_group_wait group bits_to_wait clear_on_exit wait_all (ms_to_ticks timeout_ms))
    pure (u32 ret.value)

  unfoldable pub rtos_event_group_set : ℕ → ℕ → M RtosErr
  rtos_event_group_set group bits = do perform esp (event_group_set group bits); pure rtos_ok

  unfoldable pub rtos_event_group_set_from_isr : ℕ → ℕ → M (RtosErr × Bool)
  rtos_event_group_set_from_isr group bits = do
    ret ← perform esp (event_group_set_from_isr group bits)
    pure (if is_pass ret then rtos_ok else rtos_err_fail, ret.woken)

  unfoldable pub rtos_timer_create : ℕ → Bool → M ℕ
  rtos_timer_create period_ms auto_reload = do
    ret ← perform esp (timer_create (esp.ticks_of_ms period_ms) auto_reload)
    pure ret.value

  unfoldable pub rtos_timer_start : ℕ → M RtosErr
  rtos_timer_start timer = do ret ← perform esp (timer_start timer); result rtos_err_fail ret

  unfoldable pub rtos_timer_stop : ℕ → M RtosErr
  rtos_timer_stop timer = do ret ← perform esp (timer_stop timer); result rtos_err_fail ret

  unfoldable pub rtos_get_tick_ms : M ℕ
  rtos_get_tick_ms = do
    ret ← perform esp tick_count
    pure (u32 (u32 ret.value * esp.tick_period_ms))

  unfoldable pub rtos_delay_ms : ℕ → M (Unit {0})
  rtos_delay_ms ms = do perform esp (task_delay (esp.ticks_of_ms ms)); pure tt

  unfoldable pub rtos_yield_from_isr : Bool → M (Unit {0})
  rtos_yield_from_isr higher_prio_woken =
      if higher_prio_woken then (do perform esp yield_from_isr; pure tt) else pure tt

  -- The spinlock is a compound literal, so each call has its own.
  unfoldable pub rtos_enter_critical : M (Unit {0})
  rtos_enter_critical = do perform esp enter_critical; pure tt

  unfoldable pub rtos_exit_critical : M (Unit {0})
  rtos_exit_critical = do perform esp exit_critical; pure tt
