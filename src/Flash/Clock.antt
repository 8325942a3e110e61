-- ===== src/Flash/Clock.antt =====
-- What the polling loop relies on: the FreeRTOS tick count is a clock.
use nic_ob_fw.Common.{ℕ, ◌+◌, ◌*◌, ◌%◌, ◌^◌, ◌≤◌, ◌<◌, ◌≡◌, ◌∷◌, u32}
use nic_ob_fw.Platform.{Esp, HwCall, World, tick_count, task_delay}

-- `time` is the milliseconds since boot before a call is made. A reading is its remainder by 2^32, and
-- no call goes back in time or takes six days. `fine` is a finer clock, by which also a delay of
-- `pdMS_TO_TICKS(1)` takes time: with a `configTICK_RATE_HZ` below 1000 that is no tick, and many polls
-- fit into a millisecond. What takes as long, by the fine clock, as `polls_in t` delays takes more than
-- `t` milliseconds.
pub record IsClock (esp : Esp) : Type 0 where
  pub time : World → ℕ
  pub reads :
      (w : World) → u32 (u32 (esp.answer w tick_count).value * esp.tick_period_ms) ≡ time w % 2 ^ 32
  pub flows : (w : World) (c : HwCall) → time w ≤ time (c ∷ w)
  pub bounded : (w : World) (c : HwCall) → time (c ∷ w) ≤ time w + 2 ^ 29
  pub fine : World → ℕ
  pub fine_flows : (w : World) (c : HwCall) → fine w ≤ fine (c ∷ w)
  pub delays : (w : World) → fine w < fine (task_delay (esp.ticks_of_ms 1) ∷ w)
  pub passes : (v w : World) (t : ℕ) → fine v + esp.polls_in t ≤ fine w → time v + t < time w
