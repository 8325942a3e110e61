-- ===== src/BmcMgr/Drain.antt =====
-- The loop that empties the queue of the BMC's messages, as steps.
use nic_ob_fw.Common.{
  ℕ, zero, suc, ◌≤◌, ◌<◌, ◌≡◌, ◌≢◌, refl, List, [], ◌∷◌, ◌++◌, ◌+◌, true, Option, some, arith,
  length, All,
}
use nic_ob_fw.Types.{RtosErr, rtos_ok, BmcRxMsg}
use nic_ob_fw.Types.Errors.{on_failure}
use nic_ob_fw.Platform.{Esp, World, IsSized, Item, rx_item, i2c_slave_write_buffer, queue_receive}
use nic_ob_fw.Firmware.{Firmware}
use nic_ob_fw.Rtos.{rtos_queue_receive}
use nic_ob_fw.Protocol.Mctp.Contract.{IsValid}
use nic_ob_fw.BmcMgr.{handle_bmc_msg, drain_bmc_rx}
use nic_ob_fw.BmcMgr.Handle.{
  Handles, ignored, no_request, answered, overrun, handle_bmc_msg-Handles, seen,
}

-- From the first state, the queue delivers the messages one by one, each is handled, and then a receive
-- fails, in the last state.
pub data Feeds (esp : Esp) : Firmware → List BmcRxMsg → Firmware → Type 0 where
  dry :
      (s t : Firmware) (e : RtosErr) (left : Option Item)
      → rtos_queue_receive esp s.bmc_mgr.bmc_rx_queue 0 s ≡ some ((e, left), t)
      → e ≢ rtos_ok
      → Feeds esp s [] t
  delivers_one :
      (s u v t : Firmware) (m : BmcRxMsg) (ms : List BmcRxMsg)
      → rtos_queue_receive esp s.bmc_mgr.bmc_rx_queue 0 s ≡ some ((rtos_ok, some (rx_item m)), u)
      → handle_bmc_msg esp m u ≡ some (tt, v)
      → Feeds esp v ms t
      → Feeds esp s (m ∷ ms) t

module _ (esp : Esp) where
  stops_dry :
      (fuel : ℕ) (s t : Firmware) (e : RtosErr) (left : Option Item)
      → rtos_queue_receive esp s.bmc_mgr.bmc_rx_queue 0 s ≡ some ((e, left), t)
      → e ≢ rtos_ok
      → drain_bmc_rx esp (suc fuel) s ≡ some (tt, t)
  unfolding drain_bmc_rx
  stops_dry fuel s t e left r =
      let Stops : RtosErr → Type 0 = λ (f : RtosErr).
        rtos_queue_receive esp s.bmc_mgr.bmc_rx_queue 0 s ≡ some ((f, left), t)
        → drain_bmc_rx esp (suc fuel) s ≡ some (tt, t) in
      λ bad.
        on_failure Stops (λ q. rw q refl) (λ q. rw q refl) (λ q. rw q refl) (λ q. rw q refl)
          (λ q. rw q refl) e bad r

  -- With a unit of fuel for each message and one more, the loop over a queue that delivers some messages
  -- and then runs dry handles them all, in order, and returns.
  pub drain_bmc_rx-Feeds :
      (ms : List BmcRxMsg) (fuel : ℕ) (s t : Firmware)
      → Feeds esp s ms t
      → length ms < fuel
      → drain_bmc_rx esp fuel s ≡ some (tt, t)
  unfolding drain_bmc_rx
  drain_bmc_rx-Feeds ms zero s t f h = absurd (omega arith)
  drain_bmc_rx-Feeds [] (suc fuel) s t (dry _ _ e left r bad) h = stops_dry fuel s t e left r bad
  drain_bmc_rx-Feeds (m ∷ ms) (suc fuel) s t (delivers_one _ u v _ _ _ r handled rest) h =
      rw (drain_bmc_rx, r, handled) (drain_bmc_rx-Feeds ms fuel v t rest (omega arith))

-- What handling needs, and keeps.
pub record IsServing (s : Firmware) : Type 0 where
  pub ready : s.bmc_hal.initialized ≡ true
  pub valid : IsValid s.mctp
  pub inside : s.sensor_mgr.cache.count ≤ 16

-- The size of a message that an interrupt handler posts.
abbrev pub IsPosted : BmcRxMsg → Type 0
IsPosted m = (length m.bytes ≡ 32) × (m.len ≤ 32)

pub handled-IsServing :
    (esp : Esp) (m : BmcRxMsg) (s t : Firmware)
    → ((w : World) → IsSized (esp.uninit w))
    → IsPosted m
    → IsServing s
    → handle_bmc_msg esp m s ≡ some (tt, t)
    → IsServing t
handled-IsServing esp m s t u posted serving handled =
    go (
      handle_bmc_msg-Handles esp m s posted.0 posted.1 u serving.ready serving.valid serving.inside)
  where
    go : Handles esp m s → IsServing t
    go (ignored few returns) =
        let same : seen esp s s.mctp ≡ t = cc (returns, handled) in
        rw (← same)
          (record { ready = serving.ready; valid = serving.valid; inside = serving.inside })
    go (no_request r got e few v returns) =
        let same : seen esp s r ≡ t = cc (returns, handled) in
        rw (← same) (record { ready = serving.ready; valid = v; inside = serving.inside })
    go (answered r p msg e is whole v returns responds) =
        let sent =
          i2c_slave_write_buffer 0 responds.bytes (8 + length responds.content)
            (esp.ticks_of_ms 100) in
        let same : record (seen esp s r) { world = sent ∷ responds.calls ++ (seen esp s r).world }
            ≡ t =
          cc (returns, responds.returns, handled) in
        rw (← same) (record { ready = serving.ready; valid = v; inside = serving.inside })
    go (overrun r p e long returns) = absurd (cc (returns, handled))

received-IsServing :
    (esp : Esp) (queue : ℕ) (s u : Firmware) (r : RtosErr × Option Item)
    → rtos_queue_receive esp queue 0 s ≡ some (r, u)
    → IsServing s
    → IsServing u
unfolding rtos_queue_receive
received-IsServing esp queue s u r e serving =
    let same : record s { world = queue_receive queue (esp.ticks_of_ms 0) ∷ s.world } ≡ u = cc e in
    rw (← same) (record { ready = serving.ready; valid = serving.valid; inside = serving.inside })

Feeds-IsServing :
    (esp : Esp) (ms : List BmcRxMsg) (s t : Firmware)
    → ((w : World) → IsSized (esp.uninit w))
    → Feeds esp s ms t
    → All IsPosted ms
    → IsServing s
    → IsServing t
Feeds-IsServing esp [] s t u (dry _ _ e left r bad) posted serving =
    received-IsServing esp s.bmc_mgr.bmc_rx_queue s t (e, left) r serving
Feeds-IsServing esp (m ∷ ms) s t u (delivers_one _ a b _ _ _ r handled rest) posted serving =
    let got =
      received-IsServing esp s.bmc_mgr.bmc_rx_queue s a (rtos_ok, some (rx_item m)) r serving in
    Feeds-IsServing esp ms b t u rest posted.1 (handled-IsServing esp m a b u posted.0 got handled)

-- If the queue delivers some messages of the size that the interrupt handler posts, each handled
-- with a defined result, and then runs dry, the loop with a unit of fuel for each message and one
-- more handles them all, in order, and returns in the state in which the queue ran dry; the
-- reassembly is well-formed and the transmitter initialised there if they were at the start.
drain_bmc_rx-Serves :
    (esp : Esp) (ms : List BmcRxMsg) (fuel : ℕ) (s t : Firmware)
    → ((w : World) → IsSized (esp.uninit w))
    → Feeds esp s ms t
    → length ms < fuel
    → All IsPosted ms
    → IsServing s
    → (drain_bmc_rx esp fuel s ≡ some (tt, t)) × IsServing t
drain_bmc_rx-Serves esp ms fuel s t u feeds enough posted serving = (
  drain_bmc_rx-Feeds esp ms fuel s t feeds enough,
  Feeds-IsServing esp ms s t u feeds posted serving,
)
