-- ===== src/System/Sound.antt =====
-- The thread of the sensor manager keeps what holds between two steps.
use nic_ob_fw.Common.{
  ℕ, zero, suc, ◌≡◌, refl, ◌∙◌, ◌∷◌, false, Option, some, arith, ltb, length-set, set, length,
  for_range, ◌+◌, ◌≤◌, ◌<◌,
}
use nic_ob_fw.Types.{SensorRecord, RtosErr, sensor_state_code}
use nic_ob_fw.Platform.{Esp, HwCall, tick_count}
use nic_ob_fw.Firmware.{Firmware, SensorMgr}
use nic_ob_fw.Rtos.{rtos_mutex_take, rtos_mutex_give, rtos_get_tick_ms, rtos_queue_receive}
use nic_ob_fw.Hal.Sensor.{sensor_hal_read_reg}
use nic_ob_fw.SensorProtocol.{sensor_protocol_read}
use nic_ob_fw.SensorMgr.{
  poll_sensor, poll_one, poll_all_sensors, sensor_mgr_round, check_thresholds,
}
use nic_ob_fw.SensorMgr.Poll.{poll_all_sensors-for_range}
use nic_ob_fw.Common.Int.{ℤ, IsInt16}
use nic_ob_fw.SensorMgr.Calibration.{scale_down-IsInt16, apply_calibration-Calibrates}
use nic_ob_fw.SensorMgr.Reading.{Sampled, sampled, not_sampled, sensor_protocol_read-Sampled}
use nic_ob_fw.SensorMgr.Range.{IsRecord, IsTyped, set-IsTyped, measured-IsRecord, stamped-IsRecord}
use nic_ob_fw.System.{IsSound, IsRunning, Fits}
use nic_ob_fw.System.Keeps.{Ends-returns, Ends, Ends-continue, Ends-if, Ends-cases}

-- One more call.
pub called-IsSound :
    (c : HwCall) (s : Firmware)
    → Fits s.main c
    → IsSound s
    → IsSound (record s { world = c ∷ s.world })
called-IsSound c s fits h = record {
  linked = h.linked;
  transmits = h.transmits;
  reassembly = h.reassembly;
  cache = record { sized = h.cache.sized; calibrated = h.cache.calibrated };
  typed = h.typed;
  log = h.log;
  suited = (fits, h.suited);
}

-- Other records in the cache, of the same number, and whatever else of the sensor manager.
sensors-IsSound :
    (f : SensorMgr → SensorMgr) (s : Firmware)
    → (f s.sensor_mgr).cache.count ≡ s.sensor_mgr.cache.count
    → length (f s.sensor_mgr).cache.records ≡ length s.sensor_mgr.cache.records
    → IsTyped (f s.sensor_mgr).cache.records
    → IsSound s
    → IsSound (record s { sensor_mgr = f s.sensor_mgr })
sensors-IsSound f s count size typed h = record {
  linked = h.linked;
  transmits = h.transmits;
  reassembly = h.reassembly;
  cache = record {
    sized = size ∙ h.cache.sized;
    calibrated = omega (arith, count, h.cache.calibrated);
  };
  typed = typed;
  log = h.log;
  suited = h.suited;
}

-- The update state is as settled as before.
pub called-IsRunning :
    (c : HwCall) (s : Firmware)
    → Fits s.main c
    → IsRunning s
    → IsRunning (record s { world = c ∷ s.world })
called-IsRunning c s fits h = record {
  sound = called-IsSound c s fits h.sound;
  settled = h.settled;
}

pub sensors-IsRunning :
    (f : SensorMgr → SensorMgr) (s : Firmware)
    → (f s.sensor_mgr).cache.count ≡ s.sensor_mgr.cache.count
    → length (f s.sensor_mgr).cache.records ≡ length s.sensor_mgr.cache.records
    → IsTyped (f s.sensor_mgr).cache.records
    → IsRunning s
    → IsRunning (record s { sensor_mgr = f s.sensor_mgr })
sensors-IsRunning f s count size typed h = record {
  sound = sensors-IsSound f s count size typed h.sound;
  settled = h.settled;
}

module _ (esp : Esp) where
  Ends-read_reg :
      (addr reg n : ℕ) (s : Firmware)
      → IsRunning s
      → Ends IsRunning (sensor_hal_read_reg esp addr reg n s)
  unfolding sensor_hal_read_reg
  Ends-read_reg addr reg n s h =
      Ends-if IsRunning s.sensor_hal_initialized _ _ s (called-IsRunning _ s tt h) h

  Ends-sensor_read :
      (i : ℕ) (s : Firmware) → IsRunning s → Ends IsRunning (sensor_protocol_read esp i s)
  unfolding sensor_protocol_read
  Ends-sensor_read i s h =
      Ends-if IsRunning (ltb i 16) _ _ s
        (Ends-continue IsRunning (sensor_hal_read_reg esp _ _ 2 s) _ (Ends-read_reg _ _ 2 s h)
          (λ r t k. Ends-cases IsRunning r.0 _ _ _ _ _ _ t k k k k k k))
        h

  stored-IsRunning :
      (i : ℕ) (rec : SensorRecord) (s : Firmware)
      → i < 2
      → IsRecord rec
      → IsRunning s
      → IsRunning (record s {
        sensor_mgr = record s.sensor_mgr {
          cache = record s.sensor_mgr.cache { records = set s.sensor_mgr.cache.records i rec };
        };
      })
  stored-IsRunning i rec s inside valid h =
      let old = s.sensor_mgr.cache.records in
      sensors-IsRunning
        (λ m. record m { cache = record m.cache { records = set m.cache.records i rec } }) s refl
        (length-set old i rec)
        (set-IsTyped old i rec (omega (arith, h.sound.cache.sized)) valid h.sound.typed) h

  poll_sensor-Ends :
      (i : ℕ) (s : Firmware) → i < 2 → IsRunning s → Ends IsRunning (poll_sensor esp i s)
  unfolding poll_sensor rtos_mutex_take rtos_mutex_give rtos_get_tick_ms
  poll_sensor-Ends i s inside h = go (sensor_protocol_read-Sampled esp i s (omega arith))
    where
      reads :
          {r : RtosErr × ℤ} {t : Firmware}
          → sensor_protocol_read esp i s ≡ some (r, t)
          → IsRunning t
      reads returns =
          Ends-returns IsRunning (sensor_protocol_read esp i s) (Ends-sensor_read i s h) returns

      go : Sampled esp i s → Ends IsRunning (poll_sensor esp i s)
      go (not_sampled t same returns) = rw returns (reads returns)
      go (sampled raw t range same returns) =
          let calibrates = apply_calibration-Calibrates i raw inside range in
          let scaled = calibrates.degrees in
          let range2 : IsInt16 scaled = rw (calibrates.truncates) (scale_down-IsInt16 raw range) in
          let taken = called-IsRunning _ t tt (reads returns) in
          let stored =
            stored-IsRunning i _ _ inside
              (measured-IsRecord _ raw scaled (sensor_state_code (check_thresholds i scaled)) range
                range2 (taken.sound.typed i))
              taken in
          let timed = called-IsRunning tick_count _ tt stored in
          let stamped =
            stored-IsRunning i _ _ inside (stamped-IsRecord _ _ (omega arith) (timed.sound.typed i))
              timed in
          rw (returns, calibrates.scaled) (called-IsRunning _ _ tt stamped)

  poll_range-Ends :
      (n i : ℕ) (r : Option (Unit {0} × Firmware))
      → i + n ≤ 2
      → Ends IsRunning r
      → Ends IsRunning (for_range n (poll_one esp) i r)
  unfolding for_range
  poll_range-Ends zero i r inside h = h
  poll_range-Ends (suc n) i r inside h =
      poll_range-Ends n (suc i) (poll_one esp i r) (omega arith) (
        Ends-continue IsRunning r (λ _. poll_sensor esp i) h
          (λ _ t k. poll_sensor-Ends i t (omega arith) k))

  poll_all_sensors-Ends : (s : Firmware) → IsRunning s → Ends IsRunning (poll_all_sensors esp s)
  poll_all_sensors-Ends s h =
      rw (poll_all_sensors-for_range esp s (omega (arith, h.sound.cache.calibrated))) (
        poll_range-Ends s.sensor_mgr.cache.count 0 (some (tt, s))
          (omega (arith, h.sound.cache.calibrated)) h)

  pub sensor_mgr_round-Ends : (s : Firmware) → IsRunning s → Ends IsRunning (sensor_mgr_round esp s)
  unfolding sensor_mgr_round rtos_queue_receive
  sensor_mgr_round-Ends s h =
      Ends-continue IsRunning _ _
        (Ends-if IsRunning s.sensor_mgr.poll_trigger _ _ s
          (poll_all_sensors-Ends _ (
            sensors-IsRunning (λ m. record m { poll_trigger = false }) s refl refl h.sound.typed h))
          h)
        (λ _ t k. called-IsRunning _ t tt k)
