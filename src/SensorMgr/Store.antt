-- ===== src/SensorMgr/Store.antt =====
-- What polling a sensor stores in the cache when the read succeeds.
use nic_ob_fw.Common.{
  ℕ, ◌*◌, ◌≤◌, ◌<◌, ◌≡◌, ◌≢◌, refl, sym, ap, ◌∙◌, ◌∷◌, some, arith, u32, get_or, set, length,
  length-set, get_or-set_self, get_or-set_ne,
}
use nic_ob_fw.Common.Int.{ℤ, IsInt16, scale_down}
use nic_ob_fw.Types.{SensorRecord, rtos_ok, sensor_state_code}
use nic_ob_fw.Platform.{Esp, World, semaphore_take, semaphore_give, tick_count}
use nic_ob_fw.Firmware.{Firmware, SensorMgr}
use nic_ob_fw.Rtos.{rtos_mutex_take, rtos_mutex_give, rtos_get_tick_ms}
use nic_ob_fw.SensorProtocol.{sensor_protocol_read}
use nic_ob_fw.SensorMgr.{no_record, apply_calibration, check_thresholds, poll_sensor}
use nic_ob_fw.SensorMgr.Calibration.{apply_calibration-Calibrates}

abbrev pub record_at : Firmware → ℕ → SensorRecord
record_at s i = get_or s.sensor_mgr.cache.records i no_record

-- The cache has its size and holds no more than the two calibrated sensors.
pub record IsCache (s : Firmware) : Type 0 where
  pub sized : length s.sensor_mgr.cache.records ≡ 16
  pub calibrated : s.sensor_mgr.cache.count ≤ 2

-- The time that is stored after a read that left the state `t`, and the calls that the store makes.
abbrev pub stamp : Esp → Firmware → ℕ
stamp esp t = u32 (
    u32
      (esp.answer (semaphore_take t.sensor_mgr.cache_mutex 0xffff_ffff ∷ t.world) tick_count).value
    * esp.tick_period_ms)

abbrev pub stored_world : Firmware → World
stored_world t =
    semaphore_give t.sensor_mgr.cache_mutex
    ∷ tick_count
    ∷ semaphore_take t.sensor_mgr.cache_mutex 0xffff_ffff
    ∷ t.world

module _ (esp : Esp) where
  -- A read that brought `raw`, and left the state `t`: what is stored.
  pub record Stores (i : ℕ) (raw : ℤ) (s t : Firmware) : Type 0 where
    pub after : Firmware
    pub returns : poll_sensor esp i s ≡ some (tt, after)
    pub degrees : ℤ
    pub calibrates : apply_calibration i raw ≡ some degrees
    pub truncates : degrees ≡ scale_down raw 16
    pub only : after ≡ record s { world = stored_world t; sensor_mgr = after.sensor_mgr }
    pub same_count : after.sensor_mgr.cache.count ≡ s.sensor_mgr.cache.count
    pub same_trigger : after.sensor_mgr.poll_trigger ≡ s.sensor_mgr.poll_trigger
    pub sized : length after.sensor_mgr.cache.records ≡ 16
    pub others : (j : ℕ) → j ≢ i → record_at after j ≡ record_at s j
    pub own : record_at after i ≡ record (record_at s i) {
      raw_value = raw;
      scaled_value = degrees;
      state = sensor_state_code (check_thresholds i degrees);
      timestamp_ms = stamp esp t;
    }

  pub poll_sensor-Stores :
      (i : ℕ) (raw : ℤ) (s t : Firmware)
      → IsCache s
      → i < 2
      → IsInt16 raw
      → t ≡ record s { world = t.world }
      → sensor_protocol_read esp i s ≡ some ((rtos_ok, raw), t)
      → Stores i raw s t
  unfolding poll_sensor rtos_mutex_take rtos_mutex_give rtos_get_tick_ms
  poll_sensor-Stores i raw s t c h range same returns =
      let calibrates = apply_calibration-Calibrates i raw h range in
      let scaled = calibrates.degrees in
      let mutex = t.sensor_mgr.cache_mutex in
      let taken = semaphore_take mutex 0xffff_ffff ∷ t.world in
      let now = u32 (u32 (esp.answer taken tick_count).value * esp.tick_period_ms) in
      let old = t.sensor_mgr.cache.records in
      let store = λ (r : SensorRecord). record r {
        raw_value = raw;
        scaled_value = scaled;
        state = sensor_state_code (check_thresholds i scaled);
      } in
      let reading = store (get_or old i no_record) in
      let half = set old i reading in
      let stamped = record (get_or half i no_record) { timestamp_ms = now } in
      let kept : t.sensor_mgr ≡ s.sensor_mgr = ap (λ (u : Firmware). u.sensor_mgr) same in
      let size : length old ≡ 16 = rw kept c.sized in
      let before : (j : ℕ) → record_at t j ≡ record_at s j = λ j. rw kept refl in
      let half_sized : length half ≡ 16 = length-set old i reading ∙ size in
      let first : get_or half i no_record ≡ reading =
        get_or-set_self old i reading no_record (omega arith) in
      let world = semaphore_give mutex ∷ tick_count ∷ taken in
      let sensors = record t.sensor_mgr {
        cache = record t.sensor_mgr.cache { records = set half i stamped };
      } in
      record {
        after = record t { world = world; sensor_mgr = sensors };
        returns = rw (returns, calibrates.scaled) refl;
        degrees = scaled;
        calibrates = calibrates.scaled;
        truncates = calibrates.truncates;
        only = ap (λ (u : Firmware). record u { world = world; sensor_mgr = sensors }) same;
        same_count = ap (λ (m : SensorMgr). m.cache.count) kept;
        same_trigger = ap (λ (m : SensorMgr). m.poll_trigger) kept;
        sized = length-set half i stamped ∙ half_sized;
        others = λ j other.
            get_or-set_ne half i j stamped no_record (λ e. other (sym e))
            ∙ get_or-set_ne old i j reading no_record (λ e. other (sym e))
            ∙ before j;
        own =
            get_or-set_self half i stamped no_record (omega arith)
            ∙ ap (λ (r : SensorRecord). record r { timestamp_ms = now })
                (first ∙ ap store (before i));
      }
