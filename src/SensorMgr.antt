-- ===== src/SensorMgr.antt =====
-- components/sensor_mgr/src/sensor_mgr.c: the thread that polls the sensors, and their cache.
pub mod Calibration
pub mod Poll
pub mod Store
pub mod Range
pub mod Reading
pub mod Round
pub mod Threads
mod Tests
use nic_ob_fw.Common.{
  ℕ, zero, suc, ◌+◌, ◌/◌, List, [], ◌∷◌, ◌++◌, Bool, true, false, ◌||◌, Option, none, some, bit_and,
  ltb, ◌==◌, if◌then◌else◌, get_or, set, replicate, for_loop,
}
use nic_ob_fw.Common.Int.{ℤ, pos, negsuc, ◌+ℤ◌, leb_ℤ, scale_up, scale_down, int16}
use nic_ob_fw.Types.{
  RtosErr, rtos_ok, rtos_err_nomem, rtos_err_fail, SensorState, ok, critical, sensor_state_code,
  SensorRecord, SensorCache, NicEventMsg, max_sensors, sensor_poll_interval_ms,
}
use nic_ob_fw.Platform.{Esp, Item}
use nic_ob_fw.Firmware.{Firmware, SensorMgr, M, pure, continue, ◌>>=◌, ◌>>◌, get, modify, defined}
use nic_ob_fw.Rtos.{
  rtos_mutex_create, rtos_mutex_take, rtos_mutex_give, rtos_timer_create, rtos_timer_start,
  rtos_queue_receive, rtos_get_tick_ms, rtos_wait_forever,
}
use nic_ob_fw.SensorProtocol.{sensor_protocol_init, sensor_protocol_read}

pub record SensorCal : Type 0 where
  pub offset : ℤ
  pub scale_num : ℕ
  pub scale_den : ℕ
  pub upper_critical : ℤ
  pub lower_critical : ℤ

abbrev pub temperature_cal : SensorCal
temperature_cal = record {
  offset = pos 0;
  scale_num = 1;
  scale_den = 16;
  upper_critical = pos 85;
  lower_critical = negsuc 39;
}

-- The entries that the source does not fill in are zero.
abbrev pub no_cal : SensorCal
no_cal = record {
  offset = pos 0;
  scale_num = 0;
  scale_den = 0;
  upper_critical = pos 0;
  lower_critical = pos 0;
}

abbrev pub calibration : List SensorCal
calibration = temperature_cal ∷ temperature_cal ∷ replicate 14 no_cal

abbrev pub no_record : SensorRecord
no_record = record {
  sensor_id = 0;
  sensor_type = 0;
  state = 0;
  raw_value = pos 0;
  scaled_value = pos 0;
  unit = 0;
  reserved = 0 ∷ 0 ∷ 0 ∷ [];
  timestamp_ms = 0;
}

-- `&s_calibration[sensor_id]`; a read past the table is undefined.
unfoldable pub calibration_of : ℕ → Option SensorCal
calibration_of sensor_id =
    if ltb sensor_id max_sensors then some (get_or calibration sensor_id no_cal) else none

-- A division by zero is undefined.
unfoldable pub scale : SensorCal → ℤ → Option ℤ
scale cal raw =
    if cal.scale_den == 0
    then none
    else some (int16 (scale_down (scale_up (raw +ℤ cal.offset) cal.scale_num) cal.scale_den))

unfoldable pub apply_calibration : ℕ → ℤ → Option ℤ
unfolding calibration_of scale
apply_calibration sensor_id raw = elim (calibration_of sensor_id) [
  | some cal ↦ scale cal raw
  | none ↦ none
]

unfoldable pub check_thresholds : ℕ → ℤ → SensorState
check_thresholds sensor_id scaled =
    let cal = get_or calibration sensor_id no_cal in
    if leb_ℤ cal.upper_critical scaled || leb_ℤ scaled cal.lower_critical then critical else ok

-- `s_cache.records[sensor_id]`; a read past the array is undefined.
unfoldable pub cached_record : SensorCache → ℕ → Option SensorRecord
cached_record cache sensor_id =
    if ltb sensor_id max_sensors then some (get_or cache.records sensor_id no_record) else none

abbrev pub update_sensors : (SensorMgr → SensorMgr) → M (Unit {0})
update_sensors f = modify λ s. record s { sensor_mgr = f s.sensor_mgr }

-- A write to one record of the cache.
abbrev pub update_record : ℕ → (SensorRecord → SensorRecord) → SensorMgr → SensorMgr
update_record i f m = record m {
  cache = record m.cache {
    records = set m.cache.records i (f (get_or m.cache.records i no_record));
  };
}

module _ (esp : Esp) where
  -- The typed wrapper, which the compiler inlines.
  abbrev pub sensor_alert_queue_receive : ℕ → M (RtosErr × Option Item)
  sensor_alert_queue_receive timeout_ms = do
    s ← get
    rtos_queue_receive esp s.sensor_mgr.alert_queue timeout_ms

  -- The block for sensor `i`, five times in `poll_all_sensors`.
  unfoldable pub poll_sensor : ℕ → M (Unit {0})
  unfolding check_thresholds
  poll_sensor i = do
    r ← sensor_protocol_read esp i
    (elim r.0 [
      | rtos_ok ↦ do
        scaled ← defined (apply_calibration i r.1)
        s ← get
        rtos_mutex_take esp s.sensor_mgr.cache_mutex rtos_wait_forever
        update_sensors (
            update_record i λ rec. record rec {
              raw_value = r.1;
              scaled_value = scaled;
              state = sensor_state_code (check_thresholds i scaled);
            })
        now ← rtos_get_tick_ms esp
        update_sensors (update_record i λ rec. record rec { timestamp_ms = now })
        rtos_mutex_give esp s.sensor_mgr.cache_mutex
        pure tt
      | err ↦ pure tt
    ])

  abbrev pub Polled : Type 0
  Polled = Option (Unit {0} × Firmware)

  -- The bodies of the two loops.
  abbrev pub poll_one : ℕ → Polled → Polled
  poll_one i r = continue r (λ _. poll_sensor i)

  abbrev pub poll_four : ℕ → Polled → Polled
  poll_four i r =
      let r1 = continue r (λ _. poll_sensor i) in
      let r2 = continue r1 (λ _. poll_sensor (i + 1)) in
      let r3 = continue r2 (λ _. poll_sensor (i + 2)) in continue r3 (λ _. poll_sensor (i + 3))

  unfoldable pub poll_all_sensors : M (Unit {0})
  unfolding for_loop
  poll_all_sensors s =
      let count = s.sensor_mgr.cache.count in
      let fours = for_loop count 256 4 (bit_and count 0xffff_fffc) poll_four 0 (some (tt, s)) in
      (for_loop count 256 1 count poll_one fours.0 fours.1).1

  unfoldable pub sensor_poll_timer_cb : M (Unit {0})
  sensor_poll_timer_cb = update_sensors λ m. record m { poll_trigger = true }

  unfoldable pub sensor_mgr_init : ℕ → M RtosErr
  sensor_mgr_init alert_queue = do
    update_sensors
        λ m. record m { cache = record { records = replicate max_sensors no_record; count = 2 } }
    mutex ← rtos_mutex_create esp
    update_sensors λ m. record m { cache_mutex = mutex }
    if mutex == 0 then pure rtos_err_nomem else (do
      update_sensors λ m. record m { alert_queue = alert_queue }
      timer ← rtos_timer_create esp sensor_poll_interval_ms true
      update_sensors λ m. record m { poll_timer = timer }
      if timer == 0 then pure rtos_err_nomem else sensor_protocol_init)

  -- One round of the loop of `sensor_mgr_task`; an alert is received and dropped.
  unfoldable pub sensor_mgr_round : M (Unit {0})
  unfolding poll_all_sensors
  sensor_mgr_round = do
    s ← get
    if s.sensor_mgr.poll_trigger
        then (do update_sensors λ m. record m { poll_trigger = false }; poll_all_sensors)
        else pure tt
    sensor_alert_queue_receive (sensor_poll_interval_ms / 2)
    pure tt

  -- `sensor_mgr_task` before its loop.
  unfoldable pub sensor_mgr_start : M RtosErr
  sensor_mgr_start = do s ← get; rtos_timer_start esp s.sensor_mgr.poll_timer

  -- The error code, and what is left in `*record_out`, if anything.
  unfoldable pub sensor_mgr_get_cached : ℕ → M (RtosErr × Option SensorRecord)
  unfolding cached_record
  sensor_mgr_get_cached sensor_id = do
    s ← get
    if ltb sensor_id s.sensor_mgr.cache.count
        then (do
          rtos_mutex_take esp s.sensor_mgr.cache_mutex rtos_wait_forever
          t ← get
          rec ← defined (cached_record t.sensor_mgr.cache sensor_id)
          rtos_mutex_give esp s.sensor_mgr.cache_mutex
          pure (rtos_ok, some rec))
        else pure (rtos_err_fail, none)

  unfoldable pub sensor_mgr_get_cache_snapshot : M (RtosErr × SensorCache)
  sensor_mgr_get_cache_snapshot = do
    s ← get
    rtos_mutex_take esp s.sensor_mgr.cache_mutex rtos_wait_forever
    t ← get
    rtos_mutex_give esp s.sensor_mgr.cache_mutex
    pure (rtos_ok, t.sensor_mgr.cache)
