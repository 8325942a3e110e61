-- ===== src/SensorMgr/Threads/Alone.antt =====
-- The steps are those of the code: a thread that runs alone takes them one after the other.
use nic_ob_fw.Common.{ℕ, ◌≡◌, refl, List, [], ◌∷◌, some, none, get_or}
use nic_ob_fw.Types.{SensorRecord, SensorCache, rtos_ok, rtos_err_fail}
use nic_ob_fw.Platform.{Esp}
use nic_ob_fw.Firmware.{Firmware}
use nic_ob_fw.SensorMgr.{no_record, apply_calibration, poll_sensor, sensor_mgr_get_cached}
use nic_ob_fw.Common.Int.{pos}
use nic_ob_fw.SensorProtocol.{sensor_protocol_read}
use nic_ob_fw.SensorMgr.Store.{stamp}
use nic_ob_fw.SensorMgr.Threads.{
  bmc_thread, Field, id_field, type_field, state_field, raw_field, scaled_field, unit_field,
  reserved_field, time_field, loads, load, IsCopy, Reading, polling, elsewhere, copying, Sharing,
  sensor_takes, stores_raw, stores_scaled, stores_state, stores_time, loads_field, sensor_gives,
  Reach, start, later, completed,
}
use nic_ob_fw.SensorMgr.Threads.Stores.{stores}

abbrev pub at_rest : SensorCache → Sharing
at_rest cache = record { cache = cache; owner = none; sensor = polling; bmc = elsewhere }

-- One poll with nobody else at work.
pub poll_alone :
    (cache : SensorCache) (r : Reading) (now : ℕ)
    → apply_calibration r.sensor r.raw ≡ some r.scaled
    → Reach cache ((r, now) ∷ []) (at_rest (stores r now cache))
poll_alone cache r now calibrated =
    let s1 = later start (sensor_takes r calibrated refl refl) in
    let s2 = later s1 (stores_raw r refl) in
    let s3 = later s2 (stores_scaled r refl) in
    let s4 = later s3 (stores_state r refl) in
    let s5 = later s4 (stores_time r now refl) in completed s5 (sensor_gives r now refl)

-- The copy of the rest of a record.
pub copy_rest :
    {cache : SensorCache} {polls : List (Reading × ℕ)} (s : Sharing) (i : ℕ) (left : List Field)
    (out : SensorRecord)
    → s.bmc ≡ copying i left out
    → Reach cache polls s
    → Reach cache polls
        (record s { bmc = copying i [] (loads left (get_or s.cache.records i no_record) out) })
copy_rest s i [] out here reach = rw (← here) reach
copy_rest s i (f ∷ left) out here reach =
    copy_rest (record s { bmc = copying i left (load f (get_or s.cache.records i no_record) out) })
      i left _ refl (later reach (loads_field i f left out here))

abbrev pub all_fields : List Field
all_fields =
    id_field ∷ type_field ∷ state_field ∷ raw_field ∷ scaled_field ∷ unit_field ∷ reserved_field
    ∷ time_field ∷ []

pub all_fields-IsCopy : IsCopy all_fields
all_fields-IsCopy from out = refl

-- What a poll from `s` to `t` did: the read failed, and nothing but the read happened; or it brought the
-- value of a reading, and the steps of one completed poll with this reading store it at this time.
pub data Stored (esp : Esp) (i : ℕ) (s t : Firmware) : Type 0 where
  not_read :
      sensor_protocol_read esp i s ≡ some ((rtos_err_fail, pos 0), t)
      → t.sensor_mgr.cache ≡ s.sensor_mgr.cache
      → Stored esp i s t
  read_and_stored :
      (r : Reading) (u : Firmware)
      → r.sensor ≡ i
      → sensor_protocol_read esp i s ≡ some ((rtos_ok, r.raw), u)
      → Reach s.sensor_mgr.cache ((r, stamp esp u) ∷ []) (at_rest t.sensor_mgr.cache)
      → Stored esp i s t

-- What a poll and a read of the cache do alone, as steps.
pub record Alone (esp : Esp) (i : ℕ) (s : Firmware) : Type 0 where
  pub polled : Firmware
  pub polls : poll_sensor esp i s ≡ some (tt, polled)
  pub stored : Stored esp i s polled
  pub rec : SensorRecord
  pub copied : Firmware
  pub gets : sensor_mgr_get_cached esp i s ≡ some ((rtos_ok, some rec), copied)
  pub same_cache : copied.sensor_mgr.cache ≡ s.sensor_mgr.cache
  pub loaded :
      Reach s.sensor_mgr.cache []
        (record (at_rest s.sensor_mgr.cache) { owner = some bmc_thread; bmc = copying i [] rec })
