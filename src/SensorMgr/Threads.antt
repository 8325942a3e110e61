-- ===== src/SensorMgr/Threads.antt =====
-- components/sensor_mgr/src/sensor_mgr.c, one store or load of the cache at a time: the thread that polls
-- and the thread that answers the BMC, interleaved in any order. The mutex is the one thing that keeps
-- them apart: `xSemaphoreTake` with `portMAX_DELAY` returns only once no other thread holds it.
pub mod Stores
pub mod Whole
pub mod Alone
mod Tests
use nic_ob_fw.Common.{
  ℕ, ◌<◌, ◌≡◌, List, [], ◌∷◌, Option, none, some, get_or, set, ◌==◌, if◌then◌else◌,
}
use nic_ob_fw.Common.Int.{ℤ}
use nic_ob_fw.Types.{SensorRecord, SensorCache, sensor_state_code}
use nic_ob_fw.SensorMgr.{no_record, apply_calibration, check_thresholds}

pub data Thread : Type 0 where
  sensor_thread bmc_thread : Thread

-- A field of a `sensor_record_t`, as it is copied on its own.
pub data Field : Type 0 where
  id_field type_field state_field raw_field scaled_field unit_field reserved_field time_field :
      Field

abbrev pub load : Field → SensorRecord → SensorRecord → SensorRecord
load id_field from out = record out { sensor_id = from.sensor_id }
load type_field from out = record out { sensor_type = from.sensor_type }
load state_field from out = record out { state = from.state }
load raw_field from out = record out { raw_value = from.raw_value }
load scaled_field from out = record out { scaled_value = from.scaled_value }
load unit_field from out = record out { unit = from.unit }
load reserved_field from out = record out { reserved = from.reserved }
load time_field from out = record out { timestamp_ms = from.timestamp_ms }

abbrev pub loads : List Field → SensorRecord → SensorRecord → SensorRecord
loads [] from out = out
loads (f ∷ fields) from out = loads fields from (load f from out)

-- An order in which the compiler may copy a struct: every field gets across.
abbrev pub IsCopy : List Field → Type 0
IsCopy fields = (from out : SensorRecord) → loads fields from out ≡ from

-- A store to some fields of a record of the cache.
abbrev pub store : ℕ → (SensorRecord → SensorRecord) → SensorCache → SensorCache
store i f cache = record cache {
  records = set cache.records i (f (get_or cache.records i no_record));
}

-- A reading that `poll_all_sensors` has in its local variables.
pub record Reading : Type 0 where
  pub sensor : ℕ
  pub raw : ℤ
  pub scaled : ℤ

abbrev pub with_raw : Reading → SensorRecord → SensorRecord
with_raw r rec = record rec { raw_value = r.raw }

abbrev pub with_scaled : Reading → SensorRecord → SensorRecord
with_scaled r rec = record rec { scaled_value = r.scaled }

abbrev pub with_state : Reading → SensorRecord → SensorRecord
with_state r rec = record rec { state = sensor_state_code (check_thresholds r.sensor r.scaled) }

abbrev pub with_time : ℕ → SensorRecord → SensorRecord
with_time now rec = record rec { timestamp_ms = now }

abbrev pub store_raw : Reading → SensorCache → SensorCache
store_raw r = store r.sensor (with_raw r)

abbrev pub store_scaled : Reading → SensorCache → SensorCache
store_scaled r = store r.sensor (with_scaled r)

abbrev pub store_state : Reading → SensorCache → SensorCache
store_state r = store r.sensor (with_state r)

abbrev pub store_time : Reading → ℕ → SensorCache → SensorCache
store_time r now = store r.sensor (with_time now)

-- Where the thread of the sensor manager stands.
pub data SensorPc : Type 0 where
  polling : SensorPc
  entered stored_raw stored_scaled stored_state : Reading → SensorPc
  stored_time : Reading → ℕ → SensorPc

-- Where the thread of the BMC manager stands in `sensor_mgr_get_cached`: which sensor it copies, the
-- fields that are left and `*record_out`.
pub data BmcPc : Type 0 where
  elsewhere : BmcPc
  copying : (sensor : ℕ) (left : List Field) (out : SensorRecord) → BmcPc

pub record Sharing : Type 0 where
  pub cache : SensorCache
  pub owner : Option Thread
  pub sensor : SensorPc
  pub bmc : BmcPc

-- One step of either thread, but for the one below.
pub data Step (s : Sharing) : Sharing → Type 0 where
  sensor_takes :
      (r : Reading)
      → apply_calibration r.sensor r.raw ≡ some r.scaled
      → s.owner ≡ none
      → s.sensor ≡ polling
      → Step s (record s { owner = some sensor_thread; sensor = entered r })
  stores_raw :
      (r : Reading)
      → s.sensor ≡ entered r
      → Step s (record s { cache = store_raw r s.cache; sensor = stored_raw r })
  stores_scaled :
      (r : Reading)
      → s.sensor ≡ stored_raw r
      → Step s (record s { cache = store_scaled r s.cache; sensor = stored_scaled r })
  stores_state :
      (r : Reading)
      → s.sensor ≡ stored_scaled r
      → Step s (record s { cache = store_state r s.cache; sensor = stored_state r })
  stores_time :
      (r : Reading) (now : ℕ)
      → s.sensor ≡ stored_state r
      → Step s (record s { cache = store_time r now s.cache; sensor = stored_time r now })
  bmc_takes :
      (i : ℕ) (fields : List Field) (out : SensorRecord)
      → i < s.cache.count
      → IsCopy fields
      → s.owner ≡ none
      → s.bmc ≡ elsewhere
      → Step s (record s { owner = some bmc_thread; bmc = copying i fields out })
  loads_field :
      (i : ℕ) (f : Field) (left : List Field) (out : SensorRecord)
      → s.bmc ≡ copying i (f ∷ left) out
      → Step s (record s { bmc = copying i left (load f (get_or s.cache.records i no_record) out) })
  bmc_gives :
      (i : ℕ) (out : SensorRecord)
      → s.bmc ≡ copying i [] out
      → Step s (record s { owner = none; bmc = elsewhere })

-- The sensor manager gives the mutex back: the poll is complete.
pub data Completes (s : Sharing) : Reading × ℕ → Sharing → Type 0 where
  sensor_gives :
      (r : Reading) (now : ℕ)
      → s.sensor ≡ stored_time r now
      → Completes s (r, now) (record s { owner = none; sensor = polling })

-- What the threads reach from a cache that no thread is in, with the completed polls, the newest first.
pub data Reach (cache : SensorCache) : List (Reading × ℕ) → Sharing → Type 0 where
  start : Reach cache [] (record { cache = cache; owner = none; sensor = polling; bmc = elsewhere })
  later :
      {polls : List (Reading × ℕ)} {s t : Sharing}
      → Reach cache polls s
      → Step s t
      → Reach cache polls t
  completed :
      {polls : List (Reading × ℕ)} {s t : Sharing} {poll : Reading × ℕ}
      → Reach cache polls s
      → Completes s poll t
      → Reach cache (poll ∷ polls) t

-- A record after a poll of its sensor, and after the newest of some polls.
abbrev pub measured : Reading → ℕ → SensorRecord → SensorRecord
measured r now rec = record rec {
  raw_value = r.raw;
  scaled_value = r.scaled;
  state = sensor_state_code (check_thresholds r.sensor r.scaled);
  timestamp_ms = now;
}

abbrev pub latest : ℕ → List (Reading × ℕ) → SensorRecord → SensorRecord
latest i [] rec = rec
latest i ((r, now) ∷ polls) rec =
    if r.sensor == i then measured r now (latest i polls rec) else latest i polls rec
