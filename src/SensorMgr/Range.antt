-- ===== src/SensorMgr/Range.antt =====
-- The ranges of what the cache holds.
use nic_ob_fw.Common.{
  ℕ, ◌^◌, ◌<◌, ◌≡◌, refl, List, inl, inr, arith, ◌==◌, ==_iff, Bool-cases, get_or, get_or-replicate,
  set, replicate, length, get_or-set_self, get_or-set_ne,
}
use nic_ob_fw.Common.Int.{ℤ, IsInt16}
use nic_ob_fw.Types.{SensorRecord}
use nic_ob_fw.SensorMgr.{no_record}

-- The fields of several bytes have the ranges of their types, and the padding its length.
pub record IsRecord (rec : SensorRecord) : Type 0 where
  pub sensor_id : rec.sensor_id < 2 ^ 16
  pub raw_value : IsInt16 rec.raw_value
  pub scaled_value : IsInt16 rec.scaled_value
  pub reserved : length rec.reserved ≡ 3
  pub timestamp_ms : rec.timestamp_ms < 2 ^ 32

-- Every record is one.
abbrev pub IsTyped : List SensorRecord → Type 0
IsTyped records = (j : ℕ) → IsRecord (get_or records j no_record)

no_record-IsRecord : IsRecord no_record
no_record-IsRecord = record {
  sensor_id = omega arith;
  raw_value = (omega arith, omega arith);
  scaled_value = (omega arith, omega arith);
  reserved = refl;
  timestamp_ms = omega arith;
}

pub cleared-IsTyped : (n : ℕ) → IsTyped (replicate n no_record)
cleared-IsTyped n j = rw (get_or-replicate n j no_record) no_record-IsRecord

pub set-IsTyped :
    (records : List SensorRecord) (i : ℕ) (rec : SensorRecord)
    → i < length records
    → IsRecord rec
    → IsTyped records
    → IsTyped (set records i rec)
set-IsTyped records i rec inside valid h j = elim (Bool-cases (j == i)) [
  | inl here ↦ rw ((==_iff j i).0 here, get_or-set_self records i rec no_record inside) valid
  | inr there ↦ rw (get_or-set_ne records i j rec no_record (λ e. ground (arith, there, e))) (h j)
]

-- A new reading.
pub measured-IsRecord :
    (rec : SensorRecord) (raw scaled : ℤ) (state : ℕ)
    → IsInt16 raw
    → IsInt16 scaled
    → IsRecord rec
    → IsRecord (record rec { raw_value = raw; scaled_value = scaled; state = state })
measured-IsRecord rec raw scaled state range range2 h = record {
  sensor_id = h.sensor_id;
  raw_value = range;
  scaled_value = range2;
  reserved = h.reserved;
  timestamp_ms = h.timestamp_ms;
}

-- The time of it.
pub stamped-IsRecord :
    (rec : SensorRecord) (now : ℕ)
    → now < 2 ^ 32
    → IsRecord rec
    → IsRecord (record rec { timestamp_ms = now })
stamped-IsRecord rec now small h = record {
  sensor_id = h.sensor_id;
  raw_value = h.raw_value;
  scaled_value = h.scaled_value;
  reserved = h.reserved;
  timestamp_ms = small;
}
