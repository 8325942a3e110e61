-- ===== src/Firmware.antt =====
-- The state of the whole program: the static variables of every .c file under components/ and
-- main/, and the calls made to the platform. An operation maps a state to its result and the next
-- state, or to `none` where C leaves the behaviour undefined.
use nic_ob_fw.Common.{ℕ, List, ◌∷◌, Bool, Option, none, some, ◌≡◌, ap}
use nic_ob_fw.Types.{SensorCache, FruRecord}
use nic_ob_fw.Platform.{Esp, Answer, HwCall, World}
use nic_ob_fw.Protocol.Mctp.{Reassembly}

-- bmc_hal.c; `rx_callback` says whether the callback pointer is set.
pub record BmcHal : Type 0 where
  pub rx_callback : Bool
  pub initialized : Bool

-- nic_chip_hal.c.
pub record NicChipHal : Type 0 where
  pub spi_dev : ℕ
  pub initialized : Bool

-- isr_handlers.c. Handles are numbers, and the null pointer is 0.
pub record IsrQueues : Type 0 where
  pub bmc_rx_queue : ℕ
  pub nic_event_queue : ℕ
  pub sensor_alert_queue : ℕ

-- nic_gen_mgr.c.
pub record SelEntry : Type 0 where
  pub event_type : ℕ
  pub event_data : ℕ
  pub timestamp_ms : ℕ

pub record GenMgr : Type 0 where
  pub fru : FruRecord
  pub sel_log : List SelEntry
  pub sel_head : ℕ
  pub sel_count : ℕ

-- sensor_mgr.c.
pub record SensorMgr : Type 0 where
  pub cache : SensorCache
  pub cache_mutex : ℕ
  pub alert_queue : ℕ
  pub poll_timer : ℕ
  pub poll_trigger : Bool

-- nic_flash_mgr.c.
pub data FwUpdateState : Type 0 where
  fw_idle fw_receiving fw_verifying fw_activating fw_error : FwUpdateState

pub record FlashMgr : Type 0 where
  pub cmd_queue : ℕ
  pub update_active : Bool
  pub fw_state : FwUpdateState

-- bmc_mgr.c.
pub record BmcMgr : Type 0 where
  pub bmc_rx_queue : ℕ
  pub nic_event_queue : ℕ
  pub flash_cmd_queue : ℕ
  pub events : ℕ
  pub last_bmc_seen_ms : ℕ
  pub liveness_timeout_ms : ℕ

-- main.c; the task handles are written by the scheduler and not read.
pub record MainQueues : Type 0 where
  pub bmc_rx_queue : ℕ
  pub nic_event_queue : ℕ
  pub sensor_alert_queue : ℕ
  pub flash_cmd_queue : ℕ

pub record Firmware : Type 0 where
  pub world : World
  pub bmc_hal : BmcHal
  pub sensor_hal_initialized : Bool
  pub nic_hal : NicChipHal
  pub isr : IsrQueues
  pub mctp : Reassembly
  pub gen_mgr : GenMgr
  pub sensor_mgr : SensorMgr
  pub flash_mgr : FlashMgr
  pub bmc_mgr : BmcMgr
  pub main : MainQueues

abbrev pub M : Type 0 → Type 0
M A = Firmware → Option (A × Firmware)

abbrev pub pure : {A : Type 0} → A → M A
pure a s = some (a, s)

-- Undefined behaviour.
abbrev pub fault : {A : Type 0} → M A
fault s = none

abbrev pub continue : {A B : Type 0} → Option (A × Firmware) → (A → M B) → Option (B × Firmware)
continue none f = none
continue (some (a, s)) f = f a s

infixl 5 ◌>>=◌ ◌>>◌
abbrev pub ◌>>=◌ : {A B : Type 0} → M A → (A → M B) → M B
◌>>=◌ m f s = continue (m s) f

abbrev pub ◌>>◌ : {A B : Type 0} → M A → M B → M B
m >> k = m >>= λ _. k

abbrev pub get : M Firmware
get s = some (s, s)

abbrev pub modify : (Firmware → Firmware) → M (Unit {0})
modify f s = some (tt, f s)

abbrev pub defined : {A : Type 0} → Option A → M A
defined none s = none
defined (some a) s = some (a, s)

abbrev pub perform : Esp → HwCall → M Answer
perform esp c s = some (esp.answer s.world c, record s { world = c ∷ s.world })

-- The second step goes on from where the first one returned.
pub bind-eq :
    {A B : Type 0} (m : M A) (f : A → M B) (s : Firmware) {a : A} {t : Firmware}
    → m s ≡ some (a, t)
    → (m >>= f) s ≡ f a t
bind-eq m f s e = ap (λ r. continue r f) e
