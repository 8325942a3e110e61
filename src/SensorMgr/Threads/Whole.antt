-- ===== src/SensorMgr/Threads/Whole.antt =====
-- What the BMC's thread copies out of the cache is never torn.
use nic_ob_fw.Common.{ℕ, ◌<◌, ◌≡◌, ◌≢◌, refl, ap, ◌∙◌, List, [], ◌∷◌, Option, some, none, length}
use nic_ob_fw.Types.{SensorRecord, SensorCache}
use nic_ob_fw.SensorMgr.Threads.{
  Thread, sensor_thread, bmc_thread, loads, Reading, store_raw, store_scaled, store_state,
  store_time, SensorPc, polling, entered, stored_raw, stored_scaled, stored_state, stored_time,
  BmcPc, elsewhere, copying, Sharing, Step, sensor_takes, stores_raw, stores_scaled, stores_state,
  stores_time, bmc_takes, loads_field, bmc_gives, Completes, sensor_gives, Reach, start, later,
  completed, latest,
}
use nic_ob_fw.SensorMgr.Threads.Stores.{record_in, stores, committed, committed-latest}

-- The stores made so far.
abbrev so_far : SensorPc → SensorCache → SensorCache
so_far polling cache = cache
so_far (entered r) cache = cache
so_far (stored_raw r) cache = store_raw r cache
so_far (stored_scaled r) cache = store_scaled r (store_raw r cache)
so_far (stored_state r) cache = store_state r (store_scaled r (store_raw r cache))
so_far (stored_time r now) cache = stores r now cache

abbrev OwnedBySensor : SensorPc → Option Thread → Type 0
OwnedBySensor polling owner = Unit {0}
OwnedBySensor other owner = owner ≡ some sensor_thread

-- The copier owns the mutex, and what is left to copy completes the committed record.
abbrev CopiesWhole : BmcPc → Option Thread → SensorCache → Type 0
CopiesWhole elsewhere owner cache = Unit {0}
CopiesWhole (copying i left out) owner cache =
    (owner ≡ some bmc_thread) × (loads left (record_in cache i) out ≡ record_in cache i)

record IsWhole (base : SensorCache) (s : Sharing) : Type 0 where
  cached : s.cache ≡ so_far s.sensor base
  owns : OwnedBySensor s.sensor s.owner
  copies : CopiesWhole s.bmc s.owner base

-- Nobody is inside while the mutex is free, and only one thread ever is.
not_copying :
    (b : BmcPc) (owner owner2 : Option Thread) (base base2 : SensorCache)
    → owner ≢ some bmc_thread
    → CopiesWhole b owner base
    → CopiesWhole b owner2 base2
not_copying elsewhere owner owner2 base base2 other h = tt
not_copying (copying i left out) owner owner2 base base2 other h = absurd (other h.0)

not_storing :
    (p : SensorPc) (owner owner2 : Option Thread) (cache base : SensorCache)
    → owner ≢ some sensor_thread
    → OwnedBySensor p owner
    → cache ≡ so_far p base
    → (cache ≡ base) × OwnedBySensor p owner2
not_storing polling owner owner2 cache base other h is = (is, tt)
not_storing (entered r) owner owner2 cache base other h is = absurd (other h)
not_storing (stored_raw r) owner owner2 cache base other h is = absurd (other h)
not_storing (stored_scaled r) owner owner2 cache base other h is = absurd (other h)
not_storing (stored_state r) owner owner2 cache base other h is = absurd (other h)
not_storing (stored_time r now) owner owner2 cache base other h is = absurd (other h)

Step-IsWhole : {base : SensorCache} {s t : Sharing} → Step s t → IsWhole base s → IsWhole base t
Step-IsWhole {base} {s} (sensor_takes r calibrated free here) h = record {
  cached = rw here at h.cached;
  owns = refl;
  copies = not_copying s.bmc s.owner _ base base (rw free (λ e. cc)) h.copies;
}
Step-IsWhole {base} {s} (stores_raw r here) h =
    let cached : s.cache ≡ base = rw here at h.cached in
    let owns : s.owner ≡ some sensor_thread = rw here at h.owns in
    record { cached = ap (store_raw r) cached; owns = owns; copies = h.copies }
Step-IsWhole {base} {s} (stores_scaled r here) h =
    let cached : s.cache ≡ so_far (stored_raw r) base = rw here at h.cached in
    let owns : s.owner ≡ some sensor_thread = rw here at h.owns in
    record { cached = ap (store_scaled r) cached; owns = owns; copies = h.copies }
Step-IsWhole {base} {s} (stores_state r here) h =
    let cached : s.cache ≡ so_far (stored_scaled r) base = rw here at h.cached in
    let owns : s.owner ≡ some sensor_thread = rw here at h.owns in
    record { cached = ap (store_state r) cached; owns = owns; copies = h.copies }
Step-IsWhole {base} {s} (stores_time r now here) h =
    let cached : s.cache ≡ so_far (stored_state r) base = rw here at h.cached in
    let owns : s.owner ≡ some sensor_thread = rw here at h.owns in
    record { cached = ap (store_time r now) cached; owns = owns; copies = h.copies }
Step-IsWhole {base} {s} (bmc_takes i fields out known order free here) h =
    let (cached, owns) =
      not_storing s.sensor s.owner (some bmc_thread) s.cache base (rw free (λ e. cc)) h.owns
        h.cached in
    record { cached = h.cached; owns = owns; copies = (refl, order (record_in base i) out) }
Step-IsWhole {base} {s} (loads_field i f left out here) h =
    let (owned, copy) : CopiesWhole (copying i (f ∷ left) out) s.owner base = rw here at h.copies in
    let (same, owns) =
      not_storing s.sensor s.owner s.owner s.cache base (rw owned (λ e. cc)) h.owns h.cached in
    record { cached = h.cached; owns = owns; copies = (owned, rw same copy) }
Step-IsWhole {base} {s} (bmc_gives i out here) h =
    let (owned, copy) : CopiesWhole (copying i [] out) s.owner base = rw here at h.copies in
    let (same, owns) =
      not_storing s.sensor s.owner none s.cache base (rw owned (λ e. cc)) h.owns h.cached in
    record { cached = h.cached; owns = owns; copies = tt }

Completes-IsWhole :
    {base : SensorCache} {s t : Sharing} {poll : Reading × ℕ}
    → Completes s poll t
    → IsWhole base s
    → IsWhole (stores poll.0 poll.1 base) t
Completes-IsWhole {base} {s} (sensor_gives r now here) h =
    let owned : s.owner ≡ some sensor_thread = rw here at h.owns in
    record {
      cached = rw here at h.cached;
      owns = tt;
      copies = not_copying s.bmc s.owner none base _ (rw owned (λ e. cc)) h.copies;
    }

Reach-IsWhole :
    {cache : SensorCache} {polls : List (Reading × ℕ)} {s : Sharing}
    → Reach cache polls s
    → IsWhole (committed polls cache) s
Reach-IsWhole start = record { cached = refl; owns = tt; copies = tt }
Reach-IsWhole (later before step) = Step-IsWhole step (Reach-IsWhole before)
Reach-IsWhole (completed before gives) = Completes-IsWhole gives (Reach-IsWhole before)

-- What a finished copy is.
pub record Copies (cache : SensorCache) (polls : List (Reading × ℕ)) (s : Sharing) (i : ℕ)
    (out : SensorRecord) : Type 0 where
  pub whole : out ≡ latest i polls (record_in cache i)
  pub alone : s.sensor ≡ polling

polling_only :
    (p : SensorPc) (owner : Option Thread)
    → owner ≡ some bmc_thread
    → OwnedBySensor p owner
    → p ≡ polling
polling_only polling owner is owns = refl
polling_only (entered r) owner is owns = absurd (cc (is, owns))
polling_only (stored_raw r) owner is owns = absurd (cc (is, owns))
polling_only (stored_scaled r) owner is owns = absurd (cc (is, owns))
polling_only (stored_state r) owner is owns = absurd (cc (is, owns))
polling_only (stored_time r now) owner is owns = absurd (cc (is, owns))

-- However the stores of the polling thread and the loads of the thread that answers the BMC
-- interleave, given only that one of them at a time gets past `xSemaphoreTake`, and in whatever
-- order the struct is copied: when `sensor_mgr_get_cached` has copied the record of a sensor, the
-- copy is the record with the four fields of the newest completed poll of that sensor, never of two
-- polls, or as it was if there was none; and no poll is storing at that moment.
pub Reach-Copies :
    (cache : SensorCache) (polls : List (Reading × ℕ)) (s : Sharing) (i : ℕ) (out : SensorRecord)
    → Reach cache polls s
    → s.bmc ≡ copying i [] out
    → i < length cache.records
    → Copies cache polls s i out
Reach-Copies cache polls s i out reach done inside =
    let h = Reach-IsWhole reach in
    let (owned, copy) : CopiesWhole (copying i [] out) s.owner (committed polls cache) =
      rw done at h.copies in
    record {
      whole = copy ∙ committed-latest polls cache i inside;
      alone = polling_only s.sensor s.owner owned h.owns;
    }
