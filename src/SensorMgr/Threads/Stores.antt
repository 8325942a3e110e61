-- ===== src/SensorMgr/Threads/Stores.antt =====
-- What the stores of some polls come to.
use nic_ob_fw.Common.{
  subst, zero, suc, set, ℕ, ◌<◌, ◌≡◌, refl, ap, ◌∙◌, List, [], ◌∷◌, inl, inr, arith, get_or, length,
  length-set, get_or-set_self, get_or-set_ne, ◌==◌, ==_iff, Bool-cases,
}
use nic_ob_fw.Types.{SensorRecord, SensorCache}
use nic_ob_fw.SensorMgr.{no_record}
use nic_ob_fw.SensorMgr.Threads.{
  with_raw, with_scaled, with_state, with_time, store, Reading, store_raw, store_scaled,
  store_state, store_time, measured, latest,
}

abbrev pub record_in : SensorCache → ℕ → SensorRecord
record_in cache i = get_or cache.records i no_record

abbrev pub stores : Reading → ℕ → SensorCache → SensorCache
stores r now cache = store_time r now (store_state r (store_scaled r (store_raw r cache)))

-- The cache after some polls, one after the other.
abbrev pub committed : List (Reading × ℕ) → SensorCache → SensorCache
committed [] cache = cache
committed ((r, now) ∷ polls) cache = stores r now (committed polls cache)

stores_twice :
    (f g : SensorRecord → SensorRecord) (l : List SensorRecord) (i : ℕ)
    → set
        (set l i (g (get_or l i no_record)))
        i
        (f (get_or (set l i (g (get_or l i no_record))) i no_record))
      ≡ set l i (f (g (get_or l i no_record)))
stores_twice f g [] i = refl
stores_twice f g (rec ∷ l) zero = refl
stores_twice f g (rec ∷ l) (suc i) = ap (λ (m : List SensorRecord). rec ∷ m) (stores_twice f g l i)

-- Two stores to the same record are one.
pub store-store :
    (i : ℕ) (f g : SensorRecord → SensorRecord) (cache : SensorCache)
    → store i f (store i g cache) ≡ store i (λ rec. f (g rec)) cache
store-store i f g cache =
    ap (λ (l : List SensorRecord). record cache { records = l }) (stores_twice f g cache.records i)

-- The four stores of a poll are one.
pub stores-eq :
    (r : Reading) (now : ℕ) (cache : SensorCache)
    → stores r now cache ≡ store r.sensor (measured r now) cache
stores-eq r now cache =
    store-store r.sensor (with_time now) (with_state r) (store_scaled r (store_raw r cache))
    ∙ store-store r.sensor (λ rec. with_time now (with_state r rec)) (with_scaled r)
        (store_raw r cache)
    ∙ store-store r.sensor (λ rec. with_time now (with_state r (with_scaled r rec))) (with_raw r)
        cache

committed_size :
    (polls : List (Reading × ℕ)) (cache : SensorCache)
    → length (committed polls cache).records ≡ length cache.records
committed_size [] cache = refl
committed_size ((r, now) ∷ polls) cache =
    ap (λ (c : SensorCache). length c.records) (stores-eq r now (committed polls cache))
    ∙ length-set (committed polls cache).records r.sensor _
    ∙ committed_size polls cache

pub committed-latest :
    (polls : List (Reading × ℕ)) (cache : SensorCache) (i : ℕ)
    → i < length cache.records
    → record_in (committed polls cache) i ≡ latest i polls (record_in cache i)
committed-latest [] cache i inside = refl
committed-latest ((r, now) ∷ polls) cache i inside =
    let before = committed polls cache in
    let rest = committed-latest polls cache i inside in
    let one = ap (λ (c : SensorCache). record_in c i) (stores-eq r now before) in
    elim (Bool-cases (r.sensor == i)) [
      | inl own ↦
          let same : r.sensor ≡ i = (==_iff r.sensor i).0 own in
          let there : r.sensor < length before.records =
            omega (arith, same, inside, committed_size polls cache) in
          let set_self =
            get_or-set_self before.records r.sensor (measured r now (record_in before r.sensor))
              no_record there in
          let stored =
            subst
              (λ (k : ℕ).
                record_in (store r.sensor (measured r now) before) k
                ≡ measured r now (record_in before k))
              same set_self in
          rw own (one ∙ stored ∙ ap (measured r now) rest)
      | inr foreign ↦ rw foreign (
          one
          ∙ get_or-set_ne before.records r.sensor i _ no_record (λ e. ground (arith, foreign, e))
          ∙ rest)
    ]
