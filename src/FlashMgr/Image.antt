-- ===== src/FlashMgr/Image.antt =====
-- What is in the flash after an image was written at a sector boundary.
use nic_ob_fw.Common.{
  ℕ, zero, suc, ◌+◌, ◌-◌, ◌/◌, ◌%◌, ◌^◌, ◌≤◌, ◌<◌, ◌≡◌, ◌≢◌, ◌⊎◌, false, refl, ◌∙◌, List, inl, inr,
  arith, ltb, ltb→lt, ◌==◌, ==_iff, u32, Bool-cases, take, drop, get_or, length, length-take,
  length-drop, get_or-take, get_or-drop,
}
use nic_ob_fw.Types.{flash_sector_size}
use nic_ob_fw.Flash.Ops.{enable, not_busy, erase, program}
use nic_ob_fw.Flash.Nor.{Nor, apply_all, apply_all-append}
use nic_ob_fw.FlashMgr.{chunk_of}
use nic_ob_fw.FlashMgr.Plan.{erase_plan, image_plan, chunk_bounds}

-- The next page write is a whole page, unless it is the last one.
pub chunk_full : (remaining : ℕ) → 256 < remaining → chunk_of remaining ≡ 256
chunk_full remaining h = ground arith

module _ (nor : Nor) where
  open nor use {
    Chip, byte_at, busy, apply, said_not_busy, not_busy_keeps, enabled, enable_keeps, erased,
    erase_elsewhere, programmed, program_elsewhere,
  }

  -- The bytes of a sector from `addr` on are erased.
  abbrev pub ErasedFrom : Chip → ℕ → Type 0
  ErasedFrom m addr = (j : ℕ) → addr ≤ j → j / 4096 ≡ addr / 4096 → byte_at m j ≡ 0xff

  -- `m'` is `m` with the image at `addr`, and at most the rest of its last sector erased.
  pub record Holds (m m' : Chip) (addr : ℕ) (bytes : List ℕ) (size : ℕ) : Type 0 where
    pub stored : (i : ℕ) → i < size → byte_at m' (addr + i) ≡ get_or bytes i 0
    pub below : (j : ℕ) → j < addr → byte_at m' j ≡ byte_at m j
    pub above : (j : ℕ) → (addr + size - 1) / 4096 < j / 4096 → byte_at m' j ≡ byte_at m j

  -- The erase in front of a page.
  record Opened (m m' : Chip) (addr : ℕ) : Type 0 where
    idle : busy m' ≡ false
    ready : ErasedFrom m' addr
    kept : (j : ℕ) → (j < addr) ⊎ (addr / 4096 < j / 4096) → byte_at m' j ≡ byte_at m j

  erase_plan-Opened :
      (m : Chip) (addr : ℕ)
      → addr < 2 ^ 24
      → busy m ≡ false
      → (addr % 4096 ≢ 0 → ErasedFrom m addr)
      → Opened m (apply_all nor (erase_plan addr) m) addr
  unfolding erase_plan
  erase_plan-Opened m addr h idle clean = elim (Bool-cases (addr % flash_sector_size == 0)) [
    | inl boundary ↦
        let aligned = (==_iff (addr % flash_sector_size) 0).0 boundary in
        let fits : addr % 2 ^ 24 ≡ addr = omega arith in
        let on = apply enable m in
        rw (boundary, fits)
          (record {
            idle = said_not_busy (apply (erase addr) on);
            ready = λ j p q.
                not_busy_keeps (apply (erase addr) on) j
                ∙ erased on addr j (enabled m idle).0 (enabled m idle).1 q;
            kept = λ j p.
                not_busy_keeps (apply (erase addr) on) j
                ∙ erase_elsewhere on addr j (ground arith)
                ∙ enable_keeps m j;
          })
    | inr inside ↦
        rw inside (record { idle = idle; ready = clean (ground arith); kept = λ j p. refl })
  ]

  -- One page, between the erase in front of it and the pages behind it.
  module _ (m m1 m3 : Chip) (addr : ℕ) (bytes : List ℕ) (remaining : ℕ)
      (have : remaining ≤ length bytes) (are_bytes : (i : ℕ) → get_or bytes i 0 < 256)
      (more : 0 < remaining) (fits : addr + remaining ≤ 2 ^ 24) (aligned : addr % 256 ≡ 0)
      (opened : Opened m m1 addr) where
    abbrev chunk : ℕ
    chunk = chunk_of remaining

    abbrev page : List ℕ
    page = take chunk bytes

    abbrev on : Chip
    on = apply enable m1

    abbrev m2 : Chip
    m2 = apply not_busy (apply (program addr page) on)

    length-page : length page ≡ chunk
    length-page = omega (arith, length-take chunk bytes, chunk_bounds remaining more)

    in_page : addr % 256 + length page ≤ 256
    in_page = omega (arith, length-page, chunk_bounds remaining more)

    beside_page : (j : ℕ) → (j < addr) ⊎ (addr + chunk ≤ j) → byte_at m2 j ≡ byte_at m1 j
    beside_page j p =
        not_busy_keeps (apply (program addr page) on) j
        ∙ program_elsewhere on addr page j in_page (rw length-page p)
        ∙ enable_keeps m1 j

    page_stored : (i : ℕ) → i < chunk → byte_at m2 (addr + i) ≡ get_or bytes i 0
    page_stored i h =
        let same = get_or-take i chunk bytes 0 h in
        let on_idle = enabled m1 opened.idle in
        not_busy_keeps (apply (program addr page) on) (addr + i)
        ∙ programmed on addr page i on_idle.0 on_idle.1 in_page (omega (arith, length-page))
            (rw same (are_bytes i))
            (enable_keeps m1 (addr + i)
              ∙ opened.ready (addr + i) (omega arith) (omega (arith, chunk_bounds remaining more)))
        ∙ same

    -- The pages behind it find their sector erased, or start one.
    still_erased : 0 < remaining - chunk → (addr + chunk) % 4096 ≢ 0 → ErasedFrom m2 (addr + chunk)
    still_erased left inside j p q =
        let full = chunk_full remaining (ground arith) in
        beside_page j (inr p) ∙ opened.ready j (omega arith) (omega (arith, full, aligned))

    Holds-page :
        Holds m2 m3 (addr + chunk) (drop chunk bytes) (remaining - chunk)
        → Holds m m3 addr bytes remaining
    Holds-page rest = record {
      stored = λ i h. elim (Bool-cases (ltb i chunk)) [
        | inl here ↦
            rest.below (addr + i) (omega (arith, ltb→lt i chunk here))
            ∙ page_stored i (ltb→lt i chunk here)
        | inr there ↦
            let past : chunk ≤ i = ground arith in
            let place : addr + chunk + (i - chunk) ≡ addr + i = omega arith in
            let index : chunk + (i - chunk) ≡ i = omega arith in
            rw place at (rest.stored (i - chunk) (omega arith))
            ∙ rw index at (get_or-drop chunk (i - chunk) bytes 0)
      ];
      below = λ j h. rest.below j (omega arith) ∙ beside_page j (inl h) ∙ opened.kept j (inl h);
      above = λ j h.
          let bounds = chunk_bounds remaining more in
          rest.above j (omega (arith, bounds))
          ∙ beside_page j (inr (omega (arith, bounds)))
          ∙ opened.kept j (inr (omega (arith, bounds)));
    }

  -- The whole plan, page by page.
  pub image_plan-Holds :
      (fuel addr : ℕ) (bytes : List ℕ) (remaining : ℕ) (m : Chip)
      → remaining < fuel
      → remaining ≤ length bytes
      → ((i : ℕ) → get_or bytes i 0 < 256)
      → addr + remaining ≤ 2 ^ 24
      → busy m ≡ false
      → (0 < remaining → addr % 256 ≡ 0)
      → (0 < remaining → addr % 4096 ≢ 0 → ErasedFrom m addr)
      → Holds m (apply_all nor (image_plan fuel addr bytes remaining) m) addr bytes remaining
  unfolding image_plan
  image_plan-Holds zero addr bytes remaining m h have are fits idle aligned clean =
      absurd (omega arith)
  image_plan-Holds (suc fuel) addr bytes remaining m h have are fits idle aligned clean =
      elim (Bool-cases (ltb 0 remaining)) [
        | inr finished ↦
            let empty : remaining ≡ 0 = ground arith in
            rw (finished, image_plan)
              (record {
                stored = λ i p. absurd (omega (arith, empty));
                below = λ j p. refl;
                above = λ j p. refl;
              })
        | inl more ↦
            let some_left = ltb→lt 0 remaining more in
            let chunk = chunk_of remaining in
            let bounds = chunk_bounds remaining some_left in
            let m1 = apply_all nor (erase_plan addr) m in
            let m2 = apply not_busy (apply (program addr (take chunk bytes)) (apply enable m1)) in
            let opened = erase_plan-Opened m addr (omega arith) idle (clean some_left) in
            let low : addr % 2 ^ 24 ≡ addr = omega arith in
            let next : u32 (addr + chunk) ≡ addr + chunk = omega (arith, bounds) in
            let rest_are : (i : ℕ) → get_or (drop chunk bytes) i 0 < 256 =
              λ i. rw (get_or-drop chunk i bytes 0) (are (chunk + i)) in
            let erased_ahead =
              still_erased m m1 m2 addr bytes remaining have are some_left fits (aligned some_left)
                opened in
            let rest =
              image_plan-Holds fuel (addr + chunk) (drop chunk bytes) (remaining - chunk) m2
                (omega (arith, bounds)) (omega (arith, length-drop chunk bytes, bounds)) rest_are
                (omega (arith, bounds)) (said_not_busy _)
                (λ left. omega (arith, aligned some_left, chunk_full remaining (ground arith)))
                erased_ahead in
            rw (more, image_plan, apply_all-append nor, low, next)
              (Holds-page m m1 _ addr bytes remaining have are some_left fits (aligned some_left)
                opened rest)
      ]
