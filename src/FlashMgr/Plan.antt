-- ===== src/FlashMgr/Plan.antt =====
-- The flash operations that writing an image asks for, as a list.
use nic_ob_fw.Common.{
  ℕ, zero, suc, ◌+◌, ◌-◌, ◌%◌, ◌^◌, ◌≤◌, ◌<◌, List, [], ◌∷◌, ◌++◌, true, false, arith, ltb, ◌==◌,
  if◌then◌else◌, u32, take, drop,
}
use nic_ob_fw.Types.{flash_sector_size}
use nic_ob_fw.FlashMgr.{chunk_of}
use nic_ob_fw.Flash.Ops.{FlashOp, enable, not_busy, erase, program}

-- At a sector boundary the sector is erased: the latch is set, the erase is asked for, and the chip is
-- polled until it is not busy.
unfoldable pub erase_plan : ℕ → List FlashOp
erase_plan addr =
    if addr % flash_sector_size == 0 then enable ∷ erase (addr % 2 ^ 24) ∷ not_busy ∷ [] else []

-- Page after page, each the same way, with an erase in front where a sector begins.
unfoldable pub image_plan : ℕ → ℕ → List ℕ → ℕ → List FlashOp
image_plan zero addr bytes remaining = []
image_plan (suc fuel) addr bytes remaining = elim (ltb 0 remaining) [
  | false ↦ []
  | true ↦
      erase_plan addr
      ++ enable
        ∷ program (addr % 2 ^ 24) (take (chunk_of remaining) bytes)
        ∷ not_busy
        ∷ image_plan fuel (u32 (addr + chunk_of remaining)) (drop (chunk_of remaining) bytes)
            (remaining - chunk_of remaining)
]

-- A page write makes progress and fits what is left.
pub chunk_bounds :
    (remaining : ℕ)
    → 0 < remaining
    → (1 ≤ chunk_of remaining) × (chunk_of remaining ≤ 256) × (chunk_of remaining ≤ remaining)
chunk_bounds remaining h = ground arith
