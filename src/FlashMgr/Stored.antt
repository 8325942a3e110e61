-- ===== src/FlashMgr/Stored.antt =====
-- The flash after `write_image_to_staging`, at sector boundaries and elsewhere.
use nic_ob_fw.Common.{
  ℕ, zero, suc, ◌+◌, ◌-◌, ◌%◌, ◌^◌, ◌≤◌, ◌<◌, ◌≡◌, ◌≢◌, sym, ap, ◌∙◌, List, [], ◌∷◌, ◌++◌,
  append-nil, false, some, inl, inr, arith, ltb, ltb→lt, ◌==◌, u32, Bool-cases, drop, get_or,
  length, All,
}
use nic_ob_fw.Types.{RtosErr, rtos_ok, flash_sector_size}
use nic_ob_fw.Platform.{Esp}
use nic_ob_fw.Firmware.{Firmware}
use nic_ob_fw.Flash.Ops.{FlashOp, erase, flash_ops}
use nic_ob_fw.Flash.Clock.{IsClock}
use nic_ob_fw.Flash.Nor.{Nor, apply_all, apply_all-append, contents}
use nic_ob_fw.FlashMgr.{chunk_of, write_image_to_staging}
use nic_ob_fw.FlashMgr.Plan.{erase_plan, image_plan, chunk_bounds}
use nic_ob_fw.FlashMgr.Staging.{write_image_to_staging-Runs}
use nic_ob_fw.FlashMgr.Image.{Holds, image_plan-Holds, chunk_full}

-- A run that returned `RTOS_OK` carried out the whole plan.
whole_plan :
    (esp : Esp) (offset : ℕ) (bytes : List ℕ) (size : ℕ) (s t : Firmware)
    → IsClock esp
    → size ≤ length bytes
    → write_image_to_staging esp offset (some bytes) size s ≡ some (rtos_ok, t)
    → flash_ops esp t.world ≡ flash_ops esp s.world ++ image_plan (suc size) offset bytes size
whole_plan esp offset bytes size s t clock have ok =
    let r = write_image_to_staging-Runs esp offset bytes size s clock have in
    let same : r.after ≡ t = cc (r.returns, ok) in
    let fine : r.err ≡ rtos_ok = cc (r.returns, ok) in
    let whole : r.done ≡ image_plan (suc size) offset bytes size =
      sym (append-nil r.done)
      ∙ ap (λ (l : List FlashOp). r.done ++ l) (sym (r.complete fine))
      ∙ r.prefix in
    ap (λ (u : Firmware). flash_ops esp u.world) (sym same)
    ∙ r.extends.ops
    ∙ ap (λ (l : List FlashOp). flash_ops esp s.world ++ l) whole

-- With a clock and a chip that is not busy at the start, which erases and programs only after a
-- write enable and while it is not busy: when the write of an image of bytes to a sector boundary
-- within 16 MiB returns `RTOS_OK`, every byte of the image is in the flash at its place, whatever
-- the flash held before; every byte below the image is as it was; and so is every byte above the
-- image's last sector.
pub write_image_to_staging-Holds :
    (esp : Esp) (nor : Nor) (m : nor.Chip) (offset : ℕ) (bytes : List ℕ) (size : ℕ) (s t : Firmware)
    → IsClock esp
    → size ≤ length bytes
    → ((i : ℕ) → get_or bytes i 0 < 256)
    → offset % flash_sector_size ≡ 0
    → offset + size ≤ 2 ^ 24
    → nor.busy (contents nor esp s.world m) ≡ false
    → write_image_to_staging esp offset (some bytes) size s ≡ some (rtos_ok, t)
    → Holds nor (contents nor esp s.world m) (contents nor esp t.world m) offset bytes size
write_image_to_staging-Holds esp nor m offset bytes size s t clock have are aligned fits idle ok =
    let before = contents nor esp s.world m in
    let after : contents nor esp t.world m
        ≡ apply_all nor (image_plan (suc size) offset bytes size) before =
      ap (λ (ops : List FlashOp). apply_all nor ops m)
        (whole_plan esp offset bytes size s t clock have ok)
      ∙ apply_all-append nor (flash_ops esp s.world) (image_plan (suc size) offset bytes size) m in
    rw after (
      image_plan-Holds nor (suc size) offset bytes size before (omega arith) have are fits idle
        (λ _. omega (arith, aligned)) (λ _ inside. absurd (inside aligned)))

-- Whether an operation, if it changes the memory, programs a page.
abbrev pub IsProgram : FlashOp → Type 0
IsProgram (erase a) = ⊥
IsProgram other = Unit {0}

image_plan_never_erases :
    (fuel addr : ℕ) (bytes : List ℕ) (remaining : ℕ)
    → (0 < remaining → addr % 256 ≢ 0)
    → All IsProgram (image_plan fuel addr bytes remaining)
unfolding image_plan erase_plan
image_plan_never_erases zero addr bytes remaining h = tt
image_plan_never_erases (suc fuel) addr bytes remaining h = elim (Bool-cases (ltb 0 remaining)) [
  | inr finished ↦ rw (finished, image_plan) tt
  | inl more ↦
      let off = h (ltb→lt 0 remaining more) in
      let chunk = chunk_of remaining in
      let bounds = chunk_bounds remaining (ltb→lt 0 remaining more) in
      let no_erase : (addr % flash_sector_size == 0) ≡ false = ground (arith, off) in
      let rest =
        image_plan_never_erases fuel (u32 (addr + chunk)) (drop chunk bytes) (remaining - chunk)
          (λ left e. off (omega (arith, e, chunk_full remaining (ground arith)))) in
      rw (more, image_plan, no_erase) (tt, (tt, (tt, rest)))
]

All-append_left : (xs ys zs : List FlashOp) → xs ++ ys ≡ zs → All IsProgram zs → All IsProgram xs
All-append_left [] ys zs e h = tt
All-append_left (x ∷ xs) ys [] e h = absurd (cc)
All-append_left (x ∷ xs) ys (z ∷ zs) e h =
    let head : x ≡ z = cc in
    let tail : xs ++ ys ≡ zs = cc in (rw head h.0, All-append_left xs ys zs tail h.1)

-- What a write that never erases makes: page programs only.
pub record OnlyPrograms (esp : Esp) (offset : ℕ) (bytes : List ℕ) (size : ℕ) (s : Firmware)
    : Type 0 where
  pub err : RtosErr
  pub after : Firmware
  pub done : List FlashOp
  pub returns : write_image_to_staging esp offset (some bytes) size s ≡ some (err, after)
  pub made : flash_ops esp after.world ≡ flash_ops esp s.world ++ done
  pub programs : All IsProgram done

-- With a clock, an image of at least `size` bytes whose offset is not a multiple of the page size
-- is written without a single erase: the call returns, and all that it carries out on the memory
-- are page programs.
pub write_image_to_staging_never_erases :
    (esp : Esp) (offset : ℕ) (bytes : List ℕ) (size : ℕ) (s : Firmware)
    → IsClock esp
    → size ≤ length bytes
    → offset % 256 ≢ 0
    → OnlyPrograms esp offset bytes size s
write_image_to_staging_never_erases esp offset bytes size s clock have off =
    let r = write_image_to_staging-Runs esp offset bytes size s clock have in
    record {
      err = r.err;
      after = r.after;
      done = r.done;
      returns = r.returns;
      made = r.extends.ops;
      programs =
          All-append_left r.done r.rest _ r.prefix
            (image_plan_never_erases (suc size) offset bytes size (λ _. off));
    }
