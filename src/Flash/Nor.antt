-- ===== src/Flash/Nor.antt =====
-- The memory behind the SPI commands: what a NOR flash chip documents of erase and page program.
use nic_ob_fw.Common.{
  ℕ, ◌+◌, ◌/◌, ◌%◌, ◌≤◌, ◌<◌, ◌≡◌, ◌≢◌, ◌⊎◌, Bool, true, false, refl, List, [], ◌∷◌, ◌++◌, get_or,
  length,
}
use nic_ob_fw.Platform.{Esp, World}
use nic_ob_fw.Flash.Ops.{FlashOp, enable, not_busy, erase, program, flash_ops}

-- Before an erase or a page program takes effect, the chip must not be busy and a write enable must have
-- set its latch; a write enable does so when the chip is not busy. A chip that says so is not busy. An
-- erase sets the 4096 bytes of a sector to 0xff. A program of bytes that stay inside one page of 256 sets
-- those of them whose cells are erased. No other byte changes, whether the operation takes effect or not.
pub record Nor : Type 1 where
  pub Chip : Type 0
  pub byte_at : Chip → ℕ → ℕ
  pub busy : Chip → Bool
  pub latch : Chip → Bool
  pub apply : FlashOp → Chip → Chip
  pub said_not_busy : (m : Chip) → busy (apply not_busy m) ≡ false
  pub not_busy_keeps : (m : Chip) (i : ℕ) → byte_at (apply not_busy m) i ≡ byte_at m i
  pub enabled :
      (m : Chip)
      → busy m ≡ false
      → (busy (apply enable m) ≡ false) × (latch (apply enable m) ≡ true)
  pub enable_keeps : (m : Chip) (i : ℕ) → byte_at (apply enable m) i ≡ byte_at m i
  pub erased :
      (m : Chip) (a i : ℕ)
      → busy m ≡ false
      → latch m ≡ true
      → i / 4096 ≡ a / 4096
      → byte_at (apply (erase a) m) i ≡ 0xff
  pub erase_elsewhere :
      (m : Chip) (a i : ℕ) → i / 4096 ≢ a / 4096 → byte_at (apply (erase a) m) i ≡ byte_at m i
  pub programmed :
      (m : Chip) (a : ℕ) (bytes : List ℕ) (i : ℕ)
      → busy m ≡ false
      → latch m ≡ true
      → a % 256 + length bytes ≤ 256
      → i < length bytes
      → get_or bytes i 0 < 256
      → byte_at m (a + i) ≡ 0xff
      → byte_at (apply (program a bytes) m) (a + i) ≡ get_or bytes i 0
  pub program_elsewhere :
      (m : Chip) (a : ℕ) (bytes : List ℕ) (i : ℕ)
      → a % 256 + length bytes ≤ 256
      → (i < a) ⊎ (a + length bytes ≤ i)
      → byte_at (apply (program a bytes) m) i ≡ byte_at m i

module _ (nor : Nor) where
  open nor use {Chip, apply}

  -- The chip after some operations, in order.
  abbrev pub apply_all : List FlashOp → Chip → Chip
  apply_all [] m = m
  apply_all (op ∷ ops) m = apply_all ops (apply op m)

  pub apply_all-append :
      (xs ys : List FlashOp) (m : Chip) → apply_all (xs ++ ys) m ≡ apply_all ys (apply_all xs m)
  apply_all-append [] ys m = refl
  apply_all-append (x ∷ xs) ys m = apply_all-append xs ys (apply x m)

  -- The chip that was `m` when the firmware started.
  abbrev pub contents : Esp → World → Chip → Chip
  contents esp w m = apply_all (flash_ops esp w) m
