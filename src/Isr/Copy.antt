-- ===== src/Isr/Copy.antt =====
-- What the interrupt handler of the BMC's bus posts.
use nic_ob_fw.Common.{
  ℕ, zero, suc, ◌^◌, ◌≤◌, ◌≡◌, ◌≢◌, refl, ap, ◌∙◌, List, [], ◌∷◌, ◌++◌, Bool, true, false, some,
  arith, leb, ◌==◌, le→leb, take, drop, length, length-append, take-append_left, take-take,
  length-take, length-drop, for_range, unrolled,
}
use nic_ob_fw.Types.{BmcRxMsg, smb_max_block_size}
use nic_ob_fw.Platform.{Esp, IsSized, World, rx_item, queue_send_from_isr, yield_from_isr}
use nic_ob_fw.Firmware.{Firmware}
use nic_ob_fw.Rtos.{rtos_queue_send_from_isr, rtos_yield_from_isr}
use nic_ob_fw.Isr.{block_length, copy_one, copy_four, copy_block, bmc_i2c_rx_isr}

-- A loop that starts further on leaves the first byte alone.
copy_tail :
    (n i b x : ℕ) (bytes msg : List ℕ)
    → for_range n (copy_one (b ∷ bytes)) (suc i) (x ∷ msg) ≡ x ∷ for_range n (copy_one bytes) i msg
unfolding for_range
copy_tail zero i b x bytes msg = refl
copy_tail (suc n) i b x bytes msg = copy_tail n (suc i) b x bytes (copy_one bytes i msg)

copy_range :
    (n : ℕ) (bytes msg : List ℕ)
    → n ≤ length bytes
    → n ≤ length msg
    → for_range n (copy_one bytes) 0 msg ≡ take n bytes ++ drop n msg
unfolding for_range
copy_range zero bytes msg h k = refl
copy_range (suc n) [] msg h k = absurd (omega arith)
copy_range (suc n) (b ∷ bytes) [] h k = absurd (omega arith)
copy_range (suc n) (b ∷ bytes) (x ∷ msg) h k =
    copy_tail n 0 b b bytes msg
    ∙ ap (λ (l : List ℕ). b ∷ l) (copy_range n bytes msg (omega arith) (omega arith))

-- The unrolled copy puts the first `n` bytes in front of what the array held behind them.
pub copy_block-take :
    (n : ℕ) (bytes msg : List ℕ)
    → n ≤ length bytes
    → n ≤ length msg
    → n ≤ smb_max_block_size
    → copy_block bytes n msg ≡ take n bytes ++ drop n msg
unfolding copy_block
copy_block-take n bytes msg h k small =
    ap (λ (r : ℕ × List ℕ). r.1)
      (unrolled (copy_one bytes) (copy_four bytes) (λ i s. refl) n (2 ^ 16) msg (omega arith)
        (omega arith))
    ∙ copy_range n bytes msg h k

block_bounds : (n : ℕ) → (block_length n ≤ n) × (block_length n ≤ smb_max_block_size)
unfolding block_length
block_bounds n = ground arith

-- The yield that follows when a thread of higher priority was woken.
abbrev pub yields : Bool → World → World
yields true w = yield_from_isr ∷ w
yields false w = w

-- One message went to the queue, with the block at its start, and nothing else changed.
pub record Posts (esp : Esp) (bytes : List ℕ) (len : ℕ) (s : Firmware) : Type 0 where
  pub msg : BmcRxMsg
  pub woken : Bool
  pub returns :
      bmc_i2c_rx_isr esp bytes len s
      ≡ some (
        tt,
        record s {
          world = yields woken (queue_send_from_isr s.isr.bmc_rx_queue (rx_item msg) ∷ s.world);
        },
      )
  pub msg_length : msg.len ≡ block_length len
  pub msg_bytes : take msg.len msg.bytes ≡ take msg.len bytes
  pub msg_sized : length msg.bytes ≡ smb_max_block_size
  pub msg_within : msg.len ≤ smb_max_block_size

pub bmc_i2c_rx_isr-Posts :
    (esp : Esp) (bytes : List ℕ) (len : ℕ) (s : Firmware)
    → IsSized (esp.uninit s.world)
    → s.isr.bmc_rx_queue ≢ 0
    → len ≤ length bytes
    → Posts esp bytes len s
unfolding bmc_i2c_rx_isr rtos_queue_send_from_isr rtos_yield_from_isr
bmc_i2c_rx_isr-Posts esp bytes len s sized queue have = by_woken woken refl
  where
    n : ℕ
    n = block_length len

    block : List ℕ
    block = copy_block bytes n (esp.uninit s.world).rx_bytes

    msg : BmcRxMsg
    msg = record { bytes = block; len = n }

    woken : Bool
    woken = (esp.answer s.world (queue_send_from_isr s.isr.bmc_rx_queue (rx_item msg))).woken

    open_queue : (s.isr.bmc_rx_queue == 0) ≡ false
    open_queue = ground (arith, queue)

    in_bounds : leb (block_length len) (length bytes) ≡ true
    in_bounds = le→leb (block_length len) (length bytes) (omega (arith, block_bounds len))

    laid : block ≡ take n bytes ++ drop n (esp.uninit s.world).rx_bytes
    laid =
        copy_block-take n bytes (esp.uninit s.world).rx_bytes (omega (arith, block_bounds len))
          (omega (arith, block_bounds len, sized.rx_bytes)) (block_bounds len).1

    enough : n ≤ length bytes
    enough = omega (arith, block_bounds len)

    posts :
        (b : Bool)
        → bmc_i2c_rx_isr esp bytes len s
          ≡ some (
            tt,
            record s {
              world = yields b (queue_send_from_isr s.isr.bmc_rx_queue (rx_item msg) ∷ s.world);
            },
          )
        → Posts esp bytes len s
    posts b e = record {
      msg = msg;
      woken = b;
      returns = e;
      msg_length = refl;
      msg_bytes =
          ap (take n) laid
          ∙ take-append_left n (take n bytes) (drop n (esp.uninit s.world).rx_bytes)
              (omega (arith, length-take n bytes, enough))
          ∙ take-take n n bytes (omega arith);
      msg_sized =
          ap length laid
          ∙ omega (
            arith,
            length-append (take n bytes) (drop n (esp.uninit s.world).rx_bytes),
            length-take n bytes,
            length-drop n (esp.uninit s.world).rx_bytes,
            sized.rx_bytes,
            block_bounds len,
          );
      msg_within = (block_bounds len).1;
    }

    by_woken :
        (b : Bool)
        → (esp.answer s.world (queue_send_from_isr s.isr.bmc_rx_queue (rx_item msg))).woken ≡ b
        → Posts esp bytes len s
    by_woken true is = posts true (rw (open_queue, in_bounds, is) refl)
    by_woken false is = posts false (rw (open_queue, in_bounds, is) refl)
