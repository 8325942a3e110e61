-- ===== src/System/Arrival.antt =====
-- Blocks that come in over the bus, one interrupt after the other, and what waits in the queue then.
use nic_ob_fw.Common.{
  ℕ, ◌+◌, ◌-◌, ◌≤◌, ◌<◌, ◌≡◌, ◌≢◌, refl, sym, ap, ◌∙◌, List, [], ◌∷◌, ◌++◌, Bool, true, false, some,
  arith, get_or, take, drop, length, get_or-take, drop-take, ==_iff,
}
use nic_ob_fw.Types.{BmcRxMsg, smb_max_block_size}
use nic_ob_fw.Platform.{Esp, World, IsSized, rx_item, queue_send_from_isr}
use nic_ob_fw.Platform.Fifo.{pending, HasRoom}
use nic_ob_fw.Firmware.{Firmware, M, pure, ◌>>◌}
use nic_ob_fw.Protocol.Mctp.{is_som, is_eom, extract_seq}
use nic_ob_fw.Protocol.Mctp.Receiver.{Fragment, fragment}
use nic_ob_fw.Isr.{bmc_i2c_rx_isr, block_length}
use nic_ob_fw.Isr.Copy.{bmc_i2c_rx_isr-Posts, yields}
use nic_ob_fw.BmcMgr.Replies.Frames.{HasHeader}
use nic_ob_fw.System.{IsRunning}
use nic_ob_fw.System.Keeps.{Ends-returns}
use nic_ob_fw.System.Interrupts.{bmc_i2c_rx_isr-Ends}

-- What the driver hands over: bytes, and how many of them count.
pub record Block : Type 0 where
  pub bytes : List ℕ
  pub len : ℕ

-- A header and up to 28 bytes more, and not more than were handed over.
pub record IsBlock (b : Block) : Type 0 where
  pub has_header : 4 ≤ b.len
  pub one_block : b.len ≤ smb_max_block_size
  pub handed_over : b.len ≤ length b.bytes

-- The interrupts, one after the other.
abbrev pub interrupts : Esp → List Block → M (Unit {0})
interrupts esp [] = pure tt
interrupts esp (b ∷ blocks) = bmc_i2c_rx_isr esp b.bytes b.len >> interrupts esp blocks

-- The fragment in a block.
abbrev pub fragment_in : Block → Fragment
fragment_in b = record {
  som = is_som (get_or b.bytes 3 0);
  eom = is_eom (get_or b.bytes 3 0);
  seq = extract_seq (get_or b.bytes 3 0);
  body = drop 4 (take b.len b.bytes);
}

module _ (b : Block) (block : IsBlock b) (m : BmcRxMsg) (long : m.len ≡ b.len)
    (same : take b.len m.bytes ≡ take b.len b.bytes) where
  flags_kept : get_or m.bytes 3 0 ≡ get_or b.bytes 3 0
  flags_kept =
      sym (get_or-take 3 b.len m.bytes 0 (omega (arith, block.has_header)))
      ∙ ap (λ (l : List ℕ). get_or l 3 0) same
      ∙ get_or-take 3 b.len b.bytes 0 (omega (arith, block.has_header))

  body_kept : take (m.len - 4) (drop 4 m.bytes) ≡ drop 4 (take b.len b.bytes)
  body_kept =
      let split : 4 + (b.len - 4) ≡ b.len = omega (arith, block.has_header) in
      rw long (
        sym (drop-take 4 (b.len - 4) m.bytes)
        ∙ ap (λ (n : ℕ). drop 4 (take n m.bytes)) split
        ∙ ap (λ (l : List ℕ). drop 4 l) same)

  pub fragment_kept : fragment m ≡ fragment_in b
  unfolding fragment
  fragment_kept = rw (flags_kept, body_kept) refl

pending-yields :
    (esp : Esp) (queue : ℕ) (woken : Bool) (w : World)
    → pending esp queue (yields woken w) ≡ pending esp queue w
pending-yields esp queue true w = refl
pending-yields esp queue false w = refl

-- One interrupt: a message more waits, and the state is as it was but for the platform.
pub record Arrived (esp : Esp) (b : Block) (s : Firmware) : Type 0 where
  pub msg : BmcRxMsg
  pub world : World
  pub returns : bmc_i2c_rx_isr esp b.bytes b.len s ≡ some (tt, record s { world = world })
  pub running : IsRunning (record s { world = world })
  pub waits :
      pending esp s.bmc_mgr.bmc_rx_queue world
      ≡ pending esp s.bmc_mgr.bmc_rx_queue s.world ++ (rx_item msg ∷ [])
  pub carries : fragment msg ≡ fragment_in b
  pub header : HasHeader msg

module _ (esp : Esp) (sized : (w : World) → IsSized (esp.uninit w)) where
  pub arrived :
      (b : Block) (depth : ℕ) (s : Firmware)
      → IsBlock b
      → IsRunning s
      → s.bmc_mgr.bmc_rx_queue ≢ 0
      → HasRoom esp s.bmc_mgr.bmc_rx_queue depth
      → length (pending esp s.bmc_mgr.bmc_rx_queue s.world) < depth
      → Arrived esp b s
  unfolding block_length
  arrived b depth s block running exists room few =
      let (rx, nic, flash, cmd, isr_rx, isr_nic, distinct) = running.sound.linked in
      let queue = s.bmc_mgr.bmc_rx_queue in
      let same_queue : s.isr.bmc_rx_queue ≡ queue = isr_rx ∙ sym rx in
      let posts =
        bmc_i2c_rx_isr-Posts esp b.bytes b.len s (sized s.world)
          (λ none. exists (sym same_queue ∙ none)) (block.handed_over) in
      let item = rx_item posts.msg in
      let world = yields posts.woken (queue_send_from_isr s.isr.bmc_rx_queue item ∷ s.world) in
      let long : posts.msg.len ≡ b.len = posts.msg_length ∙ ground (arith, block.one_block) in
      let same : take b.len posts.msg.bytes ≡ take b.len b.bytes = rw long at posts.msg_bytes in
      let put : pending esp queue (queue_send_from_isr queue item ∷ s.world)
          ≡ pending esp queue s.world ++ (item ∷ []) =
        rw ((==_iff queue queue).1 refl, room.takes s.world item few) refl in
      record {
        msg = posts.msg;
        world = world;
        returns = posts.returns;
        running =
            Ends-returns IsRunning (bmc_i2c_rx_isr esp b.bytes b.len s)
              (bmc_i2c_rx_isr-Ends esp sized b.bytes b.len s block.handed_over running)
              posts.returns;
        waits =
            pending-yields esp queue posts.woken
              (queue_send_from_isr s.isr.bmc_rx_queue item ∷ s.world)
            ∙ rw same_queue put;
        carries = fragment_kept b block posts.msg long same;
        header = omega (arith, long, block.has_header);
      }
