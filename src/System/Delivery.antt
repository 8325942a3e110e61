-- ===== src/System/Delivery.antt =====
-- A request of the BMC in several fragments, from the bus to its one response.
use mathlib.Core.List.{flatten}
use nic_ob_fw.Common.{
  ℕ, suc, ◌+◌, ◌≤◌, ◌<◌, ◌≡◌, ◌≢◌, refl, sym, ap, ◌∙◌, List, [], ◌∷◌, ◌++◌, map, true, some, arith,
  le→ltb_false, length, length-append, append-nil, append_assoc, All,
}
use nic_ob_fw.Types.{BmcRxMsg, mctp_max_payload, queue_depth_bmc}
use nic_ob_fw.Platform.{Esp, World, IsSized, Item, rx_item}
use nic_ob_fw.Platform.Fifo.{pending, IsFifo, HasRoom}
use nic_ob_fw.Firmware.{Firmware, bind-eq}
use nic_ob_fw.Protocol.Mctp.Receiver.{receiver, fragment}
use nic_ob_fw.Protocol.Mctp.Messages.{frames}
use nic_ob_fw.Isr.{bmc_i2c_rx_isr}
use nic_ob_fw.BmcMgr.{drain_bmc_rx}
use nic_ob_fw.BmcMgr.Replies.{requests, Answers}
use nic_ob_fw.BmcMgr.Replies.Frames.{HasHeader, requests-frames}
use nic_ob_fw.System.{IsRunning}
use nic_ob_fw.System.Emptied.{drain_bmc_rx-Empties}
use nic_ob_fw.System.Arrival.{Block, IsBlock, interrupts, fragment_in, arrived}

-- What some interrupts leave: a message for each block waits, behind what waited before.
record Queued (esp : Esp) (blocks : List Block) (s : Firmware) : Type 0 where
  world : World
  returns : interrupts esp blocks s ≡ some (tt, record s { world = world })
  running : IsRunning (record s { world = world })
  ms : List BmcRxMsg
  waits :
      pending esp s.bmc_mgr.bmc_rx_queue world
      ≡ pending esp s.bmc_mgr.bmc_rx_queue s.world ++ map rx_item ms
  carries : map fragment ms ≡ map fragment_in blocks
  headers : All HasHeader ms
  as_many : length ms ≡ length blocks

module _ (esp : Esp) (sized : (w : World) → IsSized (esp.uninit w)) (depth : ℕ) where
  queued :
      (blocks : List Block) (s : Firmware)
      → All IsBlock blocks
      → IsRunning s
      → s.bmc_mgr.bmc_rx_queue ≢ 0
      → HasRoom esp s.bmc_mgr.bmc_rx_queue depth
      → length (pending esp s.bmc_mgr.bmc_rx_queue s.world) + length blocks ≤ depth
      → Queued esp blocks s
  queued [] s well running exists room few = record {
    world = s.world;
    returns = refl;
    running = running;
    ms = [];
    waits = sym (append-nil _);
    carries = refl;
    headers = tt;
    as_many = refl;
  }
  queued (b ∷ blocks) s well running exists room few =
      let queue = s.bmc_mgr.bmc_rx_queue in
      let one = arrived esp sized b depth s well.0 running exists room (omega (arith, few)) in
      let t = record s { world = one.world } in
      let longer : length (pending esp queue one.world) ≡ length (pending esp queue s.world) + 1 =
        ap length one.waits ∙ length-append (pending esp queue s.world) (rx_item one.msg ∷ []) in
      let rest = queued blocks t well.1 one.running exists room (omega (arith, few, longer)) in
      record {
        world = rest.world;
        returns =
            bind-eq (bmc_i2c_rx_isr esp b.bytes b.len) (λ _. interrupts esp blocks) s one.returns
            ∙ rest.returns;
        running = rest.running;
        ms = one.msg ∷ rest.ms;
        waits =
            rest.waits
            ∙ ap (λ (l : List Item). l ++ map rx_item rest.ms) one.waits
            ∙ append_assoc (pending esp queue s.world) (rx_item one.msg ∷ []) (map rx_item rest.ms);
        carries = rw (one.carries, rest.carries) refl;
        headers = (one.header, rest.headers);
        as_many = ap suc rest.as_many;
      }

-- The interrupts posted a message for each block, and the thread's loop took them all and sent one
-- response, to the request `p`.
pub record Delivers (esp : Esp) (blocks : List Block) (p : List ℕ) (fuel : ℕ) (s : Firmware)
    : Type 0 where
  pub posted : Firmware
  pub arrives : interrupts esp blocks s ≡ some (tt, posted)
  pub ms : List BmcRxMsg
  pub carries : map fragment ms ≡ map fragment_in blocks
  pub after : Firmware
  pub returns : drain_bmc_rx esp fuel posted ≡ some (tt, after)
  pub answers : Answers esp posted ms (p ∷ []) after
  pub none_left : pending esp s.bmc_mgr.bmc_rx_queue after.world ≡ []

-- With arrays of their sizes, queues that are first in, first out, and room for eight items in the
-- queue of the BMC's messages: a request of three to 64 bytes, cut into one to eight fragments of
-- any sizes that go into a block each, comes in over the bus, an interrupt for each block, in a
-- running state in which this queue exists and is empty. Then every interrupt handler returns, and
-- the loop over the queue after them, with a unit of fuel for each block and one more, takes all
-- the fragments in their order, answers exactly this request, with exactly one response, and leaves
-- the queue empty, whatever the reassembly was in the middle of.
pub drain_bmc_rx-Delivers :
    (esp : Esp) (seq : ℕ) (c : List ℕ) (cs : List (List ℕ)) (blocks : List Block) (fuel : ℕ)
    (s : Firmware)
    → ((w : World) → IsSized (esp.uninit w))
    → IsFifo esp
    → HasRoom esp s.bmc_mgr.bmc_rx_queue queue_depth_bmc
    → IsRunning s
    → s.bmc_mgr.bmc_rx_queue ≢ 0
    → pending esp s.bmc_mgr.bmc_rx_queue s.world ≡ []
    → All IsBlock blocks
    → map fragment_in blocks ≡ frames true seq (c ∷ cs)
    → 3 ≤ length (flatten (c ∷ cs))
    → length (flatten (c ∷ cs)) ≤ mctp_max_payload
    → length blocks ≤ queue_depth_bmc
    → length blocks < fuel
    → Delivers esp blocks (flatten (c ∷ cs)) fuel s
drain_bmc_rx-Delivers esp seq c cs blocks fuel s sized fifo room running exists none well cut long
      short few enough =
    let p = flatten (c ∷ cs) in
    let q =
      queued esp sized queue_depth_bmc blocks s well running exists room
        (omega (arith, ap length none, few)) in
    let t = record s { world = q.world } in
    let waits : pending esp s.bmc_mgr.bmc_rx_queue q.world ≡ map rx_item q.ms =
      q.waits ∙ ap (λ (l : List Item). l ++ map rx_item q.ms) none in
    let (asks, fits) =
      requests-frames true seq [] c cs q.ms (receiver s.mctp) q.headers (q.carries ∙ cut) refl
        (omega (arith, short)) in
    let asked : requests (receiver s.mctp) q.ms ≡ p ∷ [] =
      asks ∙ rw (le→ltb_false (length p) 3 long) refl in
    let e =
      drain_bmc_rx-Empties esp q.ms fuel t sized fifo q.running waits fits
        (omega (arith, q.as_many, enough)) in
    record {
      posted = t;
      arrives = q.returns;
      ms = q.ms;
      carries = q.carries;
      after = e.after;
      returns = e.returns;
      answers = rw asked at e.answers;
      none_left = e.none_left;
    }
