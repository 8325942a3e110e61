-- ===== src/System/Request.antt =====
-- A request of the BMC, from the bus to the response.
use nic_ob_fw.Common.{
  ℕ, ◌-◌, ◌≤◌, ◌≡◌, ◌≢◌, refl, sym, ap, ◌∙◌, List, ◌∷◌, Bool, true, some, arith, get_or, take, drop,
  length, length-take, length-drop,
}
use nic_ob_fw.Types.{BmcRxMsg, smb_max_block_size}
use nic_ob_fw.Platform.{Esp, World, IsSized, rx_item, queue_send_from_isr}
use nic_ob_fw.Firmware.{Firmware}
use nic_ob_fw.Protocol.Mctp.{is_som, is_eom, extract_seq}
use nic_ob_fw.Protocol.Mctp.Receiver.{fragment}
use nic_ob_fw.Protocol.Mctp.Contract.{IsFragment}
use nic_ob_fw.Isr.{block_length, bmc_i2c_rx_isr}
use nic_ob_fw.Isr.Copy.{bmc_i2c_rx_isr-Posts, yields}
use nic_ob_fw.BmcMgr.Handle.{Answered, handle_bmc_msg-Answered}
use nic_ob_fw.System.{IsRunning}
use nic_ob_fw.System.Arrival.{fragment_kept}

-- What the bus handed over is a whole request: a header that marks a start and an end, and then three
-- bytes or more, in one block.
pub record IsWhole (bytes : List ℕ) (len : ℕ) : Type 0 where
  pub has_codes : 7 ≤ len
  pub one_block : len ≤ smb_max_block_size
  pub handed_over : len ≤ length bytes
  pub starts : is_som (get_or bytes 3 0) ≡ true
  pub ends : is_eom (get_or bytes 3 0) ≡ true

-- The interrupt in the state `s` posted one message, and the thread that handles it in the state `u`
-- answers what follows the header.
pub record Serves (esp : Esp) (bytes : List ℕ) (len : ℕ) (s u : Firmware) : Type 0 where
  pub msg : BmcRxMsg
  pub woken : Bool
  pub posts :
      bmc_i2c_rx_isr esp bytes len s
      ≡ some (
        tt,
        record s {
          world = yields woken (queue_send_from_isr s.main.bmc_rx_queue (rx_item msg) ∷ s.world);
        },
      )
  pub answers : Answered esp msg (drop 4 (take len bytes)) u

module _ (bytes : List ℕ) (len : ℕ) (whole : IsWhole bytes len) (m : BmcRxMsg) (long : m.len ≡ len)
    (same : take len m.bytes ≡ take len bytes) (sized : length m.bytes ≡ smb_max_block_size) where
  posted-IsFragment : IsFragment m
  posted-IsFragment = record {
    sized = sized;
    has_header = omega (arith, long, whole.has_codes);
    within = omega (arith, long, whole.one_block);
  }

  posted_fragment : fragment m ≡ record {
    som = true;
    eom = true;
    seq = extract_seq (get_or bytes 3 0);
    body = drop 4 (take len bytes);
  }
  posted_fragment =
      fragment_kept (record { bytes = bytes; len = len })
        (record {
          has_header = omega (arith, whole.has_codes);
          one_block = whole.one_block;
          handed_over = whole.handed_over;
        })
        m long same
      ∙ rw (whole.starts, whole.ends) refl

-- With arrays of their sizes: when a whole request of seven to 32 bytes comes in over the bus in a
-- running state whose receive queue exists, the interrupt handler posts exactly one message to it,
-- and whichever running state the BMC manager's thread handles that message in, exactly one
-- response to the request goes out.
pub bmc_i2c_rx_isr-Serves :
    (esp : Esp) (bytes : List ℕ) (len : ℕ) (s u : Firmware)
    → ((w : World) → IsSized (esp.uninit w))
    → IsWhole bytes len
    → s.main.bmc_rx_queue ≢ 0
    → IsRunning s
    → IsRunning u
    → Serves esp bytes len s u
unfolding block_length
bmc_i2c_rx_isr-Serves esp bytes len s u sized whole queue running later =
    let (rx, nic, flash, cmd, isr_rx, isr_nic, distinct) = running.sound.linked in
    let posts =
      bmc_i2c_rx_isr-Posts esp bytes len s (sized s.world) (λ none. queue (sym isr_rx ∙ none))
        (whole.handed_over) in
    let long : posts.msg.len ≡ len = posts.msg_length ∙ ground (arith, whole.one_block) in
    let same : take len posts.msg.bytes ≡ take len bytes = rw long at posts.msg_bytes in
    let kept = posted_fragment bytes len whole posts.msg long same posts.msg_sized in
    let frag = posted-IsFragment bytes len whole posts.msg long same posts.msg_sized in
    let size : length (drop 4 (take len bytes)) ≡ len - 4 =
      omega (arith, length-drop 4 (take len bytes), length-take len bytes, whole.handed_over) in
    record {
      msg = posts.msg;
      woken = posts.woken;
      posts =
          posts.returns
          ∙ ap
              (λ (q : ℕ). some (
                tt,
                record s {
                  world = yields posts.woken (queue_send_from_isr q (rx_item posts.msg) ∷ s.world);
                },
              ))
              isr_rx;
      answers =
          handle_bmc_msg-Answered esp posts.msg (extract_seq (get_or bytes 3 0))
            (drop 4 (take len bytes)) u frag kept (omega (arith, size, whole.has_codes))
            (omega (arith, size, whole.one_block)) sized later.sound.transmits
            later.sound.reassembly (omega (arith, later.sound.cache.calibrated));
    }
