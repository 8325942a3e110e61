-- ===== src/BmcMgr/Handle.antt =====
-- A message of the BMC from its arrival in the thread to the response that goes out.
use nic_ob_fw.Common.{
  ℕ, ◌*◌, ◌<◌, ◌≤◌, ◌≡◌, refl, ap, subst, List, [], ◌∷◌, true, Option, some, none, inl, inr, arith,
  ltb, ltb→lt, lt→ltb, Bool-cases, u32, length,
}
use nic_ob_fw.Types.{BmcRxMsg, PldmMsg, mctp_max_payload}
use nic_ob_fw.Platform.{Esp, World, IsSized, tick_count}
use nic_ob_fw.Firmware.{Firmware}
use nic_ob_fw.Rtos.{rtos_get_tick_ms}
use nic_ob_fw.Protocol.Mctp.{Reassembly, mctp_process_rx}
use nic_ob_fw.Protocol.Mctp.Receiver.{Receiver, idle, receive, receiver, fragment}
use nic_ob_fw.Protocol.Mctp.Contract.{IsValid, IsFragment}
use nic_ob_fw.Protocol.Mctp.Messages.{receive_next}
use nic_ob_fw.ProtocolHdlr.{protocol_hdlr_process_rx}
use nic_ob_fw.ProtocolHdlr.Receive.{
  IsRequest, Hears, nothing_yet, too_short, request, too_long, protocol_hdlr_process_rx-Hears,
}
use nic_ob_fw.BmcMgr.{liveness_update, handle_bmc_msg, dispatch_pldm}
use nic_ob_fw.BmcMgr.Dispatch.{Responds, dispatch_pldm-Responds}

-- The state in which a message is handled: the BMC was seen just now, and the reassembly is at `r`.
abbrev pub seen : Esp → Firmware → Reassembly → Firmware
seen esp s r = record s {
  world = tick_count ∷ s.world;
  mctp = r;
  bmc_mgr = record s.bmc_mgr {
    last_bmc_seen_ms = u32 (u32 (esp.answer s.world tick_count).value * esp.tick_period_ms);
  };
}

-- What a message comes to.
pub data Handles (esp : Esp) (raw : BmcRxMsg) (s : Firmware) : Type 0 where
  ignored :
      raw.len < 4 → handle_bmc_msg esp raw s ≡ some (tt, seen esp s s.mctp) → Handles esp raw s
  no_request :
      (r : Reassembly) (got : Option (List ℕ))
      → receive (receiver s.mctp) (fragment raw) ≡ (receiver r, got)
      → ((p : List ℕ) → got ≡ some p → length p < 3)
      → IsValid r
      → handle_bmc_msg esp raw s ≡ some (tt, seen esp s r)
      → Handles esp raw s
  answered :
      (r : Reassembly) (p : List ℕ) (msg : PldmMsg)
      → receive (receiver s.mctp) (fragment raw) ≡ (receiver r, some p)
      → IsRequest p msg
      → 3 ≤ length p
      → IsValid r
      → handle_bmc_msg esp raw s ≡ dispatch_pldm esp msg (seen esp s r)
      → Responds esp msg (seen esp s r)
      → Handles esp raw s
  overrun :
      (r : Receiver) (p : List ℕ)
      → receive (receiver s.mctp) (fragment raw) ≡ (r, some p)
      → mctp_max_payload < length p
      → handle_bmc_msg esp raw s ≡ none
      → Handles esp raw s

module _ (esp : Esp) (raw : BmcRxMsg) (s : Firmware) (frag : IsFragment raw)
    (u : (w : World) → IsSized (esp.uninit w)) (ready : s.bmc_hal.initialized ≡ true)
    (v : IsValid s.mctp) (inside : s.sensor_mgr.cache.count ≤ 16) where
  by_hearing :
      Hears esp raw (esp.uninit (tick_count ∷ s.world)).pldm (seen esp s s.mctp) → Handles esp raw s
  unfolding handle_bmc_msg liveness_update rtos_get_tick_ms
  by_hearing (nothing_yet r e v' returns) =
      no_request r none e (λ p none_is. absurd (cc)) v' (rw returns refl)
  by_hearing (too_short r p e v' short returns) =
      no_request r (some p) e (λ q same. let is : p ≡ q = cc in rw (← is) short) v'
        (rw returns refl)
  by_hearing (request r p msg e v' long short returns is) =
      answered r p msg e is long v' (rw returns refl)
        (dispatch_pldm-Responds esp msg (seen esp s r) u ready inside)
  by_hearing (too_long r p e long returns) = overrun r p e long (rw returns refl)

  pub fragment-Handles : Handles esp raw s
  fragment-Handles = by_hearing (
      protocol_hdlr_process_rx-Hears esp raw (esp.uninit (tick_count ∷ s.world)).pldm
        (seen esp s s.mctp) frag (u (tick_count ∷ s.world)) (u (tick_count ∷ s.world)).pldm_payload
        v)

-- Fewer bytes than a header change nothing but when the BMC was seen.
pub handle_bmc_msg_short :
    (esp : Esp) (raw : BmcRxMsg) (s : Firmware)
    → raw.len < 4
    → handle_bmc_msg esp raw s ≡ some (tt, seen esp s s.mctp)
unfolding handle_bmc_msg liveness_update rtos_get_tick_ms protocol_hdlr_process_rx mctp_process_rx
handle_bmc_msg_short esp raw s few = rw (lt→ltb raw.len 4 few) refl

-- With the transmitter initialised, arrays of their sizes, a well-formed reassembly and a sensor
-- count of at most 16, the size of the cache, a message of up to 32 bytes, as the interrupt handler
-- posts it, marks the BMC as seen and then does one of four things. If it is shorter than a header,
-- or completes no request, nothing else happens. If it completes a request of at most 64 bytes,
-- that request is dispatched, and exactly one response to it goes out. If it completes a longer
-- message, the behaviour is undefined. In the first three cases the reassembly is well-formed
-- again.
pub handle_bmc_msg-Handles :
    (esp : Esp) (raw : BmcRxMsg) (s : Firmware)
    → length raw.bytes ≡ 32
    → raw.len ≤ 32
    → ((w : World) → IsSized (esp.uninit w))
    → s.bmc_hal.initialized ≡ true
    → IsValid s.mctp
    → s.sensor_mgr.cache.count ≤ 16
    → Handles esp raw s
handle_bmc_msg-Handles esp raw s sized within u ready v inside = elim (Bool-cases (ltb raw.len 4)) [
  | inl short ↦ let few = ltb→lt raw.len 4 short in ignored few (handle_bmc_msg_short esp raw s few)
  | inr long ↦
      fragment-Handles esp raw s
        (record { sized = sized; has_header = ground (arith, long); within = within }) u ready v
        inside
]

-- The request was dispatched in the state in which the BMC was just seen, and one response went out.
pub record Answered (esp : Esp) (raw : BmcRxMsg) (p : List ℕ) (s : Firmware) : Type 0 where
  pub reassembly : Reassembly
  pub msg : PldmMsg
  pub asks : IsRequest p msg
  pub dispatches : handle_bmc_msg esp raw s ≡ dispatch_pldm esp msg (seen esp s reassembly)
  pub responds : Responds esp msg (seen esp s reassembly)
  pub again : IsValid reassembly
  pub idle_after : receiver reassembly ≡ idle

-- With the transmitter initialised, arrays of their sizes, a well-formed reassembly and a sensor count
-- of at most 16, a request that fits one message, marked as the start and the end, is always answered, whatever the
-- reassembly was in the middle of: the call returns after exactly one response to the request that
-- the message's body holds, of three bytes or more.
pub handle_bmc_msg-Answered :
    (esp : Esp) (raw : BmcRxMsg) (seq : ℕ) (p : List ℕ) (s : Firmware)
    → IsFragment raw
    → fragment raw ≡ record { som = true; eom = true; seq = seq; body = p }
    → 3 ≤ length p
    → length p ≤ 28
    → ((w : World) → IsSized (esp.uninit w))
    → s.bmc_hal.initialized ≡ true
    → IsValid s.mctp
    → s.sensor_mgr.cache.count ≤ 16
    → Answered esp raw p s
handle_bmc_msg-Answered esp raw seq p s frag single long short u ready v inside =
    go (fragment-Handles esp raw s frag u ready v inside)
  where
    whole : receive (receiver s.mctp) (fragment raw) ≡ (idle, some p)
    whole = rw single (
        receive_next (receiver s.mctp) [] (record { som = true; eom = true; seq = seq; body = p })
          refl (omega arith))

    go : Handles esp raw s → Answered esp raw p s
    go (ignored few returns) = absurd (omega (arith, few, frag.has_header))
    go (no_request r got e few v' returns) =
        let is : got ≡ some p = cc (whole, e) in absurd (omega (arith, few p is))
    go (answered r q msg e is three v' returns responds) =
        let same : q ≡ p = cc (whole, e) in
        let rest : receiver r ≡ idle = cc (whole, e) in
        record {
          reassembly = r;
          msg = msg;
          asks = subst (λ (l : List ℕ). IsRequest l msg) same is;
          dispatches = returns;
          responds = responds;
          again = v';
          idle_after = rest;
        }
    go (overrun r q e far returns) =
        let same : q ≡ p = cc (whole, e) in absurd (omega (arith, far, ap length same))
