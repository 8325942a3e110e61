-- ===== src/GenMgr/Sel.antt =====
-- The event log is a ring, and holds the last 32 events.
use nic_ob_fw.Common.{
  ℕ, zero, suc, u32, ◌*◌, ◌+◌, ◌-◌, ◌%◌, ◌<◌, ◌≡◌, ◌≢◌, refl, ◌∙◌, List, [], ◌∷◌, some, arith, min,
  ltb, if◌then◌else◌, get_or, set, length, length-set, get_or-set_self, get_or-set_ne,
}
use nic_ob_fw.Types.{rtos_ok}
use nic_ob_fw.Platform.{Esp, tick_count}
use nic_ob_fw.Firmware.{Firmware, GenMgr, SelEntry}
use nic_ob_fw.Rtos.{rtos_get_tick_ms}
use nic_ob_fw.GenMgr.{
  empty_entry, sel_max_entries, clear_sel, store_event, nic_gen_mgr_log_sel_event,
}

-- The log holds the newest events of the history, which lists all events, the newest first: the
-- entry `i` steps behind the head is the history's entry `i`.
pub record Logs (g : GenMgr) (history : List SelEntry) : Type 0 where
  pub sized : length g.sel_log ≡ sel_max_entries
  pub head_at : g.sel_head ≡ length history % sel_max_entries
  pub counted : g.sel_count ≡ min (length history) sel_max_entries
  pub newest :
      (i : ℕ)
      → i < g.sel_count
      → get_or g.sel_log ((g.sel_head + 31 - i) % sel_max_entries) empty_entry
        ≡ get_or history i empty_entry

pub clear_sel-Logs : (g : GenMgr) → Logs (clear_sel g) []
unfolding clear_sel
clear_sel-Logs g = record {
  sized = refl;
  head_at = refl;
  counted = refl;
  newest = λ i h. absurd (omega arith);
}

module _ (g : GenMgr) (history : List SelEntry) (event_type event_data now : ℕ)
    (l : Logs g history) where
  abbrev entry : SelEntry
  entry = record { event_type = event_type; event_data = event_data; timestamp_ms = now }

  head_in_log : g.sel_head < length g.sel_log
  head_in_log = omega (arith, l.sized, l.head_at)

  newest_after :
      (i : ℕ)
      → i < min (suc (length history)) 32
      → get_or (set g.sel_log g.sel_head entry) (((g.sel_head + 1) % 32 + 31 - i) % 32) empty_entry
        ≡ get_or (entry ∷ history) i empty_entry
  newest_after zero h =
      let place : ((g.sel_head + 1) % 32 + 31 - 0) % 32 ≡ g.sel_head = omega (arith, l.head_at) in
      rw place (get_or-set_self g.sel_log g.sel_head entry empty_entry head_in_log)
  newest_after (suc i) h =
      let place : ((g.sel_head + 1) % 32 + 31 - suc i) % 32 ≡ (g.sel_head + 31 - i) % 32 =
        omega (arith, l.head_at, h) in
      let other : g.sel_head ≢ (g.sel_head + 31 - i) % 32 = omega (arith, l.head_at, h) in
      rw place (
        get_or-set_ne g.sel_log g.sel_head ((g.sel_head + 31 - i) % 32) entry empty_entry other
        ∙ l.newest i (omega (arith, l.counted, h)))

  pub store_event-Logs : Logs (store_event event_type event_data now g) (entry ∷ history)
  unfolding store_event
  store_event-Logs =
      let count : (if ltb g.sel_count 32 then (g.sel_count + 1) % 256 else g.sel_count)
          ≡ min (suc (length history)) 32 =
        ground (arith, l.counted) in
      record {
        sized = length-set g.sel_log g.sel_head entry ∙ l.sized;
        head_at = omega (arith, l.head_at);
        counted = count;
        newest = λ i h. newest_after i (rw count at h);
      }

-- What a call of `nic_gen_mgr_log_sel_event` leaves: the event, with the time of the call, in front.
pub record Logged (esp : Esp) (event_type event_data : ℕ) (history : List SelEntry) (s : Firmware)
    : Type 0 where
  pub after : Firmware
  pub now : ℕ
  pub returns : nic_gen_mgr_log_sel_event esp event_type event_data s ≡ some (rtos_ok, after)
  pub reads_clock : (u : Firmware) × (rtos_get_tick_ms esp s ≡ some (now, u))
  pub calls : after.world ≡ tick_count ∷ s.world
  pub logs :
      Logs after.gen_mgr
        (record { event_type = event_type; event_data = event_data; timestamp_ms = now } ∷ history)

-- Logging an event puts it, with the time of the call, in front of the events that the log holds;
-- the log then holds the last 32 of all events, also when the ring has wrapped.
pub nic_gen_mgr_log_sel_event-Logs :
    (esp : Esp) (event_type event_data : ℕ) (history : List SelEntry) (s : Firmware)
    → Logs s.gen_mgr history
    → Logged esp event_type event_data history s
unfolding nic_gen_mgr_log_sel_event rtos_get_tick_ms
nic_gen_mgr_log_sel_event-Logs esp event_type event_data history s l =
    let now = u32 (u32 (esp.answer s.world tick_count).value * esp.tick_period_ms) in
    let read = record s { world = tick_count ∷ s.world } in
    record {
      after = record read { gen_mgr = store_event event_type event_data now s.gen_mgr };
      now = now;
      returns = refl;
      reads_clock = (read, refl);
      calls = refl;
      logs = store_event-Logs s.gen_mgr history event_type event_data now l;
    }
