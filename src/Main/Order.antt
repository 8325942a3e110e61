-- ===== src/Main/Order.antt =====
-- The order of the start-up: no task exists before everything that it uses.
use nic_ob_fw.Common.{
  inl, inr, ◌≡◌, ◌≢◌, refl, sym, ap, ◌∙◌, List, [], ◌++◌, append_assoc, Option, some, All,
  All-append,
}
use nic_ob_fw.Types.{RtosErr, rtos_ok}
use nic_ob_fw.Platform.{HwCall, World, task_create, queue_send, queue_send_from_isr}
use nic_ob_fw.Firmware.{Firmware, M, ◌>>=◌, bind-eq}
use nic_ob_fw.Flash.{check}
use nic_ob_fw.Flash.Runs.{check_stops}
use nic_ob_fw.Types.Errors.{RtosErr-cases}

-- Every call but the creation of a task and the sending of an item.
abbrev pub IsSetup : HwCall → Type 0
IsSetup (task_create name stack_size priority) = ⊥
IsSetup (queue_send handle item ticks) = ⊥
IsSetup (queue_send_from_isr handle item) = ⊥
IsSetup other = Unit {0}

-- From the first state to the second, these calls were made, and no update was started.
abbrev pub Extends : List HwCall → Firmware → Firmware → Type 0
Extends calls s t =
    (t.world ≡ calls ++ s.world) × (t.flash_mgr.update_active ≡ s.flash_mgr.update_active)

pub Extends-trans :
    (calls more : List HwCall) (s t u : Firmware)
    → Extends calls s t
    → Extends more t u
    → Extends (more ++ calls) s u
Extends-trans calls more s t u first next = (
  next.0 ∙ ap (λ (w : World). more ++ w) first.0 ∙ sym (append_assoc more calls s.world),
  next.1 ∙ first.1,
)

-- A computation that was started in the state `s` returned, created no task, sent nothing, and left
-- what `Q` says.
pub record Gives {A : Type 0} (r : Option (A × Firmware)) (s : Firmware) (Q : A → Firmware → Type 0)
    : Type 0 where
  pub value : A
  pub after : Firmware
  pub calls : List HwCall
  pub returns : r ≡ some (value, after)
  pub extends : Extends calls s after
  pub setup : All IsSetup calls
  pub holds : Q value after

pub Gives-some :
    {A : Type 0} {Q : A → Firmware → Type 0} {a : A} {s t : Firmware} (calls : List HwCall)
    → Extends calls s t
    → All IsSetup calls
    → Q a t
    → Gives (some (a, t)) s Q
Gives-some {a} {t} calls e quiet q = record {
  value = a;
  after = t;
  calls = calls;
  returns = refl;
  extends = e;
  setup = quiet;
  holds = q;
}

-- The result of a step: what holds if it was `RTOS_OK`.
abbrev pub OnOk : (Firmware → Type 0) → RtosErr → Firmware → Type 0
OnOk P e t = e ≡ rtos_ok → P t

pub Gives-failed :
    {P : Firmware → Type 0} {e : RtosErr} {s t : Firmware} (calls : List HwCall)
    → Extends calls s t
    → All IsSetup calls
    → e ≢ rtos_ok
    → Gives (some (e, t)) s (OnOk P)
Gives-failed calls e quiet bad = Gives-some calls e quiet (λ ok. absurd (bad ok))

pub Gives-bind :
    {A B : Type 0} {P : A → Firmware → Type 0} {Q : B → Firmware → Type 0} (m : M A) (f : A → M B)
    (s : Firmware)
    → Gives (m s) s P
    → ((a : A) (t : Firmware) → P a t → Gives (f a t) t Q)
    → Gives ((m >>= f) s) s Q
Gives-bind m f s r k =
    let next = k r.value r.after r.holds in
    record {
      value = next.value;
      after = next.after;
      calls = next.calls ++ r.calls;
      returns = bind-eq m f s r.returns ∙ next.returns;
      extends = Extends-trans r.calls next.calls s r.after next.after r.extends next.extends;
      setup = All-append IsSetup next.calls r.calls next.setup r.setup;
      holds = next.holds;
    }

check-Gives :
    (P : Firmware → Type 0) {Q : Firmware → Type 0} (e : RtosErr) (rest : M RtosErr) (t : Firmware)
    → OnOk P e t
    → (P t → Gives (rest t) t (OnOk Q))
    → Gives (check e rest t) t (OnOk Q)
check-Gives P e rest t h k = elim (RtosErr-cases e) [
  | inl ok ↦ rw ok (k (h ok))
  | inr bad ↦ rw (check_stops rest e bad) (Gives-failed [] (refl, refl) tt bad)
]

-- A step, and the rest if it was fine.
pub Gives-check :
    (P : Firmware → Type 0) {Q : Firmware → Type 0} (m : M RtosErr) (rest : M RtosErr)
    (s : Firmware)
    → Gives (m s) s (OnOk P)
    → ((t : Firmware) → P t → Gives (rest t) t (OnOk Q))
    → Gives ((m >>= λ e. check e rest) s) s (OnOk Q)
Gives-check P m rest s r k =
    Gives-bind m (λ e. check e rest) s r (λ e t h. check-Gives P e rest t h (k t))
