-- ===== src/System/Keeps.antt =====
-- What holds of the state that a computation leaves, if it returns.
use nic_ob_fw.Common.{◌≡◌, ◌∷◌, subst, Bool, true, false, Option, some, none, if◌then◌else◌}
use nic_ob_fw.Types.{
  RtosErr, rtos_ok, rtos_err_timeout, rtos_err_full, rtos_err_empty, rtos_err_nomem, rtos_err_fail,
}
use nic_ob_fw.Platform.{HwCall, queue_send, queue_send_from_isr}
use nic_ob_fw.Firmware.{Firmware, M, continue, defined}
use nic_ob_fw.Flash.{check}

-- The call sends nothing to a queue.
abbrev pub IsQuiet : HwCall → Type 0
IsQuiet (queue_send handle item ticks) = ⊥
IsQuiet (queue_send_from_isr handle item) = ⊥
IsQuiet other = Unit {0}

-- Calls that send nothing keep the property.
abbrev pub IgnoresCalls : (Firmware → Type 0) → Type 0
IgnoresCalls P =
    (c : HwCall) (s : Firmware) → IsQuiet c → P s → P (record s { world = c ∷ s.world })

abbrev pub Ends : {A : Type 0} → (Firmware → Type 0) → Option (A × Firmware) → Type 0
Ends P none = Unit {0}
Ends P (some (a, t)) = P t

module _ (P : Firmware → Type 0) where
  pub Ends-returns :
      {A : Type 0} {a : A} {t : Firmware} (r : Option (A × Firmware))
      → Ends P r
      → r ≡ some (a, t)
      → P t
  Ends-returns r h returns = subst (Ends P) returns h

  pub Ends-continue :
      {A B : Type 0} (r : Option (A × Firmware)) (f : A → M B)
      → Ends P r
      → ((a : A) (t : Firmware) → P t → Ends P (f a t))
      → Ends P (continue r f)
  Ends-continue none f h next = tt
  Ends-continue (some (a, t)) f h next = next a t h

  pub Ends-defined :
      {A B : Type 0} (o : Option A) (f : A → M B) (s : Firmware)
      → ((a : A) → Ends P (f a s))
      → Ends P (continue (defined o s) f)
  Ends-defined none f s next = tt
  Ends-defined (some a) f s next = next a

  pub Ends-if :
      {A : Type 0} (b : Bool) (m k : M A) (s : Firmware)
      → Ends P (m s)
      → Ends P (k s)
      → Ends P ((if b then m else k) s)
  Ends-if true m k s h h2 = h
  Ends-if false m k s h h2 = h2

  pub Ends-elim :
      {A : Type 0} (b : Bool) (m k : M A) (s : Firmware)
      → Ends P (m s)
      → Ends P (k s)
      → Ends P ((elim b as (λ x. M A) [ false ↦ k | true ↦ m ]) s)
  Ends-elim true m k s h h2 = h
  Ends-elim false m k s h h2 = h2

  Ends-check :
      (e : RtosErr) (rest : M RtosErr) (s : Firmware)
      → P s
      → Ends P (rest s)
      → Ends P (check e rest s)
  Ends-check rtos_ok rest s p h = h
  Ends-check rtos_err_timeout rest s p h = p
  Ends-check rtos_err_full rest s p h = p
  Ends-check rtos_err_empty rest s p h = p
  Ends-check rtos_err_nomem rest s p h = p
  Ends-check rtos_err_fail rest s p h = p

  pub Ends-then :
      (r : Option (RtosErr × Firmware)) (rest : M RtosErr)
      → Ends P r
      → ((t : Firmware) → P t → Ends P (rest t))
      → Ends P (continue r (λ e. check e rest))
  Ends-then r rest h next =
      Ends-continue r (λ e. check e rest) h (λ e t p. Ends-check e rest t p (next t p))

  -- A continuation that goes on after `RTOS_OK` and returns at once after an error.
  pub Ends-cases :
      {A : Type 0} (e : RtosErr) (m t1 t2 t3 t4 t5 : M A) (s : Firmware)
      → Ends P (m s)
      → Ends P (t1 s)
      → Ends P (t2 s)
      → Ends P (t3 s)
      → Ends P (t4 s)
      → Ends P (t5 s)
      → Ends P (
          (elim e as (λ x. M A) [
            | rtos_ok ↦ m
            | rtos_err_timeout ↦ t1
            | rtos_err_full ↦ t2
            | rtos_err_empty ↦ t3
            | rtos_err_nomem ↦ t4
            | rtos_err_fail ↦ t5
          ])
            s)
  Ends-cases rtos_ok m t1 t2 t3 t4 t5 s h h1 h2 h3 h4 h5 = h
  Ends-cases rtos_err_timeout m t1 t2 t3 t4 t5 s h h1 h2 h3 h4 h5 = h1
  Ends-cases rtos_err_full m t1 t2 t3 t4 t5 s h h1 h2 h3 h4 h5 = h2
  Ends-cases rtos_err_empty m t1 t2 t3 t4 t5 s h h1 h2 h3 h4 h5 = h3
  Ends-cases rtos_err_nomem m t1 t2 t3 t4 t5 s h h1 h2 h3 h4 h5 = h4
  Ends-cases rtos_err_fail m t1 t2 t3 t4 t5 s h h1 h2 h3 h4 h5 = h5
