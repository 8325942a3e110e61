-- ===== src/Types/Errors.antt =====
-- Reasoning by cases on a return code: it is `RTOS_OK`, or any other one.
use nic_ob_fw.Common.{◌≡◌, ◌≢◌, ◌⊎◌, refl, inl, inr}
use nic_ob_fw.Types.{
  RtosErr, rtos_ok, rtos_err_timeout, rtos_err_full, rtos_err_empty, rtos_err_nomem, rtos_err_fail,
}

-- What holds of every error holds of a code that is not `RTOS_OK`.
pub on_failure {ℓ} :
    (P : RtosErr → Type ℓ)
    → P rtos_err_timeout
    → P rtos_err_full
    → P rtos_err_empty
    → P rtos_err_nomem
    → P rtos_err_fail
    → (e : RtosErr) → e ≢ rtos_ok
    → P e
on_failure P p1 p2 p3 p4 p5 rtos_ok bad = absurd (bad refl)
on_failure P p1 p2 p3 p4 p5 rtos_err_timeout bad = p1
on_failure P p1 p2 p3 p4 p5 rtos_err_full bad = p2
on_failure P p1 p2 p3 p4 p5 rtos_err_empty bad = p3
on_failure P p1 p2 p3 p4 p5 rtos_err_nomem bad = p4
on_failure P p1 p2 p3 p4 p5 rtos_err_fail bad = p5

pub RtosErr-cases : (e : RtosErr) → (e ≡ rtos_ok) ⊎ (e ≢ rtos_ok)
RtosErr-cases rtos_ok = inl refl
RtosErr-cases rtos_err_timeout = inr (λ e. cc)
RtosErr-cases rtos_err_full = inr (λ e. cc)
RtosErr-cases rtos_err_empty = inr (λ e. cc)
RtosErr-cases rtos_err_nomem = inr (λ e. cc)
RtosErr-cases rtos_err_fail = inr (λ e. cc)
