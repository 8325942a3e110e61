-- ===== src/Common/Loop.antt =====
-- Counted loops, and the loops that the source unrolls by four.
use Prim.Native.Nat.{ℕ, zero, suc, ◌+◌, ◌*◌, ◌/◌, ◌%◌, ◌^◌, ◌≤◌, ◌<◌, bit_and}
use mathlib.Core.Path.{◌≡◌, refl, sym, ap, ◌∙◌}
use mathlib.Core.Bool.{true, false}
use mathlib.Core.List.{List, [], ◌∷◌, foldl}
use native.Mathlib.Numerals.{towards_suc}
use native.Mathlib.Omega.{arith}
use nic_ob_fw.Common.Tests.{ltb, lt→ltb, le→ltb_false}
use nic_ob_fw.Common.Lists.{length, get_or, take}
use nic_ob_fw.Common.Word.{bit_and_not_three}

module _ {ℓ} {S : Type ℓ} where
  -- `for (; i < stop; i += stride) s = body(i, s)` with a counter that wraps at `modulus`, and what
  -- `i` and `s` are after it. It takes one unit of fuel for a round.
  unfoldable pub for_loop : ℕ → ℕ → ℕ → ℕ → (ℕ → S → S) → ℕ → S → ℕ × S
  for_loop zero modulus stride stop body i s = (i, s)
  for_loop (suc fuel) modulus stride stop body i s = elim (ltb i stop) [
    | true ↦ for_loop fuel modulus stride stop body ((i + stride) % modulus) (body i s)
    | false ↦ (i, s)
  ]

  -- `body` at `i`, `i + 1`, …, `n` times: what the loops are compared with.
  unfoldable pub for_range : ℕ → (ℕ → S → S) → ℕ → S → S
  for_range zero body i s = s
  for_range (suc n) body i s = for_range n body (suc i) (body i s)

  pub for_range-add :
      (a b : ℕ) (body : ℕ → S → S) (i : ℕ) (s : S)
      → for_range (a + b) body i s ≡ for_range b body (i + a) (for_range a body i s)
  unfolding for_range
  for_range-add zero b body i s =
      let left : 0 + b ≡ b = omega arith in let right : i + 0 ≡ i = omega arith in rw (left, right)
  for_range-add (suc a) b body i s =
      let left : suc a + b ≡ suc (a + b) = omega arith in
      let right : i + suc a ≡ suc i + a = omega arith in
      rw (left, right) (for_range-add a b body (suc i) (body i s))

  for_loop_done :
      (fuel modulus stride stop : ℕ) (body : ℕ → S → S) (s : S)
      → for_loop fuel modulus stride stop body stop s ≡ (stop, s)
  unfolding for_loop
  for_loop_done zero modulus stride stop body s = refl
  for_loop_done (suc fuel) modulus stride stop body s =
      rw (for_loop, le→ltb_false stop stop (omega arith))

  for_loop_step :
      (fuel modulus stride stop : ℕ) (body : ℕ → S → S) (i : ℕ) (s : S)
      → i < stop
      → i + stride < modulus
      → for_loop (suc fuel) modulus stride stop body i s
        ≡ for_loop fuel modulus stride stop body (i + stride) (body i s)
  unfolding for_loop
  for_loop_step fuel modulus stride stop body i s h k =
      let e : (i + stride) % modulus ≡ i + stride = grind arith in rw (for_loop, lt→ltb i stop h, e)

  -- A loop by one is the range, given fuel for its rounds.
  pub for_loop-for_range :
      (n fuel modulus : ℕ) (body : ℕ → S → S) (i stop : ℕ) (s : S)
      → i + n ≡ stop
      → stop < modulus
      → n ≤ fuel
      → for_loop fuel modulus 1 stop body i s ≡ (stop, for_range n body i s)
  unfolding for_range
  for_loop-for_range zero fuel modulus body i stop s e h k =
      let e' : i ≡ stop = omega arith in rw e' (for_loop_done fuel modulus 1 stop body s)
  for_loop-for_range (suc n) zero modulus body i stop s e h k = elim k [ ]
  for_loop-for_range (suc n) (suc fuel) modulus body i stop s e h k =
      let one : i + 1 ≡ suc i = omega arith in
      for_loop_step fuel modulus 1 stop body i s (omega arith) (omega arith)
      ∙ rw one (
          for_loop-for_range n fuel modulus body (suc i) stop (body i s) (omega arith) h
            (omega arith))

  module _ (body : ℕ → S → S) (body4 : ℕ → S → S)
      (unrolls : (i : ℕ) (s : S)
        → body4 i s ≡ body (i + 3) (body (i + 2) (body (i + 1) (body i s)))) where
    four_rounds :
        (n i : ℕ) (s : S)
        → for_range (suc (suc (suc (suc n)))) body i s ≡ for_range n body (i + 4) (body4 i s)
    unfolding for_range
    four_rounds n i s = rw (unrolls i s) (simp towards_suc)

    -- A loop by four whose body does four rounds is the range.
    by_four :
        (k fuel modulus i stop : ℕ) (s : S)
        → i + 4 * k ≡ stop
        → stop < modulus
        → k ≤ fuel
        → for_loop fuel modulus 4 stop body4 i s ≡ (stop, for_range (4 * k) body i s)
    unfolding for_range
    by_four zero fuel modulus i stop s e h k =
        let e' : i ≡ stop = omega arith in rw e' (for_loop_done fuel modulus 4 stop body4 s)
    by_four (suc k) zero modulus i stop s e h le = elim le [ ]
    by_four (suc k) (suc fuel) modulus i stop s e h le =
        let four : 4 * suc k ≡ suc (suc (suc (suc (4 * k)))) = omega arith in
        for_loop_step fuel modulus 4 stop body4 i s (omega arith) (omega arith)
        ∙ by_four k fuel modulus (i + 4) stop (body4 i s) (omega arith) h (omega arith)
        ∙ ap (λ (t : S). (stop, t)) (sym (four_rounds (4 * k) i s) ∙ rw four)

    -- The unrolled loop over `n & ~3` followed by the loop over the rest is one range over `n`.
    pub unrolled :
        (n modulus : ℕ) (s : S)
        → n < modulus
        → n < 2 ^ 32
        → let r = for_loop n modulus 4 (bit_and n 0xffff_fffc) body4 0 s in
          for_loop n modulus 1 n body r.0 r.1 ≡ (n, for_range n body 0 s)
    unrolled n modulus s h w =
        let mask : bit_and n 0xffff_fffc ≡ 4 * (n / 4) = omega (arith, bit_and_not_three n w) in
        let fours =
          by_four (n / 4) n modulus 0 (4 * (n / 4)) s (omega arith) (omega arith) (omega arith) in
        let ones =
          for_loop-for_range (n % 4) n modulus body (4 * (n / 4)) n
            (for_range (4 * (n / 4)) body 0 s) (omega arith) h (omega arith) in
        let split = for_range-add (4 * (n / 4)) (n % 4) body 0 s in
        let whole : 4 * (n / 4) + n % 4 ≡ n = omega arith in
        let start : 0 + 4 * (n / 4) ≡ 4 * (n / 4) = omega arith in
        rw (mask, fours) (ones ∙ ap (λ (t : S). (n, t)) (sym (rw (whole, start) at split)))

module _ {ℓ κ} {A : Type ℓ} {S : Type κ} (f : S → A → S) (d : A) where
  for_range_shift :
      (n i : ℕ) (body : ℕ → S → S) (s : S)
      → for_range n body (suc i) s ≡ for_range n (λ j. body (suc j)) i s
  unfolding for_range
  for_range_shift zero i body s = refl
  for_range_shift (suc n) i body s = for_range_shift n (suc i) body (body (suc i) s)

  -- A loop that reads an array from its start folds over a prefix of it.
  pub for_range-foldl :
      (n : ℕ) (xs : List A) (s : S)
      → n ≤ length xs
      → for_range n (λ i t. f t (get_or xs i d)) 0 s ≡ foldl f s (take n xs)
  unfolding for_range
  for_range-foldl zero xs s h = refl
  for_range-foldl (suc n) [] s h = elim h [ ]
  for_range-foldl (suc n) (x ∷ xs) s h =
      for_range_shift n 0 (λ i t. f t (get_or (x ∷ xs) i d)) (f s x)
      ∙ for_range-foldl n xs (f s x) (omega arith)
