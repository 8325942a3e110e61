-- ===== src/Common/Lists.antt =====
-- C arrays as lists, indexed by native numbers, and `memcpy` with its bounds.
use Prim.Native.Nat.{ℕ, zero, suc, ◌+◌, ◌-◌, ◌≤◌, ◌<◌, min}
use mathlib.Core.Path.{◌≡◌, refl, ap}
use mathlib.Core.Logic.{◌≢◌}
use mathlib.Core.Bool.{◌&&◌}
use mathlib.Core.List.{List, [], ◌∷◌, ◌++◌}
use mathlib.Core.Option.{Option, none, some}
use native.Mathlib.Omega.{arith}
use nic_ob_fw.Common.Tests.{leb, if◌then◌else◌}

module _ {ℓ} {A : Type ℓ} where
  abbrev pub length : List A → ℕ
  length [] = 0
  length (x ∷ xs) = suc (length xs)

  abbrev pub get_or : List A → ℕ → A → A
  get_or [] i d = d
  get_or (x ∷ xs) zero d = x
  get_or (x ∷ xs) (suc i) d = get_or xs i d

  -- A write out of bounds changes nothing.
  abbrev pub set : List A → ℕ → A → List A
  set [] i v = []
  set (x ∷ xs) zero v = v ∷ xs
  set (x ∷ xs) (suc i) v = x ∷ set xs i v

  abbrev pub take : ℕ → List A → List A
  take zero xs = []
  take (suc n) [] = []
  take (suc n) (x ∷ xs) = x ∷ take n xs

  abbrev pub drop : ℕ → List A → List A
  drop zero xs = xs
  drop (suc n) [] = []
  drop (suc n) (x ∷ xs) = drop n xs

  abbrev pub replicate : ℕ → A → List A
  replicate zero a = []
  replicate (suc n) a = a ∷ replicate n a

  pub get_or-replicate : (n i : ℕ) (a : A) → get_or (replicate n a) i a ≡ a
  get_or-replicate zero i a = refl
  get_or-replicate (suc n) zero a = refl
  get_or-replicate (suc n) (suc i) a = get_or-replicate n i a

  -- Every element satisfies the predicate.
  abbrev pub All {κ} : (A → Type κ) → List A → Type κ
  All P [] = Unit
  All P (x ∷ xs) = P x × All P xs

module _ {ℓ} {A : Type ℓ} where
  pub length-append : (xs ys : List A) → length (xs ++ ys) ≡ length xs + length ys
  length-append [] ys = omega arith
  length-append (x ∷ xs) ys = omega (arith, length-append xs ys)

  pub length-set : (xs : List A) (i : ℕ) (v : A) → length (set xs i v) ≡ length xs
  length-set [] i v = refl
  length-set (x ∷ xs) zero v = refl
  length-set (x ∷ xs) (suc i) v = ap suc (length-set xs i v)

  pub get_or-set_self :
      (xs : List A) (i : ℕ) (v d : A) → i < length xs → get_or (set xs i v) i d ≡ v
  get_or-set_self [] i v d h = elim h [ ]
  get_or-set_self (x ∷ xs) zero v d h = refl
  get_or-set_self (x ∷ xs) (suc i) v d h = get_or-set_self xs i v d (omega arith)

  pub get_or-set_ne :
      (xs : List A) (i j : ℕ) (v d : A) → i ≢ j → get_or (set xs i v) j d ≡ get_or xs j d
  get_or-set_ne [] i j v d h = refl
  get_or-set_ne (x ∷ xs) zero zero v d h = absurd (h refl)
  get_or-set_ne (x ∷ xs) zero (suc j) v d h = refl
  get_or-set_ne (x ∷ xs) (suc i) zero v d h = refl
  get_or-set_ne (x ∷ xs) (suc i) (suc j) v d h = get_or-set_ne xs i j v d (λ e. h (ap suc e))

  pub length-take : (n : ℕ) (xs : List A) → length (take n xs) ≡ min n (length xs)
  length-take zero xs = omega arith
  length-take (suc n) [] = omega arith
  length-take (suc n) (x ∷ xs) = omega (arith, length-take n xs)

  pub length-drop : (n : ℕ) (xs : List A) → length (drop n xs) ≡ length xs - n
  length-drop zero xs = omega arith
  length-drop (suc n) [] = omega arith
  length-drop (suc n) (x ∷ xs) = omega (arith, length-drop n xs)

  pub length-replicate : (n : ℕ) (a : A) → length (replicate n a) ≡ n
  length-replicate zero a = refl
  length-replicate (suc n) a = ap suc (length-replicate n a)

  pub take_all : (n : ℕ) (xs : List A) → length xs ≤ n → take n xs ≡ xs
  take_all zero [] h = refl
  take_all zero (x ∷ xs) h = elim h [ ]
  take_all (suc n) [] h = refl
  take_all (suc n) (x ∷ xs) h = ap (◌∷◌ x) (take_all n xs (omega arith))

  -- A prefix that ends inside the first list.
  pub take-append_left : (n : ℕ) (xs ys : List A) → n ≤ length xs → take n (xs ++ ys) ≡ take n xs
  take-append_left zero xs ys h = refl
  take-append_left (suc n) [] ys h = elim h [ ]
  take-append_left (suc n) (x ∷ xs) ys h = ap (◌∷◌ x) (take-append_left n xs ys (omega arith))

  -- A prefix that ends inside the second list.
  pub take-append_right :
      (n : ℕ) (xs ys : List A) → take (length xs + n) (xs ++ ys) ≡ xs ++ take n ys
  take-append_right n [] ys = let e : 0 + n ≡ n = omega arith in ap (λ (k : ℕ). take k ys) e
  take-append_right n (x ∷ xs) ys =
      let e : suc (length xs) + n ≡ suc (length xs + n) = omega arith in
      rw e (ap (◌∷◌ x) (take-append_right n xs ys))

  pub drop-append_exact : (xs ys : List A) → drop (length xs) (xs ++ ys) ≡ ys
  drop-append_exact [] ys = refl
  drop-append_exact (x ∷ xs) ys = drop-append_exact xs ys

  pub take-take : (n m : ℕ) (xs : List A) → n ≤ m → take n (take m xs) ≡ take n xs
  take-take zero m xs h = refl
  take-take (suc n) zero xs h = elim h [ ]
  take-take (suc n) (suc m) [] h = refl
  take-take (suc n) (suc m) (x ∷ xs) h = ap (◌∷◌ x) (take-take n m xs (omega arith))

  -- What `memcpy(&dst[at], src, n)` leaves in `dst`.
  unfoldable pub overwrite : List A → ℕ → List A → ℕ → List A
  overwrite dst at src n = take at dst ++ (take n src ++ drop (at + n) dst)

  -- `memcpy(&dst[at], src, n)`; `none` is a read or write past the end of an array.
  unfoldable pub memcpy : List A → ℕ → List A → ℕ → Option (List A)
  memcpy dst at src n =
      if leb (at + n) (length dst) && leb n (length src)
      then some (overwrite dst at src n)
      else none

module _ {ℓ} {A : Type ℓ} where
  -- Within both arrays the copy is defined.
  pub memcpy_fits :
      (dst : List A) (at : ℕ) (src : List A) (n : ℕ)
      → at + n ≤ length dst
      → n ≤ length src
      → memcpy dst at src n ≡ some (overwrite dst at src n)
  unfolding memcpy
  memcpy_fits dst at src n h k = ground arith

  pub memcpy_past_end :
      (dst : List A) (at : ℕ) (src : List A) (n : ℕ)
      → length dst < at + n
      → memcpy dst at src n ≡ none
  unfolding memcpy
  memcpy_past_end dst at src n h = ground arith

  pub memcpy_short :
      (dst : List A) (at : ℕ) (src : List A) (n : ℕ) → length src < n → memcpy dst at src n ≡ none
  unfolding memcpy
  memcpy_short dst at src n h = ground arith

  pub length-overwrite :
      (dst : List A) (at : ℕ) (src : List A) (n : ℕ)
      → at + n ≤ length dst
      → n ≤ length src
      → length (overwrite dst at src n) ≡ length dst
  unfolding overwrite
  length-overwrite dst at src n h k = omega (
    arith,
    length-append (take at dst) (take n src ++ drop (at + n) dst),
    length-append (take n src) (drop (at + n) dst),
    length-take at dst,
    length-take n src,
    length-drop (at + n) dst,
  )

  -- The bytes up to the end of the copy: those before it, then the copied ones.
  pub take-overwrite :
      (dst : List A) (at : ℕ) (src : List A) (n : ℕ)
      → at + n ≤ length dst
      → n ≤ length src
      → take (at + n) (overwrite dst at src n) ≡ take at dst ++ take n src
  unfolding overwrite
  take-overwrite dst at src n h k =
      let before : length (take at dst) ≡ at = omega (arith, length-take at dst) in
      let copied : length (take n src) ≡ n = omega (arith, length-take n src) in
      let outer = take-append_right n (take at dst) (take n src ++ drop (at + n) dst) in
      let inner = take-append_left n (take n src) (drop (at + n) dst) (omega arith) in
      let all = take_all n (take n src) (omega arith) in rw before at (rw (inner, all) at outer)

  -- A copy to the start of an array.
  pub take-overwrite_start :
      (dst src : List A) (n : ℕ)
      → n ≤ length dst
      → n ≤ length src
      → take n (overwrite dst 0 src n) ≡ take n src
  take-overwrite_start dst src n h k =
      let e : 0 + n ≡ n = omega arith in rw e at (take-overwrite dst 0 src n (omega arith) k)

  pub drop-take : (a n : ℕ) (xs : List A) → drop a (take (a + n) xs) ≡ take n (drop a xs)
  drop-take zero n xs = let e : 0 + n ≡ n = omega arith in rw e
  drop-take (suc a) n [] = let e : suc a + n ≡ suc (a + n) = omega arith in rw e (take_nil n)
    where
      take_nil : (k : ℕ) → [] ≡ take {A = A} k []
      take_nil zero = refl
      take_nil (suc k) = refl
  drop-take (suc a) n (x ∷ xs) =
      let e : suc a + n ≡ suc (a + n) = omega arith in rw e (drop-take a n xs)

  pub get_or-take : (i n : ℕ) (xs : List A) (d : A) → i < n → get_or (take n xs) i d ≡ get_or xs i d
  get_or-take i zero xs d h = absurd (omega arith)
  get_or-take i (suc n) [] d h = refl
  get_or-take zero (suc n) (x ∷ xs) d h = refl
  get_or-take (suc i) (suc n) (x ∷ xs) d h = get_or-take i n xs d (omega arith)

  pub get_or-drop : (n i : ℕ) (xs : List A) (d : A) → get_or (drop n xs) i d ≡ get_or xs (n + i) d
  get_or-drop zero i xs d = let e : 0 + i ≡ i = omega arith in rw e
  get_or-drop (suc n) i [] d = refl
  get_or-drop (suc n) i (x ∷ xs) d =
      let e : suc n + i ≡ suc (n + i) = omega arith in rw e (get_or-drop n i xs d)

module _ {ℓ κ} {A : Type ℓ} (P : A → Type κ) where
  pub All-append : (xs ys : List A) → All P xs → All P ys → All P (xs ++ ys)
  All-append [] ys p q = q
  All-append (x ∷ xs) ys p q = (p.0, All-append xs ys p.1 q)
