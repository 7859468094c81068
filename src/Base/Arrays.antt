-- ===== src/Base/Arrays.antt =====
-- Byte arrays as lists of native numbers, and the copies that `memcpy` makes between them.
use Prim.Native.Nat.{ℕ, zero, suc, ◌+◌, ◌-◌, ◌≤◌, min}
use mathlib.Core.Path.{◌≡◌, refl, ap, sym, ◌∙◌}
use mathlib.Core.Bool.{Bool, true, false, ◌&&◌}
use v_j_bc.Base.Tests.{◌==◌}
use mathlib.Core.Option.{Option, none, some}
use mathlib.Core.List.{List, [], ◌∷◌, ◌++◌, append-nil}
use native.Mathlib.Omega.{arith}

abbrev pub Bytes : Type 0
Bytes = List ℕ

module _ {ℓ} {A : Type ℓ} where
  abbrev pub length : List A → ℕ
  length [] = 0
  length (x ∷ xs) = suc (length xs)

  abbrev pub take : ℕ → List A → List A
  take zero xs = []
  take (suc n) [] = []
  take (suc n) (x ∷ xs) = x ∷ take n xs

  abbrev pub drop : ℕ → List A → List A
  drop zero xs = xs
  drop (suc n) [] = []
  drop (suc n) (x ∷ xs) = drop n xs

  abbrev pub head_or : List A → A → A
  head_or [] d = d
  head_or (x ∷ xs) d = x

  pub length-append : (xs ys : List A) → length (xs ++ ys) ≡ length xs + length ys
  length-append [] ys = omega arith
  length-append (x ∷ xs) ys = omega (arith, length-append xs ys)

  pub length-take : (n : ℕ) (xs : List A) → length (take n xs) ≡ min n (length xs)
  length-take zero xs = omega arith
  length-take (suc n) [] = omega arith
  length-take (suc n) (x ∷ xs) = omega (arith, length-take n xs)

  pub length-drop : (n : ℕ) (xs : List A) → length (drop n xs) ≡ length xs - n
  length-drop zero xs = omega arith
  length-drop (suc n) [] = omega arith
  length-drop (suc n) (x ∷ xs) = omega (arith, length-drop n xs)

  pub take-append-drop : (n : ℕ) (xs : List A) → take n xs ++ drop n xs ≡ xs
  take-append-drop zero xs = refl
  take-append-drop (suc n) [] = refl
  take-append-drop (suc n) (x ∷ xs) = ap (λ t. x ∷ t) (take-append-drop n xs)

  pub take-append : (xs ys : List A) → take (length xs) (xs ++ ys) ≡ xs
  take-append [] ys = refl
  take-append (x ∷ xs) ys = ap (λ t. x ∷ t) (take-append xs ys)

  pub drop-append : (xs ys : List A) → drop (length xs) (xs ++ ys) ≡ ys
  drop-append [] ys = refl
  drop-append (x ∷ xs) ys = drop-append xs ys

  -- `memcpy (dst + at, src, n)`: `n` is the length of `src`.
  unfoldable pub write_at : ℕ → List A → List A → List A
  write_at at src dst = take at dst ++ (src ++ drop (at + length src) dst)

abbrev pub get_or {ℓ} : {A : Type ℓ} → Option A → A → A
get_or none d = d
get_or (some a) d = a

abbrev pub replicate {ℓ} : {A : Type ℓ} → ℕ → A → List A
replicate zero a = []
replicate (suc n) a = a ∷ replicate n a

-- The contents of a new Java array of bytes.
abbrev pub new_array : ℕ → Bytes
new_array size = replicate size 0

-- Equality of arrays.
unfoldable pub memcmp_eq : Bytes → Bytes → Bool
memcmp_eq [] [] = true
memcmp_eq [] (b ∷ ys) = false
memcmp_eq (a ∷ xs) [] = false
memcmp_eq (a ∷ xs) (b ∷ ys) = (a == b) && memcmp_eq xs ys

pub memcmp_eq→eq : (xs ys : Bytes) → memcmp_eq xs ys ≡ true → xs ≡ ys
unfolding memcmp_eq
memcmp_eq→eq [] [] h = refl
memcmp_eq→eq [] (b ∷ ys) h = cc
memcmp_eq→eq (a ∷ xs) [] h = cc
memcmp_eq→eq (a ∷ xs) (b ∷ ys) h = ground (arith, memcmp_eq→eq xs ys)

pub memcmp_eq_self : (xs : Bytes) → memcmp_eq xs xs ≡ true
unfolding memcmp_eq
memcmp_eq_self [] = refl
memcmp_eq_self (a ∷ xs) = ground (arith, memcmp_eq_self xs)

pub length-new_array : (n : ℕ) → length (new_array n) ≡ n
length-new_array zero = refl
length-new_array (suc n) = ap suc (length-new_array n)

module _ {ℓ} {A : Type ℓ} where
  pub drop-length : (xs : List A) → drop (length xs) xs ≡ []
  drop-length [] = refl
  drop-length (x ∷ xs) = drop-length xs

  cong_drop : (m n : ℕ) (xs : List A) → m ≡ n → drop m xs ≡ drop n xs
  cong_drop m n xs e = ap (λ k. drop k xs) e

  drop_nil : (n : ℕ) → drop {A = A} n [] ≡ []
  drop_nil zero = refl
  drop_nil (suc n) = refl

  pub drop-add : (m n : ℕ) (xs : List A) → drop (m + n) xs ≡ drop n (drop m xs)
  drop-add zero n xs = cong_drop _ _ xs (omega arith)
  drop-add (suc m) n [] = drop_nil (suc m + n) ∙ sym (drop_nil n)
  drop-add (suc m) n (x ∷ xs) =
      cong_drop (suc m + n) (suc (m + n)) (x ∷ xs) (omega arith) ∙ drop-add m n xs

  -- A copy that fills the whole of the destination.
  pub write_at-all : (src dst : List A) → length src ≡ length dst → write_at 0 src dst ≡ src
  unfolding write_at
  write_at-all src dst h =
      ap (λ n. src ++ drop n dst) {x = 0 + length src} {y = length dst} (omega arith)
      ∙ ap (λ t. src ++ t) (drop-length dst)
      ∙ append-nil src

  -- A copy over a part of the destination.
  pub write_at-append :
      (a old z src : List A)
      → length src ≡ length old
      → write_at (length a) src (a ++ (old ++ z)) ≡ a ++ (src ++ z)
  unfolding write_at
  write_at-append a old z src h =
      ap (λ t. t ++ (src ++ drop (length a + length src) (a ++ (old ++ z))))
        (take-append a (old ++ z))
      ∙ ap (λ t. a ++ (src ++ t))
          (ap (λ n. drop (length a + n) (a ++ (old ++ z))) h
            ∙ drop-add (length a) (length old) (a ++ (old ++ z))
            ∙ ap (drop (length old)) (drop-append a (old ++ z))
            ∙ drop-append old z)

  -- A copy behind the prefix `a`.
  pub write_at-after :
      (at : ℕ) (a q src : List A)
      → at ≡ length a
      → length src ≤ length q
      → write_at at src (a ++ q) ≡ a ++ (src ++ drop (length src) q)
  write_at-after at a q src e h =
      ap (λ n. write_at n src (a ++ q)) e
      ∙ ap (λ t. write_at (length a) src (a ++ t)) (sym (take-append-drop (length src) q))
      ∙ write_at-append a (take (length src) q) (drop (length src) q) src
          (omega (arith, length-take (length src) q))

  pub drop_all : (n : ℕ) (xs : List A) → length xs ≡ n → drop n xs ≡ []
  drop_all n xs h = ap (λ k. drop k xs) (sym h) ∙ drop-length xs

  pub take-append_eq : (n : ℕ) (xs ys : List A) → length xs ≡ n → take n (xs ++ ys) ≡ xs
  take-append_eq n xs ys h = ap (λ k. take k (xs ++ ys)) (sym h) ∙ take-append xs ys

  pub drop-append_eq : (n : ℕ) (xs ys : List A) → length xs ≡ n → drop n (xs ++ ys) ≡ ys
  drop-append_eq n xs ys h = ap (λ k. drop k (xs ++ ys)) (sym h) ∙ drop-append xs ys

  pub take_all : (n : ℕ) (xs : List A) → length xs ≡ n → take n xs ≡ xs
  take_all n xs h = ap (take n) (sym (append-nil xs)) ∙ take-append_eq n xs [] h
