-- ===== src/Base/Prefix.antt =====
-- A buffer that is filled from the front, one copy behind the other.
use Prim.Native.Nat.{ℕ, ◌+◌, ◌≤◌}
use mathlib.Core.Path.{◌≡◌, refl, ap, sym, ◌∙◌}
use mathlib.Core.List.{[], ◌++◌, append-nil, append_assoc}
use native.Mathlib.Omega.{arith}
use v_j_bc.Base.Arrays.{
  Bytes, length, length-append, length-drop, take, drop, take-append_eq, drop-append_eq, take_all,
  write_at, write_at-after,
}

-- `p`, a buffer of `total` bytes, begins with `a`.
pub record HasPrefix (total : ℕ) (a p : Bytes) : Type 0 where
  pub rest : Bytes
  pub fits : length a + length rest ≡ total
  pub layout : p ≡ a ++ rest

pub HasPrefix-nil : (p : Bytes) → HasPrefix (length p) [] p
HasPrefix-nil p = record { rest = p; fits = omega arith; layout = refl }

module _ {total : ℕ} {a p : Bytes} where
  pub length-HasPrefix : HasPrefix total a p → length p ≡ total
  length-HasPrefix h = ap length h.layout ∙ length-append a h.rest ∙ h.fits

  pub write_at-HasPrefix :
      (at : ℕ) (src : Bytes)
      → HasPrefix total a p
      → at ≡ length a
      → length a + length src ≤ total
      → HasPrefix total (a ++ src) (write_at at src p)
  write_at-HasPrefix at src h e room = record {
    rest = drop (length src) h.rest;
    fits = omega (arith, length-append a src, length-drop (length src) h.rest, h.fits);
    layout =
        ap (write_at at src) h.layout
        ∙ write_at-after at a h.rest src e (omega (arith, h.fits))
        ∙ sym (append_assoc a src (drop (length src) h.rest));
  }

  pub take-HasPrefix : (n : ℕ) → HasPrefix total a p → length a ≡ n → take n p ≡ a
  take-HasPrefix n h e = ap (take n) h.layout ∙ take-append_eq n a h.rest e

  pub HasPrefix-eq : HasPrefix total a p → length a ≡ total → p ≡ a
  HasPrefix-eq h e = sym (take_all total p (length-HasPrefix h)) ∙ take-HasPrefix total h e

-- What stands behind the front of a prefix.
pub take-drop-HasPrefix :
    {total : ℕ} (a b : Bytes) {p : Bytes} (m n : ℕ)
    → HasPrefix total (a ++ b) p
    → length a ≡ m
    → length b ≡ n
    → take n (drop m p) ≡ b
take-drop-HasPrefix a b {p} m n h em en =
    ap (λ t. take n (drop m t)) (h.layout ∙ append_assoc a b h.rest)
    ∙ ap (take n) (drop-append_eq m a (b ++ h.rest) em)
    ∙ take-append_eq n b h.rest en

pub HasPrefix-front :
    {total : ℕ} (a b : Bytes) {p : Bytes} → HasPrefix total (a ++ b) p → HasPrefix total a p
HasPrefix-front a b h = record {
  rest = b ++ h.rest;
  fits = omega (arith, length-append a b, length-append b h.rest, h.fits);
  layout = h.layout ∙ append_assoc a b h.rest;
}

pub HasPrefix-self : (p : Bytes) → HasPrefix (length p) p p
HasPrefix-self p = record { rest = []; fits = omega arith; layout = sym (append-nil p) }
