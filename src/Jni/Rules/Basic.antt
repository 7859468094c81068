-- ===== src/Jni/Rules/Basic.antt =====
-- The rules for a block of statements and for its last statement.
use v_j_bc.Base.{
  ℕ, ◌+◌, ◌≤◌, ◌∙◌, String, ◌≡◌, refl, inl, inr, Bool, true, false, Option, some, List, ◌∷◌, arith,
  ap, Bool-cases,
}
use v_j_bc.Jni.{
  ExceptionClass, Thrown, Resource, World, Outcome, next, goto, Body, Schedule, and_then, ◌>>=◌,
  pure, throw, attempt, acquire, guard, set_retval, release, remove,
}
use v_j_bc.Jni.Point.{Shape, shape, Fits, IsThrown, pending, After, falls, jumps, Passes}
use v_j_bc.Jni.Remove.{Parted}

pub release_lem :
    {L R : Type 0} (r : Resource) (hs : List Resource) (w : World R)
    → remove r w.held ≡ some hs
    → release {L = L} r w ≡ next tt (record w { held = hs })
unfolding release
release_lem r hs w e = ground arith

module _ {L R : Type 0} {cleanup : L → List Resource} {K : List Resource → Type 0} {F : R → Type 0}
    {X : ℕ → ℕ → ExceptionClass → Type 0} where
  pub jump_lem :
      {A : Type 0} {s s' : Shape R} {Q : A → Type 0} {start : ℕ} {base : List Resource}
      {t : Option Thrown} {w v : World R} (l : L) (leaked : List Resource)
      → K leaked
      → Parted leaked (cleanup l) s.held
      → F s.retval
      → Fits s start base t w
      → v.held ≡ w.held
      → v.retval ≡ w.retval
      → IsThrown (X start v.clock) v.thrown
      → After {A = A} cleanup K F X s' Q start base t (goto l v)
  jump_lem {s} {base} {w} {v} l leaked k e f fits h r p = jumps (record {
    leaked = leaked;
    allowed = k;
    mine = s.held;
    held = h ∙ fits.held;
    parted = e;
    left = rw (r, fits.retval) f;
    thrown = p;
  })

  module _ {A : Type 0} {s : Shape R} {Q : A → Type 0} where
    pub Steps-pure : (a : A) → Q a → Passes cleanup K F X s s Q (pure a)
    unfolding pure
    Steps-pure a q = record { at = λ start base t w fits. falls q fits }

    pub Steps-throw :
        {s' : Shape R} (c : ExceptionClass) (m : String) (l : L)
        → (leaked : List Resource) → K leaked
        → Parted leaked (cleanup l) s.held
        → F s.retval
        → ((m n : ℕ) → X m n c)
        → Passes cleanup K F X s s' Q (throw c m l)
    unfolding throw
    Steps-throw c m l leaked kept e f x = record {
      at = λ start base t w fits. jump_lem l leaked kept e f fits refl refl (pending (x start _));
    }

  module _ {A B : Type 0} {s : Shape R} {Q : A → Type 0} {s' : Shape R} {P : B → Type 0}
      (k : A → Body L R B) (rest : (a : A) → Q a → Passes cleanup K F X s s' P (k a)) where
    After-bind :
        {start : ℕ} {base : List Resource} {t : Option Thrown} {o : Outcome L R A}
        → After cleanup K F X s Q start base t o
        → After cleanup K F X s' P start base t (and_then o k)
    After-bind {start} {base} {t} (falls {a} {w} q fits) = (rest a q).at start base t w fits
    After-bind (jumps j) = jumps j

  pub Steps-bind :
      {A B : Type 0} {s s' s'' : Shape R} {Q : A → Type 0} {P : B → Type 0} (m : Body L R A)
      (k : A → Body L R B)
      → Passes cleanup K F X s s' Q m
      → ((a : A) → Q a → Passes cleanup K F X s' s'' P (k a))
      → Passes cleanup K F X s s'' P (m >>= k)
  unfolding ◌>>=◌
  Steps-bind m k first rest = record {
    at = λ start base t w fits. After-bind k rest (first.at start base t w fits);
  }

  module _ {A : Type 0} {s' : Shape R} {Q P : A → Type 0} (weaken : (a : A) → Q a → P a) where
    After-mono :
        {start : ℕ} {base : List Resource} {t : Option Thrown} {o : Outcome L R A}
        → After cleanup K F X s' Q start base t o
        → After cleanup K F X s' P start base t o
    After-mono (falls {a} q fits) = falls (weaken a q) fits
    After-mono (jumps j) = jumps j

    pub Steps-mono :
        {s : Shape R} (m : Body L R A)
        → Passes cleanup K F X s s' Q m
        → Passes cleanup K F X s s' P m
    Steps-mono m steps = record {
      at = λ start base t w fits. After-mono (steps.at start base t w fits);
    }

  -- A block that always jumps: what stands behind it is not reached.
  pub Steps-jump :
      {A B : Type 0} {s s' : Shape R} {P : B → Type 0} (m : Body L R A) (k : A → Body L R B)
      → Passes cleanup K F X s s' (λ _. ⊥) m
      → Passes cleanup K F X s s' P (m >>= k)
  Steps-jump m k first = Steps-bind m k first (λ a e. absurd e)

  -- The last statement of a block.
  module _ {held : List Resource} {r : R} where
    pub Steps-attempt :
        {A : Type 0} {Q : A → Type 0} (calls : Schedule) (f : ℕ → A) (c : ExceptionClass)
        (m : String) (l : L)
        → (leaked : List Resource) → K leaked
        → Parted leaked (cleanup l) held
        → F r
        → ((m n : ℕ) → m ≤ n → calls n ≡ false → X m (n + 1) c)
        → ((n : ℕ) → Q (f n))
        → Passes cleanup K F X (shape held r) (shape held r) Q (attempt calls f c m l)
    unfolding attempt
    Steps-attempt calls f c m l leaked kept e left x q = record {
      at = λ start base t w fits. elim (Bool-cases (calls w.clock)) [
        | inl p ↦ rw p (
            falls (q w.clock) (record {
              held = fits.held;
              retval = fits.retval;
              thrown = fits.thrown;
              later = omega (arith, fits.later);
            }))
        | inr p ↦
            rw p (
              jump_lem l leaked kept e left fits refl refl (pending (x start w.clock fits.later p)))
      ];
    }

    pub Steps-acquire :
        {A : Type 0} {Q : A → Type 0} (calls : Schedule) (h : Resource) (f : ℕ → A)
        (c : ExceptionClass) (m : String) (l : L)
        → (leaked : List Resource) → K leaked
        → Parted leaked (cleanup l) held
        → F r
        → ((m n : ℕ) → m ≤ n → calls n ≡ false → X m (n + 1) c)
        → ((n : ℕ) → Q (f n))
        → Passes cleanup K F X (shape held r) (shape (h ∷ held) r) Q (acquire calls h f c m l)
    unfolding acquire
    Steps-acquire calls h f c m l leaked kept e left x q = record {
      at = λ start base t w fits. elim (Bool-cases (calls w.clock)) [
        | inl p ↦ rw p (
            falls (q w.clock) (record {
              held = ap (λ q. h ∷ q) fits.held;
              retval = fits.retval;
              thrown = fits.thrown;
              later = omega (arith, fits.later);
            }))
        | inr p ↦
            rw p (
              jump_lem l leaked kept e left fits refl refl (pending (x start w.clock fits.later p)))
      ];
    }

    pub Steps-guard :
        {Q : Unit {0} → Type 0} (b : Bool) (c : ExceptionClass) (m : String) (l : L)
        → (leaked : List Resource) → K leaked
        → Parted leaked (cleanup l) held
        → F r
        → (b ≡ false → (m n : ℕ) → X m n c)
        → (b ≡ true → Q tt)
        → Passes cleanup K F X (shape held r) (shape held r) Q (guard b c m l)
    unfolding guard
    Steps-guard true c m l leaked kept e left x q = record {
      at = λ start base t w fits. falls (q refl) fits;
    }
    Steps-guard false c m l leaked kept e left x q = record {
      at = λ start base t w fits.
          jump_lem l leaked kept e left fits refl refl (pending (x refl start _));
    }

    pub Steps-set_retval :
        {Q : Unit {0} → Type 0} (v : R)
        → Q tt
        → Passes cleanup K F X (shape held r) (shape held v) Q (set_retval v)
    unfolding set_retval
    Steps-set_retval v q = record {
      at = λ start base t w fits. falls q (record {
        held = fits.held;
        retval = refl;
        thrown = fits.thrown;
        later = omega (arith, fits.later);
      });
    }
