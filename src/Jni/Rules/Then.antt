-- ===== src/Jni/Rules/Then.antt =====
-- The rules for a statement and what stands behind it.
use v_j_bc.Base.{
  sym, append_assoc, ℕ, ◌+◌, ◌≤◌, ◌∙◌, ◌++◌, String, ◌≡◌, refl, inl, inr, arith, Bool, true, false,
  none, some, List, ◌∷◌, ap, Bool-cases, ◌&&◌, if◌then◌else◌,
}
use v_j_bc.Jni.{
  ExceptionClass, illegal_state, Resource, Body, Schedule, ◌>>=◌, throw, attempt, attempt_with,
  acquire, guard, non_null, deref, in_bounds, test, set_retval, verify_initialized, release, remove,
  unchecked,
}
use v_j_bc.Jni.Point.{Shape, shape, pending, AllSucceed, Passes}
use v_j_bc.Jni.Remove.{Parted, remove_self}
use v_j_bc.Jni.Rules.Basic.{release_lem, jump_lem}

module _ {L R : Type 0} {cleanup : L → List Resource} {K : List Resource → Type 0} {F : R → Type 0}
    {X : ℕ → ℕ → ExceptionClass → Type 0} where
  -- The statements that fall through in one way: the rule says what the rest of the block needs.
  module _ {B : Type 0} {held : List Resource} {r : R} {s' : Shape R} {Q : B → Type 0} where
    pub release-then :
        (h : Resource) (k : Unit {0} → Body L R B)
        → Passes cleanup K F X (shape held r) s' Q (k tt)
        → Passes cleanup K F X (shape (h ∷ held) r) s' Q (release h >>= k)
    unfolding release ◌>>=◌
    release-then h k rest = record {
      at = λ start base t w fits.
          rw
            (release_lem h (held ++ base) w
              (ap (remove h) fits.held ∙ remove_self h (held ++ base)))
            (rest.at start base t _ (record {
              held = refl;
              retval = fits.retval;
              thrown = fits.thrown;
              later = omega (arith, fits.later);
            }));
    }

    pub attempt-then :
        {A : Type 0} (calls : Schedule) (f : ℕ → A) (c : ExceptionClass) (m : String) (l : L)
        (k : A → Body L R B)
        → (leaked : List Resource) → K leaked
        → Parted leaked (cleanup l) held
        → F r
        → ((m n : ℕ) → m ≤ n → calls n ≡ false → X m (n + 1) c)
        → ((n : ℕ) → Passes cleanup K F X (shape held r) s' Q (k (f n)))
        → Passes cleanup K F X (shape held r) s' Q (attempt calls f c m l >>= k)
    unfolding attempt ◌>>=◌
    attempt-then calls f c m l k leaked kept e left x rest = record {
      at = λ start base t w fits. elim (Bool-cases (calls w.clock)) [
        | inl p ↦ rw p (
            (rest w.clock).at start base t _ (record {
              held = fits.held;
              retval = fits.retval;
              thrown = fits.thrown;
              later = omega (arith, fits.later);
            }))
        | inr p ↦
            rw p (
              jump_lem l leaked kept e left fits refl refl (pending (x start w.clock fits.later p)))
      ];
    }

    pub attempt_with-then :
        {A : Type 0} (calls : Schedule) (h : Resource) (f : ℕ → A) (c : ExceptionClass) (m : String)
        (l : L) (k : A → Body L R B)
        → (leaked : List Resource) → K leaked
        → Parted leaked (cleanup l) held
        → F r
        → ((m n : ℕ) → m ≤ n → calls n ≡ false → X m (n + 1) c)
        → ((n : ℕ) → Passes cleanup K F X (shape (h ∷ held) r) s' Q (k (f n)))
        → Passes cleanup K F X (shape (h ∷ held) r) s' Q (attempt_with calls h f c m l >>= k)
    unfolding attempt_with throw ◌>>=◌
    attempt_with-then calls h f c m l k leaked kept e left x rest = record {
      at = λ start base t w fits. elim (Bool-cases (calls w.clock)) [
        | inl p ↦ rw p (
            (rest w.clock).at start base t _ (record {
              held = fits.held;
              retval = fits.retval;
              thrown = fits.thrown;
              later = omega (arith, fits.later);
            }))
        | inr p ↦
            rw (p, ap (remove h) fits.held ∙ remove_self h (held ++ base))
              (jump_lem {s = shape held r} {w = record w { held = held ++ base }} l leaked kept e
                left
                (record {
                  held = refl;
                  retval = fits.retval;
                  thrown = fits.thrown;
                  later = fits.later;
                })
                refl refl (pending (x start w.clock fits.later p)))
      ];
    }

    pub acquire-then :
        {A : Type 0} (calls : Schedule) (h : Resource) (f : ℕ → A) (c : ExceptionClass) (m : String)
        (l : L) (k : A → Body L R B)
        → (leaked : List Resource) → K leaked
        → Parted leaked (cleanup l) held
        → F r
        → ((m n : ℕ) → m ≤ n → calls n ≡ false → X m (n + 1) c)
        → ((n : ℕ) → Passes cleanup K F X (shape (h ∷ held) r) s' Q (k (f n)))
        → Passes cleanup K F X (shape held r) s' Q (acquire calls h f c m l >>= k)
    unfolding acquire ◌>>=◌
    acquire-then calls h f c m l k leaked kept e left x rest = record {
      at = λ start base t w fits. elim (Bool-cases (calls w.clock)) [
        | inl p ↦ rw p (
            (rest w.clock).at start base t _ (record {
              held = ap (λ q. h ∷ q) fits.held;
              retval = fits.retval;
              thrown = fits.thrown;
              later = omega (arith, fits.later);
            }))
        | inr p ↦
            rw p (
              jump_lem l leaked kept e left fits refl refl (pending (x start w.clock fits.later p)))
      ];
    }

    pub guard-then :
        (b : Bool) (c : ExceptionClass) (m : String) (l : L) (k : Unit {0} → Body L R B)
        → (leaked : List Resource) → K leaked
        → Parted leaked (cleanup l) held
        → F r
        → (b ≡ false → (m n : ℕ) → X m n c)
        → (b ≡ true → Passes cleanup K F X (shape held r) s' Q (k tt))
        → Passes cleanup K F X (shape held r) s' Q (guard b c m l >>= k)
    unfolding guard ◌>>=◌
    guard-then true c m l k leaked kept e left x rest = record {
      at = λ start base t w fits. (rest refl).at start base t w fits;
    }
    guard-then false c m l k leaked kept e left x rest = record {
      at = λ start base t w fits.
          jump_lem l leaked kept e left fits refl refl (pending (x refl start _));
    }

    pub non_null-some :
        {A : Type 0} (a : A) (c : ExceptionClass) (m : String) (l : L) (k : A → Body L R B)
        → Passes cleanup K F X (shape held r) s' Q (k a)
        → Passes cleanup K F X (shape held r) s' Q (non_null (some a) c m l >>= k)
    unfolding non_null ◌>>=◌
    non_null-some a c m l k rest = record {
      at = λ start base t w fits. rest.at start base t w fits;
    }

    pub non_null-none :
        {A : Type 0} (c : ExceptionClass) (m : String) (l : L) (k : A → Body L R B)
        → (leaked : List Resource) → K leaked
        → Parted leaked (cleanup l) held
        → F r
        → ((m n : ℕ) → X m n c)
        → Passes cleanup K F X (shape held r) s' Q (non_null none c m l >>= k)
    unfolding non_null throw ◌>>=◌
    non_null-none c m l k leaked kept e left x = record {
      at =
          λ start base t w fits. jump_lem l leaked kept e left fits refl refl (pending (x start _));
    }

    pub verify_initialized-then :
        (initialized : Bool) (l : L) (k : Unit {0} → Body L R B)
        → (leaked : List Resource) → K leaked
        → Parted leaked (cleanup l) held
        → F r
        → (initialized ≡ false → (m n : ℕ) → X m n illegal_state)
        → (initialized ≡ true → Passes cleanup K F X (shape held r) s' Q (k tt))
        → Passes cleanup K F X (shape held r) s' Q (verify_initialized (some initialized) l >>= k)
    unfolding verify_initialized
    verify_initialized-then b l k leaked kept e left x rest =
        guard-then b _ _ l k leaked kept e left x rest

    pub in_bounds-then :
        (b : Bool) (k : Unit {0} → Body L R B)
        → b ≡ true
        → Passes cleanup K F X (shape held r) s' Q (k tt)
        → Passes cleanup K F X (shape held r) s' Q (in_bounds b >>= k)
    unfolding in_bounds ◌>>=◌
    in_bounds-then b k e rest = record {
      at = λ start base t w fits. rw e (rest.at start base t w fits);
    }

    pub test-then :
        (calls : Schedule) (b : Bool) (k : Bool → Body L R B)
        → ((n : ℕ) → Passes cleanup K F X (shape held r) s' Q (k (calls n && b)))
        → Passes cleanup K F X (shape held r) s' Q (test calls b >>= k)
    unfolding test ◌>>=◌
    test-then calls b k rest = record {
      at = λ start base t w fits. (rest w.clock).at start base t _ (record {
        held = fits.held;
        retval = fits.retval;
        thrown = fits.thrown;
        later = omega (arith, fits.later);
      });
    }

    pub unchecked-then :
        (calls : Schedule)
        → AllSucceed calls
        → (rs : List Resource) (k : Unit {0} → Body L R B)
        → Passes cleanup K F X (shape (rs ++ held) r) s' Q (k tt)
        → Passes cleanup K F X (shape held r) s' Q (unchecked calls rs >>= k)
    unfolding unchecked ◌>>=◌
    unchecked-then calls all rs k rest = record {
      at = λ start base t w fits. rw (all w.clock) (
          rest.at start base t _ (record {
            held = ap (λ q. rs ++ q) fits.held ∙ sym (append_assoc rs held base);
            retval = fits.retval;
            thrown = fits.thrown;
            later = omega (arith, fits.later);
          }));
    }

    pub deref-then :
        {A : Type 0} (a : A) (k : A → Body L R B)
        → Passes cleanup K F X (shape held r) s' Q (k a)
        → Passes cleanup K F X (shape held r) s' Q (deref (some a) >>= k)
    unfolding deref ◌>>=◌
    deref-then a k rest = record { at = λ start base t w fits. rest.at start base t w fits }

    pub set_retval-then :
        (v : R) (k : Unit {0} → Body L R B)
        → Passes cleanup K F X (shape held v) s' Q (k tt)
        → Passes cleanup K F X (shape held r) s' Q (set_retval v >>= k)
    unfolding set_retval ◌>>=◌
    set_retval-then v k rest = record {
      at = λ start base t w fits. rest.at start base t _ (record {
        held = fits.held;
        retval = refl;
        thrown = fits.thrown;
        later = omega (arith, fits.later);
      });
    }

-- A branch.
pub Steps-if :
    {L R B : Type 0} {cleanup : L → List Resource} {K : List Resource → Type 0} {F : R → Type 0}
    {X : ℕ → ℕ → ExceptionClass → Type 0} {s s' : Shape R} {Q : B → Type 0} (b : Bool)
    (m n : Body L R B)
    → (b ≡ true → Passes cleanup K F X s s' Q m)
    → (b ≡ false → Passes cleanup K F X s s' Q n)
    → Passes cleanup K F X s s' Q (if b then m else n)
Steps-if true m n then_steps else_steps = then_steps refl
Steps-if false m n then_steps else_steps = else_steps refl
