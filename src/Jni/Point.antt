-- ===== src/Jni/Point.antt =====
-- The judgement about a statement of a native method: what the method holds before and after, and
-- that a jump reaches a label that cleans up what is held, less what `K` lets it leave, with an exception pending.
use v_j_bc.Base.{
  Bytes, new_array, ℕ, ◌+◌, ◌≤◌, ◌≡◌, true, false, Option, none, some, List, [], ◌++◌,
}
use v_j_bc.Jni.{
  ExceptionClass, illegal_state, null_pointer, Thrown, Resource, World, Outcome, next, goto, Body,
  Schedule,
}
use v_j_bc.Jni.Remove.{Parted}

-- Why a method that was called when `start` calls had been made, and has made all below `end`,
-- throws: the last call that it made has failed, or `X` accounts for the exception.
pub data Reason (calls : Schedule) (X : ExceptionClass → Type 0) (start end : ℕ)
    : ExceptionClass → Type 0 where
  state_of :
      (n : ℕ) → start ≤ n → n + 1 ≡ end → calls n ≡ false → Reason calls X start end illegal_state
  null_of :
      (n : ℕ) → start ≤ n → n + 1 ≡ end → calls n ≡ false → Reason calls X start end null_pointer
  because : {c : ExceptionClass} → X c → Reason calls X start end c

-- No fallible call fails.
abbrev pub AllSucceed : Schedule → Type 0
AllSucceed calls = (n : ℕ) → calls n ≡ true

-- What a method itself holds at a point, and its variable `retval`.
pub record Shape (R : Type 0) : Type 0 where
  pub held : List Resource
  pub retval : R

abbrev pub shape : {R : Type 0} → List Resource → R → Shape R
shape h r = record { held = h; retval = r }

-- `w` is at the point `s` of a method that was called when `start` calls had been made, whose caller
-- holds `base` and whose pending exception is `t`.
pub record Fits {R : Type 0} (s : Shape R) (start : ℕ) (base : List Resource) (t : Option Thrown)
    (w : World R) : Type 0 where
  pub held : w.held ≡ s.held ++ base
  pub retval : w.retval ≡ s.retval
  pub thrown : w.thrown ≡ t
  pub later : start ≤ w.clock

-- An exception is pending whose class `X` accounts for.
pub data IsThrown (X : ExceptionClass → Type 0) : Option Thrown → Type 0 where
  pending : {e : Thrown} → X e.class → IsThrown X (some e)

-- What a jump may leave for ever: nothing.
pub data Nothing : List Resource → Type 0 where
  nothing : Nothing []

-- What a jump to `l` leaves: `K` speaks of the resources that no statement behind the label gives
-- back, `F` of `retval`, `X` of the class of the exception.
pub record Jumps {L R : Type 0} (cleanup : L → List Resource) (K : List Resource → Type 0)
    (F : R → Type 0) (X : ℕ → ℕ → ExceptionClass → Type 0) (start : ℕ) (base : List Resource)
    (l : L) (w : World R) : Type 0 where
  pub leaked : List Resource
  pub allowed : K leaked
  pub mine : List Resource
  pub held : w.held ≡ mine ++ base
  pub parted : Parted leaked (cleanup l) mine
  pub left : F w.retval
  pub thrown : IsThrown (X start w.clock) w.thrown

pub data After {L R A : Type 0} (cleanup : L → List Resource) (K : List Resource → Type 0)
    (F : R → Type 0) (X : ℕ → ℕ → ExceptionClass → Type 0) (s : Shape R) (Q : A → Type 0)
    (start : ℕ) (base : List Resource) (t : Option Thrown) : Outcome L R A → Type 0 where
  falls :
      {a : A} {w : World R}
      → Q a
      → Fits s start base t w
      → After cleanup K F X s Q start base t (next a w)
  jumps :
      {l : L} {w : World R}
      → Jumps cleanup K F X start base l w
      → After cleanup K F X s Q start base t (goto l w)

-- `m`, at the point `s`, falls through to the point `s'` with a result for which `Q` holds, or
-- jumps as `Jumps` says. Its behaviour is defined.
pub record Passes {L R A : Type 0} (cleanup : L → List Resource) (K : List Resource → Type 0)
    (F : R → Type 0) (X : ℕ → ℕ → ExceptionClass → Type 0) (s s' : Shape R) (Q : A → Type 0)
    (m : Body L R A) : Type 0 where
  pub at :
      (start : ℕ) (base : List Resource) (t : Option Thrown) (w : World R)
      → Fits s start base t w
      → After cleanup K F X s' Q start base t (m w)

-- The same where each jump gives back all that is held.
abbrev pub Steps :
    {L R A : Type 0}
    → (L → List Resource)
    → (R → Type 0)
    → (ℕ → ℕ → ExceptionClass → Type 0)
    → Shape R
    → Shape R
    → (A → Type 0)
    → Body L R A
    → Type 0
Steps cleanup F X s s' Q m = Passes cleanup Nothing F X s s' Q m

-- An array result that carries nothing: NULL, or a new array that was not written.
pub data IsBlank : Option Bytes → Type 0 where
  null : IsBlank none
  unwritten : (n : ℕ) → IsBlank (some (new_array n))
