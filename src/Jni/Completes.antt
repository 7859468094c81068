-- ===== src/Jni/Completes.antt =====
-- How a method ends.
use v_j_bc.Base.{
  ℕ, true, String, ◌≡◌, refl, Option, none, some, List, [], ◌∷◌, ◌++◌, ◌∙◌, arith, ap, sym,
  append_assoc, append-nil, subst,
}
use v_j_bc.Jni.{
  ExceptionClass, Thrown, Resource, World, Outcome, Body, and_then, ◌>>=◌, set_retval, Finish,
  Schedule, returned, remove, unwind, finish, run,
}
use v_j_bc.Jni.Point.{
  shape, Nothing, nothing, Reason, state_of, null_of, because, AllSucceed, IsThrown, pending, After,
  falls, jumps, Passes, Steps,
}
use v_j_bc.Jni.Remove.{Parted, clean, left, given, apart, remove_behind, absent-append}

-- How a method ends that was called in `w₀`. Either it has given back what it acquired except `kept`,
-- it throws nothing and `V` holds of what it returns, or an exception is pending whose class `X` accounts for,
-- `F` holds of what it returns, and `K` of what it has not given back.
pub data Leaves {R : Type 0} (kept : List Resource) (K : List Resource → Type 0) (F : R → Type 0)
    (X : ℕ → ℕ → ExceptionClass → Type 0) (V : R → Type 0) (w₀ : World R) : Finish R → Type 0 where
  succeeds :
      {w : World R}
      → w.held ≡ kept ++ w₀.held
      → w.thrown ≡ w₀.thrown
      → V w.retval
      → Leaves kept K F X V w₀ (returned w)
  fails :
      {w : World R} {leaked : List Resource}
      → K leaked
      → w.held ≡ leaked ++ w₀.held
      → IsThrown (X w₀.clock w.clock) w.thrown
      → F w.retval
      → Leaves kept K F X V w₀ (returned w)

-- The same for a method that gives back all that it acquired.
abbrev pub Ends :
    {R : Type 0}
    → (R → Type 0)
    → (ℕ → ℕ → ExceptionClass → Type 0)
    → (R → Type 0)
    → World R
    → Finish R
    → Type 0
Ends F X V w₀ o = Leaves [] Nothing F X V w₀ o

-- The same where a success returns `v`, and is possible only if `G` holds.
abbrev pub Completes :
    {R : Type 0}
    → (R → Type 0)
    → (ℕ → ℕ → ExceptionClass → Type 0)
    → Type 0
    → R
    → World R
    → Finish R
    → Type 0
Completes F X G v w₀ o = Ends F X (λ r. (r ≡ v) × G) w₀ o

unwind_cons :
    {R : Type 0} (r : Resource) (rs hs : List Resource) (w : World R)
    → remove r w.held ≡ some hs
    → unwind (r ∷ rs) w ≡ unwind rs (record w { held = hs })
unfolding unwind
unwind_cons r rs hs w e = ground arith

unwind_held :
    {R : Type 0} (leaked rs base : List Resource) (w : World R)
    → apart leaked rs ≡ true
    → w.held ≡ leaked ++ (rs ++ base)
    → unwind rs w ≡ returned (record w { held = leaked ++ base })
unwind_held leaked [] base w a e = unfold unwind in cc
unwind_held leaked (r ∷ rs) base w a e =
    unwind_cons r rs (leaked ++ (rs ++ base)) w
      (ap (remove r) e ∙ remove_behind r leaked (rs ++ base) (ground (arith, a)))
    ∙ unwind_held leaked rs base (record w { held = leaked ++ (rs ++ base) }) (ground (arith, a))
        refl

-- Where what is left stands in between, behind `pre`.
unwind-Parted :
    {R : Type 0} (pre : List Resource) {leaked rs held : List Resource} (base : List Resource)
    (w : World R)
    → Parted leaked rs held
    → apart (pre ++ leaked) rs ≡ true
    → w.held ≡ pre ++ (held ++ base)
    → unwind rs w ≡ returned (record w { held = pre ++ (leaked ++ base) })
unwind-Parted pre base w (clean {rs}) a e =
    unwind_held pre rs base w (subst (λ t. apart t rs ≡ true) (append-nil pre) a) e
unwind-Parted pre base w (left {r} {leaked} {rs} {held} parts) a e =
    let moved = λ (t : List Resource). sym (append_assoc pre (r ∷ []) (t ++ base)) in
    unwind-Parted (pre ++ (r ∷ [])) base w parts
      (subst (λ t. apart t rs ≡ true) (sym (append_assoc pre (r ∷ []) leaked)) a) (e ∙ moved held)
    ∙ ap (λ t. returned (record w { held = t })) (sym (moved leaked))
unwind-Parted pre base w (given {r} {leaked} {rs} {held} parts) a e =
    unwind_cons r rs (pre ++ (held ++ base)) w (
      ap (remove r) e
      ∙ remove_behind r pre (held ++ base) (absent-append r pre leaked (ground (arith, a))))
    ∙ unwind-Parted pre base (record w { held = pre ++ (held ++ base) }) parts (ground (arith, a))
        refl

apart-nil : (rs : List Resource) → apart [] rs ≡ true
apart-nil [] = refl
apart-nil (r ∷ rs) = apart-nil rs

-- Nothing that is left stands in the way of a cleanup.
pub Nothing-apart :
    {L : Type 0} (cleanup : L → List Resource) (leaked : List Resource)
    → Nothing leaked
    → (l : L) → apart leaked (cleanup l) ≡ true
Nothing-apart cleanup _ nothing l = apart-nil (cleanup l)

module _ {L R : Type 0} {cleanup : L → List Resource} {K : List Resource → Type 0} {F : R → Type 0}
    {X : ℕ → ℕ → ExceptionClass → Type 0}
    (clear : (leaked : List Resource) → K leaked → (l : L) → apart leaked (cleanup l) ≡ true)
    (top : L) {kept held : List Resource} (all : Parted kept (cleanup top) held)
    (beside : apart kept (cleanup top) ≡ true) (w₀ : World R) where
  module _ {A : Type 0} {Q : A → Type 0} {V : R → Type 0} (g : A → R)
      (good : (a : A) → Q a → V (g a)) where
    finish-Leaves :
        {r : R} {o : Outcome L R A}
        → After cleanup K F X (shape held r) Q w₀.clock w₀.held w₀.thrown o
        → Leaves kept K F X V w₀ (finish cleanup top (and_then o (λ a. set_retval (g a))))
    unfolding set_retval
    finish-Leaves (falls {a} {w} q fits) =
        rw (unwind-Parted [] w₀.held (record w { retval = g a }) all beside fits.held)
          (succeeds refl fits.thrown (good a q))
    finish-Leaves (jumps {l} {w} j) =
        rw (unwind-Parted [] w₀.held w j.parted (clear j.leaked j.allowed l) j.held)
          (fails j.allowed refl j.thrown j.left)

    -- A body whose last statement sets `retval`.
    pub run-Leaves :
        {r : R} (body : Body L R A)
        → Passes cleanup K F X (shape [] r) (shape held r) Q body
        → Leaves kept K F X V w₀ (run cleanup top r (body >>= λ a. set_retval (g a)) w₀)
    unfolding run ◌>>=◌
    run-Leaves {r} body steps = finish-Leaves (
        steps.at w₀.clock w₀.held w₀.thrown (record w₀ { retval = r })
          (record { held = refl; retval = refl; thrown = refl; later = omega arith }))

  finish_body-Leaves :
      {v : R} {G : Type 0} {o : Outcome L R (Unit {0})}
      → After cleanup K F X (shape held v) (λ _. G) w₀.clock w₀.held w₀.thrown o
      → Leaves kept K F X (λ r. (r ≡ v) × G) w₀ (finish cleanup top o)
  finish_body-Leaves (falls {w} g fits) =
      rw (unwind-Parted [] w₀.held w all beside fits.held)
        (succeeds refl fits.thrown (fits.retval, g))
  finish_body-Leaves (jumps {l} {w} j) =
      rw (unwind-Parted [] w₀.held w j.parted (clear j.leaked j.allowed l) j.held)
        (fails j.allowed refl j.thrown j.left)

  -- A body that sets `retval` to `v`.
  pub run_body-Leaves :
      {r v : R} {G : Type 0} (body : Body L R (Unit {0}))
      → Passes cleanup K F X (shape [] r) (shape held v) (λ _. G) body
      → Leaves kept K F X (λ r. (r ≡ v) × G) w₀ (run cleanup top r body w₀)
  unfolding run
  run_body-Leaves {r} body steps = finish_body-Leaves (
      steps.at w₀.clock w₀.held w₀.thrown (record w₀ { retval = r })
        (record { held = refl; retval = refl; thrown = refl; later = omega arith }))

module _ {L R : Type 0} {cleanup : L → List Resource} {F : R → Type 0}
    {X : ℕ → ℕ → ExceptionClass → Type 0} (top : L) {held : List Resource}
    (all : cleanup top ≡ held) (w₀ : World R) where
  pub run-Ends :
      {A : Type 0} {Q : A → Type 0} {V : R → Type 0} (g : A → R)
      → ((a : A) → Q a → V (g a))
      → {r : R} (body : Body L R A) → Steps cleanup F X (shape [] r) (shape held r) Q body
      → Ends F X V w₀ (run cleanup top r (body >>= λ a. set_retval (g a)) w₀)
  run-Ends g good body steps =
      run-Leaves (Nothing-apart cleanup) top (subst (Parted [] (cleanup top)) all clean)
        (apart-nil (cleanup top)) w₀ g good body steps

  -- A body that sets `retval` to `v`.
  pub run-Completes :
      {r v : R} {G : Type 0} (body : Body L R (Unit {0}))
      → Steps cleanup F X (shape [] r) (shape held v) (λ _. G) body
      → Completes F X G v w₀ (run cleanup top r body w₀)
  run-Completes body steps =
      run_body-Leaves (Nothing-apart cleanup) top (subst (Parted [] (cleanup top)) all clean)
        (apart-nil (cleanup top)) w₀ body steps

-- The method throws nothing, `V` holds of what it returns, and it has given back what it acquired
-- except `kept`.
pub data YieldsKeeping {R : Type 0} (kept : List Resource) (V : R → Type 0) (w₀ : World R)
    : Finish R → Type 0 where
  yields :
      {w : World R}
      → w.held ≡ kept ++ w₀.held
      → w.thrown ≡ w₀.thrown
      → V w.retval
      → YieldsKeeping kept V w₀ (returned w)

-- The same for a method that gives back all that it acquired.
abbrev pub Yields : {R : Type 0} → (R → Type 0) → World R → Finish R → Type 0
Yields V w₀ o = YieldsKeeping [] V w₀ o

-- The method returns `v` and throws nothing.
abbrev pub Succeeds : {R : Type 0} → R → World R → Finish R → Type 0
Succeeds v w₀ o = Yields (λ r. r ≡ v) w₀ o

-- A method throws an exception of the class `c`, and `F` holds of what it returns.
pub data Throws {R : Type 0} (c : ExceptionClass) (F : R → Type 0) (w₀ : World R)
    : Finish R → Type 0 where
  throws :
      {w : World R} {message : String}
      → w.held ≡ w₀.held
      → w.thrown ≡ some (record { class = c; message = message })
      → F w.retval
      → Throws c F w₀ (returned w)

module _ {R : Type 0} {K : List Resource → Type 0} {F : R → Type 0} {calls : Schedule}
    {X : ExceptionClass → Type 0} {V : R → Type 0} {w₀ : World R} where
  pub Ends-Yields :
      {kept : List Resource} {o : Finish R} {U : R → Type 0}
      → Leaves kept K F (Reason calls X) V w₀ o
      → AllSucceed calls
      → ((c : ExceptionClass) → X c → ⊥)
      → ((r : R) → V r → U r)
      → YieldsKeeping kept U w₀ o
  Ends-Yields (succeeds {w} h t p) all never weaken = yields h t (weaken w.retval p)
  Ends-Yields (fails k h (pending (state_of n _ _ e)) f) all never weaken = cc (all n)
  Ends-Yields (fails k h (pending (null_of n _ _ e)) f) all never weaken = cc (all n)
  Ends-Yields (fails k h (pending {e} (because x)) f) all never weaken = absurd (never e.class x)

module _ {calls : Schedule} {X : ExceptionClass → Type 0} where
  only_one :
      AllSucceed calls
      → (c : ExceptionClass) → ((d : ExceptionClass) → X d → d ≡ c)
      → (m n : ℕ) (d : ExceptionClass) → Reason calls X m n d
      → d ≡ c
  only_one all c only m n _ (state_of k _ _ e) = cc (all k)
  only_one all c only m n _ (null_of k _ _ e) = cc (all k)
  only_one all c only m n d (because x) = only d x

module _ {R : Type 0} {F : R → Type 0} {calls : Schedule} {X : ExceptionClass → Type 0}
    {V : R → Type 0} {w₀ : World R} where
  pub Ends-Throws :
      {o : Finish R}
      → Ends F (Reason calls X) V w₀ o
      → AllSucceed calls
      → (c : ExceptionClass) → ((d : ExceptionClass) → X d → d ≡ c)
      → ((r : R) → ¬ V r)
      → Throws c F w₀ o
  Ends-Throws (succeeds {w} h t p) all c only never = absurd (never w.retval p)
  Ends-Throws (fails {w} nothing h p f) all c only never = go w.thrown p refl
    where
      go :
          (o : Option Thrown)
          → IsThrown (Reason calls X w₀.clock w.clock) o
          → w.thrown ≡ o
          → Throws c F w₀ (returned w)
      go none x q = elim x [ ]
      go (some e) (pending x) q =
          throws {message = e.message} h
            (q
              ∙ ap (λ (d : ExceptionClass). some (record { class = d; message = e.message }))
                  (only_one all c only w₀.clock w.clock e.class x))
            f

module _ {R : Type 0} {F : R → Type 0} {calls : Schedule} {X : ExceptionClass → Type 0} {G : Type 0}
    {v : R} {w₀ : World R} {o : Finish R} (ends : Completes F (Reason calls X) G v w₀ o)
    (all : AllSucceed calls) where
  pub Completes-Succeeds : ((c : ExceptionClass) → X c → ⊥) → Succeeds v w₀ o
  Completes-Succeeds never = Ends-Yields ends all never (λ r p. p.0)

  pub Completes-Throws :
      (c : ExceptionClass) → ((d : ExceptionClass) → X d → d ≡ c) → ¬ G → Throws c F w₀ o
  Completes-Throws c only never = Ends-Throws ends all c only (λ r p. never p.1)
