-- ===== src/Init/Complete.antt =====
-- How the initialisation ends, in every case.
use v_j_bc.Base.{
  ℕ, ◌+◌, String, ◌≡◌, refl, ap, subst, sym, ◌∙◌, inl, inr, true, false, Bool-cases, if◌then◌else◌,
  Option, none, some, ◌∷◌, length, arith,
}
use v_j_bc.Classes.{Registry, Outcome, register}
use v_j_bc.Classes.Lang.{illegal_state_exception_class}
use v_j_bc.Classes.Found.{class_found, Keeps}
use v_j_bc.Classes.Registered.{Left, Registers, registered, refused, register-Registers}
use v_j_bc.Init.{
  Platform, Launched, launched, stopped, Finish, finished, refusal, success, freed, init_or_fail,
  init_options, register_all, registrations, cleared, launch, end_of, continue_with,
  blockchain_init,
}
use v_j_bc.Init.Launch.{
  failing, IsRegistered, AreRegistered, and_more, CanThrow, fail-CanThrow, Launches, launches,
  stops, register_all-Launches,
}
use v_j_bc.Init.Layout.{native_instance}
use v_j_bc.Init.Covers.{
  all_declared_set, all_covered-all_declared_set, native_instance-all_covered, registrations-apart,
  registrations_distinct, all_registrations,
}

-- The text of the first initialisation that fails behind the registration of the exception.
abbrev pub blamed : Platform → ℕ → Option String
blamed p n =
    if p.suite_options
    then (if p.builder_options
        then failing p.jvm n registrations
        else some "vccert builder options")
    else some "vccrypt suite options"

-- The number of calls that the registration of the exception makes.
abbrev pub first_calls : ℕ
first_calls = 2 + length illegal_state_exception_class.members

-- How an initialisation ends that begins in `s`.
pub data Initializes (p : Platform) (s : Registry) : Finish → Type 0 where
  ready :
      {s' : Registry}
      → class_found p.jvm s.clock illegal_state_exception_class ≡ true
      → blamed p (s.clock + first_calls) ≡ none
      → all_declared_set s'.globals native_instance ≡ true
      → s'.local_refs ≡ s.local_refs
      → length s'.global_refs ≡ 33 + length s.global_refs
      → Initializes p s (finished (success s'))
  no_exception :
      {s' : Registry}
      → class_found p.jvm s.clock illegal_state_exception_class ≡ false
      → Left p.jvm illegal_state_exception_class (cleared s) s'
      → Initializes p s (finished (freed s'))
  refuses :
      {s' : Registry} (text : String)
      → class_found p.jvm s.clock illegal_state_exception_class ≡ true
      → blamed p (s.clock + first_calls) ≡ some text
      → Initializes p s (finished (refusal text s'))

-- What `launch` does once the exception is registered.
data Launching (p : Platform) (s : Registry) : Launched → Type 0 where
  all_launched :
      {s' : Registry}
      → blamed p s.clock ≡ none
      → AreRegistered s'.globals registrations
      → Keeps s.globals s'.globals
      → s'.local_refs ≡ s.local_refs
      → length s'.global_refs ≡ 32 + length s.global_refs
      → Launching p s (launched s')
  one_failed :
      {s' : Registry} (text : String)
      → blamed p s.clock ≡ some text
      → Launching p s (stopped (finished (refusal text s')))

module _ (p : Platform) (s : Registry) where
  launch-registrations :
      {o : Launched}
      → p.suite_options ≡ true
      → p.builder_options ≡ true
      → Launches p.jvm registrations s o
      → Launching p s o
  launch-registrations a b (launches {s'} none_fails are keeps locals globals) =
      all_launched {s' = s'} (rw (a, b) none_fails) are keeps locals globals
  launch-registrations a b (stops {s'} text fails) = one_failed {s' = s'} text (rw (a, b) fails)

  launch_eq :
      p.suite_options ≡ true
      → p.builder_options ≡ true
      → launch p s ≡ register_all p.jvm registrations s
  unfolding launch init_or_fail init_options
  launch_eq a b = rw (a, b) refl

  launch-Launching : CanThrow s.globals → Launching p s (launch p s)
  unfolding launch init_or_fail init_options
  launch-Launching can = elim (Bool-cases p.suite_options) [
    | inr a ↦
        rw (a, fail-CanThrow "vccrypt suite options" s can)
          (one_failed "vccrypt suite options" refl)
    | inl a ↦ elim (Bool-cases p.builder_options) [
      | inr b ↦
          rw (a, b, fail-CanThrow "vccert builder options" s can)
            (one_failed "vccert builder options" refl)
      | inl b ↦ subst (Launching p s) (sym (launch_eq a b)) (
          launch-registrations a b (
            register_all-Launches p.jvm registrations s registrations-apart registrations_distinct
              can))
    ]
  ]

  ends :
      {o : Launched}
      → IsRegistered s.globals illegal_state_exception_class
      → Launching p s o
      → {s₀ : Registry} (g : ℕ) → class_found p.jvm s₀.clock illegal_state_exception_class ≡ true
      → s.clock ≡ s₀.clock + first_calls
      → s.local_refs ≡ s₀.local_refs
      → s.global_refs ≡ g ∷ s₀.global_refs
      → Initializes p s₀ (end_of o)
  ends is (all_launched {s'} none_fails are keeps locals globals) g found clock l₀ g₀ =
      ready {s' = s'} found (ap (blamed p) (sym clock) ∙ none_fails)
        (all_covered-all_declared_set s'.globals native_instance all_registrations
          (and_more _ _ (λ f i. keeps _ f (is f i)) are) native_instance-all_covered)
        (locals ∙ l₀) (omega (arith, globals, ap length g₀))
  ends is (one_failed {s'} text fails) g found clock l₀ g₀ =
      refuses {s' = s'} text found (ap (blamed p) (sym clock) ∙ fails)

continue_with-Initializes :
    (p : Platform) (s : Registry) {o : Outcome (Unit {0})}
    → Registers p.jvm illegal_state_exception_class (cleared s) o
    → Initializes p s (continue_with (launch p) o)
continue_with-Initializes p s
      (registered {s'} h g found eh eg held holds clock set keeps elsewhere locals globals) =
    ends p s' set (launch-Launching p s' (set "classid" refl)) g found clock locals globals
continue_with-Initializes p s (refused {s'} not_found elsewhere left) = no_exception not_found left

blockchain_init_eq :
    (p : Platform) (s : Registry)
    → p.memory ≡ true
    → blockchain_init p s
      ≡ continue_with (launch p) (register p.jvm illegal_state_exception_class (cleared s))
unfolding blockchain_init
blockchain_init_eq p s m = rw m refl

-- Where `malloc` returns memory, and whatever the JVM answers, the initialisation has defined
-- behaviour and ends in one of three ways. If the JVM finds everything that the registrations look
-- up and the options can be initialized, it returns the instance, marked as initialized, in which
-- no variable that the struct of the instance declares for a class is NULL, and it leaves 33 global
-- references and no local one. If the class IllegalStateException can not be registered, it frees
-- the instance and returns 0, and throws nothing. Otherwise it returns 0 and throws an
-- IllegalStateException, through the class that it has registered, with the text of the first
-- initialisation that failed, and does not free the instance.
pub blockchain_init-Initializes :
    (p : Platform) → p.memory ≡ true → (s : Registry) → Initializes p s (blockchain_init p s)
blockchain_init-Initializes p m s = subst (Initializes p s) (sym (blockchain_init_eq p s m)) (
    continue_with-Initializes p s
      (register-Registers p.jvm illegal_state_exception_class refl (cleared s)))
