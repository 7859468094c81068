-- ===== src/Init/Launch.antt =====
-- What the initialisation needs of the JVM, and how the series of the registrations ends.
use v_j_bc.Base.{
  ℕ, ◌+◌, String, str_eq, ◌≡◌, refl, ap, sym, ◌∙◌, Bool, true, false, ◌&&◌, if◌then◌else◌, Option,
  none, some, List, [], ◌∷◌, length, arith,
}
use v_j_bc.Classes.{Jvm, Globals, Registry, JavaClass, Outcome}
use v_j_bc.Classes.Found.{is_some, class_found, assigned, contains, distinct, Keeps}
use v_j_bc.Classes.Registered.{Registers, registered, refused, register-Registers}
use v_j_bc.Init.{
  Registration, Launched, launched, stopped, and_then, finished, refusal, fail, check, init_or_fail,
  register_all,
}

-- The text of the first registration, from the n-th call on, for which the JVM does not find all.
abbrev pub failing : Jvm → ℕ → List Registration → Option String
failing jvm n [] = none
failing jvm n (r ∷ rs) =
    if class_found jvm n r.class
    then failing jvm (n + (2 + length r.class.members)) rs
    else some r.text

-- All variables of a class that its registration assigns are set.
abbrev pub IsRegistered : Globals → JavaClass → Type 0
IsRegistered g c = (f : String) → contains f (assigned c) ≡ true → is_some (g c.struct f) ≡ true

pub data AreRegistered (g : Globals) : List Registration → Type 0 where
  no_more : AreRegistered g []
  and_more :
      (r : Registration) (rs : List Registration)
      → IsRegistered g r.class
      → AreRegistered g rs
      → AreRegistered g (r ∷ rs)

-- The exceptions of the initialisation can be thrown.
abbrev pub CanThrow : Globals → Type 0
CanThrow g = is_some (g "IllegalStateException" "classid") ≡ true

-- None of the registrations is that of IllegalStateException.
abbrev pub apart : List Registration → Bool
apart [] = true
apart (r ∷ rs) = (if str_eq "IllegalStateException" r.class.struct then false else true) && apart rs

-- The variables of each class have different names.
abbrev pub all_distinct : List Registration → Bool
all_distinct [] = true
all_distinct (r ∷ rs) = distinct (assigned r.class) && all_distinct rs

pub fail-CanThrow :
    (text : String) (s : Registry) → CanThrow s.globals → fail text s ≡ finished (refusal text s)
unfolding fail
fail-CanThrow text s h = ground (arith, h)

-- How the registrations end that begin in `s`.
pub data Launches (jvm : Jvm) (rs : List Registration) (s : Registry) : Launched → Type 0 where
  launches :
      {s' : Registry}
      → failing jvm s.clock rs ≡ none
      → AreRegistered s'.globals rs
      → Keeps s.globals s'.globals
      → s'.local_refs ≡ s.local_refs
      → length s'.global_refs ≡ length rs + length s.global_refs
      → Launches jvm rs s (launched s')
  stops :
      {s' : Registry} (text : String)
      → failing jvm s.clock rs ≡ some text
      → Launches jvm rs s (stopped (finished (refusal text s')))

module _ (jvm : Jvm) (r : Registration) (rs : List Registration) (s : Registry) where
  extend :
      {s' : Registry} {o : Launched} (g : ℕ)
      → class_found jvm s.clock r.class ≡ true
      → s'.clock ≡ s.clock + (2 + length r.class.members)
      → IsRegistered s'.globals r.class
      → Keeps s.globals s'.globals
      → s'.local_refs ≡ s.local_refs
      → s'.global_refs ≡ g ∷ s.global_refs
      → Launches jvm rs s' o
      → Launches jvm (r ∷ rs) s o
  extend g found clock set keeps locals globals
        (launches {s'} none_fails are keeps' locals' globals') =
      launches {s' = s'} (rw found (ap (λ n. failing jvm n rs) (sym clock) ∙ none_fails))
        (and_more r rs (λ f i. keeps' _ f (set f i)) are) (λ t f i. keeps' t f (keeps t f i))
        (locals' ∙ locals) (omega (arith, globals', ap length globals))
  extend g found clock set keeps locals globals (stops {s'} text fails) =
      stops {s' = s'} text (rw found (ap (λ n. failing jvm n rs) (sym clock) ∙ fails))

launch_one :
    (jvm : Jvm) (r : Registration) (rs : List Registration) (s : Registry) {o : Outcome (Unit {0})}
    → apart (r ∷ rs) ≡ true
    → CanThrow s.globals
    → ((t : Registry) → CanThrow t.globals → Launches jvm rs t (register_all jvm rs t))
    → Registers jvm r.class s o
    → Launches jvm (r ∷ rs) s (and_then (check r.text o) (register_all jvm rs))
launch_one jvm r rs s a can rest
      (registered {s'} h g found eh eg held holds clock set keeps elsewhere locals globals) =
    extend jvm r rs s g found clock set keeps locals globals (rest s' (keeps _ _ can))
launch_one jvm r rs s a can rest (refused {s'} not_found elsewhere left) =
    rw (fail-CanThrow r.text s' (ap is_some (elsewhere _ _ (ground (arith, a))) ∙ can))
      (stops r.text (rw not_found refl))

pub register_all-Launches :
    (jvm : Jvm) (rs : List Registration) (s : Registry)
    → apart rs ≡ true
    → all_distinct rs ≡ true
    → CanThrow s.globals
    → Launches jvm rs s (register_all jvm rs s)
unfolding register_all init_or_fail
register_all-Launches jvm [] s a d can = launches refl no_more (λ t f i. i) refl (omega arith)
register_all-Launches jvm (r ∷ rs) s a d can =
    launch_one jvm r rs s a can
      (λ t c. register_all-Launches jvm rs t (ground (arith, a)) (ground (arith, d)) c)
      (register-Registers jvm r.class (ground (arith, d)) s)
