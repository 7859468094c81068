-- ===== src/Init/Covers.antt =====
-- The registrations set every variable that the native instance declares.
use v_j_bc.Base.{
  String, str_eq, str_eq_iff, ◌≡◌, refl, inl, inr, Bool, true, false, ◌&&◌, ◌||◌, Bool-cases, List,
  [], ◌∷◌, arith,
}
use v_j_bc.Classes.{Globals}
use v_j_bc.Classes.Lang.{illegal_state_exception_class}
use v_j_bc.Classes.Found.{is_some, assigned, contains, included, all_set}
use v_j_bc.Init.{Registration, registration, registrations}
use v_j_bc.Init.Launch.{AreRegistered, and_more, apart, all_distinct}
use v_j_bc.Init.Layout.{Declared, native_instance}

-- A registration assigns all the variables that the instance declares for its class.
abbrev pub covered : Declared → List Registration → Bool
covered d [] = false
covered d (r ∷ rs) =
    (str_eq d.struct r.class.struct && included d.vars (assigned r.class)) || covered d rs

abbrev pub all_covered : List Declared → List Registration → Bool
all_covered [] rs = true
all_covered (d ∷ ds) rs = covered d rs && all_covered ds rs

-- None of the declared variables is NULL.
abbrev pub all_declared_set : Globals → List Declared → Bool
all_declared_set g [] = true
all_declared_set g (d ∷ ds) = all_set g d.struct d.vars && all_declared_set g ds

included-all_set :
    (g : Globals) (struct : String) (xs ys : List String)
    → ((f : String) → contains f ys ≡ true → is_some (g struct f) ≡ true)
    → included xs ys ≡ true
    → all_set g struct xs ≡ true
included-all_set g struct [] ys set i = refl
included-all_set g struct (x ∷ xs) ys set i =
    ground (arith, i, set x, included-all_set g struct xs ys set)

covered-all_set :
    (g : Globals) (d : Declared) (rs : List Registration)
    → AreRegistered g rs
    → covered d rs ≡ true
    → all_set g d.struct d.vars ≡ true
covered-all_set g d [] are c = absurd (ground (arith, c))
covered-all_set g d (r ∷ rs) (and_more _ _ is are) c =
    elim (Bool-cases (str_eq d.struct r.class.struct && included d.vars (assigned r.class))) [
      | inl p ↦
          rw ((str_eq_iff d.struct r.class.struct).0 (ground (arith, p)))
            (included-all_set g r.class.struct d.vars (assigned r.class) is (ground (arith, p)))
      | inr p ↦ covered-all_set g d rs are (ground (arith, c, p))
    ]

pub all_covered-all_declared_set :
    (g : Globals) (ds : List Declared) (rs : List Registration)
    → AreRegistered g rs
    → all_covered ds rs ≡ true
    → all_declared_set g ds ≡ true
all_covered-all_declared_set g [] rs are c = refl
all_covered-all_declared_set g (d ∷ ds) rs are c =
    ground (arith, c, covered-all_set g d rs are, all_covered-all_declared_set g ds rs are)

-- The registration of the exception that the initialisation throws, and all others.
abbrev pub all_registrations : List Registration
all_registrations = registration "" illegal_state_exception_class ∷ registrations

pub native_instance-all_covered : all_covered native_instance all_registrations ≡ true
native_instance-all_covered = refl

pub registrations_distinct : all_distinct registrations ≡ true
registrations_distinct = refl

pub registrations-apart : apart registrations ≡ true
registrations-apart = refl
