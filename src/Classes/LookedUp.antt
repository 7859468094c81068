-- ===== src/Classes/LookedUp.antt =====
-- What the look-up of the members of a class does, in every case.
use v_j_bc.Base.{
  ◌+◌, String, str_eq, str_eq_refl, ◌≡◌, refl, sym, ◌∙◌, ◌⊎◌, inl, inr, true, false, Bool-cases,
  Option, none, some, List, [], ◌∷◌, length, arith,
}
use v_j_bc.Classes.{
  Handle, Jvm, Globals, Registry, Member, Outcome, next, returned, lookup, assign, look_up,
  look_up_all, ◌>>=◌,
}
use v_j_bc.Classes.Found.{
  is_some, members_found, fields, contains, distinct, Holds, Keeps, Elsewhere,
}

pub Option-cases : {A : Type 0} (o : Option A) → (o ≡ none) ⊎ ((a : A) × (o ≡ some a))
Option-cases none = inl refl
Option-cases (some a) = inr (a, refl)

pub assign-Keeps :
    (struct field : String) (h : Handle) (g : Globals) → Keeps g (assign struct field (some h) g)
assign-Keeps struct field h g s f e = ground arith

pub assign-Elsewhere :
    (struct field : String) (v : Option Handle) (g : Globals)
    → Elsewhere struct g (assign struct field v g)
assign-Elsewhere struct field v g s f e = ground arith

pub assign-set :
    (struct field f : String) (h : Handle) (g : Globals)
    → str_eq f field ≡ true
    → is_some (assign struct field (some h) g struct f) ≡ true
assign-set struct field f h g e = ground (arith, str_eq_refl struct)

pub assign-same :
    (struct field : String) (v : Option Handle) (g : Globals)
    → assign struct field v g struct field ≡ v
assign-same struct field v g = ground (arith, str_eq_refl struct, str_eq_refl field)

pub assign-other :
    (struct field f : String) (v : Option Handle) (g : Globals)
    → str_eq f field ≡ false
    → assign struct field v g struct f ≡ g struct f
assign-other struct field f v g e = ground (arith, e)

-- The variables of the class that are none of `fs` stay as they are.
abbrev pub Others : String → List String → Globals → Globals → Type 0
Others struct fs g g' = (f : String) → contains f fs ≡ false → g' struct f ≡ g struct f

assign-Others :
    (struct field : String) (fs : List String) (v : Option Handle) (g : Globals)
    → Others struct (field ∷ fs) g (assign struct field v g)
assign-Others struct field fs v g f c = assign-other struct field f v g (ground (arith, c))

Others-cons :
    (struct field : String) (fs : List String) (v : Option Handle) (g g' : Globals)
    → Others struct fs (assign struct field v g) g'
    → Others struct (field ∷ fs) g g'
Others-cons struct field fs v g g' others f c =
    others f (ground (arith, c)) ∙ assign-Others struct field fs v g f c

-- What the look-up of the members of a class does.
pub data LookedUp (jvm : Jvm) (struct : String) (class_id : Handle) (ms : List Member)
    (s : Registry) : Outcome (Unit {0}) → Type 0 where
  found :
      {s' : Registry}
      → members_found jvm s.clock class_id ms ≡ true
      → s'.clock ≡ s.clock + length ms
      → ((f : String) → contains f (fields ms) ≡ true → is_some (s'.globals struct f) ≡ true)
      → (distinct (fields ms) ≡ true → Holds jvm s'.globals struct class_id s.clock ms)
      → Others struct (fields ms) s.globals s'.globals
      → Keeps s.globals s'.globals
      → Elsewhere struct s.globals s'.globals
      → s'.local_refs ≡ s.local_refs
      → s'.global_refs ≡ s.global_refs
      → LookedUp jvm struct class_id ms s (next tt s')
  missing :
      {s' : Registry}
      → members_found jvm s.clock class_id ms ≡ false
      → Others struct (fields ms) s.globals s'.globals
      → Elsewhere struct s.globals s'.globals
      → s'.local_refs ≡ s.local_refs
      → s'.global_refs ≡ s.global_refs
      → LookedUp jvm struct class_id ms s (returned 1 s')

module _ (jvm : Jvm) (struct : String) (class_id : Handle) where
  extend :
      (m : Member) (ms : List Member) (s : Registry) (h : Handle) {o : Outcome (Unit {0})}
      → jvm s.clock (lookup class_id m) ≡ some h
      → LookedUp jvm struct class_id ms
          (record s { clock = s.clock + 1; globals = assign struct m.field (some h) s.globals })
          o
      → LookedUp jvm struct class_id (m ∷ ms) s o
  extend m ms s h e (found {s'} all clock set holds others keeps elsewhere locals globals) =
      found {s' = s'} (rw e all) (omega (arith, clock))
        (λ f c. elim (Bool-cases (str_eq f m.field)) [
          | inl p ↦ keeps struct f (assign-set struct m.field f h s.globals p)
          | inr p ↦ set f (ground (arith, c, p))
        ])
        (λ d. (
          others m.field (ground (arith, d))
              ∙ assign-same struct m.field (some h) s.globals
              ∙ sym e,
          holds (ground (arith, d)),
        ))
        (Others-cons struct m.field (fields ms) (some h) s.globals s'.globals others)
        (λ t f i. keeps t f (assign-Keeps struct m.field h s.globals t f i))
        (λ t f i. elsewhere t f i ∙ assign-Elsewhere struct m.field (some h) s.globals t f i) locals
        globals
  extend m ms s h e (missing {s'} some_missing others elsewhere locals globals) =
      missing (rw e some_missing)
        (Others-cons struct m.field (fields ms) (some h) s.globals s'.globals others)
        (λ t f i. elsewhere t f i ∙ assign-Elsewhere struct m.field (some h) s.globals t f i) locals
        globals

  look_up-none :
      (m : Member) (s : Registry)
      → jvm s.clock (lookup class_id m) ≡ none
      → look_up jvm struct class_id m s
        ≡ returned 1
            (record s { clock = s.clock + 1; globals = assign struct m.field none s.globals })
  unfolding look_up
  look_up-none m s e = rw (e, look_up) refl

  look_up-some :
      (m : Member) (s : Registry) (h : Handle)
      → jvm s.clock (lookup class_id m) ≡ some h
      → look_up jvm struct class_id m s
        ≡ next tt
            (record s { clock = s.clock + 1; globals = assign struct m.field (some h) s.globals })
  unfolding look_up
  look_up-some m s h e = rw (e, look_up) refl

  pub look_up_all-LookedUp :
      (ms : List Member) (s : Registry)
      → LookedUp jvm struct class_id ms s (look_up_all jvm struct class_id ms s)
  unfolding look_up_all ◌>>=◌
  look_up_all-LookedUp [] s =
      found refl (omega arith) (λ f c. absurd (ground (arith, c))) (λ d. tt) (λ f c. refl)
        (λ t f i. i) (λ t f i. refl) refl refl
  look_up_all-LookedUp (m ∷ ms) s = elim (Option-cases (jvm s.clock (lookup class_id m))) [
    | inl e ↦ rw (look_up-none m s e) (
        missing (rw e refl) (assign-Others struct m.field (fields ms) none s.globals)
          (assign-Elsewhere struct m.field none s.globals) refl refl)
    | inr (h, e) ↦ rw (look_up-some m s h e) (extend m ms s h e (look_up_all-LookedUp ms _))
  ]
