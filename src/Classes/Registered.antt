-- ===== src/Classes/Registered.antt =====
-- What a registration does, in every case.
use v_j_bc.Base.{
  ◌+◌, String, str_eq, ◌≡◌, refl, ap, ◌∙◌, inl, inr, true, false, Bool-cases, none, some, ◌∷◌,
  length, arith,
}
use v_j_bc.Classes.{
  Handle, Jvm, Globals, Registry, JavaClass, Outcome, next, returned, find_class, new_global_ref,
  assign, find, make_global, look_up_all, delete_local_ref, register, without, ◌>>=◌,
}
use v_j_bc.Classes.Found.{
  is_some, members_found, owned_found, found_from, class_found, assigned, contains, distinct,
  fields, Holds, Keeps, Elsewhere,
}
use v_j_bc.Classes.LookedUp.{
  Option-cases, assign-Keeps, assign-Elsewhere, assign-set, assign-same, Others, LookedUp, found,
  missing, look_up_all-LookedUp,
}

-- What is left of a registration of `c` that begins in `s` and returns 1, by the call that failed.
pub data Left (jvm : Jvm) (c : JavaClass) (s s' : Registry) : Type 0 where
  no_class :
      jvm s.clock (find_class c.class_name) ≡ none
      → s'.globals ≡ s.globals
      → s'.local_refs ≡ s.local_refs
      → s'.global_refs ≡ s.global_refs
      → Left jvm c s s'
  no_global :
      (h : Handle)
      → jvm s.clock (find_class c.class_name) ≡ some h
      → jvm (s.clock + 1) (new_global_ref h) ≡ none
      → s'.globals c.struct "classid" ≡ none
      → s'.local_refs ≡ h ∷ s.local_refs
      → s'.global_refs ≡ s.global_refs
      → Left jvm c s s'
  no_member :
      (h g : Handle)
      → jvm s.clock (find_class c.class_name) ≡ some h
      → jvm (s.clock + 1) (new_global_ref h) ≡ some g
      → members_found jvm (s.clock + 1 + 1) g c.members ≡ false
      → s'.globals c.struct "classid" ≡ some g
      → s'.local_refs ≡ s.local_refs
      → s'.global_refs ≡ g ∷ s.global_refs
      → Left jvm c s s'

-- How a registration of `c` ends that begins in `s`.
pub data Registers (jvm : Jvm) (c : JavaClass) (s : Registry) : Outcome (Unit {0}) → Type 0 where
  registered :
      {s' : Registry} (h g : Handle)
      → class_found jvm s.clock c ≡ true
      → jvm s.clock (find_class c.class_name) ≡ some h
      → jvm (s.clock + 1) (new_global_ref h) ≡ some g
      → s'.globals c.struct "classid" ≡ some g
      → Holds jvm s'.globals c.struct g (s.clock + 1 + 1) c.members
      → s'.clock ≡ s.clock + (2 + length c.members)
      → ((f : String) → contains f (assigned c) ≡ true → is_some (s'.globals c.struct f) ≡ true)
      → Keeps s.globals s'.globals
      → Elsewhere c.struct s.globals s'.globals
      → s'.local_refs ≡ s.local_refs
      → s'.global_refs ≡ g ∷ s.global_refs
      → Registers jvm c s (next tt s')
  refused :
      {s' : Registry}
      → class_found jvm s.clock c ≡ false
      → Elsewhere c.struct s.globals s'.globals
      → Left jvm c s s'
      → Registers jvm c s (returned 1 s')

module _ (jvm : Jvm) (c : JavaClass) (one_name_each : distinct (assigned c) ≡ true)
    (s : Registry) where
  module _ (h g : Handle) (eh : jvm s.clock (find_class c.class_name) ≡ some h)
      (eg : jvm (s.clock + 1) (new_global_ref h) ≡ some g) where
    -- The state behind the deletion of the local reference.
    abbrev owned : Registry
    owned = record s {
      clock = s.clock + 1 + 1;
      globals = assign c.struct "classid" (some g) s.globals;
      global_refs = g ∷ s.global_refs;
    }

    found_eq : class_found jvm s.clock c ≡ members_found jvm (s.clock + 1 + 1) g c.members
    found_eq =
        ap (found_from jvm (s.clock + 1) c.members) eh
        ∙ ap (owned_found jvm (s.clock + 1 + 1) c.members) eg

    -- The look-up of the members leaves the reference to the class where it is.
    classid_held :
        (g' : Globals)
        → Others c.struct (fields c.members) owned.globals g'
        → g' c.struct "classid" ≡ some g
    classid_held g' others =
        others "classid" (ground (arith, one_name_each))
        ∙ assign-same c.struct "classid" (some g) s.globals

    own : {o : Outcome (Unit {0})} → LookedUp jvm c.struct g c.members owned o → Registers jvm c s o
    own (found {s'} all clock set holds others keeps elsewhere locals globals) =
        registered {s' = s'} h g (found_eq ∙ all) eh eg (classid_held s'.globals others)
          (holds (ground (arith, one_name_each))) (omega (arith, clock))
          (λ f i. elim (Bool-cases (str_eq f "classid")) [
            | inl p ↦ keeps c.struct f (assign-set c.struct "classid" f g s.globals p)
            | inr p ↦ set f (ground (arith, i, p))
          ])
          (λ t f i. keeps t f (assign-Keeps c.struct "classid" g s.globals t f i))
          (λ t f i. elsewhere t f i ∙ assign-Elsewhere c.struct "classid" (some g) s.globals t f i)
          locals globals
    own (missing {s'} some_missing others elsewhere locals globals) =
        refused {s' = s'} (found_eq ∙ some_missing)
          (λ t f i. elsewhere t f i ∙ assign-Elsewhere c.struct "classid" (some g) s.globals t f i)
          (no_member h g eh eg some_missing (classid_held s'.globals others) locals globals)

  -- The state behind `FindClass`.
  abbrev seen : Handle → Registry
  seen h = record s { clock = s.clock + 1; local_refs = h ∷ s.local_refs }

  find-none :
      jvm s.clock (find_class c.class_name) ≡ none
      → find jvm c.class_name s ≡ returned 1 (record s { clock = s.clock + 1 })
  unfolding find
  find-none e = rw (e, find) refl

  find-some :
      (h : Handle)
      → jvm s.clock (find_class c.class_name) ≡ some h
      → find jvm c.class_name s
        ≡ next h (record s { clock = s.clock + 1; local_refs = h ∷ s.local_refs })
  unfolding find
  find-some h e = rw (e, find) refl

  make_global-none :
      (h : Handle) (t : Registry)
      → jvm t.clock (new_global_ref h) ≡ none
      → make_global jvm c.struct h t
        ≡ returned 1
            (record t { clock = t.clock + 1; globals = assign c.struct "classid" none t.globals })
  unfolding make_global
  make_global-none h t e = rw (e, make_global) refl

  make_global-some :
      (h g : Handle) (t : Registry)
      → jvm t.clock (new_global_ref h) ≡ some g
      → make_global jvm c.struct h t
        ≡ next g (record t {
          clock = t.clock + 1;
          globals = assign c.struct "classid" (some g) t.globals;
          global_refs = g ∷ t.global_refs;
        })
  unfolding make_global
  make_global-some h g t e = rw (e, make_global) refl

  without_self : (h : Handle) → without h (h ∷ s.local_refs) ≡ s.local_refs
  without_self h = ground arith

  owns :
      (h : Handle)
      → jvm s.clock (find_class c.class_name) ≡ some h
      → Registers jvm c s (
          (make_global jvm c.struct h >>= λ g.
          delete_local_ref h >>= λ _. look_up_all jvm c.struct g c.members)
            (record s { clock = s.clock + 1; local_refs = h ∷ s.local_refs }))
  unfolding ◌>>=◌ delete_local_ref
  owns h eh = elim (Option-cases (jvm (s.clock + 1) (new_global_ref h))) [
    | inl e ↦ rw (make_global-none h (seen h) e) (
        refused
          (ap (found_from jvm (s.clock + 1) c.members) eh
            ∙ ap (owned_found jvm (s.clock + 1 + 1) c.members) e)
          (assign-Elsewhere c.struct "classid" none s.globals)
          (no_global h eh e (assign-same c.struct "classid" none s.globals) refl refl))
    | inr (g, e) ↦
        rw (make_global-some h g (seen h) e, without_self h)
          (own h g eh e (look_up_all-LookedUp jvm c.struct g c.members _))
  ]

  -- Whatever the JVM answers, for a class whose variables have different names, a registration that
  -- begins in any state goes on just where the JVM finds the class, makes it a global reference and
  -- finds all members. Then `classid` holds the global reference, the variable of each member holds
  -- what the JVM answered when it was looked up in that class, none of them is NULL, the registration
  -- has made two calls and one for each member, and it leaves the global reference and no local one.
  -- Otherwise it returns 1: if the class is not found, nothing has changed; if it can not be made
  -- global, `classid` is NULL and the local reference is left; and if a member is missing, `classid`
  -- holds the global reference, which is left. In every case the variables of the other classes are
  -- as before.
  pub register-Registers : Registers jvm c s (register jvm c s)
  unfolding register ◌>>=◌
  register-Registers = elim (Option-cases (jvm s.clock (find_class c.class_name))) [
    | inl e ↦ rw (find-none e) (
        refused (ap (found_from jvm (s.clock + 1) c.members) e) (λ t f i. refl)
          (no_class e refl refl refl))
    | inr (h, e) ↦ rw (find-some h e) (owns h e)
  ]
