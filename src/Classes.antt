-- ===== src/Classes.antt =====
-- The registration of Java classes: what the `_register` functions of the native directory do with the JVM and
-- with the native instance.
pub mod Lang
pub mod Util
pub mod Cert
pub mod Crypt
pub mod Keys
pub mod Lists
pub mod Maps
pub mod Found
pub mod LookedUp
pub mod Registered
use v_j_bc.Base.{
  ℕ, ◌+◌, String, str_eq, ◌==◌, Bool, true, false, ◌&&◌, if◌then◌else◌, Option, none, some, List,
  [], ◌∷◌,
}

-- A handle that the JVM gives out: a reference to a class, a method or a field identifier.
abbrev pub Handle : Type 0
Handle = ℕ

-- The calls of the JVM that may return NULL.
pub data Request : Type 0 where
  find_class : String → Request
  new_global_ref : Handle → Request
  get_method_id get_static_method_id : Handle → String → String → Request
  get_field_id get_static_field_id : Handle → String → String → Request

-- What the JVM answers to the n-th call.
abbrev pub Jvm : Type 0
Jvm = ℕ → Request → Option Handle

-- The variables of the native instance, by class and field. NULL is `none`.
abbrev pub Globals : Type 0
Globals = String → String → Option Handle

pub record Registry : Type 0 where
  pub clock : ℕ
  pub globals : Globals
  pub local_refs : List Handle
  pub global_refs : List Handle

-- A statement of a registration goes on, or returns an exit code.
pub data Outcome (A : Type 0) : Type 0 where
  next : A → Registry → Outcome A
  returned : ℕ → Registry → Outcome A

abbrev pub Statement : Type 0 → Type 0
Statement A = Registry → Outcome A

module _ {A B : Type 0} where
  abbrev pub and_then : Outcome A → (A → Statement B) → Outcome B
  and_then (next a s) k = k a s
  and_then (returned n s) k = returned n s

  infixl 5 ◌>>=◌ ◌>>◌
  unfoldable pub ◌>>=◌ : Statement A → (A → Statement B) → Statement B
  ◌>>=◌ m k s = and_then (m s) k

  abbrev pub ◌>>◌ : Statement A → Statement B → Statement B
  m >> n = m >>= λ _. n

abbrev pub assign : String → String → Option Handle → Globals → Globals
assign struct field v g = λ s f. if str_eq s struct && str_eq f field then v else g s f

-- How a method or field is looked up.
pub data Kind : Type 0 where
  method static_method field static_field : Kind

-- A variable of the instance with the name and the descriptor that it is looked up by.
pub record Member : Type 0 where
  pub field : String
  pub kind : Kind
  pub name : String
  pub descriptor : String

abbrev pub member : String → Kind → String → String → Member
member f k n d = record { field = f; kind = k; name = n; descriptor = d }

-- A class that a function registers.
pub record JavaClass : Type 0 where
  pub struct : String
  pub class_name : String
  pub members : List Member

abbrev pub lookup : Handle → Member → Request
lookup class_id m = elim m.kind [
  | method ↦ get_method_id class_id m.name m.descriptor
  | static_method ↦ get_static_method_id class_id m.name m.descriptor
  | field ↦ get_field_id class_id m.name m.descriptor
  | static_field ↦ get_static_field_id class_id m.name m.descriptor
]

module _ (jvm : Jvm) where
  -- `tempClassID = FindClass (...); if (NULL == tempClassID) return 1;`
  unfoldable pub find : String → Statement Handle
  find name s = elim (jvm s.clock (find_class name)) [
    | none ↦ returned 1 (record s { clock = s.clock + 1 })
    | some h ↦ next h (record s { clock = s.clock + 1; local_refs = h ∷ s.local_refs })
  ]

  -- `inst->struct.classid = NewGlobalRef (...); if (NULL == inst->struct.classid) return 1;`
  unfoldable pub make_global : String → Handle → Statement Handle
  make_global struct h s = elim (jvm s.clock (new_global_ref h)) [
    | none ↦
        returned 1
          (record s { clock = s.clock + 1; globals = assign struct "classid" none s.globals })
    | some g ↦ next g (record s {
      clock = s.clock + 1;
      globals = assign struct "classid" (some g) s.globals;
      global_refs = g ∷ s.global_refs;
    })
  ]

  -- `inst->struct.field = Get...ID (...); if (NULL == inst->struct.field) return 1;`
  unfoldable pub look_up : String → Handle → Member → Statement (Unit {0})
  look_up struct class_id m s = elim (jvm s.clock (lookup class_id m)) [
    | none ↦
        returned 1
          (record s { clock = s.clock + 1; globals = assign struct m.field none s.globals })
    | some h ↦
        next tt
          (record s { clock = s.clock + 1; globals = assign struct m.field (some h) s.globals })
  ]

  unfoldable pub look_up_all : String → Handle → List Member → Statement (Unit {0})
  unfolding ◌>>=◌
  look_up_all struct class_id [] = next tt
  look_up_all struct class_id (m ∷ ms) = do
    look_up struct class_id m
    look_up_all struct class_id ms

abbrev pub without : Handle → List Handle → List Handle
without h [] = []
without h (x ∷ xs) = if x == h then xs else x ∷ without h xs

unfoldable pub delete_local_ref : Handle → Statement (Unit {0})
delete_local_ref h s = next tt (record s { local_refs = without h s.local_refs })

-- The body of a `_register` function, which returns 0 where it goes on.
unfoldable pub register : Jvm → JavaClass → Statement (Unit {0})
unfolding ◌>>=◌
register jvm c = do
  temp_class_id ← find jvm c.class_name
  class_id ← make_global jvm c.struct temp_class_id
  delete_local_ref temp_class_id
  look_up_all jvm c.struct class_id c.members
