-- ===== src/Classes/Found.antt =====
-- What a registration needs of the JVM, and what it leaves in the native instance.
use v_j_bc.Base.{
  ℕ, ◌+◌, String, str_eq, ◌≡◌, Bool, true, false, ◌&&◌, ◌||◌, if◌then◌else◌, Option, none, some,
  List, [], ◌∷◌,
}
use v_j_bc.Classes.{Handle, Jvm, Globals, Member, JavaClass, find_class, new_global_ref, lookup}

abbrev pub is_some : {A : Type 0} → Option A → Bool
is_some none = false
is_some (some a) = true

-- The JVM finds all members, the first with the n-th call.
abbrev pub members_found : Jvm → ℕ → Handle → List Member → Bool
members_found jvm n class_id [] = true
members_found jvm n class_id (m ∷ ms) =
    is_some (jvm n (lookup class_id m)) && members_found jvm (n + 1) class_id ms

-- The answer to `NewGlobalRef` is not NULL, and the JVM finds all members behind it.
abbrev pub owned_found : Jvm → ℕ → List Member → Option Handle → Bool
owned_found jvm n ms none = false
owned_found jvm n ms (some class_id) = members_found jvm n class_id ms

-- The same from the answer to `FindClass` on.
abbrev pub found_from : Jvm → ℕ → List Member → Option Handle → Bool
found_from jvm n ms none = false
found_from jvm n ms (some h) = owned_found jvm (n + 1) ms (jvm n (new_global_ref h))

-- The JVM finds a class and all its members, from the n-th call on.
abbrev pub class_found : Jvm → ℕ → JavaClass → Bool
class_found jvm n c = found_from jvm (n + 1) c.members (jvm n (find_class c.class_name))

-- The variables that a registration assigns.
abbrev pub fields : List Member → List String
fields [] = []
fields (m ∷ ms) = m.field ∷ fields ms

abbrev pub assigned : JavaClass → List String
assigned c = "classid" ∷ fields c.members

abbrev pub contains : String → List String → Bool
contains f [] = false
contains f (x ∷ xs) = str_eq f x || contains f xs

-- No two variables have one name.
abbrev pub distinct : List String → Bool
distinct [] = true
distinct (x ∷ xs) = (if contains x xs then false else true) && distinct xs

-- The variable of each member holds what the JVM answered when it was looked up, the first with the
-- n-th call.
abbrev pub Holds : Jvm → Globals → String → Handle → ℕ → List Member → Type 0
Holds jvm g struct class_id n [] = Unit {0}
Holds jvm g struct class_id n (m ∷ ms) =
    (g struct m.field ≡ jvm n (lookup class_id m)) × Holds jvm g struct class_id (n + 1) ms

abbrev pub included : List String → List String → Bool
included [] ys = true
included (x ∷ xs) ys = contains x ys && included xs ys

-- `MODEL_PROP_GLOBALS_SET`: none of the variables is NULL.
abbrev pub all_set : Globals → String → List String → Bool
all_set g struct [] = true
all_set g struct (f ∷ fs) = is_some (g struct f) && all_set g struct fs

-- What is not NULL stays so.
abbrev pub Keeps : Globals → Globals → Type 0
Keeps g g' = (s f : String) → is_some (g s f) ≡ true → is_some (g' s f) ≡ true

-- The variables of the other classes stay as they are.
abbrev pub Elsewhere : String → Globals → Globals → Type 0
Elsewhere struct g g' = (s f : String) → str_eq s struct ≡ false → g' s f ≡ g s f
