-- ===== src/Examples/Init.antt =====
-- Runs of the registration of classes and of the initialisation.
use v_j_bc.Base.{str_eq, ◌≡◌, refl, true, if◌then◌else◌, Option, none, some, []}
use v_j_bc.Jni.{Thrown, illegal_state}
use v_j_bc.Classes.{
  Jvm, Registry, find_class, register, find, make_global, delete_local_ref, look_up_all, look_up,
}
use v_j_bc.Classes.Maps.{hash_map_class}
use v_j_bc.Classes.Registered.{Registers, register-Registers}
use v_j_bc.Init.{
  Platform, Finish, finished, undefined_behaviour, blockchain_init, launch, init_or_fail,
  init_options, register_all, fail,
}
use v_j_bc.Init.Complete.{Initializes, blockchain_init-Initializes}

-- A JVM that has no HashMap.
abbrev without_map : Jvm
without_map n (find_class name) = if str_eq name "java/util/HashMap" then none else some n
without_map n _ = some n

abbrev platform : Jvm → Platform
platform jvm = record { jvm = jvm; memory = true; suite_options = true; builder_options = true }

abbrev start : Registry
start = record { clock = 0; globals = λ _ _. none; local_refs = []; global_refs = [] }

abbrev thrown_by : Finish → Option Thrown
thrown_by (finished r) = r.thrown
thrown_by undefined_behaviour = none

-- What is thrown where there is no HashMap.
names_map :
    thrown_by (blockchain_init (platform without_map) start)
    ≡ some (record { class = illegal_state; message = "HashMap not initialized." })
unfolding blockchain_init register find make_global delete_local_ref look_up_all look_up launch
    init_or_fail init_options register_all fail
names_map = refl

register-Registers_example :
    Registers without_map hash_map_class start (register without_map hash_map_class start)
register-Registers_example = register-Registers without_map hash_map_class refl start

blockchain_init-Initializes_example :
    Initializes (platform without_map) start (blockchain_init (platform without_map) start)
blockchain_init-Initializes_example = blockchain_init-Initializes (platform without_map) refl start
