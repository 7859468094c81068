-- ===== src/Keys.antt =====
-- crypt/Key_createRandomNative.c, crypt/Key_createFromPasswordNative.c and
-- crypt/Key_verifyKeySizeNative.c.
pub mod Password
pub mod Complete
use v_j_bc.Base.{
  ℕ, ◌==◌, Bool, true, if◌then◌else◌, Option, none, some, List, [], ◌∷◌, Bytes, drop, length,
  new_array, write_at,
}
use v_j_bc.Jni.{
  illegal_state, null_pointer, invalid_key_size, Resource, key_buffer, prng_context, output_array,
  output_array_data, World, Body, ◌>>=◌, ◌>>◌, pure, attempt, acquire, test, guard, deref, release,
  set_retval, verify_initialized, Finish, run,
}
use v_j_bc.Suite.{Suite}

pub data Label : Type 0 where
  output_array_dispose prng_dispose buffer_dispose return_null : Label

abbrev pub label_line : Label → ℕ
label_line output_array_dispose = 0
label_line prng_dispose = 1
label_line buffer_dispose = 2
label_line return_null = 3

-- A jump runs the cleanup statements from its label to the end; `return NULL` runs none.
abbrev pub cleanup : Label → List Resource
cleanup l = drop (label_line l) (output_array ∷ prng_context ∷ key_buffer ∷ [])

module _ (suite : Suite) where
  open suite use {calls, makes, random, stream_key_size}

  pub draw_bytes : Body Label (Option Bytes) Bytes
  unfolding acquire attempt
  draw_bytes = do
    acquire calls key_buffer (λ _. tt) illegal_state "could not initialize a crypto buffer."
        return_null
    acquire calls prng_context (λ _. tt) illegal_state "prng instance creation failure."
        buffer_dispose
    attempt calls (λ n. random n stream_key_size) illegal_state "prng read failure." prng_dispose

  -- The key object, known by its bytes. What `NewObject` returns is returned with no test.
  pub make_key : Bytes → Body Label (Option Bytes) (Option Bytes)
  unfolding acquire release test pure
  make_key bytes = do
    acquire calls output_array (λ _. tt) null_pointer "outputArray creation failure." prng_dispose
    acquire calls output_array_data (λ _. tt) null_pointer "outputArray data read failure."
        output_array_dispose
    release output_array_data
    made ← test makes true
    pure (if made then some (write_at 0 bytes (new_array (length bytes))) else none)

  pub create_random_body : Option Bool → Body Label (Option Bytes) (Option Bytes)
  unfolding verify_initialized draw_bytes make_key
  create_random_body inst = do
    verify_initialized inst return_null
    bytes ← draw_bytes
    make_key bytes

  -- `createRandomNative`
  pub create_random : Option Bool → World (Option Bytes) → Finish (Option Bytes)
  unfolding create_random_body run set_retval
  create_random inst =
      run cleanup output_array_dispose none (create_random_body inst >>= λ r. set_retval r)

  -- `verifyKeySizeNative`, on the array in the field `key` of the object. The two ways out of the
  -- method clean up nothing.
  pub verify_key_size_body : Option Bool → Option Bytes → Body (Unit {0}) (Unit {0}) (Unit {0})
  unfolding verify_initialized deref guard
  verify_key_size_body inst key = do
    verify_initialized inst tt
    key ← deref key
    guard (length key == stream_key_size) invalid_key_size "Invalid Key Size." tt

  pub verify_key_size : Option Bool → Option Bytes → World (Unit {0}) → Finish (Unit {0})
  unfolding verify_key_size_body run
  verify_key_size inst key = run (λ _. []) tt tt (verify_key_size_body inst key)
