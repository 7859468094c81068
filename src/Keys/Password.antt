-- ===== src/Keys/Password.antt =====
-- crypt/Key_createFromPasswordNative.c
pub mod Complete
use v_j_bc.Base.{
  ℕ, Bool, Option, none, some, List, [], ◌∷◌, Bytes, drop, length, new_array, write_at,
}
use v_j_bc.Jni.{
  illegal_state, null_pointer, Resource, derivation_options, derivation_context, password_array,
  password_buffer, salt_array, salt_buffer, key_buffer, output_array_data, World, Body, ◌>>=◌, ◌>>◌,
  pure, attempt, acquire, deref, release, set_retval, verify_initialized, Finish, run,
}
use v_j_bc.Suite.{Suite}

pub data Label : Type 0 where
  key_buffer_dispose salt_buffer_dispose salt_dispose password_buffer_dispose : Label
  password_dispose kd_dispose kd_options_dispose return_null : Label

abbrev pub label_line : Label → ℕ
label_line key_buffer_dispose = 0
label_line salt_buffer_dispose = 1
label_line salt_dispose = 2
label_line password_buffer_dispose = 3
label_line password_dispose = 4
label_line kd_dispose = 5
label_line kd_options_dispose = 6
label_line return_null = 7

-- A jump runs the cleanup statements from its label to the end; `return NULL` runs none.
abbrev pub cleanup : Label → List Resource
cleanup l = drop (label_line l) (
    key_buffer ∷ salt_buffer ∷ salt_array ∷ password_buffer ∷ password_array ∷ derivation_context
    ∷ derivation_options ∷ [])

module _ (suite : Suite) where
  open suite use {calls, derive_key}

  pub open_derivation : Body Label (Option Bytes) (Unit {0})
  unfolding acquire
  open_derivation = do
    acquire calls derivation_options (λ _. tt) illegal_state
        "key derivation options initialization failure." return_null
    acquire calls derivation_context (λ _. tt) illegal_state
        "key derivation instance initialization failure." kd_options_dispose

  -- Copies of password and salt, which are used with no test for null.
  pub read_password : Option Bytes → Body Label (Option Bytes) Bytes
  unfolding deref acquire pure
  read_password password = do
    bytes ← deref password
    acquire calls password_array (λ _. tt) null_pointer "password read failure." kd_dispose
    acquire calls password_buffer (λ _. tt) illegal_state
        "could not initialize password crypto buffer." password_dispose
    pure bytes

  pub read_salt : Option Bytes → Body Label (Option Bytes) Bytes
  unfolding deref acquire pure
  read_salt salt = do
    bytes ← deref salt
    acquire calls salt_array (λ _. tt) null_pointer "salt data read failure."
        password_buffer_dispose
    acquire calls salt_buffer (λ _. tt) illegal_state "could not initialize salt crypto buffer."
        salt_dispose
    pure bytes

  pub derive :
      (sha512 : Bool) (password salt : Bytes) (iterations : ℕ) → Body Label (Option Bytes) Bytes
  unfolding acquire attempt release pure
  derive sha512 password salt iterations = do
    acquire calls key_buffer (λ _. tt) illegal_state "could not initialize key crypto buffer."
        salt_buffer_dispose
    key ←
        attempt calls (λ _. derive_key sha512 password salt iterations) illegal_state
          "key derivation failure." key_buffer_dispose
    attempt calls (λ _. tt) null_pointer "outputArray creation failure." key_buffer_dispose
    acquire calls output_array_data (λ _. tt) null_pointer "outputArray data read failure."
        key_buffer_dispose
    release output_array_data
    pure (write_at 0 key (new_array (length key)))

  pub create_from_password_body :
      Option Bool
      → (password salt : Option Bytes) (iterations : ℕ) (sha512 : Bool)
      → Body Label (Option Bytes) Bytes
  unfolding verify_initialized open_derivation read_password read_salt derive
  create_from_password_body inst password salt iterations sha512 = do
    verify_initialized inst return_null
    open_derivation
    p ← read_password password
    s ← read_salt salt
    derive sha512 p s iterations

  -- `createFromPasswordNative`
  pub create_from_password :
      Option Bool
      → (password salt : Option Bytes) (iterations : ℕ) (sha512 : Bool) → World (Option Bytes)
      → Finish (Option Bytes)
  unfolding create_from_password_body run set_retval
  create_from_password inst password salt iterations sha512 = run cleanup key_buffer_dispose none (
      create_from_password_body inst password salt iterations sha512 >>= λ key.
      set_retval (some key))
