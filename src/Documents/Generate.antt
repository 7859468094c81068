-- ===== src/Documents/Generate.antt =====
-- document/EncryptedDocumentBuilder_generateEncryptionKey.c
pub mod Complete
use v_j_bc.Base.{
  ℕ, Bool, Option, none, some, List, [], ◌∷◌, Bytes, length, leb, take, drop, ◌&&◌, new_array,
}
use v_j_bc.Jni.{
  illegal_state, null_pointer, Resource, key_buffer, prng_context, key_array_data, World, Body,
  ◌>>=◌, ◌>>◌, pure, attempt, acquire, in_bounds, release, set_retval, verify_initialized, Finish,
  run,
}
use v_j_bc.Suite.{Suite}

pub data Label : Type 0 where
  dispose_prng dispose_random_key return_null : Label

abbrev pub label_line : Label → ℕ
label_line dispose_prng = 0
label_line dispose_random_key = 1
label_line return_null = 2

-- A jump runs the cleanup statements from its label to the end; `return NULL` runs none.
abbrev pub cleanup : Label → List Resource
cleanup l = drop (label_line l) (prng_context ∷ key_buffer ∷ [])

module _ (suite : Suite) where
  open suite use {calls, random}

  -- A random key in its buffer.
  pub draw_key : Body Label (Option Bytes) Bytes
  draw_key = do
    acquire calls key_buffer (λ _. tt) illegal_state "bad vccrypt buffer." return_null
    acquire calls prng_context (λ _. tt) illegal_state "bad vccrypt prng." dispose_random_key
    attempt calls (λ n. random n 32) illegal_state "bad vccrypt prng read." dispose_prng

  -- The byte array with the key.
  pub return_key : Bytes → Body Label (Option Bytes) Bytes
  return_key random_key = do
    attempt calls (λ _. tt) null_pointer "bad keyArray alloc." dispose_prng
    acquire calls key_array_data (λ _. tt) null_pointer "keyArray data could not be dereferenced."
        dispose_prng
    in_bounds (leb 32 (length random_key))
    release key_array_data
    pure (take 32 random_key)

  pub generate_key_body : Option Bool → Body Label (Option Bytes) Bytes
  unfolding draw_key return_key
  generate_key_body inst = do
    verify_initialized inst return_null
    random_key ← draw_key
    return_key random_key

  -- `generateEncryptionKey` of `EncryptedDocumentBuilder`.
  pub generate_key : Option Bool → World (Option Bytes) → Finish (Option Bytes)
  unfolding generate_key_body run
  generate_key inst =
      run cleanup dispose_prng none (generate_key_body inst >>= λ key. set_retval (some key))
