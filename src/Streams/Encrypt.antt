-- ===== src/Streams/Encrypt.antt =====
-- crypt/GenericStreamCipher_encryptNative.c, cert/EncryptedCertificateBuilder_encryptData.c and
-- document/EncryptedDocumentBuilder_encryptData.c.
pub mod Phases
pub mod Bodies
pub mod Complete
use v_j_bc.Base.{ℕ, ◌+◌, ◌==◌, Bool, if◌then◌else◌, Option, none, some, Bytes, length, leb, take}
use v_j_bc.Jni.{
  illegal_state, null_pointer, World, Body, ◌>>=◌, ◌>>◌, pure, attempt, guard, in_bounds, non_null,
  set_retval, verify_initialized, Finish, run,
}
use v_j_bc.Suite.{Suite}
use v_j_bc.Streams.{
  Label, stream_cipher_dispose, return_null, cleanup, iv_size, open_stream, create_output,
  start_encryption, encrypt_stream, commit,
}

module _ (suite : Suite) where
  open suite use {calls, stream_key_size}

  pub encrypt_generic_body :
      Option Bool → (key iv input : Option Bytes) → Body Label (Option Bytes) Bytes
  unfolding ◌>>=◌ verify_initialized non_null guard open_stream create_output start_encryption
      encrypt_stream commit
  encrypt_generic_body inst key iv input = do
    verify_initialized inst return_null
    key ← non_null key null_pointer "key" return_null
    iv ← non_null iv null_pointer "iv" return_null
    input ← non_null input null_pointer "input" return_null
    guard (length key == stream_key_size) illegal_state "Invalid key size." return_null
    k ← open_stream suite (length key) key
    out ← create_output suite stream_cipher_dispose (iv_size + length input)
    out ← start_encryption suite iv out
    out ← encrypt_stream suite k iv 0 input iv_size out
    commit out

  -- `encryptNative` of `GenericStreamCipher`.
  pub encrypt_generic :
      Option Bool → (key iv input : Option Bytes) → World (Option Bytes) → Finish (Option Bytes)
  unfolding encrypt_generic_body run set_retval ◌>>=◌
  encrypt_generic inst key iv input =
      run cleanup stream_cipher_dispose none
        (encrypt_generic_body inst key iv input >>= λ out. set_retval (some out))

  pub encrypt_certificate_body :
      Option Bool → (key iv input : Option Bytes) → Body Label (Option Bytes) Bytes
  unfolding ◌>>=◌ verify_initialized non_null open_stream create_output start_encryption
      encrypt_stream commit
  encrypt_certificate_body inst key iv input = do
    verify_initialized inst return_null
    key ← non_null key null_pointer "key" return_null
    iv ← non_null iv null_pointer "iv" return_null
    input ← non_null input null_pointer "input" return_null
    k ← open_stream suite 32 key
    out ← create_output suite stream_cipher_dispose (iv_size + length input)
    out ← start_encryption suite iv out
    out ← encrypt_stream suite k iv 0 input iv_size out
    commit out

  -- `encryptData` of `EncryptedCertificateBuilder`.
  pub encrypt_certificate :
      Option Bool → (key iv input : Option Bytes) → World (Option Bytes) → Finish (Option Bytes)
  unfolding encrypt_certificate_body run set_retval ◌>>=◌
  encrypt_certificate inst key iv input =
      run cleanup stream_cipher_dispose none
        (encrypt_certificate_body inst key iv input >>= λ out. set_retval (some out))

  -- `vccrypt_stream_continue_encryption (&stream, ivArrayData, 8, offset)`
  pub continue_encryption : (iv out : Bytes) → Body Label (Option Bytes) Bytes
  unfolding ◌>>=◌ attempt in_bounds
  continue_encryption iv out = do
    in_bounds (leb iv_size (length iv))
    attempt calls (λ _. out) illegal_state "could not continue encryption stream."
        stream_cipher_dispose

  pub encrypt_data_body :
      Option Bool → (key iv input : Option Bytes) → ℕ → Body Label (Option Bytes) Bytes
  unfolding ◌>>=◌ verify_initialized non_null open_stream create_output start_encryption
      continue_encryption encrypt_stream commit
  encrypt_data_body inst key iv input offset = do
    verify_initialized inst return_null
    key ← non_null key null_pointer "key" return_null
    iv ← non_null iv null_pointer "iv" return_null
    input ← non_null input null_pointer "input" return_null
    k ← open_stream suite 32 key
    out ←
        create_output suite stream_cipher_dispose
          ((if offset == 0 then iv_size else 0) + length input)
    out ← (if offset == 0 then start_encryption suite iv out else continue_encryption iv out)
    out ← encrypt_stream suite k iv offset input (if offset == 0 then iv_size else 0) out
    commit out

  -- `encryptData` of `EncryptedDocumentBuilder`.
  pub encrypt_data :
      Option Bool → (key iv input : Option Bytes) → ℕ → World (Option Bytes) → Finish (Option Bytes)
  unfolding encrypt_data_body run set_retval ◌>>=◌
  encrypt_data inst key iv input offset =
      run cleanup stream_cipher_dispose none
        (encrypt_data_body inst key iv input offset >>= λ out. set_retval (some out))
