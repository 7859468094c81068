-- ===== src/Signing.antt =====
-- crypt/SigningPrivateKey_signNative.c
pub mod Complete
use v_j_bc.Base.{
  ℕ, Bool, Option, none, some, List, [], ◌∷◌, Bytes, length, leb, ◌==◌, take, drop, new_array,
}
use v_j_bc.Jni.{
  illegal_state, null_pointer, Resource, private_key_array, private_key_array_data,
  private_key_buffer, sign_out_array, sign_out_bytes, signature_buffer, message_bytes,
  message_array, signature_context, World, Body, ◌>>=◌, ◌>>◌, pure, attempt, acquire, guard,
  in_bounds, non_null, set_retval, release, verify_initialized, Finish, run,
}
use v_j_bc.Suite.{Suite}

pub data Label : Type 0 where
  cleanup_sign_out cleanup_signature cleanup_message_bytes cleanup_message_array : Label
  cleanup_sign cleanup_private_key_bytes cleanup_privkey cleanup_private_key return_null : Label

abbrev pub label_line : Label → ℕ
label_line cleanup_sign_out = 0
label_line cleanup_signature = 1
label_line cleanup_message_bytes = 2
label_line cleanup_message_array = 3
label_line cleanup_sign = 4
label_line cleanup_private_key_bytes = 5
label_line cleanup_privkey = 6
label_line cleanup_private_key = 7
label_line return_null = 8

-- A jump runs the cleanup statements from its label to the end; `return NULL` runs none.
abbrev pub cleanup : Label → List Resource
cleanup l = drop (label_line l) (
    sign_out_array ∷ signature_buffer ∷ message_bytes ∷ message_array ∷ signature_context
    ∷ private_key_array_data ∷ private_key_buffer ∷ private_key_array ∷ [])

module _ (suite : Suite) where
  open suite use {calls, signing_key_size, signature}

  -- The raw bytes of the key of the object, which may be null, copied.
  pub read_signing_key : Option Bytes → Body Label (Option Bytes) Bytes
  read_signing_key raw_bytes = do
    private_key ← non_null raw_bytes null_pointer "this.getRawBytes()" return_null
    acquire calls private_key_array (λ _. tt) null_pointer "this.getRawBytes()" return_null
    guard (length private_key == signing_key_size) illegal_state "private_key_size"
        cleanup_private_key
    acquire calls private_key_buffer (λ _. tt) illegal_state "privkey" cleanup_private_key
    acquire calls private_key_array_data (λ _. tt) null_pointer "private_key_bytes" cleanup_privkey
    in_bounds (leb signing_key_size (length private_key))
    pure (take signing_key_size private_key)

  -- The raw bytes of the message, which may be null.
  pub read_message : Option Bytes → Body Label (Option Bytes) Bytes
  read_message raw_bytes = do
    acquire calls signature_context (λ _. tt) illegal_state "signature_init"
        cleanup_private_key_bytes
    message ← non_null raw_bytes null_pointer "message.getRawBytes()" cleanup_sign
    acquire calls message_array (λ _. tt) null_pointer "message.getRawBytes()" cleanup_sign
    acquire calls message_bytes (λ _. tt) null_pointer "message_bytes" cleanup_message_array
    pure message

  pub create_signature : (private message : Bytes) → Body Label (Option Bytes) Bytes
  create_signature private message = do
    acquire calls signature_buffer (λ _. tt) illegal_state "signature" cleanup_message_bytes
    attempt calls (λ _. signature private message) illegal_state "signature_sign" cleanup_signature

  -- The signature object for the return value, known by its bytes.
  pub return_signature : Bytes → Body Label (Option Bytes) (Unit {0})
  return_signature bytes = do
    acquire calls sign_out_array (λ _. tt) null_pointer "sign_out" cleanup_signature
    acquire calls sign_out_bytes (λ _. tt) null_pointer "sign_out_bytes" cleanup_sign_out
    release sign_out_bytes
    attempt calls (λ _. tt) illegal_state "Signature_new" cleanup_sign_out
    set_retval (some bytes)

  pub sign_body :
      Option Bool → Option Bytes → Option (Option Bytes) → Body Label (Option Bytes) (Unit {0})
  unfolding read_signing_key read_message create_signature return_signature
  sign_body inst that_raw_bytes message = do
    verify_initialized inst return_null
    message ← non_null message null_pointer "message" return_null
    private ← read_signing_key that_raw_bytes
    text ← read_message message
    bytes ← create_signature private text
    return_signature bytes

  -- `signNative` of `SigningPrivateKey`.
  pub sign :
      Option Bool
      → Option Bytes
      → Option (Option Bytes)
      → World (Option Bytes)
      → Finish (Option Bytes)
  unfolding sign_body run
  sign inst that_raw_bytes message =
      run cleanup cleanup_sign_out none (sign_body inst that_raw_bytes message)
