-- ===== src/Verify.antt =====
-- crypt/SigningPublicKey_verifyNative.c
pub mod Phases
pub mod Complete
pub mod RoundTrip
use v_j_bc.Base.{
  ℕ, Bool, true, false, Option, none, some, List, [], ◌∷◌, Bytes, length, leb, ◌==◌, take, drop,
  if◌then◌else◌,
}
use v_j_bc.Jni.{
  illegal_state, null_pointer, Resource, signing_public_array, signing_public_bytes,
  signing_public_buffer, signature_array, signature_array_bytes, signature_buffer, message_bytes,
  message_array, signature_context, World, Body, ◌>>=◌, ◌>>◌, pure, attempt, acquire, guard, test,
  in_bounds, non_null, set_retval, release, verify_initialized, Finish, run,
}
use v_j_bc.Suite.{Suite}

-- The label `cleanup_signature_array_bytes` is reached with no exception only.
pub data Label : Type 0 where
  cleanup_signature_array cleanup_sign_buf cleanup_message_bytes cleanup_message_array : Label
  cleanup_sign cleanup_public_key_bytes cleanup_pubkey cleanup_public_key done : Label

abbrev pub label_line : Label → ℕ
label_line cleanup_signature_array = 0
label_line cleanup_sign_buf = 1
label_line cleanup_message_bytes = 2
label_line cleanup_message_array = 3
label_line cleanup_sign = 4
label_line cleanup_public_key_bytes = 5
label_line cleanup_pubkey = 6
label_line cleanup_public_key = 7
label_line done = 8

-- A jump runs the cleanup statements from its label to the end.
abbrev pub cleanup : Label → List Resource
cleanup l = drop (label_line l) (
    signature_array ∷ signature_buffer ∷ message_bytes ∷ message_array ∷ signature_context
    ∷ signing_public_bytes ∷ signing_public_buffer ∷ signing_public_array ∷ [])

module _ (suite : Suite) where
  open suite use {calls, verifying_key_size, signature_size, verify}

  -- The raw bytes of the key of the object, which may be null, copied.
  pub read_verifying_key : Option Bytes → Body Label Bool Bytes
  read_verifying_key raw_bytes = do
    public_key ← non_null raw_bytes null_pointer "this.getRawBytes()" done
    acquire calls signing_public_array (λ _. tt) null_pointer "this.getRawBytes()" done
    guard (length public_key == verifying_key_size) illegal_state "public_key_size"
        cleanup_public_key
    acquire calls signing_public_buffer (λ _. tt) illegal_state "pubkey" cleanup_public_key
    acquire calls signing_public_bytes (λ _. tt) null_pointer "public_key_bytes" cleanup_pubkey
    in_bounds (leb verifying_key_size (length public_key))
    pure (take verifying_key_size public_key)

  -- The raw bytes of the message, which may be null.
  pub read_signed_message : Option Bytes → Body Label Bool Bytes
  read_signed_message raw_bytes = do
    acquire calls signature_context (λ _. tt) illegal_state "signature_init"
        cleanup_public_key_bytes
    message ← non_null raw_bytes null_pointer "message.getRawBytes()" cleanup_sign
    acquire calls message_array (λ _. tt) null_pointer "message.getRawBytes()" cleanup_sign
    acquire calls message_bytes (λ _. tt) null_pointer "message_bytes" cleanup_message_array
    pure message

  -- The bytes of the signature object, which may be null.
  pub read_signature : Option Bytes → Body Label Bool Bytes
  read_signature signature_bytes = do
    acquire calls signature_buffer (λ _. tt) illegal_state "sign_buf" cleanup_message_bytes
    signed ← non_null signature_bytes null_pointer "signature.getSignatureBytes()" cleanup_sign_buf
    acquire calls signature_array (λ _. tt) null_pointer "signature.getSignatureBytes()"
        cleanup_sign_buf
    pure signed

  -- The answer for a signature of the right size. A failure jumps to the release that stands next.
  pub compare_signature : (public message signed : Bytes) → Body Label Bool Bool
  compare_signature public message signed = do
    acquire calls signature_array_bytes (λ _. tt) null_pointer "signature_array_bytes"
        cleanup_signature_array
    in_bounds (leb signature_size (length signed))
    answer ← test calls (verify public message (take signature_size signed))
    release signature_array_bytes
    pure answer

  -- The value of `retval`. With another size the code sets it to JNI_FALSE and jumps to
  -- `cleanup_signature_array`, which is what stands behind this phase.
  pub check_signature : (public message signed : Bytes) → Body Label Bool Bool
  unfolding compare_signature
  check_signature public message signed =
      if length signed == signature_size
      then compare_signature public message signed
      else pure false

  pub verify_body :
      Option Bool
      → Option Bytes
      → Option (Option Bytes)
      → Option (Option Bytes)
      → Body Label Bool Bool
  unfolding read_verifying_key read_signed_message read_signature check_signature
  verify_body inst that_raw_bytes signature message = do
    verify_initialized inst done
    signature ← non_null signature null_pointer "signature" done
    message ← non_null message null_pointer "message" done
    public ← read_verifying_key that_raw_bytes
    text ← read_signed_message message
    signed ← read_signature signature
    check_signature public text signed

  -- `verifyNative` of `SigningPublicKey`: `retval` starts as JNI_FALSE.
  pub verify_signature :
      Option Bool
      → Option Bytes
      → Option (Option Bytes)
      → Option (Option Bytes)
      → World Bool
      → Finish Bool
  unfolding verify_body run
  verify_signature inst that_raw_bytes signature message =
      run cleanup cleanup_signature_array false
        (verify_body inst that_raw_bytes signature message >>= λ answer. set_retval answer)
