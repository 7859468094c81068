-- ===== src/Agentd/Payload.antt =====
-- agentd/OuterEnvelopeReader_decryptPayloadNative.c: the check of the authentication code of a
-- packet, and its payload in the clear.
pub mod Complete
pub mod Opens
use v_j_bc.Base.{
  ℕ, ◌+◌, ◌-◌, Bool, true, false, Option, none, some, List, [], ◌∷◌, ◌++◌, Bytes, leb, length, take,
  drop, new_array, write_at, ◌&&◌,
}
use v_j_bc.Jni.{
  illegal_state, null_pointer, message_verification, Resource, shared_secret_bytes, header_bytes,
  shared_secret_buffer, header_buffer, payload_bytes, payload_buffer, digest_buffer,
  dpayload_buffer, mac_context, stream_context, retval_bytes, World, Body, ◌>>=◌, ◌>>◌, attempt,
  acquire, guard, non_null, in_bounds, set_retval, release, verify_initialized, Finish, run,
}
use v_j_bc.Suite.{Suite}
use v_j_bc.Suite.Stream.{crypt}

pub data Label : Type 0 where
  stream_cipher_dispose dpayload_buffer_dispose digest_buffer_dispose mac_instance_dispose : Label
  payload_buffer_dispose payload_bytes_dispose header_buffer_dispose header_bytes_dispose : Label
  shared_secret_buffer_dispose shared_secret_bytes_dispose done : Label

abbrev pub label_line : Label → ℕ
label_line stream_cipher_dispose = 0
label_line dpayload_buffer_dispose = 1
label_line digest_buffer_dispose = 2
label_line mac_instance_dispose = 3
label_line payload_buffer_dispose = 4
label_line payload_bytes_dispose = 5
label_line header_buffer_dispose = 6
label_line header_bytes_dispose = 7
label_line shared_secret_buffer_dispose = 8
label_line shared_secret_bytes_dispose = 9
label_line done = 10

-- A jump runs the cleanup statements from its label to the end.
abbrev pub cleanup : Label → List Resource
cleanup l = drop (label_line l) (
    stream_context ∷ dpayload_buffer ∷ digest_buffer ∷ mac_context ∷ payload_buffer ∷ payload_bytes
    ∷ header_buffer ∷ header_bytes ∷ shared_secret_buffer ∷ shared_secret_bytes ∷ [])

module _ (suite : Suite) where
  open suite use {calls, fresh, host_u64, mac_short_size, mac_short, decrypt_byte, crypto_memcmp_eq}

  -- The copies of the three arguments.
  pub copy_arguments : Body Label (Option Bytes) (Unit {0})
  copy_arguments = do
    acquire calls shared_secret_bytes (λ _. tt) null_pointer "shared_secret_bytes" done
    acquire calls shared_secret_buffer (λ _. tt) illegal_state
        "shared secret buffer create failure." shared_secret_bytes_dispose
    acquire calls header_bytes (λ _. tt) null_pointer "header_bytes" shared_secret_buffer_dispose
    acquire calls header_buffer (λ _. tt) illegal_state "header buffer create failure."
        header_bytes_dispose
    acquire calls payload_bytes (λ _. tt) null_pointer "payload_bytes" header_buffer_dispose
    acquire calls payload_buffer (λ _. tt) illegal_state "payload buffer create failure."
        payload_bytes_dispose

  -- The authentication code in front of the payload against the one computed here.
  pub verify_packet : (secret header payload : Bytes) → Body Label (Option Bytes) (Unit {0})
  verify_packet secret header payload = do
    guard (leb mac_short_size (length payload)) message_verification "invalid payload size (MAC)"
        payload_buffer_dispose
    let payload_begin = drop mac_short_size payload
    acquire calls mac_context (λ _. tt) illegal_state "MAC instance create failure."
        payload_buffer_dispose
    acquire calls digest_buffer (λ _. tt) illegal_state "digest buffer create failure."
        mac_instance_dispose
    attempt calls (λ _. tt) illegal_state "digest failure" digest_buffer_dispose
    attempt calls (λ _. tt) illegal_state "digest failure" digest_buffer_dispose
    digest ←
        attempt calls (λ _. mac_short secret (header ++ payload_begin)) illegal_state
          "finalize failure" digest_buffer_dispose
    in_bounds (leb mac_short_size (length payload) && leb mac_short_size (length digest))
    guard (crypto_memcmp_eq (take mac_short_size payload) (take mac_short_size digest))
        message_verification "Bad packet MAC" digest_buffer_dispose

  pub decrypt_verified : (secret : Bytes) → ℕ → (payload : Bytes) → Body Label (Option Bytes) Bytes
  decrypt_verified secret iv payload = do
    let payload_begin = drop mac_short_size payload
    dpayload ←
        acquire calls dpayload_buffer (λ n. fresh n (length payload - mac_short_size)) illegal_state
          "decrypted payload buffer create failure." digest_buffer_dispose
    acquire calls stream_context (λ _. tt) illegal_state "stream context failure."
        dpayload_buffer_dispose
    attempt calls (λ _. tt) illegal_state "continue_decryption failure" stream_cipher_dispose
    in_bounds (leb (length payload_begin) (length dpayload))
    attempt calls
        (λ _. write_at 0 (crypt (decrypt_byte secret (host_u64 iv)) 5 payload_begin) dpayload)
        illegal_state "decryption failure" stream_cipher_dispose

  -- The byte array for the return value.
  pub return_payload : (dpayload : Bytes) → Body Label (Option Bytes) (Unit {0})
  return_payload dpayload = do
    attempt calls (λ _. tt) illegal_state "return value array could not be allocated."
        stream_cipher_dispose
    set_retval (some (new_array (length dpayload)))
    acquire calls retval_bytes (λ _. tt) illegal_state
        "return value array data could not be dereferenced." stream_cipher_dispose
    release retval_bytes
    set_retval (some dpayload)

  pub decrypt_payload_body :
      Option Bool
      → Option Bytes
      → ℕ
      → Option Bytes
      → Option Bytes
      → Body Label (Option Bytes) (Unit {0})
  unfolding copy_arguments verify_packet decrypt_verified return_payload
  decrypt_payload_body inst shared_secret iv header payload = do
    verify_initialized inst done
    secret ← non_null shared_secret null_pointer "shared_secret" done
    header ← non_null header null_pointer "header" done
    payload ← non_null payload null_pointer "payload" done
    copy_arguments
    verify_packet secret header payload
    dpayload ← decrypt_verified secret iv payload
    return_payload dpayload

  -- `decryptPayloadNative`: `retval` starts as NULL.
  pub decrypt_payload :
      Option Bool
      → Option Bytes
      → ℕ
      → Option Bytes
      → Option Bytes
      → World (Option Bytes)
      → Finish (Option Bytes)
  unfolding decrypt_payload_body run
  decrypt_payload inst shared_secret iv header payload =
      run cleanup stream_cipher_dispose none
        (decrypt_payload_body inst shared_secret iv header payload)
