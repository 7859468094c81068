-- ===== src/Agentd/Writer.antt =====
-- agentd/OuterEnvelopeWriter_encryptPayloadNative.c: a payload sealed in a packet.
pub mod Layout
pub mod Complete
use v_j_bc.Base.{
  ℕ, ◌+◌, Bool, true, false, Option, none, some, List, [], ◌∷◌, ◌++◌, Bytes, leb, length, take,
  drop, write_at, new_array, ◌&&◌,
}
use v_j_bc.Jni.{
  illegal_state, null_pointer, Resource, digest_buffer, packet_buffer, shared_secret_bytes,
  shared_secret_buffer, stream_context, mac_context, payload_bytes, payload_buffer, retval_bytes,
  World, Body, ◌>>=◌, ◌>>◌, pure, attempt, acquire, non_null, deref, in_bounds, set_retval, release,
  verify_initialized, Finish, run,
}
use v_j_bc.Suite.{Suite}
use v_j_bc.Suite.Stream.{crypt}
use v_j_bc.Agentd.Envelope.{authed_packet, htonl_bytes}

pub data Label : Type 0 where
  payload_buffer_dispose payload_bytes_dispose mac_dispose stream_cipher_dispose : Label
  shared_secret_buffer_dispose shared_secret_bytes_dispose packet_dispose digest_dispose done :
      Label

abbrev pub label_line : Label → ℕ
label_line payload_buffer_dispose = 0
label_line payload_bytes_dispose = 1
label_line mac_dispose = 2
label_line stream_cipher_dispose = 3
label_line shared_secret_buffer_dispose = 4
label_line shared_secret_bytes_dispose = 5
label_line packet_dispose = 6
label_line digest_dispose = 7
label_line done = 8

-- A jump runs the cleanup statements from its label to the end.
abbrev pub cleanup : Label → List Resource
cleanup l = drop (label_line l) (
    payload_buffer ∷ payload_bytes ∷ mac_context ∷ stream_context ∷ shared_secret_buffer
    ∷ shared_secret_bytes ∷ packet_buffer ∷ digest_buffer ∷ [])

-- `sizeof (type)`, `sizeof (nsize)` and `digest.size`.
abbrev pub type_size : ℕ
type_size = 1

abbrev pub nsize_size : ℕ
nsize_size = 4

abbrev pub digest_size : ℕ
digest_size = 32

module _ (suite : Suite) where
  open suite use {calls, fresh, host_u64, mac_short, encrypt_byte}

  -- The buffers, the stream cipher and the authentication code. The result is the packet buffer.
  pub open_packet : (payload_size : ℕ) → Body Label (Option Bytes) Bytes
  open_packet payload_size = do
    acquire calls digest_buffer (λ _. tt) illegal_state "digest buffer create failure." done
    packet ←
        acquire calls packet_buffer
          (λ n. fresh n (type_size + nsize_size + digest_size + payload_size)) illegal_state
          "packet buffer create failure." digest_dispose
    acquire calls shared_secret_bytes (λ _. tt) null_pointer "shared_secret_bytes" packet_dispose
    acquire calls shared_secret_buffer (λ _. tt) illegal_state
        "shared secret buffer create failure." shared_secret_bytes_dispose
    acquire calls stream_context (λ _. tt) illegal_state "stream context failure."
        shared_secret_buffer_dispose
    acquire calls mac_context (λ _. tt) illegal_state "mac init failure." stream_cipher_dispose
    attempt calls (λ _. packet) illegal_state "continue_encryption failure" mac_dispose

  -- The type and the size, encrypted from position 0 on into the start of the packet.
  pub write_header :
      (secret : Bytes) (iv payload_size : ℕ) → Bytes → Body Label (Option Bytes) Bytes
  write_header secret iv payload_size packet = do
    in_bounds (leb (type_size + nsize_size) (length packet))
    packet ←
        attempt calls
          (λ _.
            write_at 0 (crypt (encrypt_byte secret (host_u64 iv)) 0 (authed_packet ∷ [])) packet)
          illegal_state "encryption failure - type" mac_dispose
    attempt calls
        (λ _.
          write_at type_size
            (crypt (encrypt_byte secret (host_u64 iv)) type_size (htonl_bytes payload_size)) packet)
        illegal_state "encryption failure - size" mac_dispose

  -- The payload, encrypted from position 5 on, behind the place of the authentication code.
  pub write_payload :
      (secret : Bytes) (iv : ℕ) (payload : Bytes) → Bytes → Body Label (Option Bytes) Bytes
  write_payload secret iv payload packet = do
    let offset = type_size + nsize_size
    acquire calls payload_bytes (λ _. tt) null_pointer "payload_bytes" mac_dispose
    acquire calls payload_buffer (λ _. tt) illegal_state "payload buffer create failure."
        payload_bytes_dispose
    in_bounds (leb (digest_size + offset + length payload) (length packet))
    attempt calls
        (λ _.
          write_at (digest_size + offset) (crypt (encrypt_byte secret (host_u64 iv)) offset payload)
            packet)
        illegal_state "encryption failure - payload" payload_buffer_dispose

  -- The authentication code of the header and the encrypted payload, between the two.
  pub seal : (secret : Bytes) (payload_size : ℕ) → Bytes → Body Label (Option Bytes) Bytes
  seal secret payload_size packet = do
    let header = take (type_size + nsize_size) packet
    let body = take payload_size (drop (type_size + nsize_size + digest_size) packet)
    in_bounds (leb (type_size + nsize_size + digest_size + payload_size) (length packet))
    attempt calls (λ _. tt) illegal_state "digest failure" payload_buffer_dispose
    attempt calls (λ _. tt) illegal_state "digest failure" payload_buffer_dispose
    digest ←
        attempt calls (λ _. mac_short secret (header ++ body)) illegal_state "finalize failure"
          payload_buffer_dispose
    in_bounds (leb (type_size + nsize_size + length digest) (length packet))
    pure (write_at (type_size + nsize_size) digest packet)

  -- The byte array for the return value.
  pub return_packet : Bytes → Body Label (Option Bytes) (Unit {0})
  return_packet packet = do
    attempt calls (λ _. tt) illegal_state "return value array could not be allocated."
        payload_buffer_dispose
    set_retval (some (new_array (length packet)))
    acquire calls retval_bytes (λ _. tt) illegal_state
        "return value array data could not be dereferenced." payload_buffer_dispose
    release retval_bytes
    set_retval (some packet)

  pub encrypt_payload_body :
      Option Bool → Option Bytes → ℕ → Option Bytes → Body Label (Option Bytes) (Unit {0})
  unfolding open_packet write_header write_payload seal return_packet
  encrypt_payload_body inst shared_secret iv payload = do
    -- `GetArrayLength` comes before the tests
    array ← deref payload
    let payload_size = length array
    verify_initialized inst done
    secret ← non_null shared_secret null_pointer "shared_secret" done
    payload ← non_null payload null_pointer "payload" done
    packet ← open_packet payload_size
    packet ← write_header secret iv payload_size packet
    packet ← write_payload secret iv payload packet
    packet ← seal secret payload_size packet
    return_packet packet

  -- `encryptPayloadNative`: `retval` starts as NULL.
  pub encrypt_payload :
      Option Bool → Option Bytes → ℕ → Option Bytes → World (Option Bytes) → Finish (Option Bytes)
  unfolding encrypt_payload_body run
  encrypt_payload inst shared_secret iv payload =
      run cleanup payload_buffer_dispose none (encrypt_payload_body inst shared_secret iv payload)
