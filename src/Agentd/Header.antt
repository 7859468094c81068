-- ===== src/Agentd/Header.antt =====
-- agentd/OuterEnvelopeReader_decryptHeaderNative.c: the size of the payload that follows a header.
pub mod Complete
pub mod Opens
use v_j_bc.Base.{
  ℕ, zero, suc, ◌+◌, ◌-◌, ◌^◌, ◌%◌, ◌≤◌, ◌≡◌, Bool, true, false, Option, none, some, List, [], ◌∷◌,
  Bytes, ltb, leb, ◌==◌, length, head_or, take, drop, write_at, ℤ, pos, minus_one,
}
use v_j_bc.Jni.{
  illegal_state, null_pointer, Resource, shared_secret_bytes, header_bytes, shared_secret_buffer,
  header_buffer, dheader_buffer, stream_context, World, Body, ◌>>=◌, ◌>>◌, attempt, acquire, guard,
  non_null, deref, in_bounds, set_retval, verify_initialized, Finish, run,
}
use v_j_bc.Suite.{Suite}
use v_j_bc.Suite.Stream.{crypt}
use v_j_bc.Agentd.Envelope.{authed_packet, max_payload_size, ntohl_bytes}

pub data Label : Type 0 where
  stream_cipher_dispose dheader_buffer_dispose header_buffer_dispose header_bytes_dispose : Label
  shared_secret_buffer_dispose shared_secret_bytes_dispose done : Label

-- The number of cleanup statements that stand above a label.
abbrev pub label_line : Label → ℕ
label_line stream_cipher_dispose = 0
label_line dheader_buffer_dispose = 1
label_line header_buffer_dispose = 2
label_line header_bytes_dispose = 3
label_line shared_secret_buffer_dispose = 4
label_line shared_secret_bytes_dispose = 5
label_line done = 6

-- A jump runs the cleanup statements from its label to the end.
abbrev pub cleanup : Label → List Resource
cleanup l = drop (label_line l) (
    stream_context ∷ dheader_buffer ∷ header_buffer ∷ header_bytes ∷ shared_secret_buffer
    ∷ shared_secret_bytes ∷ [])

-- The checks of the decrypted header, and its size field.
pub read_payload_size : Bytes → Body Label ℤ (Unit {0})
read_payload_size dheader = do
  in_bounds (leb 5 (length dheader))
  guard (authed_packet == head_or dheader 0) illegal_state "invalid packet type"
      stream_cipher_dispose
  let payload_size = ntohl_bytes (take 4 (drop 1 dheader))
  guard (leb payload_size max_payload_size) illegal_state "invalid packet size"
      stream_cipher_dispose
  set_retval (pos payload_size)

module _ (suite : Suite) where
  open suite use {calls, fresh, host_u64, decrypt_byte}

  -- The buffers and the stream cipher, and the decryption of the header into `dheader`.
  pub decrypt_dheader : Bytes → ℕ → Bytes → Body Label ℤ Bytes
  decrypt_dheader secret iv header = do
    acquire calls shared_secret_bytes (λ _. tt) null_pointer "shared_secret_bytes" done
    acquire calls shared_secret_buffer (λ _. tt) illegal_state
        "shared secret buffer create failure." shared_secret_bytes_dispose
    acquire calls header_bytes (λ _. tt) null_pointer "header_bytes" shared_secret_buffer_dispose
    acquire calls header_buffer (λ _. tt) illegal_state "header buffer create failure."
        header_bytes_dispose
    dheader ←
        acquire calls dheader_buffer (λ n. fresh n (length header)) illegal_state
          "decrypted header buffer create failure." header_buffer_dispose
    acquire calls stream_context (λ _. tt) illegal_state "stream context failure."
        dheader_buffer_dispose
    attempt calls (λ _. tt) illegal_state "continue_decryption failure" stream_cipher_dispose
    in_bounds (leb (length header) (length dheader))
    attempt calls (λ _. write_at 0 (crypt (decrypt_byte secret (host_u64 iv)) 0 header) dheader)
        illegal_state "decryption failure" stream_cipher_dispose

  pub decrypt_header_body : Option Bool → Option Bytes → ℕ → Option Bytes → Body Label ℤ (Unit {0})
  unfolding decrypt_dheader read_payload_size
  decrypt_header_body inst shared_secret iv header = do
    verify_initialized inst done
    secret ← non_null shared_secret null_pointer "shared_secret" done
    header ← non_null header null_pointer "header" done
    guard (length header == 5) illegal_state "invalid header size" done
    dheader ← decrypt_dheader secret iv header
    read_payload_size dheader

  -- `decryptHeaderNative`: `retval` starts as -1.
  pub decrypt_header : Option Bool → Option Bytes → ℕ → Option Bytes → World ℤ → Finish ℤ
  unfolding decrypt_header_body run
  decrypt_header inst shared_secret iv header =
      run cleanup stream_cipher_dispose minus_one (decrypt_header_body inst shared_secret iv header)
