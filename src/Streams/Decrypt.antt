-- ===== src/Streams/Decrypt.antt =====
-- crypt/GenericStreamCipher_decryptNative.c, cert/EncryptedCertificateReader_decryptNative.c and
-- document/EncryptedDocumentReader_decryptData.c.
pub mod Phases
pub mod Bodies
pub mod Complete
use v_j_bc.Base.{
  ℕ, ◌-◌, ◌==◌, Bool, true, if◌then◌else◌, Option, none, some, List, [], ◌∷◌, Bytes, length, leb,
  take, drop, write_at,
}
use v_j_bc.Jni.{
  illegal_state, null_pointer, Resource, key_buffer, key_array_data, input_array_data,
  stream_context, World, Body, ◌>>=◌, ◌>>◌, pure, attempt, acquire, guard, in_bounds, non_null,
  set_retval, verify_initialized, Finish, run,
}
use v_j_bc.Suite.{Suite}
use v_j_bc.Suite.Stream.{crypt}
use v_j_bc.Streams.{iv_size, open_stream, create_output, commit}
use v_j_bc.Streams as Streams

module _ {L : Type 0} (suite : Suite) (stop : L) where
  open suite use {calls, decrypt_byte}

  -- The size of the output. For an input that is shorter than the vector the `size_t` wraps around,
  -- and as the `jsize` of an array it is negative: `NewByteArray` returns NULL.
  pub output_size : Bool → Bytes → Body L (Option Bytes) ℕ
  unfolding ◌>>=◌ guard pure
  output_size first input = do
    guard (leb (if first then iv_size else 0) (length input)) null_pointer "bad outputArray alloc."
        stop
    pure (length input - (if first then iv_size else 0))

  -- `vccrypt_stream_start_decryption (&stream, in, &input_offset)`, which reads the vector.
  pub start_decryption : Bytes → Body L (Option Bytes) Bytes
  unfolding ◌>>=◌ in_bounds attempt
  start_decryption input = do
    in_bounds (leb iv_size (length input))
    attempt calls (λ _. take iv_size input) illegal_state "could not start decryption stream." stop

  -- `vccrypt_stream_continue_decryption (&stream, ivArrayData, 8, input_offset)`
  pub continue_decryption : Bytes → Body L (Option Bytes) Bytes
  unfolding ◌>>=◌ in_bounds attempt
  continue_decryption iv = do
    in_bounds (leb iv_size (length iv))
    attempt calls (λ _. take iv_size iv) illegal_state "could not continue decryption stream." stop

  -- `vccrypt_stream_decrypt`, at a position of the stream.
  pub decrypt_stream :
      (key vector : Bytes) (position : ℕ) (input out : Bytes) → Body L (Option Bytes) Bytes
  unfolding attempt
  decrypt_stream key vector position input out =
      attempt calls (λ _. write_at 0 (crypt (decrypt_byte key vector) position input) out)
        illegal_state "could not decrypt input data." stop

pub data Label : Type 0 where
  stream_cipher_dispose input_array_data_dispose secret_key_array_data_dispose : Label
  key_buffer_dispose return_null : Label

abbrev pub label_line : Label → ℕ
label_line stream_cipher_dispose = 0
label_line input_array_data_dispose = 1
label_line secret_key_array_data_dispose = 2
label_line key_buffer_dispose = 3
label_line return_null = 4

-- A jump runs the cleanup statements from its label to the end; `return NULL` runs none. None of
-- them releases the elements of the output array.
abbrev pub cleanup : Label → List Resource
cleanup l =
    drop (label_line l) (stream_context ∷ input_array_data ∷ key_array_data ∷ key_buffer ∷ [])

module _ (suite : Suite) where
  open suite use {calls, stream_key_size}

  -- A copy of the first `size` bytes of the key, the elements of the input, and the cipher.
  pub open_input : ℕ → Bytes → Body Label (Option Bytes) Bytes
  unfolding ◌>>=◌ pure acquire in_bounds
  open_input size key = do
    acquire calls key_buffer (λ _. tt) illegal_state "key buffer create failure." return_null
    acquire calls key_array_data (λ _. tt) null_pointer "key data read failure." key_buffer_dispose
    in_bounds (leb size (length key))
    acquire calls input_array_data (λ _. tt) null_pointer "input data read failure."
        secret_key_array_data_dispose
    acquire calls stream_context (λ _. tt) illegal_state "stream context failure."
        input_array_data_dispose
    pure (take size key)

  pub decrypt_generic_body :
      Option Bool → (key input : Option Bytes) → Body Label (Option Bytes) Bytes
  unfolding verify_initialized non_null guard open_input output_size create_output start_decryption
      decrypt_stream commit
  decrypt_generic_body inst key input = do
    verify_initialized inst return_null
    key ← non_null key null_pointer "secretKey" return_null
    input ← non_null input null_pointer "input" return_null
    guard (length key == stream_key_size) illegal_state "Invalid key size." return_null
    k ← open_input (length key) key
    size ← output_size suite stream_cipher_dispose true input
    out ← create_output suite stream_cipher_dispose size
    vector ← start_decryption suite stream_cipher_dispose input
    out ← decrypt_stream suite stream_cipher_dispose k vector 0 (take size (drop iv_size input)) out
    commit out

  -- `decryptNative` of `GenericStreamCipher`.
  pub decrypt_generic :
      Option Bool → (key input : Option Bytes) → World (Option Bytes) → Finish (Option Bytes)
  unfolding decrypt_generic_body run set_retval
  decrypt_generic inst key input =
      run cleanup stream_cipher_dispose none
        (decrypt_generic_body inst key input >>= λ out. set_retval (some out))

  pub decrypt_certificate_body :
      Option Bool → (key input : Option Bytes) → Body Label (Option Bytes) Bytes
  unfolding verify_initialized non_null open_input output_size create_output start_decryption
      decrypt_stream commit
  decrypt_certificate_body inst key input = do
    verify_initialized inst return_null
    key ← non_null key null_pointer "secretKey" return_null
    input ← non_null input null_pointer "input" return_null
    k ← open_input 32 key
    size ← output_size suite stream_cipher_dispose true input
    out ← create_output suite stream_cipher_dispose size
    vector ← start_decryption suite stream_cipher_dispose input
    out ← decrypt_stream suite stream_cipher_dispose k vector 0 (take size (drop iv_size input)) out
    commit out

  -- `decryptNative` of `EncryptedCertificateReader`.
  pub decrypt_certificate :
      Option Bool → (key input : Option Bytes) → World (Option Bytes) → Finish (Option Bytes)
  unfolding decrypt_certificate_body run set_retval
  decrypt_certificate inst key input =
      run cleanup stream_cipher_dispose none
        (decrypt_certificate_body inst key input >>= λ out. set_retval (some out))

  pub decrypt_data_body :
      Option Bool → (key iv input : Option Bytes) → ℕ → Body Streams.Label (Option Bytes) Bytes
  unfolding verify_initialized non_null open_stream output_size create_output start_decryption
      continue_decryption decrypt_stream commit
  decrypt_data_body inst key iv input offset = do
    verify_initialized inst Streams.return_null
    key ← non_null key null_pointer "secretKey" Streams.return_null
    iv ← non_null iv null_pointer "iv" Streams.return_null
    input ← non_null input null_pointer "input" Streams.return_null
    k ← open_stream suite 32 key
    size ← output_size suite Streams.stream_cipher_dispose (offset == 0) input
    out ← create_output suite Streams.stream_cipher_dispose size
    vector ←
        (if offset == 0
          then start_decryption suite Streams.stream_cipher_dispose input
          else continue_decryption suite Streams.stream_cipher_dispose iv)
    out ←
        decrypt_stream suite Streams.stream_cipher_dispose k vector offset
          (take size (drop (if offset == 0 then iv_size else 0) input)) out
    commit out

  -- `decryptData` of `EncryptedDocumentReader`.
  pub decrypt_data :
      Option Bool → (key iv input : Option Bytes) → ℕ → World (Option Bytes) → Finish (Option Bytes)
  unfolding decrypt_data_body run set_retval
  decrypt_data inst key iv input offset =
      run Streams.cleanup Streams.stream_cipher_dispose none
        (decrypt_data_body inst key iv input offset >>= λ out. set_retval (some out))
