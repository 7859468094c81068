-- ===== src/Streams.antt =====
-- What the native methods on streams of data share: crypt/GenericStreamCipher_*.c,
-- cert/EncryptedCertificateBuilder_encryptData.c, cert/EncryptedCertificateReader_decryptNative.c and
-- document/EncryptedDocument*Data.c.
pub mod Envelope
pub mod Phases
pub mod Encrypt
pub mod Decrypt
pub mod RoundTrip
pub mod Whole
use v_j_bc.Base.{
  ℕ, ◌==◌, String, Bool, if◌then◌else◌, Option, some, List, [], ◌∷◌, ◌++◌, Bytes, length, leb, take,
  drop, new_array, write_at,
}
use v_j_bc.Jni.{
  illegal_state, null_pointer, Resource, key_buffer, key_array_data, iv_array_data,
  input_array_data, stream_context, output_array_data, Body, ◌>>=◌, ◌>>◌, pure, attempt, acquire,
  in_bounds, release,
}
use v_j_bc.Suite.{Suite}
use v_j_bc.Suite.Stream.{crypt}

pub data Label : Type 0 where
  stream_cipher_dispose input_array_data_dispose iv_array_data_dispose : Label
  key_array_data_dispose key_buffer_dispose return_null : Label

abbrev pub label_line : Label → ℕ
label_line stream_cipher_dispose = 0
label_line input_array_data_dispose = 1
label_line iv_array_data_dispose = 2
label_line key_array_data_dispose = 3
label_line key_buffer_dispose = 4
label_line return_null = 5

-- A jump runs the cleanup statements from its label to the end; `return NULL` runs none. None of
-- them releases the elements of the output array.
abbrev pub cleanup : Label → List Resource
cleanup l =
    drop (label_line l)
      (stream_context ∷ input_array_data ∷ iv_array_data ∷ key_array_data ∷ key_buffer ∷ [])

-- `IV_SIZE`
abbrev pub iv_size : ℕ
iv_size = 8

module _ (suite : Suite) where
  open suite use {calls, encrypt_byte, decrypt_byte}

  -- A copy of the first `size` bytes of the key, the elements of the arrays, and the cipher.
  pub open_stream : ℕ → Bytes → Body Label (Option Bytes) Bytes
  unfolding ◌>>=◌ pure acquire in_bounds
  open_stream size key = do
    acquire calls key_buffer (λ _. tt) illegal_state "key buffer create failure." return_null
    acquire calls key_array_data (λ _. tt) null_pointer "key data read failure." key_buffer_dispose
    in_bounds (leb size (length key))
    acquire calls iv_array_data (λ _. tt) null_pointer "iv data read failure."
        key_array_data_dispose
    acquire calls input_array_data (λ _. tt) null_pointer "input data read failure."
        iv_array_data_dispose
    acquire calls stream_context (λ _. tt) illegal_state "stream context failure."
        input_array_data_dispose
    pure (take size key)

  -- `vccrypt_stream_start_encryption (&stream, ivArrayData, 8, out, ...)`, which writes the vector.
  pub start_encryption : (iv out : Bytes) → Body Label (Option Bytes) Bytes
  unfolding ◌>>=◌ attempt in_bounds
  start_encryption iv out = do
    in_bounds (leb iv_size (length iv))
    attempt calls (λ _. write_at 0 (take iv_size iv) out) illegal_state
        "could not start encryption stream." stream_cipher_dispose

  -- `vccrypt_stream_encrypt`, at a position of the stream, to an offset of the output.
  pub encrypt_stream :
      (key iv : Bytes) (position : ℕ) (input : Bytes) (offset : ℕ) (out : Bytes)
      → Body Label (Option Bytes) Bytes
  unfolding attempt
  encrypt_stream key iv position input offset out =
      attempt calls
        (λ _. write_at offset (crypt (encrypt_byte key (take iv_size iv)) position input) out)
        illegal_state "could not encrypt input data." stream_cipher_dispose

module _ {L : Type 0} where
  -- The output array, cleared. A failure jumps to `stop`.
  pub create_output : Suite → L → ℕ → Body L (Option Bytes) Bytes
  unfolding ◌>>=◌ attempt acquire
  create_output suite stop size = do
    attempt suite.calls (λ _. tt) null_pointer "bad outputArray alloc." stop
    acquire suite.calls output_array_data (λ _. new_array size) null_pointer
        "outputArray data could not be read." stop

  -- `ReleaseByteArrayElements (env, outputArray, outputArrayData, 0);`
  pub commit : Bytes → Body L (Option Bytes) Bytes
  unfolding ◌>>=◌ pure release
  commit out = do release output_array_data; pure out
