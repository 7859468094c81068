-- ===== src/SimpleCipher/Decrypt.antt =====
-- crypt/SimpleStreamCipher_decryptNative.c
pub mod Phases
pub mod Complete
use v_j_bc.Base.{
  ℕ, ◌+◌, ◌-◌, Bool, Option, none, some, List, [], ◌∷◌, ◌++◌, Bytes, leb, length, take, drop,
  write_at, new_array,
}
use v_j_bc.Jni.{
  illegal_state, null_pointer, message_authentication, Resource, input_data, key_bytes_data,
  key_buffer, output_array_data, session_key_buffer, mac_context, block_context, stream_context,
  mac_buffer, World, Body, ◌>>=◌, ◌>>◌, pure, attempt, acquire, guard, non_null, in_bounds,
  set_retval, verify_initialized, Finish, run,
}
use v_j_bc.Suite.{Suite}
use v_j_bc.Suite.Stream.{crypt}

pub data Label : Type 0 where
  stream_dispose mac_buffer_dispose mac_dispose block_dispose session_key_buffer_dispose : Label
  output_array_data_dispose key_buffer_dispose key_bytes_data_dispose input_data_dispose : Label
  return_null : Label

abbrev pub label_line : Label → ℕ
label_line stream_dispose = 0
label_line mac_buffer_dispose = 1
label_line mac_dispose = 2
label_line block_dispose = 3
label_line session_key_buffer_dispose = 4
label_line output_array_data_dispose = 5
label_line key_buffer_dispose = 6
label_line key_bytes_data_dispose = 7
label_line input_data_dispose = 8
label_line return_null = 9

-- A jump runs the cleanup statements from its label to the end; `return NULL` runs none.
abbrev pub cleanup : Label → List Resource
cleanup l = drop (label_line l) (
    stream_context ∷ mac_buffer ∷ mac_context ∷ block_context ∷ session_key_buffer
    ∷ output_array_data ∷ key_buffer ∷ key_bytes_data ∷ input_data ∷ [])

abbrev pub mac_size : ℕ
mac_size = 64

-- `KEY_IV_SIZE + KEY_SIZE + IV_SIZE + MAC_SIZE`
abbrev pub envelope_size : ℕ
envelope_size = 16 + 32 + 8 + mac_size

module _ (suite : Suite) where
  open suite use {calls, fresh, stream_key_size, decrypt_byte, block_decrypt, mac, crypto_memcmp_eq}

  -- The key of the object, copied. The field and the raw bytes of the key may be null.
  pub read_key : Option (Option Bytes) → Body Label (Option Bytes) Bytes
  read_key that_key = do
    acquire calls input_data (λ _. tt) null_pointer "inputData" return_null
    key ← non_null that_key null_pointer "key" input_data_dispose
    key_bytes ← non_null key null_pointer "keyBytes" input_data_dispose
    acquire calls key_bytes_data (λ _. tt) null_pointer "keyBytesData" input_data_dispose
    acquire calls key_buffer (λ _. tt) illegal_state "key buffer creation failure."
        key_bytes_data_dispose
    in_bounds (leb stream_key_size (length key_bytes))
    pure (take stream_key_size key_bytes)

  -- The output array, for a message that is large enough.
  pub create_output : (input_size : ℕ) → Body Label (Option Bytes) Bytes
  create_output input_size = do
    guard (leb envelope_size input_size) message_authentication "bad message size."
        key_buffer_dispose
    attempt calls (λ _. tt) null_pointer "bad outputArray alloc." key_buffer_dispose
    acquire calls output_array_data (λ _. new_array (input_size - envelope_size)) null_pointer
        "outputArray data could not be read." key_buffer_dispose

  -- The session key, from its two blocks.
  pub decrypt_key : (key input : Bytes) → Body Label (Option Bytes) Bytes
  decrypt_key key input = do
    session_key ←
        acquire calls session_key_buffer (λ n. fresh n stream_key_size) illegal_state
          "session key buffer create failure." output_array_data_dispose
    acquire calls block_context (λ _. tt) illegal_state "block cipher init failure."
        session_key_buffer_dispose
    in_bounds (leb 48 (length input))
    in_bounds (leb 32 (length session_key))
    session_key ←
        attempt calls
          (λ _.
            write_at 0 (block_decrypt key (take 16 input) (take 16 (drop 16 input))) session_key)
          illegal_state "block cipher decrypt failure." block_dispose
    attempt calls
        (λ _.
          write_at 16 (block_decrypt key (take 16 (drop 16 input)) (take 16 (drop 32 input)))
            session_key)
        illegal_state "block cipher decrypt failure." block_dispose

  -- The authentication code at the end of the message against the one computed here.
  pub verify_message : (session_key input : Bytes) → Body Label (Option Bytes) (Unit {0})
  verify_message session_key input = do
    acquire calls mac_context (λ _. tt) illegal_state "mac init failure." block_dispose
    in_bounds (leb mac_size (length input))
    attempt calls (λ _. tt) illegal_state "message digest failure." mac_dispose
    acquire calls mac_buffer (λ _. tt) illegal_state "mac buffer init failure." mac_dispose
    code ←
        attempt calls (λ _. mac session_key (take (length input - mac_size) input)) illegal_state
          "mac finalize failure." mac_buffer_dispose
    in_bounds (leb mac_size (length code))
    guard
        (crypto_memcmp_eq (take mac_size code)
          (take mac_size (drop (length input - mac_size) input)))
        message_authentication "bad message." mac_buffer_dispose

  pub decrypt_input : (session_key input out : Bytes) → Body Label (Option Bytes) Bytes
  decrypt_input session_key input out = do
    let plaintext_size = length input - envelope_size
    acquire calls stream_context (λ _. tt) illegal_state "stream cipher init failure."
        mac_buffer_dispose
    in_bounds (leb 56 (length input))
    iv ←
        attempt calls (λ _. take 8 (drop 48 input)) illegal_state
          "stream cipher start decryption failure." stream_dispose
    in_bounds (leb (56 + plaintext_size) (length input))
    in_bounds (leb plaintext_size (length out))
    attempt calls
        (λ _.
          write_at 0 (crypt (decrypt_byte session_key iv) 0 (take plaintext_size (drop 56 input)))
            out)
        illegal_state "stream cipher decryption failure." stream_dispose

  pub decrypt_body :
      Option Bool → Option (Option Bytes) → Option Bytes → Body Label (Option Bytes) Bytes
  unfolding read_key create_output decrypt_key verify_message decrypt_input
  decrypt_body inst that_key input = do
    verify_initialized inst return_null
    input ← non_null input null_pointer "input" return_null
    key ← read_key that_key
    out ← create_output (length input)
    session_key ← decrypt_key key input
    verify_message session_key input
    decrypt_input session_key input out

  -- `decryptNative` of `SimpleStreamCipher`.
  pub decrypt :
      Option Bool
      → Option (Option Bytes)
      → Option Bytes
      → World (Option Bytes)
      → Finish (Option Bytes)
  unfolding decrypt_body run
  decrypt inst that_key input =
      run cleanup stream_dispose none
        (decrypt_body inst that_key input >>= λ out. set_retval (some out))
