-- ===== src/SimpleCipher/Encrypt.antt =====
-- crypt/SimpleStreamCipher_encryptNative.c
pub mod Layout
pub mod Phases
pub mod Complete
use v_j_bc.Base.{
  ℕ, ◌+◌, Bool, Option, none, some, List, [], ◌∷◌, ◌++◌, Bytes, leb, length, take, drop, write_at,
  new_array,
}
use v_j_bc.Jni.{
  illegal_state, null_pointer, Resource, input_data, key_bytes_data, key_buffer, output_array_data,
  prng_context, session_key_buffer, session_iv_buffer, stream_iv_buffer, mac_context, block_context,
  stream_context, mac_buffer, World, Body, ◌>>=◌, ◌>>◌, pure, attempt, acquire, non_null, in_bounds,
  set_retval, verify_initialized, Finish, run,
}
use v_j_bc.Suite.{Suite}
use v_j_bc.Suite.Stream.{crypt}
use v_j_bc.SimpleCipher.Envelope.{Session}

pub data Label : Type 0 where
  mac_buffer_dispose stream_dispose block_dispose mac_dispose stream_iv_buffer_dispose : Label
  session_iv_buffer_dispose session_key_buffer_dispose prng_dispose : Label
  output_array_data_dispose key_buffer_dispose key_bytes_data_dispose input_data_dispose : Label
  return_null : Label

abbrev pub label_line : Label → ℕ
label_line mac_buffer_dispose = 0
label_line stream_dispose = 1
label_line block_dispose = 2
label_line mac_dispose = 3
label_line stream_iv_buffer_dispose = 4
label_line session_iv_buffer_dispose = 5
label_line session_key_buffer_dispose = 6
label_line prng_dispose = 7
label_line output_array_data_dispose = 8
label_line key_buffer_dispose = 9
label_line key_bytes_data_dispose = 10
label_line input_data_dispose = 11
label_line return_null = 12

-- A jump runs the cleanup statements from its label to the end; `return NULL` runs none.
abbrev pub cleanup : Label → List Resource
cleanup l = drop (label_line l) (
    mac_buffer ∷ stream_context ∷ block_context ∷ mac_context ∷ stream_iv_buffer ∷ session_iv_buffer
    ∷ session_key_buffer ∷ prng_context ∷ output_array_data ∷ key_buffer ∷ key_bytes_data
    ∷ input_data ∷ [])

-- The output array, and what the authentication code has digested of it.
pub record Output : Type 0 where
  pub array : Bytes
  pub digested : Bytes

abbrev pub key_iv_size : ℕ
key_iv_size = 16

abbrev pub key_size : ℕ
key_size = 32

abbrev pub iv_size : ℕ
iv_size = 8

abbrev pub mac_size : ℕ
mac_size = 64

module _ (suite : Suite) where
  open suite use {calls, random, stream_key_size, encrypt_byte, block_encrypt, mac}

  -- The key of the object, copied. The field and the raw bytes of the key may be null.
  pub read_key : Option (Option Bytes) → Body Label (Option Bytes) Bytes
  read_key that_key = do
    acquire calls input_data (λ _. tt) null_pointer "inputData" return_null
    key ← non_null that_key null_pointer "key" input_data_dispose
    key_bytes ← non_null key null_pointer "keyBytes" input_data_dispose
    acquire calls key_bytes_data (λ _. tt) null_pointer "keyBytesData" input_data_dispose
    acquire calls key_buffer (λ _. tt) illegal_state "key buffer creation failure."
        key_bytes_data_dispose
    in_bounds (leb stream_key_size (length key_bytes))
    pure (take stream_key_size key_bytes)

  -- The output array.
  pub create_output : (input_size : ℕ) → Body Label (Option Bytes) Bytes
  create_output input_size = do
    attempt calls (λ _. tt) null_pointer "bad outputArray alloc." key_buffer_dispose
    acquire calls output_array_data
        (λ _. new_array (key_iv_size + key_size + iv_size + input_size + mac_size)) null_pointer
        "outputArray data could not be read." key_buffer_dispose

  -- The random session.
  pub create_session : Body Label (Option Bytes) Session
  create_session = do
    acquire calls prng_context (λ _. tt) illegal_state "prng instance creation failure."
        output_array_data_dispose
    acquire calls session_key_buffer (λ _. tt) illegal_state "session key buffer create failure."
        prng_dispose
    acquire calls session_iv_buffer (λ _. tt) illegal_state "session iv buffer create failure."
        session_key_buffer_dispose
    acquire calls stream_iv_buffer (λ _. tt) illegal_state "stream iv buffer create failure."
        session_iv_buffer_dispose
    session_key ←
        attempt calls (λ n. random n stream_key_size) illegal_state "prng read failure."
          stream_iv_buffer_dispose
    session_iv ←
        attempt calls (λ n. random n 16) illegal_state "prng read failure." stream_iv_buffer_dispose
    stream_iv ←
        attempt calls (λ n. random n 8) illegal_state "prng read failure." stream_iv_buffer_dispose
    pure (record { key = session_key; key_iv = session_iv; stream_iv = stream_iv })

  -- The session key, encrypted behind its initialisation vector.
  pub encrypt_key : (key : Bytes) (s : Session) (out : Bytes) → Body Label (Option Bytes) Output
  encrypt_key key s out = do
    acquire calls mac_context (λ _. tt) illegal_state "mac init failure." stream_iv_buffer_dispose
    acquire calls block_context (λ _. tt) illegal_state "block cipher init failure." mac_dispose
    in_bounds (leb (length s.key_iv) (length out))
    let out = write_at 0 s.key_iv out
    in_bounds (leb 32 (length s.key))
    in_bounds (leb 48 (length out))
    out ←
        attempt calls (λ _. write_at 16 (block_encrypt key s.key_iv (take 16 s.key)) out)
          illegal_state "block cipher encrypt failure." block_dispose
    out ←
        attempt calls
          (λ _.
            write_at 32 (block_encrypt key (take 16 (drop 16 out)) (take 16 (drop 16 s.key))) out)
          illegal_state "block cipher encrypt failure." block_dispose
    attempt calls (λ _. record { array = out; digested = take 48 out }) illegal_state
        "message digest failure." block_dispose

  -- The input, encrypted behind the initialisation vector of the stream.
  pub encrypt_input : (s : Session) (input : Bytes) (o : Output) → Body Label (Option Bytes) Output
  encrypt_input s input o = do
    acquire calls stream_context (λ _. tt) illegal_state "stream cipher init failure." block_dispose
    in_bounds (leb (48 + length s.stream_iv) (length o.array))
    out ←
        attempt calls (λ _. write_at 48 s.stream_iv o.array) illegal_state
          "stream cipher start encryption failure." stream_dispose
    let offset = 48 + length s.stream_iv
    in_bounds (leb (offset + length input) (length out))
    out ←
        attempt calls (λ _. write_at offset (crypt (encrypt_byte s.key s.stream_iv) 0 input) out)
          illegal_state "stream cipher encryption failure." stream_dispose
    attempt calls
        (λ _. record {
          array = out;
          digested = o.digested ++ take (8 + length input) (drop 48 out);
        })
        illegal_state "message digest failure." stream_dispose

  -- The authentication code of what is digested, behind it.
  pub append_mac : (s : Session) (input_size : ℕ) (o : Output) → Body Label (Option Bytes) Bytes
  append_mac s input_size o = do
    let offset = 8 + input_size
    acquire calls mac_buffer (λ _. tt) illegal_state "mac buffer init failure." stream_dispose
    code ←
        attempt calls (λ _. mac s.key o.digested) illegal_state "mac finalize failure."
          mac_buffer_dispose
    in_bounds (leb (48 + offset + length code) (length o.array))
    pure (write_at (48 + offset) code o.array)

  pub encrypt_body :
      Option Bool → Option (Option Bytes) → Option Bytes → Body Label (Option Bytes) Bytes
  unfolding read_key create_output create_session encrypt_key encrypt_input append_mac
  encrypt_body inst that_key input = do
    verify_initialized inst return_null
    input ← non_null input null_pointer "input" return_null
    key ← read_key that_key
    out ← create_output (length input)
    s ← create_session
    o ← encrypt_key key s out
    o ← encrypt_input s input o
    append_mac s (length input) o

  -- `encryptNative` of `SimpleStreamCipher`.
  pub encrypt :
      Option Bool
      → Option (Option Bytes)
      → Option Bytes
      → World (Option Bytes)
      → Finish (Option Bytes)
  unfolding encrypt_body run
  encrypt inst that_key input =
      run cleanup mac_buffer_dispose none
        (encrypt_body inst that_key input >>= λ out. set_retval (some out))
