-- ===== src/Documents/Wrap.antt =====
-- document/EncryptedDocumentBuilder_encryptKey.c
pub mod Layout
pub mod Phases
pub mod Complete
use v_j_bc.Base.{
  ℕ, ◌+◌, Bool, Option, none, some, List, [], ◌∷◌, Bytes, leb, length, take, drop, write_at,
  new_array, ◌&&◌,
}
use v_j_bc.Jni.{
  illegal_state, null_pointer, Resource, key_array_data, private_key_array, private_key_array_data,
  private_key_buffer, public_key_array, public_key_array_data, public_key_buffer, iv_buffer,
  agreement_context, key_buffer, prng_context, output_array_data, block_context, World, Body, ◌>>=◌,
  ◌>>◌, pure, attempt, acquire, non_null, in_bounds, set_retval, verify_initialized, Finish, run,
}
use v_j_bc.Suite.{Suite}
use v_j_bc.Documents.Envelope.{KeyObject}

pub data Label : Type 0 where
  block_dispose output_array_data_dispose iv_buffer_dispose prng_dispose ka_dispose : Label
  key_buffer_dispose public_key_buffer_dispose public_key_array_data_dispose : Label
  public_key_array_dispose private_key_buffer_dispose private_key_array_data_dispose : Label
  private_key_array_dispose key_array_data_dispose return_null : Label

abbrev pub label_line : Label → ℕ
label_line block_dispose = 0
label_line output_array_data_dispose = 1
label_line iv_buffer_dispose = 2
label_line prng_dispose = 3
label_line ka_dispose = 4
label_line key_buffer_dispose = 5
label_line public_key_buffer_dispose = 6
label_line public_key_array_data_dispose = 7
label_line public_key_array_dispose = 8
label_line private_key_buffer_dispose = 9
label_line private_key_array_data_dispose = 10
label_line private_key_array_dispose = 11
label_line key_array_data_dispose = 12
label_line return_null = 13

-- A jump runs the cleanup statements from its label to the end; `return NULL` runs none.
abbrev pub cleanup : Label → List Resource
cleanup l = drop (label_line l) (
    block_context ∷ output_array_data ∷ iv_buffer ∷ prng_context ∷ agreement_context ∷ key_buffer
    ∷ public_key_buffer ∷ public_key_array_data ∷ public_key_array ∷ private_key_buffer
    ∷ private_key_array_data ∷ private_key_array ∷ key_array_data ∷ [])

abbrev pub iv_size : ℕ
iv_size = 16

module _ (suite : Suite) where
  open suite use {calls, random, private_key_size, public_key_size, long_term_secret, block_encrypt}

  -- The raw bytes of the private key, copied.
  pub read_private_key : Option Bytes → Body Label (Option Bytes) Bytes
  read_private_key private = do
    acquire calls key_array_data (λ _. tt) null_pointer "key data read failure." return_null
    raw ← non_null private null_pointer "localPrivate.getRawBytes()" key_array_data_dispose
    acquire calls private_key_array (λ _. tt) null_pointer "localPrivate.getRawBytes()"
        key_array_data_dispose
    acquire calls private_key_array_data (λ _. tt) null_pointer "private key data read failure."
        private_key_array_dispose
    acquire calls private_key_buffer (λ _. tt) illegal_state "private key buffer creation failure."
        private_key_array_data_dispose
    in_bounds (leb 32 (length raw) && leb 32 private_key_size)
    pure (take 32 raw)

  -- The raw bytes of the public key, copied.
  pub read_public_key : Option Bytes → Body Label (Option Bytes) Bytes
  read_public_key public = do
    raw ← non_null public null_pointer "publicKeyArray.getRawBytes()" private_key_buffer_dispose
    acquire calls public_key_array (λ _. tt) null_pointer "publicKeyArray.getRawBytes()"
        private_key_buffer_dispose
    acquire calls public_key_array_data (λ _. tt) null_pointer "public key data read failure."
        public_key_array_dispose
    acquire calls public_key_buffer (λ _. tt) illegal_state "public key buffer creation failure."
        public_key_array_data_dispose
    in_bounds (leb 32 (length raw) && leb 32 public_key_size)
    pure (take 32 raw)

  -- The long term secret of the two keys.
  pub agree : (private public : Bytes) → Body Label (Option Bytes) Bytes
  agree private public = do
    acquire calls key_buffer (λ _. tt) illegal_state "public key buffer creation failure."
        public_key_buffer_dispose
    acquire calls agreement_context (λ _. tt) illegal_state
        "key agreement context creation failure." key_buffer_dispose
    attempt calls (λ _. long_term_secret private public) illegal_state "key agreement failure."
        ka_dispose

  -- A random initialisation vector.
  pub create_iv : Body Label (Option Bytes) Bytes
  create_iv = do
    acquire calls prng_context (λ _. tt) illegal_state "prng instance creation failure." ka_dispose
    acquire calls iv_buffer (λ _. tt) illegal_state "iv buffer creation failure." prng_dispose
    attempt calls (λ n. random n iv_size) illegal_state "prng read failure." iv_buffer_dispose

  -- The output array, with the initialisation vector and the two blocks.
  pub encrypt_blocks : (secret iv key : Bytes) → Body Label (Option Bytes) Bytes
  encrypt_blocks secret iv key = do
    attempt calls (λ _. tt) null_pointer "outputArray creation failure." iv_buffer_dispose
    out ←
        acquire calls output_array_data (λ _. new_array (iv_size + length key)) null_pointer
          "outputArray data read failure." iv_buffer_dispose
    acquire calls block_context (λ _. tt) illegal_state "block cipher creation failure."
        output_array_data_dispose
    in_bounds (leb 16 (length iv) && leb 16 (length out))
    let out = write_at 0 (take 16 iv) out
    in_bounds (leb 16 (length key) && leb 32 (length out))
    out ←
        attempt calls (λ _. write_at 16 (block_encrypt secret (take 16 out) (take 16 key)) out)
          illegal_state "block cipher block 1 encrypt failure." block_dispose
    in_bounds (leb 32 (length key) && leb 48 (length out))
    attempt calls
        (λ _.
          write_at 32 (block_encrypt secret (take 16 (drop 16 out)) (take 16 (drop 16 key))) out)
        illegal_state "block cipher block 2 encrypt failure." block_dispose

  pub wrap_key_body :
      Option Bool → KeyObject → KeyObject → Option Bytes → Body Label (Option Bytes) Bytes
  unfolding read_private_key read_public_key agree create_iv encrypt_blocks
  wrap_key_body inst local_private peer_public key = do
    verify_initialized inst return_null
    private ← non_null local_private null_pointer "localPrivate" return_null
    public ← non_null peer_public null_pointer "peerPublic" return_null
    key ← non_null key null_pointer "key" return_null
    private ← read_private_key private
    public ← read_public_key public
    secret ← agree private public
    iv ← create_iv
    encrypt_blocks secret iv key

  -- `encryptKey` of `EncryptedDocumentBuilder`.
  pub wrap_key :
      Option Bool
      → KeyObject
      → KeyObject
      → Option Bytes
      → World (Option Bytes)
      → Finish (Option Bytes)
  unfolding wrap_key_body run
  wrap_key inst local_private peer_public key =
      run cleanup block_dispose none
        (wrap_key_body inst local_private peer_public key >>= λ out. set_retval (some out))
