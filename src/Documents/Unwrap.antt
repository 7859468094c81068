-- ===== src/Documents/Unwrap.antt =====
-- document/EncryptedDocumentReader_decryptKey.c
pub mod Phases
pub mod Complete
use v_j_bc.Base.{
  ℕ, ◌+◌, ◌-◌, Bool, Option, none, some, List, [], ◌∷◌, Bytes, leb, length, take, drop, write_at,
  new_array, ◌&&◌,
}
use v_j_bc.Jni.{
  illegal_state, null_pointer, Resource, key_array_data, private_key_array, private_key_array_data,
  private_key_buffer, public_key_array, public_key_array_data, public_key_buffer, iv_buffer,
  agreement_context, key_buffer, prng_context, output_array_data, block_context, World, Body, ◌>>=◌,
  ◌>>◌, pure, attempt, acquire, guard, non_null, in_bounds, set_retval, verify_initialized, Finish,
  run,
}
use v_j_bc.Suite.{Suite}
use v_j_bc.Documents.Envelope.{KeyObject}

pub data Label : Type 0 where
  block_dispose output_array_data_dispose ka_dispose key_buffer_dispose : Label
  public_key_buffer_dispose public_key_array_data_dispose public_key_array_dispose : Label
  private_key_buffer_dispose private_key_array_data_dispose private_key_array_dispose : Label
  key_array_data_dispose return_null : Label

abbrev pub label_line : Label → ℕ
label_line block_dispose = 0
label_line output_array_data_dispose = 1
label_line ka_dispose = 2
label_line key_buffer_dispose = 3
label_line public_key_buffer_dispose = 4
label_line public_key_array_data_dispose = 5
label_line public_key_array_dispose = 6
label_line private_key_buffer_dispose = 7
label_line private_key_array_data_dispose = 8
label_line private_key_array_dispose = 9
label_line key_array_data_dispose = 10
label_line return_null = 11

-- A jump runs the cleanup statements from its label to the end; `return NULL` runs none.
abbrev pub cleanup : Label → List Resource
cleanup l = drop (label_line l) (
    block_context ∷ output_array_data ∷ agreement_context ∷ key_buffer ∷ public_key_buffer
    ∷ public_key_array_data ∷ public_key_array ∷ private_key_buffer ∷ private_key_array_data
    ∷ private_key_array ∷ key_array_data ∷ [])

abbrev pub iv_size : ℕ
iv_size = 16

module _ (suite : Suite) where
  open suite use {calls, private_key_size, public_key_size, long_term_secret, block_decrypt}

  -- The raw bytes of the private key, copied.
  pub read_private_key : Option Bytes → Body Label (Option Bytes) Bytes
  read_private_key private = do
    acquire calls key_array_data (λ _. tt) null_pointer "key data read failure." return_null
    raw ← non_null private null_pointer "private key read failure." key_array_data_dispose
    acquire calls private_key_array (λ _. tt) null_pointer "private key read failure."
        key_array_data_dispose
    acquire calls private_key_array_data (λ _. tt) null_pointer "private key data read failure."
        private_key_array_dispose
    acquire calls private_key_buffer (λ _. tt) illegal_state "private key buffer creation failure."
        private_key_array_data_dispose
    in_bounds (leb 32 (length raw) && leb 32 private_key_size)
    pure (take 32 raw)

  -- The raw bytes of the public key, copied.
  pub read_public_key : Option Bytes → Body Label (Option Bytes) Bytes
  read_public_key public = do
    raw ← non_null public null_pointer "peerPublicKey.getRawBytes()" private_key_buffer_dispose
    acquire calls public_key_array (λ _. tt) null_pointer "peerPublicKey.getRawBytes()"
        private_key_buffer_dispose
    acquire calls public_key_array_data (λ _. tt) null_pointer "public key data read failure."
        public_key_array_dispose
    acquire calls public_key_buffer (λ _. tt) illegal_state "public key buffer creation failure."
        public_key_array_data_dispose
    in_bounds (leb 32 (length raw) && leb 32 public_key_size)
    pure (take 32 raw)

  -- The long term secret of the two keys.
  pub agree : (private public : Bytes) → Body Label (Option Bytes) Bytes
  agree private public = do
    acquire calls key_buffer (λ _. tt) illegal_state "public key buffer creation failure."
        public_key_buffer_dispose
    acquire calls agreement_context (λ _. tt) illegal_state
        "key agreement context creation failure." key_buffer_dispose
    attempt calls (λ _. long_term_secret private public) illegal_state "key agreement failure."
        ka_dispose

  -- The output array, with the two blocks. `NewByteArray` returns NULL for the negative size that
  -- `input_size - IV_SIZE` becomes, as a `jsize`, for a shorter input.
  pub decrypt_blocks : (secret enveloped : Bytes) → Body Label (Option Bytes) Bytes
  decrypt_blocks secret enveloped = do
    guard (leb iv_size (length enveloped)) null_pointer "outputArray creation failure." ka_dispose
    attempt calls (λ _. tt) null_pointer "outputArray creation failure." ka_dispose
    out ←
        acquire calls output_array_data (λ _. new_array (length enveloped - iv_size)) null_pointer
          "outputArray data read failure." ka_dispose
    acquire calls block_context (λ _. tt) illegal_state "block cipher creation failure."
        output_array_data_dispose
    in_bounds (leb 32 (length enveloped) && leb 16 (length out))
    out ←
        attempt calls
          (λ _.
            write_at 0 (block_decrypt secret (take 16 enveloped) (take 16 (drop 16 enveloped))) out)
          illegal_state "block cipher block 1 decrypt failure." block_dispose
    in_bounds (leb 48 (length enveloped) && leb 32 (length out))
    attempt calls
        (λ _.
          write_at 16
            (block_decrypt secret (take 16 (drop 16 enveloped)) (take 16 (drop 32 enveloped))) out)
        illegal_state "block cipher block 2 decrypt failure." block_dispose

  pub unwrap_key_body :
      Option Bool → KeyObject → KeyObject → Option Bytes → Body Label (Option Bytes) Bytes
  unfolding read_private_key read_public_key agree decrypt_blocks
  unwrap_key_body inst local_private peer_public encrypted_key = do
    verify_initialized inst return_null
    private ← non_null local_private null_pointer "localPrivateKey" return_null
    public ← non_null peer_public null_pointer "peerPublicKey" return_null
    enveloped ← non_null encrypted_key null_pointer "encryptedKey" return_null
    private ← read_private_key private
    public ← read_public_key public
    secret ← agree private public
    decrypt_blocks secret enveloped

  -- `decryptKey` of `EncryptedDocumentReader`.
  pub unwrap_key :
      Option Bool
      → KeyObject
      → KeyObject
      → Option Bytes
      → World (Option Bytes)
      → Finish (Option Bytes)
  unfolding unwrap_key_body run
  unwrap_key inst local_private peer_public encrypted_key = run cleanup block_dispose none (
      unwrap_key_body inst local_private peer_public encrypted_key >>= λ out. set_retval (some out))
