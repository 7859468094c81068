-- ===== src/Agentd/SharedSecret.antt =====
-- agentd/ProtocolHandlerImpl_computeSharedSecretNative.c: the secret of a session.
pub mod Complete
use v_j_bc.Base.{ℕ, Bool, Option, none, some, List, [], ◌∷◌, Bytes, length, drop, new_array}
use v_j_bc.Jni.{
  illegal_state, null_pointer, Resource, client_private_key_bytes, client_private_key_buffer,
  server_public_key_bytes, server_public_key_buffer, server_nonce_bytes, server_nonce_buffer,
  client_nonce_bytes, client_nonce_buffer, shared_secret_buffer, agreement_context, retval_bytes,
  World, Body, ◌>>=◌, ◌>>◌, attempt, acquire, non_null, set_retval, release, verify_initialized,
  Finish, run,
}
use v_j_bc.Suite.{Suite}

pub data Label : Type 0 where
  key_agreement_dispose shared_secret_buffer_dispose client_nonce_buffer_dispose : Label
  client_nonce_bytes_dispose server_nonce_buffer_dispose server_nonce_bytes_dispose : Label
  server_public_key_buffer_dispose server_public_key_bytes_dispose : Label
  client_private_key_buffer_dispose client_private_key_bytes_dispose done : Label

abbrev pub label_line : Label → ℕ
label_line key_agreement_dispose = 0
label_line shared_secret_buffer_dispose = 1
label_line client_nonce_buffer_dispose = 2
label_line client_nonce_bytes_dispose = 3
label_line server_nonce_buffer_dispose = 4
label_line server_nonce_bytes_dispose = 5
label_line server_public_key_buffer_dispose = 6
label_line server_public_key_bytes_dispose = 7
label_line client_private_key_buffer_dispose = 8
label_line client_private_key_bytes_dispose = 9
label_line done = 10

-- A jump runs the cleanup statements from its label to the end.
abbrev pub cleanup : Label → List Resource
cleanup l = drop (label_line l) (
    agreement_context ∷ shared_secret_buffer ∷ client_nonce_buffer ∷ client_nonce_bytes
    ∷ server_nonce_buffer ∷ server_nonce_bytes ∷ server_public_key_buffer ∷ server_public_key_bytes
    ∷ client_private_key_buffer ∷ client_private_key_bytes ∷ [])

module _ (suite : Suite) where
  open suite use {calls, short_term_secret}

  -- The copies of the two keys.
  pub copy_keys : Body Label (Option Bytes) (Unit {0})
  copy_keys = do
    acquire calls client_private_key_bytes (λ _. tt) null_pointer "client_private_key_bytes" done
    acquire calls client_private_key_buffer (λ _. tt) illegal_state
        "client private key buffer creation failure." client_private_key_bytes_dispose
    acquire calls server_public_key_bytes (λ _. tt) null_pointer "server_public_key_bytes"
        client_private_key_buffer_dispose
    acquire calls server_public_key_buffer (λ _. tt) illegal_state
        "server public key buffer creation failure." server_public_key_bytes_dispose

  -- The copies of the two nonces.
  pub copy_nonces : Body Label (Option Bytes) (Unit {0})
  copy_nonces = do
    acquire calls server_nonce_bytes (λ _. tt) null_pointer "server_nonce_bytes"
        server_public_key_buffer_dispose
    acquire calls server_nonce_buffer (λ _. tt) illegal_state
        "server nonce buffer creation failure." server_nonce_bytes_dispose
    acquire calls client_nonce_bytes (λ _. tt) null_pointer "client_nonce_bytes"
        server_nonce_buffer_dispose
    acquire calls client_nonce_buffer (λ _. tt) illegal_state
        "client nonce buffer creation failure." client_nonce_bytes_dispose

  pub create_secret :
      (private public server_nonce client_nonce : Bytes) → Body Label (Option Bytes) Bytes
  create_secret private public server_nonce client_nonce = do
    acquire calls shared_secret_buffer (λ _. tt) illegal_state
        "vccrypt_suite_buffer_init_for_cipher_key_agreement_shared_secret"
        client_nonce_buffer_dispose
    acquire calls agreement_context (λ _. tt) illegal_state
        "vccrypt_suite_cipher_key_agreement_init" shared_secret_buffer_dispose
    attempt calls (λ _. short_term_secret private public server_nonce client_nonce) illegal_state
        "vccrypt_key_agreement_short_term_secret_create" key_agreement_dispose

  -- The byte array for the return value.
  pub return_secret : Bytes → Body Label (Option Bytes) (Unit {0})
  return_secret secret = do
    attempt calls (λ _. tt) null_pointer "return value array could not be allocated."
        key_agreement_dispose
    set_retval (some (new_array (length secret)))
    acquire calls retval_bytes (λ _. tt) null_pointer
        "return value array data could not be dereferenced." key_agreement_dispose
    release retval_bytes
    set_retval (some secret)

  pub compute_shared_secret_body :
      Option Bool
      → (private_key public_key server_nonce client_nonce : Option Bytes)
      → Body Label (Option Bytes) (Unit {0})
  unfolding copy_keys copy_nonces create_secret return_secret
  compute_shared_secret_body inst private_key public_key server_nonce client_nonce = do
    verify_initialized inst done
    private ← non_null private_key null_pointer "client_private_key" done
    public ← non_null public_key null_pointer "server_public_key" done
    server_nonce ← non_null server_nonce null_pointer "server_nonce" done
    client_nonce ← non_null client_nonce null_pointer "client_nonce" done
    copy_keys
    copy_nonces
    secret ← create_secret private public server_nonce client_nonce
    return_secret secret

  -- `computeSharedSecretNative`: `retval` starts as NULL.
  pub compute_shared_secret :
      Option Bool
      → (private_key public_key server_nonce client_nonce : Option Bytes) → World (Option Bytes)
      → Finish (Option Bytes)
  unfolding compute_shared_secret_body run
  compute_shared_secret inst private_key public_key server_nonce client_nonce =
      run cleanup key_agreement_dispose none
        (compute_shared_secret_body inst private_key public_key server_nonce client_nonce)
