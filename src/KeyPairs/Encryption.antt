-- ===== src/KeyPairs/Encryption.antt =====
-- crypt/EncryptionKeyPair_generateNative.c
pub mod Complete
use v_j_bc.Base.{
  ℕ, Bool, Option, none, some, List, [], ◌∷◌, Bytes, drop, length, new_array, write_at,
}
use v_j_bc.Jni.{
  illegal_state, Resource, agreement_context, private_key_buffer, public_key_buffer, priv_array,
  priv_array_data, pub_array, pub_array_data, priv_key, pub_key, World, Body, ◌>>=◌, ◌>>◌, pure,
  attempt, acquire, release, set_retval, verify_initialized, Finish, run,
}
use v_j_bc.Suite.{Suite}

pub data Label : Type 0 where
  pub_key_dispose priv_key_dispose pub_array_dispose priv_array_dispose pub_dispose : Label
  priv_dispose ka_dispose return_null : Label

abbrev pub label_line : Label → ℕ
label_line pub_key_dispose = 0
label_line priv_key_dispose = 1
label_line pub_array_dispose = 2
label_line priv_array_dispose = 3
label_line pub_dispose = 4
label_line priv_dispose = 5
label_line ka_dispose = 6
label_line return_null = 7

-- A jump runs the cleanup statements from its label to the end; `return NULL` runs none.
abbrev pub cleanup : Label → List Resource
cleanup l = drop (label_line l) (
    pub_key ∷ priv_key ∷ pub_array ∷ priv_array ∷ public_key_buffer ∷ private_key_buffer
    ∷ agreement_context ∷ [])

-- A key pair object, known by the private and the public key.
abbrev pub KeyPair : Type 0
KeyPair = Option (Bytes × Bytes)

module _ (suite : Suite) where
  open suite use {calls, key_pair}

  pub create_pair : Body Label KeyPair (Bytes × Bytes)
  unfolding acquire attempt
  create_pair = do
    acquire calls agreement_context (λ _. tt) illegal_state
        "cipher key agreement could not be initialized." return_null
    acquire calls private_key_buffer (λ _. tt) illegal_state
        "private key buffer could not be initialized." ka_dispose
    acquire calls public_key_buffer (λ _. tt) illegal_state
        "public key buffer could not be initialized." priv_dispose
    attempt calls (λ n. key_pair n) illegal_state "keypair could not be generated." pub_dispose

  -- Java arrays with copies of the keys.
  pub copy_pair : Bytes × Bytes → Body Label KeyPair (Bytes × Bytes)
  unfolding acquire release pure
  copy_pair pair = do
    acquire calls priv_array (λ _. tt) illegal_state "priv key array could not be allocated."
        pub_dispose
    acquire calls priv_array_data (λ _. tt) illegal_state
        "priv key array data could not be dereferenced." priv_array_dispose
    release priv_array_data
    acquire calls pub_array (λ _. tt) illegal_state "pub key array could not be allocated."
        priv_array_dispose
    acquire calls pub_array_data (λ _. tt) illegal_state
        "pub key array data could not be dereferenced." pub_array_dispose
    release pub_array_data
    pure (
      write_at 0 pair.0 (new_array (length pair.0)),
      write_at 0 pair.1 (new_array (length pair.1)),
    )

  pub return_pair : Bytes × Bytes → Body Label KeyPair (Bytes × Bytes)
  unfolding acquire attempt
  return_pair pair = do
    acquire calls priv_key (λ _. tt) illegal_state "privateKey could not be instantiated."
        pub_array_dispose
    acquire calls pub_key (λ _. tt) illegal_state "publicKey could not be instantiated."
        priv_key_dispose
    attempt calls (λ _. pair) illegal_state "EncryptionKeyPair could not be instantiated."
        pub_key_dispose

  pub generate_encryption_body : Option Bool → Body Label KeyPair (Bytes × Bytes)
  unfolding verify_initialized create_pair copy_pair return_pair
  generate_encryption_body inst = do
    verify_initialized inst return_null
    pair ← create_pair
    pair ← copy_pair pair
    return_pair pair

  -- `generateNative` of `EncryptionKeyPair`.
  pub generate_encryption : Option Bool → World KeyPair → Finish KeyPair
  unfolding generate_encryption_body run set_retval
  generate_encryption inst =
      run cleanup pub_key_dispose none
        (generate_encryption_body inst >>= λ pair. set_retval (some pair))
