-- ===== src/KeyPairs/Signing.antt =====
-- crypt/SigningKeyPair_generateNative.c
pub mod Complete
use v_j_bc.Base.{
  ℕ, Bool, true, if◌then◌else◌, Option, none, some, List, [], ◌∷◌, Bytes, drop, length, new_array,
  write_at,
}
use v_j_bc.Jni.{
  illegal_state, Resource, signature_context, private_key_buffer, public_key_buffer, priv_array,
  priv_array_data, pub_array, pub_array_data, priv_key, pub_key, World, Body, ◌>>=◌, ◌>>◌, pure,
  attempt, acquire, test, release, set_retval, verify_initialized, Finish, run,
}
use v_j_bc.Suite.{Suite}

pub data Label : Type 0 where
  pub_array_dispose priv_array_dispose pub_dispose priv_dispose sign_dispose return_null : Label

abbrev pub label_line : Label → ℕ
label_line pub_array_dispose = 0
label_line priv_array_dispose = 1
label_line pub_dispose = 2
label_line priv_dispose = 3
label_line sign_dispose = 4
label_line return_null = 5

-- A jump runs the cleanup statements from its label to the end; `return NULL` runs none.
abbrev pub cleanup : Label → List Resource
cleanup l =
    drop (label_line l)
      (pub_array ∷ priv_array ∷ public_key_buffer ∷ private_key_buffer ∷ signature_context ∷ [])

-- A key pair object, known by the private and the public key.
abbrev pub KeyPair : Type 0
KeyPair = Option (Bytes × Bytes)

module _ (suite : Suite) where
  open suite use {calls, makes, signing_pair}

  pub create_pair : Body Label KeyPair (Bytes × Bytes)
  unfolding acquire attempt
  create_pair = do
    acquire calls signature_context (λ _. tt) illegal_state
        "digital signature could not be initialized." return_null
    acquire calls private_key_buffer (λ _. tt) illegal_state
        "private key buffer could not be initialized." sign_dispose
    acquire calls public_key_buffer (λ _. tt) illegal_state
        "public key buffer could not be initialized." priv_dispose
    attempt calls (λ n. signing_pair n) illegal_state "keypair could not be generated." pub_dispose

  -- Java arrays with copies of the keys.
  pub copy_pair : Bytes × Bytes → Body Label KeyPair (Bytes × Bytes)
  unfolding acquire release pure
  copy_pair pair = do
    acquire calls priv_array (λ _. tt) illegal_state "priv key array could not be allocated."
        pub_dispose
    acquire calls priv_array_data (λ _. tt) illegal_state
        "priv key array data could not be dereferenced." priv_array_dispose
    release priv_array_data
    acquire calls pub_array (λ _. tt) illegal_state "pub key array could not be allocated."
        priv_array_dispose
    acquire calls pub_array_data (λ _. tt) illegal_state
        "pub key array data could not be dereferenced." pub_array_dispose
    release pub_array_data
    pure (
      write_at 0 pair.0 (new_array (length pair.0)),
      write_at 0 pair.1 (new_array (length pair.1)),
    )

  -- No statement gives back the local references to the objects of the keys. The last call
  -- returns what `NewObject` returns, with no test.
  pub return_pair : Bytes × Bytes → Body Label KeyPair KeyPair
  unfolding acquire test pure
  return_pair pair = do
    acquire calls priv_key (λ _. tt) illegal_state "signingPrivateKey could not be instantiated."
        pub_array_dispose
    acquire calls pub_key (λ _. tt) illegal_state "signingPublicKey could not be instantiated."
        pub_array_dispose
    made ← test makes true
    pure (if made then some pair else none)

  pub generate_signing_body : Option Bool → Body Label KeyPair KeyPair
  unfolding verify_initialized create_pair copy_pair return_pair
  generate_signing_body inst = do
    verify_initialized inst return_null
    pair ← create_pair
    pair ← copy_pair pair
    return_pair pair

  -- `generateNative` of `SigningKeyPair`.
  pub generate_signing : Option Bool → World KeyPair → Finish KeyPair
  unfolding generate_signing_body run set_retval
  generate_signing inst =
      run cleanup pub_array_dispose none (generate_signing_body inst >>= λ r. set_retval r)
