-- ===== src/Hmac.antt =====
-- crypt/HMAC_digestArrNative.c and crypt/HMAC_digestNative.c. No statement of either method gives
-- back the MAC context. The local references to the messages, which the JVM gives back when the
-- method returns, are not counted.
pub mod Phases
pub mod Complete
pub mod Concat
use v_j_bc.Base.{
  ℕ, Bool, if◌then◌else◌, Option, none, some, List, [], ◌∷◌, ◌++◌, Bytes, take, drop, new_array,
  write_at,
}
use v_j_bc.Jni.{
  illegal_state, null_pointer, Resource, key_bytes, key_buffer, msg_bytes, message_bytes,
  mac_buffer, mac_context, retval_bytes, World, Body, ◌>>=◌, ◌>>◌, pure, attempt, attempt_with,
  acquire, deref, non_null, release, set_retval, verify_initialized, Finish, run,
}
use v_j_bc.Suite.{Suite}

module _ (suite : Suite) where
  open suite use {calls, mac_short, mac, mac_short_size, mac_size}

  -- The authentication code that the flag `hmacShort` chooses, and its size.
  abbrev pub hmac : Bool → Bytes → Bytes → Bytes
  hmac short key text = if short then mac_short key text else mac key text

  abbrev pub hmac_size : Bool → ℕ
  hmac_size short = if short then mac_short_size else mac_size

  -- A copy of the key, and the MAC. A failure jumps to one of the labels.
  pub open_mac :
      {L : Type 0}
      → (key_buffer_dispose key_bytes_dispose done : L) → Bool
      → Bytes
      → Body L (Option Bytes) Bytes
  unfolding acquire
  open_mac key_buffer_dispose key_bytes_dispose done short key = do
    acquire calls key_bytes (λ _. tt) null_pointer "key_bytes" done
    acquire calls key_buffer (λ _. tt) illegal_state "key buffer creation failure."
        key_bytes_dispose
    if short
        then acquire calls mac_context (λ _. key) illegal_state "could not initialize short mac."
            key_buffer_dispose
        else acquire calls mac_context (λ _. key) illegal_state "could not initialize mac."
            key_buffer_dispose

  -- The code, finalized and copied to the return value.
  pub return_code :
      {L : Type 0}
      → (mac_buffer_dispose below : L) → Bool
      → (key text : Bytes) → Body L (Option Bytes) (Unit {0})
  unfolding acquire attempt release set_retval
  return_code mac_buffer_dispose below short key text = do
    acquire calls mac_buffer (λ _. tt) illegal_state "could not finalize." below
    code ←
        attempt calls (λ _. take (hmac_size short) (hmac short key text)) illegal_state
          "could not finalize." mac_buffer_dispose
    attempt calls (λ _. tt) illegal_state "return value array could not be allocated."
        mac_buffer_dispose
    set_retval (some (new_array (hmac_size short)))
    acquire calls retval_bytes (λ _. tt) illegal_state
        "return value array data could not be dereferenced." mac_buffer_dispose
    release retval_bytes
    set_retval (some (write_at 0 code (new_array (hmac_size short))))

pub data Label : Type 0 where
  mac_buffer_dispose message_bytes_dispose key_buffer_dispose key_bytes_dispose done : Label

abbrev pub label_line : Label → ℕ
label_line mac_buffer_dispose = 0
label_line message_bytes_dispose = 1
label_line key_buffer_dispose = 2
label_line key_bytes_dispose = 3
label_line done = 4

-- A jump runs the cleanup statements from its label to the end. The early `return NULL` is as a
-- jump to `done`.
abbrev pub cleanup : Label → List Resource
cleanup l = drop (label_line l) (mac_buffer ∷ message_bytes ∷ key_buffer ∷ key_bytes ∷ [])

-- `digestArrNative` has no label `message_bytes_dispose`.
pub data ArrLabel : Type 0 where
  arr_mac_buffer_dispose arr_key_buffer_dispose arr_key_bytes_dispose arr_done : ArrLabel

abbrev pub arr_label_line : ArrLabel → ℕ
arr_label_line arr_mac_buffer_dispose = 0
arr_label_line arr_key_buffer_dispose = 1
arr_label_line arr_key_bytes_dispose = 2
arr_label_line arr_done = 3

abbrev pub arr_cleanup : ArrLabel → List Resource
arr_cleanup l = drop (arr_label_line l) (mac_buffer ∷ key_buffer ∷ key_bytes ∷ [])

module _ (suite : Suite) where
  open suite use {calls}

  -- The loop over the messages, with what has been digested. A message that is null is passed to
  -- `GetByteArrayElements` with no test.
  pub digest_each : List (Option Bytes) → Bytes → Body ArrLabel (Option Bytes) Bytes
  unfolding deref acquire attempt_with release pure
  digest_each [] text = pure text
  digest_each (message ∷ messages) text = do
    bytes ← deref message
    acquire calls msg_bytes (λ _. tt) null_pointer "msg_bytes" arr_key_buffer_dispose
    attempt_with calls msg_bytes (λ _. tt) illegal_state "could not digest" arr_key_buffer_dispose
    release msg_bytes
    digest_each messages (text ++ bytes)

  pub digest_arr_body :
      Option Bool
      → Option Bytes
      → Option (List (Option Bytes))
      → Bool
      → Body ArrLabel (Option Bytes) (Unit {0})
  unfolding verify_initialized non_null open_mac return_code
  digest_arr_body inst key messages short = do
    verify_initialized inst arr_done
    key ← non_null key null_pointer "key" arr_done
    messages ← non_null messages null_pointer "messages" arr_done
    k ← open_mac suite arr_key_buffer_dispose arr_key_bytes_dispose arr_done short key
    text ← digest_each messages []
    return_code suite arr_mac_buffer_dispose arr_key_buffer_dispose short k text

  -- `digestArrNative`
  pub digest_arr :
      Option Bool
      → Option Bytes
      → Option (List (Option Bytes))
      → Bool
      → World (Option Bytes)
      → Finish (Option Bytes)
  unfolding digest_arr_body run
  digest_arr inst key messages short =
      run arr_cleanup arr_mac_buffer_dispose none (digest_arr_body inst key messages short)

  pub digest_message : Bytes → Body Label (Option Bytes) Bytes
  unfolding acquire attempt
  digest_message message = do
    acquire calls message_bytes (λ _. tt) null_pointer "message_bytes" key_buffer_dispose
    attempt calls (λ _. message) illegal_state "could not digest." message_bytes_dispose

  pub digest_body :
      Option Bool → (key message : Option Bytes) → Bool → Body Label (Option Bytes) (Unit {0})
  unfolding verify_initialized non_null open_mac digest_message return_code
  digest_body inst key message short = do
    verify_initialized inst done
    key ← non_null key null_pointer "key" done
    message ← non_null message null_pointer "message" done
    k ← open_mac suite key_buffer_dispose key_bytes_dispose done short key
    text ← digest_message message
    return_code suite mac_buffer_dispose message_bytes_dispose short k text

  -- `digestNative`
  pub digest :
      Option Bool
      → (key message : Option Bytes) → Bool
      → World (Option Bytes)
      → Finish (Option Bytes)
  unfolding digest_body run
  digest inst key message short =
      run cleanup mac_buffer_dispose none (digest_body inst key message short)
