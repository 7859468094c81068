-- ===== src/Hmac/Phases.antt =====
-- What each phase of the two computations of an authentication code does.
use v_j_bc.Base.{
  ℕ, ◌≡◌, ap, sym, subst, ◌∙◌, Bool, true, false, Option, none, some, List, [], ◌∷◌, ◌++◌, Bytes,
  length, take, take_all, new_array, length-new_array, write_at, write_at-all,
}
use v_j_bc.Jni.{
  ExceptionClass, Resource, mac_context, message_bytes, mac_buffer, illegal_state, null_pointer,
}
use v_j_bc.Jni.Point.{shape, Reason, Passes, IsBlank, null, unwritten}
use v_j_bc.Jni.Remove.{left, given}
use v_j_bc.Jni.Rules.{deref-then, step_rules}
use v_j_bc.Suite.{Suite, IsSuite}
use v_j_bc.Hmac.{
  hmac, hmac_size, open_mac, return_code, cleanup, mac_buffer_dispose, message_bytes_dispose,
  key_buffer_dispose, key_bytes_dispose, done, arr_cleanup, arr_mac_buffer_dispose,
  arr_key_buffer_dispose, arr_key_bytes_dispose, arr_done, digest_each, digest_message,
}

-- The messages, one behind the other, behind `text`.
abbrev pub digested : Bytes → List Bytes → Bytes
digested text [] = text
digested text (m ∷ ms) = digested (text ++ m) ms

-- The messages as Java objects, none of which is null.
abbrev pub objects : List Bytes → List (Option Bytes)
objects [] = []
objects (m ∷ ms) = some m ∷ objects ms

-- What a failure leaves for ever: nothing, or the MAC context.
pub data Undisposed : List Resource → Type 0 where
  all_disposed : Undisposed []
  context_left : Undisposed (mac_context ∷ [])

-- Why a digest refuses its arguments, and the class of the exception that says so.
pub data Refusal {A : Type 0} (initialized : Bool)
    : Option Bytes → Option A → ExceptionClass → Type 0 where
  not_initialized :
      {key : Option Bytes} {message : Option A}
      → initialized ≡ false
      → Refusal initialized key message illegal_state
  no_key : {message : Option A} → Refusal initialized none message null_pointer
  no_message : {key : Bytes} → Refusal initialized (some key) none null_pointer

-- What a digest accepts.
pub data Accepted {A : Type 0} (initialized : Bool) : Option Bytes → Option A → Type 0 where
  accepted :
      {key : Bytes} {message : A}
      → initialized ≡ true
      → Accepted initialized (some key) (some message)

pub ruleset reasons = (
  not_initialized, no_key, no_message, accepted, null, unwritten, all_disposed, context_left, left,
  given,
)

module _ (suite : Suite) (laws : IsSuite suite) where
  -- The same, or a call that failed.
  abbrev pub Refused :
      {A : Type 0} → Bool → Option Bytes → Option A → ℕ → ℕ → ExceptionClass → Type 0
  Refused initialized key message = Reason suite.calls (Refusal initialized key message)

  length-hmac :
      (short : Bool) (key text : Bytes) → length (hmac suite short key text) ≡ hmac_size suite short
  length-hmac true key text = laws.length-mac_short key text ∙ sym laws.mac_short_size_lem
  length-hmac false key text = laws.length-mac key text ∙ sym laws.mac_size_lem

  written :
      (short : Bool) (key text : Bytes)
      → write_at 0
          (take (hmac_size suite short) (hmac suite short key text))
          (new_array (hmac_size suite short))
        ≡ hmac suite short key text
  written short key text =
      ap (λ t. write_at 0 t (new_array (hmac_size suite short)))
        (take_all (hmac_size suite short) (hmac suite short key text) (length-hmac short key text))
      ∙ write_at-all (hmac suite short key text) (new_array (hmac_size suite short))
          (length-hmac short key text ∙ sym (length-new_array (hmac_size suite short)))

  module _ (X : ExceptionClass → Type 0) where
    pub arr_open-Passes :
        (short : Bool) (key : Bytes)
        → Passes arr_cleanup Undisposed IsBlank
            (Reason suite.calls X)
            (shape (arr_cleanup arr_done) none)
            (shape (mac_context ∷ arr_cleanup arr_key_buffer_dispose) none)
            (λ k. k ≡ key)
            (open_mac suite arr_key_buffer_dispose arr_key_bytes_dispose arr_done short key)
    unfolding open_mac
    arr_open-Passes true key = search (step_rules, reasons) depth 30 fits 4000
    arr_open-Passes false key = search (step_rules, reasons) depth 30 fits 4000

    pub arr_return-Passes :
        (short : Bool) (key text : Bytes)
        → Passes arr_cleanup Undisposed IsBlank
            (Reason suite.calls X)
            (shape (mac_context ∷ arr_cleanup arr_key_buffer_dispose) none)
            (shape
              (mac_buffer ∷ mac_context ∷ arr_cleanup arr_key_buffer_dispose)
              (some (hmac suite short key text)))
            (λ _. Unit {0})
            (return_code suite arr_mac_buffer_dispose arr_key_buffer_dispose short key text)
    unfolding return_code
    arr_return-Passes short key text =
        subst
          (λ t.
            Passes arr_cleanup Undisposed IsBlank (Reason suite.calls X)
              (shape (mac_context ∷ arr_cleanup arr_key_buffer_dispose) none)
              (shape (mac_buffer ∷ mac_context ∷ arr_cleanup arr_key_buffer_dispose) (some t))
              (λ _. Unit {0})
              (return_code suite arr_mac_buffer_dispose arr_key_buffer_dispose short key text))
          (written short key text) (search (step_rules, reasons) depth 30 fits 4000)

    pub digest_each-Passes :
        (messages : List Bytes) (text : Bytes)
        → Passes arr_cleanup Undisposed IsBlank
            (Reason suite.calls X)
            (shape (mac_context ∷ arr_cleanup arr_key_buffer_dispose) none)
            (shape (mac_context ∷ arr_cleanup arr_key_buffer_dispose) none)
            (λ t. t ≡ digested text messages)
            (digest_each suite (objects messages) text)
    unfolding digest_each
    digest_each-Passes [] text = search (step_rules, reasons) depth 30 fits 4000
    digest_each-Passes (m ∷ ms) text =
        search (step_rules, deref-then, reasons, digest_each-Passes ms (text ++ m)) depth 30 fits
          4000

    pub open-Passes :
        (short : Bool) (key : Bytes)
        → Passes cleanup Undisposed IsBlank
            (Reason suite.calls X)
            (shape (cleanup done) none)
            (shape (mac_context ∷ cleanup key_buffer_dispose) none)
            (λ k. k ≡ key)
            (open_mac suite key_buffer_dispose key_bytes_dispose done short key)
    unfolding open_mac
    open-Passes true key = search (step_rules, reasons) depth 30 fits 4000
    open-Passes false key = search (step_rules, reasons) depth 30 fits 4000

    pub digest_message-Passes :
        (message : Bytes)
        → Passes cleanup Undisposed IsBlank
            (Reason suite.calls X)
            (shape (mac_context ∷ cleanup key_buffer_dispose) none)
            (shape (message_bytes ∷ mac_context ∷ cleanup key_buffer_dispose) none)
            (λ t. t ≡ message)
            (digest_message suite message)
    unfolding digest_message
    digest_message-Passes message = search (step_rules, reasons) depth 30 fits 4000

    pub return-Passes :
        (short : Bool) (key text : Bytes)
        → Passes cleanup Undisposed IsBlank
            (Reason suite.calls X)
            (shape (message_bytes ∷ mac_context ∷ cleanup key_buffer_dispose) none)
            (shape
              (mac_buffer ∷ message_bytes ∷ mac_context ∷ cleanup key_buffer_dispose)
              (some (hmac suite short key text)))
            (λ _. Unit {0})
            (return_code suite mac_buffer_dispose message_bytes_dispose short key text)
    unfolding return_code
    return-Passes short key text =
        subst
          (λ t.
            Passes cleanup Undisposed IsBlank (Reason suite.calls X)
              (shape (message_bytes ∷ mac_context ∷ cleanup key_buffer_dispose) none)
              (shape (mac_buffer ∷ message_bytes ∷ mac_context ∷ cleanup key_buffer_dispose)
                (some t))
              (λ _. Unit {0})
              (return_code suite mac_buffer_dispose message_bytes_dispose short key text))
          (written short key text) (search (step_rules, reasons) depth 30 fits 4000)
