-- ===== src/Streams/Decrypt/Bodies.antt =====
-- What the bodies of the three decryptions of data do.
use v_j_bc.Base.{
  ℕ, ◌≡◌, ◌≤◌, refl, sym, subst, Bool, true, false, ◌==◌, Option, none, some, List, [], Bytes,
  arith, length, leb, le→leb, take, drop,
}
use v_j_bc.Jni.{ExceptionClass, illegal_state, null_pointer, Resource, ◌>>=◌}
use v_j_bc.Jni.Point.{nothing, Reason}
use v_j_bc.Jni.Remove.{apart}
use v_j_bc.Jni.Completes.{Nothing-apart}
use v_j_bc.Jni.Rules.{Steps-bind, Steps-mono, step_rules}
use v_j_bc.Suite.{Suite}
use v_j_bc.Streams.{create_output, commit}
use v_j_bc.Streams.Envelope.{AtLeast, plaintext}
use v_j_bc.Streams.Phases.{Unreleased, all_released, output_left, kept}
use v_j_bc.Streams.Encrypt.Phases.{checked, unchecked}
use v_j_bc.Streams.Decrypt.{
  Label, stream_cipher_dispose, input_array_data_dispose, secret_key_array_data_dispose,
  key_buffer_dispose, return_null, cleanup, open_input, output_size, start_decryption,
  decrypt_stream, decrypt_generic_body, decrypt_certificate_body,
}
use v_j_bc.Streams.Decrypt.Phases.{Phase, start_decryption-Passes, read-Passes}

-- Why a decryption with no vector argument refuses, and the class of the exception that says so.
pub data Refusal (initialized : Bool) (sized : Bytes → Bool)
    : Option Bytes → Option Bytes → ExceptionClass → Type 0 where
  not_initialized :
      {key input : Option Bytes}
      → initialized ≡ false
      → Refusal initialized sized key input illegal_state
  no_key : {input : Option Bytes} → Refusal initialized sized none input null_pointer
  no_input : {key : Bytes} → Refusal initialized sized (some key) none null_pointer
  bad_key_size :
      {key input : Bytes}
      → sized key ≡ false
      → Refusal initialized sized (some key) (some input) illegal_state

-- What is left does not stand in the way of a cleanup.
pub Unreleased-apart :
    (leaked : List Resource) → Unreleased leaked → (l : Label) → apart leaked (cleanup l) ≡ true
Unreleased-apart _ all_released l = Nothing-apart cleanup [] nothing l
Unreleased-apart _ output_left stream_cipher_dispose = refl
Unreleased-apart _ output_left input_array_data_dispose = refl
Unreleased-apart _ output_left secret_key_array_data_dispose = refl
Unreleased-apart _ output_left key_buffer_dispose = refl
Unreleased-apart _ output_left return_null = refl

module _ (suite : Suite) where
  -- The same, or a call that failed.
  abbrev pub Refused :
      Bool → (Bytes → Bool) → Option Bytes → Option Bytes → ℕ → ℕ → ExceptionClass → Type 0
  Refused initialized sized key input = Reason suite.calls (Refusal initialized sized key input)

  -- The result is the plaintext of a stream that begins with its vector.
  pub data IsPlaintext (initialized : Bool) (sized : Bytes → Bool) (size : Bytes → ℕ)
      : Option Bytes → Option Bytes → Option Bytes → Type 0 where
    is_plaintext :
        {key input : Bytes}
        → initialized ≡ true
        → sized key ≡ true
        → IsPlaintext initialized sized size
            (some key)
            (some input)
            (some (plaintext suite (take (size key) key) [] true 0 input))

  -- The result is the plaintext of a piece that stands at `position`.
  pub data IsRead (initialized : Bool) (position : ℕ)
      : Option Bytes → Option Bytes → Option Bytes → Option Bytes → Type 0 where
    is_read :
        {key iv input : Bytes}
        → initialized ≡ true
        → IsRead initialized position
            (some key)
            (some iv)
            (some input)
            (some (plaintext suite (take 32 key) iv (position == 0) position input))

  ruleset reasons = (not_initialized, no_key, no_input, bad_key_size)

  open_input-Passes :
      (X : ExceptionClass → Type 0) (size : ℕ) (key : Bytes)
      → size ≤ length key
      → Phase cleanup suite X stream_cipher_dispose
          (cleanup return_null)
          (cleanup stream_cipher_dispose)
          (λ k. k ≡ take size key)
          (open_input suite size key)
  unfolding open_input
  open_input-Passes X size key long = search (step_rules, kept, fits) depth 30
    where
      fits : leb size (length key) ≡ true
      fits = le→leb size (length key) long

  plain-Passes :
      (X : ExceptionClass → Type 0) (size : ℕ) (key input : Bytes)
      → size ≤ length key
      → 8 ≤ length input
      → Phase cleanup suite X stream_cipher_dispose
          (cleanup return_null)
          (cleanup stream_cipher_dispose)
          (λ r. r ≡ plaintext suite (take size key) [] true 0 input)
          (open_input suite size key >>= λ k.
            output_size suite stream_cipher_dispose true input >>= λ size.
            create_output suite stream_cipher_dispose size >>= λ out.
            start_decryption suite stream_cipher_dispose input >>= λ v.
            decrypt_stream suite stream_cipher_dispose k v 0 (take size (drop 8 input)) out
            >>= λ out. commit out)
  plain-Passes X size key input long long_input =
      Steps-bind _ _ (open_input-Passes X size key long) λ k ek.
        read-Passes cleanup suite X stream_cipher_dispose (take size key) [] k true 0 input
          (start_decryption suite stream_cipher_dispose input) ek long_input
          (start_decryption-Passes cleanup suite X stream_cipher_dispose input long_input)

  module _ (b : Bool) where
    pub generic-Passes :
        (key input : Option Bytes)
        → AtLeast 8 input
        → Phase cleanup suite
            (Refusal b (checked suite) key input)
            stream_cipher_dispose
            (cleanup return_null)
            (cleanup stream_cipher_dispose)
            (λ r. IsPlaintext b (checked suite) length key input (some r))
            (decrypt_generic_body suite (some b) key input)
    unfolding decrypt_generic_body
    generic-Passes none input long = search (step_rules, kept, reasons) depth 30
    generic-Passes (some key) none long = search (step_rules, kept, reasons) depth 30
    generic-Passes (some key) (some input) long = search (step_rules, kept, reasons, rest) depth 30
      where
        rest :
            b ≡ true
            → checked suite key ≡ true
            → Phase cleanup suite
                (Refusal b (checked suite) (some key) (some input))
                stream_cipher_dispose
                (cleanup return_null)
                (cleanup stream_cipher_dispose)
                (λ r. IsPlaintext b (checked suite) length (some key) (some input) (some r))
                (open_input suite (length key) key >>= λ k.
                  output_size suite stream_cipher_dispose true input >>= λ size.
                  create_output suite stream_cipher_dispose size >>= λ out.
                  start_decryption suite stream_cipher_dispose input >>= λ v.
                  decrypt_stream suite stream_cipher_dispose k v 0 (take size (drop 8 input)) out
                  >>= λ out. commit out)
        rest on right =
            Steps-mono
              (λ r e.
                subst (λ t. IsPlaintext b (checked suite) length (some key) (some input) (some t))
                  (sym e) (is_plaintext on right))
              _ (plain-Passes _ (length key) key input (omega arith) long)

    pub certificate-Passes :
        (key input : Option Bytes)
        → AtLeast 32 key
        → AtLeast 8 input
        → Phase cleanup suite
            (Refusal b unchecked key input)
            stream_cipher_dispose
            (cleanup return_null)
            (cleanup stream_cipher_dispose)
            (λ r. IsPlaintext b unchecked (λ _. 32) key input (some r))
            (decrypt_certificate_body suite (some b) key input)
    unfolding decrypt_certificate_body
    certificate-Passes none input long long_input = search (step_rules, kept, reasons) depth 30
    certificate-Passes (some key) none long long_input = search (step_rules, kept, reasons) depth 30
    certificate-Passes (some key) (some input) long long_input =
        search (step_rules, kept, reasons, rest) depth 30
      where
        rest :
            b ≡ true
            → Phase cleanup suite
                (Refusal b unchecked (some key) (some input))
                stream_cipher_dispose
                (cleanup return_null)
                (cleanup stream_cipher_dispose)
                (λ r. IsPlaintext b unchecked (λ _. 32) (some key) (some input) (some r))
                (open_input suite 32 key >>= λ k.
                  output_size suite stream_cipher_dispose true input >>= λ size.
                  create_output suite stream_cipher_dispose size >>= λ out.
                  start_decryption suite stream_cipher_dispose input >>= λ v.
                  decrypt_stream suite stream_cipher_dispose k v 0 (take size (drop 8 input)) out
                  >>= λ out. commit out)
        rest on =
            Steps-mono
              (λ r e.
                subst (λ t. IsPlaintext b unchecked (λ _. 32) (some key) (some input) (some t))
                  (sym e) (is_plaintext on refl))
              _ (plain-Passes _ 32 key input long long_input)
