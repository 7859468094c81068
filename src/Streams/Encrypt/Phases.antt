-- ===== src/Streams/Encrypt/Phases.antt =====
-- Why the three encryptions of data refuse, what they return, and the statements that they share.
use v_j_bc.Base.{
  ℕ, ◌+◌, ◌≡◌, ◌≤◌, ap, ◌∙◌, Bool, true, false, ◌==◌, Option, none, some, ◌++◌, Bytes, arith,
  length, length-append, length-take, take,
}
use v_j_bc.Base.Prefix.{HasPrefix, HasPrefix-eq}
use v_j_bc.Jni.{ExceptionClass, illegal_state, null_pointer, Body, ◌>>=◌}
use v_j_bc.Jni.Point.{Reason}
use v_j_bc.Jni.Rules.{Steps-bind, Steps-mono}
use v_j_bc.Suite.{Suite}
use v_j_bc.Streams.{
  Label, stream_cipher_dispose, return_null, cleanup, open_stream, create_output, start_encryption,
  encrypt_stream, commit,
}
use v_j_bc.Streams.Envelope.{ciphertext, piece, length-ciphertext}
use v_j_bc.Streams.Phases.{
  Phase, writing, open_stream-Passes, create_output-Passes, start_encryption-Passes,
  encrypt_stream-Passes, commit-Passes,
}

-- Why an encryption refuses its arguments, and the class of the exception that says so. `sized` is
-- the test of the key.
pub data Refusal (initialized : Bool) (sized : Bytes → Bool)
    : Option Bytes → Option Bytes → Option Bytes → ExceptionClass → Type 0 where
  not_initialized :
      {key iv input : Option Bytes}
      → initialized ≡ false
      → Refusal initialized sized key iv input illegal_state
  no_key : {iv input : Option Bytes} → Refusal initialized sized none iv input null_pointer
  no_iv :
      {key : Bytes} {input : Option Bytes}
      → Refusal initialized sized (some key) none input null_pointer
  no_input : {key iv : Bytes} → Refusal initialized sized (some key) (some iv) none null_pointer
  bad_key_size :
      {key iv input : Bytes}
      → sized key ≡ false
      → Refusal initialized sized (some key) (some iv) (some input) illegal_state

-- No test of the key.
abbrev pub unchecked : Bytes → Bool
unchecked _ = true

module _ (suite : Suite) where
  -- The same, or a call that failed.
  abbrev pub Refused :
      Bool
      → (Bytes → Bool)
      → Option Bytes
      → Option Bytes
      → Option Bytes
      → ℕ
      → ℕ
      → ExceptionClass
      → Type 0
  Refused initialized sized key iv input =
      Reason suite.calls (Refusal initialized sized key iv input)

  -- The result is the piece of the stream at `position`, under `size` bytes of the key.
  pub data IsPiece (initialized : Bool) (sized : Bytes → Bool) (size : Bytes → ℕ) (position : ℕ)
      : Option Bytes → Option Bytes → Option Bytes → Option Bytes → Type 0 where
    is_piece :
        {key iv input : Bytes}
        → initialized ≡ true
        → sized key ≡ true
        → IsPiece initialized sized size position
            (some key)
            (some iv)
            (some input)
            (some (piece suite (take (size key) key) iv position input))

  -- The test of the key: its size is that of the cipher.
  abbrev pub checked : Bytes → Bool
  checked key = length key == suite.stream_key_size

  pub ruleset reasons = (not_initialized, no_key, no_iv, no_input, bad_key_size)

  module _ (X : ExceptionClass → Type 0) where
    pub write-Passes :
        (size : ℕ) (key iv : Bytes) (position : ℕ) (input front : Bytes) (offset : ℕ)
        (begin : Bytes → Body Label (Option Bytes) Bytes)
        → size ≤ length key
        → offset ≡ length front
        → ((out : Bytes)
            → length out ≡ offset + length input
            → Phase suite X
                (writing suite X)
                (writing suite X)
                (HasPrefix (offset + length input) front)
                (begin out))
        → Phase suite X
            (cleanup return_null)
            (cleanup stream_cipher_dispose)
            (λ r. r ≡ front ++ ciphertext suite (take size key) iv position input)
            (open_stream suite size key >>= λ k.
              create_output suite stream_cipher_dispose (offset + length input) >>= λ out.
              begin out >>= λ out.
              encrypt_stream suite k iv position input offset out >>= λ out. commit out)
    write-Passes size key iv position input front offset begin long e begins =
        Steps-bind _ _ (open_stream-Passes suite X size key long) λ k ek.
          Steps-bind _ _
            (create_output-Passes suite X stream_cipher_dispose (offset + length input))
            λ o eo. Steps-bind _ _ (begins o eo) λ p hp.
              Steps-bind _ _
                (encrypt_stream-Passes suite X k iv position input offset front p hp e
                  (omega (arith, e)))
                λ q hq.
                  Steps-mono
                    (λ r er.
                      er
                      ∙ HasPrefix-eq hq (
                          length-append front (ciphertext suite k iv position input)
                          ∙ omega (arith, e, length-ciphertext suite k iv position input))
                      ∙ ap (λ t. front ++ ciphertext suite t iv position input) ek)
                    _ (commit-Passes suite X stream_cipher_dispose q)

    pub whole-Passes :
        (size : ℕ) (key iv input : Bytes)
        → size ≤ length key
        → 8 ≤ length iv
        → Phase suite X
            (cleanup return_null)
            (cleanup stream_cipher_dispose)
            (λ r. r ≡ piece suite (take size key) iv 0 input)
            (open_stream suite size key >>= λ k.
              create_output suite stream_cipher_dispose (8 + length input) >>= λ out.
              start_encryption suite iv out >>= λ out.
              encrypt_stream suite k iv 0 input 8 out >>= λ out. commit out)
    whole-Passes size key iv input long long_iv =
        write-Passes size key iv 0 input (take 8 iv) 8 (start_encryption suite iv) long
          (omega (arith, length-take 8 iv, long_iv))
          (λ o eo. start_encryption-Passes suite X iv o long_iv (omega arith) eo)
