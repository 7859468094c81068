-- ===== src/Verify/Phases.antt =====
-- What each phase of the verification does.
use v_j_bc.Base.{
  ℕ, ◌≡◌, refl, Bool, true, false, ◌&&◌, Option, none, some, Bytes, length, ◌==◌, ==_iff, leb,
  le→leb, take, take_all, arith,
}
use v_j_bc.Jni.{ExceptionClass, illegal_state, null_pointer, Body}
use v_j_bc.Jni.Point.{shape, Steps, Reason}
use v_j_bc.Jni.Rules.{Steps-if, test-then, step_rules}
use v_j_bc.Suite.{Suite}
use v_j_bc.Verify.{
  Label, cleanup, done, cleanup_public_key_bytes, cleanup_message_bytes, cleanup_signature_array,
  read_verifying_key, read_signed_message, read_signature, compare_signature, check_signature,
}

module _ (suite : Suite) where
  -- Why the verification refuses its arguments, and the class of the exception that says so.
  pub data Refusal (initialized : Bool)
      : Option Bytes → Option (Option Bytes) → Option (Option Bytes) → ExceptionClass → Type 0 where
    not_initialized :
        {key : Option Bytes} {signature message : Option (Option Bytes)}
        → initialized ≡ false
        → Refusal initialized key signature message illegal_state
    no_signature :
        {key : Option Bytes} {message : Option (Option Bytes)}
        → Refusal initialized key none message null_pointer
    no_signature_bytes :
        {key : Option Bytes} {message : Option (Option Bytes)}
        → Refusal initialized key (some none) message null_pointer
    no_message :
        {key : Option Bytes} {signature : Option (Option Bytes)}
        → Refusal initialized key signature none null_pointer
    no_message_bytes :
        {key : Option Bytes} {signature : Option (Option Bytes)}
        → Refusal initialized key signature (some none) null_pointer
    no_key_bytes :
        {signature message : Option (Option Bytes)}
        → Refusal initialized none signature message null_pointer
    bad_key_size :
        {key : Bytes} {signature message : Option (Option Bytes)}
        → (length key == suite.verifying_key_size) ≡ false
        → Refusal initialized (some key) signature message illegal_state

  -- The same, or a call that failed.
  abbrev pub Refused :
      Bool
      → Option Bytes
      → Option (Option Bytes)
      → Option (Option Bytes)
      → ℕ
      → ℕ
      → ExceptionClass
      → Type 0
  Refused initialized key signature message =
      Reason suite.calls (Refusal initialized key signature message)

  -- The answer on a key, a signature and a message.
  pub data IsAnswer (key signed message : Bytes) : Bool → Type 0 where
    verified :
        length key ≡ suite.verifying_key_size
        → length signed ≡ suite.signature_size
        → suite.verify key message signed ≡ true
        → IsAnswer key signed message true
    bad_size : (length signed == suite.signature_size) ≡ false → IsAnswer key signed message false
    bad_signature : suite.verify key message signed ≡ false → IsAnswer key signed message false
    failed : (n : ℕ) → suite.calls n ≡ false → IsAnswer key signed message false

  pub data Answers (initialized : Bool)
      : Option Bytes → Option (Option Bytes) → Option (Option Bytes) → Bool → Type 0 where
    answers :
        {key signed message : Bytes} {r : Bool}
        → initialized ≡ true
        → IsAnswer key signed message r
        → Answers initialized (some key) (some (some signed)) (some (some message)) r

  pub ruleset reasons = (
    not_initialized, no_signature, no_signature_bytes, no_message, no_message_bytes, no_key_bytes,
    bad_key_size,
  )

  module _ (b : Bool) where
    abbrev pub Phase :
        Option Bytes
        → Option (Option Bytes)
        → Option (Option Bytes)
        → {A : Type 0} → Label
        → Label
        → (A → Type 0)
        → Body Label Bool A
        → Type 0
    Phase key signature message l l' Q m =
        Steps cleanup (λ r. r ≡ false) (Refused b key signature message) (shape (cleanup l) false)
          (shape (cleanup l') false) Q m

    pub read_verifying_key-Steps :
        (key : Bytes) (signature message : Option (Option Bytes))
        → Phase
            (some key)
            signature
            message
            done
            cleanup_public_key_bytes
            (λ k. (length key ≡ suite.verifying_key_size) × (k ≡ key))
            (read_verifying_key suite (some key))
    unfolding read_verifying_key
    read_verifying_key-Steps key signature message =
        search (step_rules, reasons, sized, fits, whole) depth 30
      where
        sized :
            (length key == suite.verifying_key_size) ≡ true → length key ≡ suite.verifying_key_size
        sized h = (==_iff (length key) suite.verifying_key_size).0 h

        fits :
            (length key == suite.verifying_key_size) ≡ true
            → leb suite.verifying_key_size (length key) ≡ true
        fits h = le→leb _ _ (omega (arith, sized h))

        whole :
            (length key == suite.verifying_key_size) ≡ true
            → take suite.verifying_key_size key ≡ key
        whole h = take_all suite.verifying_key_size key (sized h)

    pub no_key_bytes-Steps :
        (signature message : Option (Option Bytes))
        → Phase none signature message done cleanup_signature_array
            (λ _. ⊥)
            (read_verifying_key suite none)
    unfolding read_verifying_key
    no_key_bytes-Steps signature message = search (step_rules, reasons) depth 30

    pub read_signed_message-Steps :
        (key : Option Bytes) (signature : Option (Option Bytes)) (message : Bytes)
        → Phase key signature
            (some (some message))
            cleanup_public_key_bytes
            cleanup_message_bytes
            (λ m. m ≡ message)
            (read_signed_message suite (some message))
    unfolding read_signed_message
    read_signed_message-Steps key signature message = search (step_rules, reasons) depth 30

    pub no_message_bytes-Steps :
        (key : Option Bytes) (signature : Option (Option Bytes))
        → Phase key signature
            (some none)
            cleanup_public_key_bytes
            cleanup_signature_array
            (λ _. ⊥)
            (read_signed_message suite none)
    unfolding read_signed_message
    no_message_bytes-Steps key signature = search (step_rules, reasons) depth 30

    pub read_signature-Steps :
        (key : Option Bytes) (signed : Bytes) (message : Option (Option Bytes))
        → Phase key
            (some (some signed))
            message
            cleanup_message_bytes
            cleanup_signature_array
            (λ s. s ≡ signed)
            (read_signature suite (some signed))
    unfolding read_signature
    read_signature-Steps key signed message = search (step_rules, reasons) depth 30

    pub no_signature_bytes-Steps :
        (key : Option Bytes) (message : Option (Option Bytes))
        → Phase key
            (some none)
            message
            cleanup_message_bytes
            cleanup_signature_array
            (λ _. ⊥)
            (read_signature suite none)
    unfolding read_signature
    no_signature_bytes-Steps key message = search (step_rules, reasons) depth 30

    module _ (key signed message : Bytes) (k : length key ≡ suite.verifying_key_size) where
      answer :
          length signed ≡ suite.signature_size
          → (n : ℕ) (c v : Bool) → suite.calls n ≡ c
          → suite.verify key message signed ≡ v
          → IsAnswer key signed message (c && v)
      answer s n false v e h = failed n e
      answer s n true true e h = verified k s h
      answer s n true false e h = bad_signature h

      pub compare_signature-Steps :
          length signed ≡ suite.signature_size
          → Phase
              (some key)
              (some (some signed))
              (some (some message))
              cleanup_signature_array
              cleanup_signature_array
              (IsAnswer key signed message)
              (compare_signature suite key message signed)
      unfolding compare_signature
      compare_signature-Steps s =
          rw (take_all suite.signature_size signed s)
            (search (step_rules, reasons, test-then, fits, answer_now) depth 30)
        where
          fits : leb suite.signature_size (length signed) ≡ true
          fits = le→leb _ _ (omega (arith, s))

          answer_now :
              (n : ℕ)
              → IsAnswer key signed message (suite.calls n && suite.verify key message signed)
          answer_now n = answer s n (suite.calls n) (suite.verify key message signed) refl refl

      pub check_signature-Steps :
          Phase
            (some key)
            (some (some signed))
            (some (some message))
            cleanup_signature_array
            cleanup_signature_array
            (IsAnswer key signed message)
            (check_signature suite key message signed)
      unfolding check_signature
      check_signature-Steps =
          Steps-if (length signed == suite.signature_size) _ _
            (λ h. compare_signature-Steps ((==_iff (length signed) suite.signature_size).0 h))
            (λ h. search (step_rules, bad_size, h) depth 10)
