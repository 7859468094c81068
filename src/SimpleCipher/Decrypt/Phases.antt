-- ===== src/SimpleCipher/Decrypt/Phases.antt =====
-- What each phase of the decryption does.
use v_j_bc.Base.{
  ℕ, ◌+◌, ◌-◌, ◌≤◌, ◌≡◌, refl, sym, subst, ◌∙◌, Bool, true, false, Option, none, some, [], ◌++◌,
  Bytes, arith, leb, le→leb, leb→le, length, length-append, length-take, length-drop,
  length-new_array, take, drop, write_at, write_at-all,
}
use v_j_bc.Base.Prefix.{HasPrefix, HasPrefix-nil, write_at-HasPrefix, HasPrefix-eq}
use v_j_bc.Jni.{ExceptionClass, illegal_state, null_pointer, message_authentication}
use v_j_bc.Jni.Point.{shape, Steps, Reason}
use v_j_bc.Jni.Rules.{step_rules}
use v_j_bc.Suite.{Suite, IsSuite}
use v_j_bc.Suite.Stream.{crypt, length-crypt}
use v_j_bc.SimpleCipher.Decrypt.{
  cleanup, stream_dispose, mac_buffer_dispose, block_dispose, output_array_data_dispose,
  key_buffer_dispose, envelope_size, mac_size, read_key, create_output, decrypt_key, verify_message,
  decrypt_input,
}

module _ (suite : Suite) where
  module _ (key input : Bytes) where
    -- The session key that a message carries.
    abbrev pub opened_key : Bytes
    opened_key =
        suite.block_decrypt key (take 16 input) (take 16 (drop 16 input))
        ++ suite.block_decrypt key (take 16 (drop 16 input)) (take 16 (drop 32 input))

    -- The last bytes are the authentication code of all others under the session key.
    abbrev pub genuine : Bool
    genuine =
        suite.crypto_memcmp_eq
          (take mac_size (suite.mac opened_key (take (length input - mac_size) input)))
          (take mac_size (drop (length input - mac_size) input))

    abbrev pub plaintext : Bytes
    plaintext =
        crypt (suite.decrypt_byte opened_key (take 8 (drop 48 input))) 0
          (take (length input - envelope_size) (drop 56 input))

  -- Why the decryption refuses its arguments, and the class of the exception that says so.
  pub data Refusal (initialized : Bool)
      : Option (Option Bytes) → Option Bytes → ExceptionClass → Type 0 where
    not_initialized :
        {key : Option (Option Bytes)} {input : Option Bytes}
        → initialized ≡ false
        → Refusal initialized key input illegal_state
    no_input : {key : Option (Option Bytes)} → Refusal initialized key none null_pointer
    no_key : {input : Option Bytes} → Refusal initialized none input null_pointer
    no_key_bytes : {input : Option Bytes} → Refusal initialized (some none) input null_pointer
    too_short :
        {key input : Bytes}
        → leb envelope_size (length input) ≡ false
        → Refusal initialized (some (some key)) (some input) message_authentication
    forged :
        {key input : Bytes}
        → genuine (take suite.stream_key_size key) input ≡ false
        → Refusal initialized (some (some key)) (some input) message_authentication

  -- The same, or a call that failed.
  abbrev pub Refused : Bool → Option (Option Bytes) → Option Bytes → ℕ → ℕ → ExceptionClass → Type 0
  Refused initialized key input = Reason suite.calls (Refusal initialized key input)

  -- What the decryption makes of its arguments.
  pub data IsOpened (initialized : Bool)
      : Option (Option Bytes) → Option Bytes → Option Bytes → Type 0 where
    is_opened :
        {key input : Bytes}
        → initialized ≡ true
        → leb envelope_size (length input) ≡ true
        → genuine (take suite.stream_key_size key) input ≡ true
        → IsOpened initialized
            (some (some key))
            (some input)
            (some (plaintext (take suite.stream_key_size key) input))

  pub ruleset reasons = (not_initialized, no_input, no_key, no_key_bytes, too_short, forged)

  module _ (laws : IsSuite suite) (initialized : Bool) (key_bytes input : Bytes)
      (long : suite.stream_key_size ≤ length key_bytes) where
    abbrev Refuses : ℕ → ℕ → ExceptionClass → Type 0
    Refuses = Refused initialized (some (some key_bytes)) (some input)

    abbrev key : Bytes
    key = take suite.stream_key_size key_bytes

    pub read_key-Steps :
        Steps cleanup
          (λ r. r ≡ none)
          Refuses
          (shape [] none)
          (shape (cleanup key_buffer_dispose) none)
          (λ k. k ≡ key)
          (read_key suite (some (some key_bytes)))
    unfolding read_key
    read_key-Steps = search (step_rules, reasons, le→leb) depth 30

    pub create_output-Steps :
        Steps cleanup
          (λ r. r ≡ none)
          Refuses
          (shape (cleanup key_buffer_dispose) none)
          (shape (cleanup output_array_data_dispose) none)
          (λ p.
            (leb envelope_size (length input) ≡ true) × (length p ≡ length input - envelope_size))
          (create_output suite (length input))
    unfolding create_output
    create_output-Steps = search (step_rules, reasons, length-new_array) depth 30

    pub decrypt_key-Steps :
        (k : Bytes)
        → k ≡ key
        → leb envelope_size (length input) ≡ true
        → Steps cleanup
            (λ r. r ≡ none)
            Refuses
            (shape (cleanup output_array_data_dispose) none)
            (shape (cleanup block_dispose) none)
            (λ s. s ≡ opened_key key input)
            (decrypt_key suite k input)
    unfolding decrypt_key
    decrypt_key-Steps k e large =
        rw e (search (step_rules, reasons, in_input, in_key, filled) depth 30)
      where
        in_input : leb 48 (length input) ≡ true
        in_input = ground arith

        in_key : (n : ℕ) → leb 32 (length (suite.fresh n suite.stream_key_size)) ≡ true
        in_key n =
            le→leb _ _
              (omega (arith, laws.length-fresh n suite.stream_key_size, laws.stream_key_size_lem))

        filled :
            (n : ℕ)
            → write_at 16
                (suite.block_decrypt key (take 16 (drop 16 input)) (take 16 (drop 32 input)))
                (write_at 0
                  (suite.block_decrypt key (take 16 input) (take 16 (drop 16 input)))
                  (suite.fresh n suite.stream_key_size))
              ≡ opened_key key input
        filled n =
            let first = suite.block_decrypt key (take 16 input) (take 16 (drop 16 input)) in
            let second =
              suite.block_decrypt key (take 16 (drop 16 input)) (take 16 (drop 32 input)) in
            let length_first =
              laws.length-block_decrypt key (take 16 input) (take 16 (drop 16 input)) in
            let length_second =
              laws.length-block_decrypt key (take 16 (drop 16 input)) (take 16 (drop 32 input)) in
            let empty : HasPrefix 32 [] (suite.fresh n suite.stream_key_size) =
              subst (λ t. HasPrefix t [] (suite.fresh n suite.stream_key_size))
                (laws.length-fresh n suite.stream_key_size ∙ laws.stream_key_size_lem)
                (HasPrefix-nil (suite.fresh n suite.stream_key_size)) in
            HasPrefix-eq {total = 32}
              (write_at-HasPrefix 16 second
                (write_at-HasPrefix 0 first empty refl (omega (arith, length_first)))
                (sym length_first) (omega (arith, length_first, length_second)))
              (omega (arith, length-append first second, length_first, length_second))

    pub verify_message-Steps :
        (s : Bytes)
        → s ≡ opened_key key input
        → leb envelope_size (length input) ≡ true
        → Steps cleanup
            (λ r. r ≡ none)
            Refuses
            (shape (cleanup block_dispose) none)
            (shape (cleanup mac_buffer_dispose) none)
            (λ _. genuine key input ≡ true)
            (verify_message suite s input)
    unfolding verify_message
    verify_message-Steps s e large = rw e (search (step_rules, reasons, in_input, in_code) depth 30)
      where
        in_input : leb 64 (length input) ≡ true
        in_input = ground arith

        in_code :
            leb 64 (length (suite.mac (opened_key key input) (take (length input - 64) input)))
            ≡ true
        in_code =
            le→leb _ _ (
              omega
                (arith, laws.length-mac (opened_key key input) (take (length input - 64) input)))

    pub decrypt_input-Steps :
        initialized ≡ true
        → (s : Bytes) → s ≡ opened_key key input
        → (p : Bytes) → leb envelope_size (length input) ≡ true
        → length p ≡ length input - envelope_size
        → genuine key input ≡ true
        → Steps cleanup
            (λ r. r ≡ none)
            Refuses
            (shape (cleanup mac_buffer_dispose) none)
            (shape (cleanup stream_dispose) none)
            (λ t. IsOpened initialized (some (some key_bytes)) (some input) (some t))
            (decrypt_input suite s input p)
    unfolding decrypt_input
    decrypt_input-Steps on s e p large size good =
        rw e (search (step_rules, reasons, in_iv, in_input, in_output, opened) depth 30)
      where
        in_iv : leb 56 (length input) ≡ true
        in_iv = le→leb _ _ (omega (arith, leb→le 120 (length input) large))

        in_input : leb (56 + (length input - 120)) (length input) ≡ true
        in_input = le→leb _ _ (omega (arith, leb→le 120 (length input) large))

        in_output : leb (length input - 120) (length p) ≡ true
        in_output = le→leb _ _ (omega (arith, size))

        opened :
            IsOpened initialized
              (some (some key_bytes))
              (some input)
              (some (write_at 0 (plaintext key input) p))
        opened =
            subst (λ t. IsOpened initialized (some (some key_bytes)) (some input) (some t))
              (sym (
                write_at-all (plaintext key input) p (
                  length-crypt (suite.decrypt_byte (opened_key key input) (take 8 (drop 48 input)))
                    0 (take (length input - 120) (drop 56 input))
                  ∙ omega (
                    arith,
                    size,
                    leb→le 120 (length input) large,
                    length-take (length input - 120) (drop 56 input),
                    length-drop 56 input,
                  ))))
              (is_opened on large good)
