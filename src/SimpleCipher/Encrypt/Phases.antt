-- ===== src/SimpleCipher/Encrypt/Phases.antt =====
-- What each phase of the encryption does.
use v_j_bc.Base.{
  ℕ, ◌+◌, ◌≤◌, ◌≡◌, ◌∙◌, Bool, true, false, Option, none, some, [], ◌++◌, Bytes, arith, leb, le→leb,
  length, length-new_array, new_array, take, drop, write_at,
}
use v_j_bc.Base.Prefix.{HasPrefix, length-HasPrefix}
use v_j_bc.Jni.{ExceptionClass, illegal_state, null_pointer}
use v_j_bc.Jni.Point.{shape, Steps, Reason}
use v_j_bc.Jni.Rules.{step_rules}
use v_j_bc.Suite.{Suite, IsSuite}
use v_j_bc.SimpleCipher.Envelope.{Session, IsSession, wrapped_key, authenticated, message}
use v_j_bc.SimpleCipher.Encrypt.{
  Output, cleanup, mac_buffer_dispose, stream_dispose, block_dispose, stream_iv_buffer_dispose,
  output_array_data_dispose, key_buffer_dispose, read_key, create_output, create_session,
  encrypt_key, encrypt_input, append_mac,
}
use v_j_bc.SimpleCipher.Encrypt.Layout.{
  Holds, iv_written, block_1_written, block_2_written, key_digested, stream_iv_written,
  input_written, input_digested, mac_written,
}

module _ (suite : Suite) where
  -- Why the encryption refuses its arguments, and the class of the exception that says so.
  pub data Refusal (initialized : Bool)
      : Option (Option Bytes) → Option Bytes → ExceptionClass → Type 0 where
    not_initialized :
        {key : Option (Option Bytes)} {input : Option Bytes}
        → initialized ≡ false
        → Refusal initialized key input illegal_state
    no_input : {key : Option (Option Bytes)} → Refusal initialized key none null_pointer
    no_key : {input : Option Bytes} → Refusal initialized none input null_pointer
    no_key_bytes : {input : Option Bytes} → Refusal initialized (some none) input null_pointer

  -- The same, or a call that failed.
  abbrev pub Refused : Bool → Option (Option Bytes) → Option Bytes → ℕ → ℕ → ExceptionClass → Type 0
  Refused initialized key input = Reason suite.calls (Refusal initialized key input)

  -- A message made of `input` in some session.
  pub data IsMessage (initialized : Bool)
      : Option (Option Bytes) → Option Bytes → Option Bytes → Type 0 where
    is_message :
        {key input : Bytes} (s : Session)
        → IsSession s
        → initialized ≡ true
        → IsMessage initialized
            (some (some key))
            (some input)
            (some (message suite (take suite.stream_key_size key) s input))

  pub ruleset reasons = (not_initialized, no_input, no_key, no_key_bytes)

  module _ (laws : IsSuite suite) (initialized : Bool) (key_bytes input : Bytes)
      (long : suite.stream_key_size ≤ length key_bytes) where
    abbrev Refuses : ℕ → ℕ → ExceptionClass → Type 0
    Refuses = Refused initialized (some (some key_bytes)) (some input)

    abbrev key : Bytes
    key = take suite.stream_key_size key_bytes

    pub read_key-Steps :
        Steps cleanup
          (λ r. r ≡ none)
          Refuses
          (shape [] none)
          (shape (cleanup key_buffer_dispose) none)
          (λ k. k ≡ key)
          (read_key suite (some (some key_bytes)))
    unfolding read_key
    read_key-Steps = search (step_rules, reasons, le→leb) depth 30

    pub create_output-Steps :
        Steps cleanup
          (λ r. r ≡ none)
          Refuses
          (shape (cleanup key_buffer_dispose) none)
          (shape (cleanup output_array_data_dispose) none)
          (λ p. length p ≡ 120 + length input)
          (create_output suite (length input))
    unfolding create_output
    create_output-Steps = search (step_rules, reasons, sized) depth 30
      where
        sized : length (new_array (16 + 32 + 8 + length input + 64)) ≡ 120 + length input
        sized = omega (arith, length-new_array (16 + 32 + 8 + length input + 64))

    pub create_session-Steps :
        Steps cleanup
          (λ r. r ≡ none)
          Refuses
          (shape (cleanup output_array_data_dispose) none)
          (shape (cleanup stream_iv_buffer_dispose) none)
          IsSession
          (create_session suite)
    unfolding create_session
    create_session-Steps = search (step_rules, reasons, session) depth 30
      where
        session :
            (a b c : ℕ)
            → IsSession (record {
              key = suite.random a suite.stream_key_size;
              key_iv = suite.random b 16;
              stream_iv = suite.random c 8;
            })
        session a b c = record {
          length-key = laws.length-random a suite.stream_key_size ∙ laws.stream_key_size_lem;
          length-key_iv = laws.length-random b 16;
          length-stream_iv = laws.length-random c 8;
        }

    module _ (s : Session) (is : IsSession s) where
      pub encrypt_key-Steps :
          (k : Bytes)
          → k ≡ key
          → (p : Bytes) → length p ≡ 120 + length input
          → Steps cleanup
              (λ r. r ≡ none)
              Refuses
              (shape (cleanup stream_iv_buffer_dispose) none)
              (shape (cleanup block_dispose) none)
              (Holds suite laws key s is (length input) (wrapped_key suite key s))
              (encrypt_key suite k s p)
      unfolding encrypt_key
      encrypt_key-Steps k ek p e = rw ek (
          search
            (
              step_rules,
              reasons,
              room,
              full,
              room_48,
              key_digested suite laws key s is (length input),
              block_2_written suite laws key s is (length input),
              block_1_written suite laws key s is (length input),
              iv_written suite laws key s is (length input) p e,
            )
            depth 30)
        where
          room : leb (length s.key_iv) (length p) ≡ true
          room = le→leb _ _ (omega (arith, e, is.length-key_iv))

          full : leb 32 (length s.key) ≡ true
          full = le→leb _ _ (omega (arith, is.length-key))

          room_48 : leb 48 (length (write_at 0 s.key_iv p)) ≡ true
          room_48 =
              le→leb _ _ (
                omega (arith, length-HasPrefix (iv_written suite laws key s is (length input) p e)))

      pub encrypt_input-Steps :
          (o : Output)
          → Holds suite laws key s is (length input) (wrapped_key suite key s) o
          → Steps cleanup
              (λ r. r ≡ none)
              Refuses
              (shape (cleanup block_dispose) none)
              (shape (cleanup stream_dispose) none)
              (Holds suite laws key s is (length input) (authenticated suite key s input))
              (encrypt_input suite s input o)
      unfolding encrypt_input
      encrypt_input-Steps o h =
          search
            (
              step_rules,
              reasons,
              room_iv,
              room,
              digested,
              input_written suite laws key s is input,
              stream_iv_written suite laws key s is input o h,
            )
            depth 30
        where
          room_iv : leb (48 + length s.stream_iv) (length o.array) ≡ true
          room_iv = le→leb _ _ (omega (arith, length-HasPrefix h.array, is.length-stream_iv))

          room :
              leb
                (48 + length s.stream_iv + length input)
                (length (write_at 48 s.stream_iv o.array))
              ≡ true
          room = le→leb _ _ (
              omega (
                arith,
                length-HasPrefix (stream_iv_written suite laws key s is input o h),
                is.length-stream_iv,
              ))

          digested :
              (p : Bytes)
              → HasPrefix (120 + length input) (authenticated suite key s input) p
              → Holds suite laws key s is (length input) (authenticated suite key s input) (record {
                array = p;
                digested = o.digested ++ take (8 + length input) (drop 48 p);
              })
          digested p = input_digested suite laws key s is input o p h.digested

      pub append_mac-Steps :
          (o : Output)
          → Holds suite laws key s is (length input) (authenticated suite key s input) o
          → Steps cleanup
              (λ r. r ≡ none)
              Refuses
              (shape (cleanup stream_dispose) none)
              (shape (cleanup mac_buffer_dispose) none)
              (λ m. m ≡ message suite key s input)
              (append_mac suite s (length input) o)
      unfolding append_mac
      append_mac-Steps o h =
          search (step_rules, reasons, room, mac_written suite laws key s is input o h) depth 30
        where
          room :
              leb (48 + (8 + length input) + length (suite.mac s.key o.digested)) (length o.array)
              ≡ true
          room =
              le→leb _ _ (omega (arith, length-HasPrefix h.array, laws.length-mac s.key o.digested))
