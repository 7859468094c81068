-- ===== src/SimpleCipher/Decrypt/Complete.antt =====
-- What the decryption returns, in every case.
use v_j_bc.Base.{◌≤◌, ◌≡◌, refl, Bool, true, Option, none, some, [], Bytes, length}
use v_j_bc.Jni.{World, ◌>>=◌, ◌>>◌}
use v_j_bc.Jni.Point.{shape, Steps}
use v_j_bc.Jni.Rules.{Steps-bind, Steps-jump, step_rules}
use v_j_bc.Jni.Completes.{Ends, run-Ends}
use v_j_bc.Suite.{Suite, IsSuite}
use v_j_bc.SimpleCipher.Decrypt.{
  cleanup, stream_dispose, read_key, create_output, decrypt_key, verify_message, decrypt_input,
  decrypt_body, decrypt,
}
use v_j_bc.SimpleCipher.Decrypt.Phases.{
  Refused, IsOpened, read_key-Steps, create_output-Steps, decrypt_key-Steps, verify_message-Steps,
  decrypt_input-Steps, reasons,
}

module _ (suite : Suite) where
  -- The key of the object, where it has one, is as long as the cipher reads.
  abbrev pub LongKey : Option (Option Bytes) → Type 0
  LongKey (some (some key)) = suite.stream_key_size ≤ length key
  LongKey (some none) = Unit
  LongKey none = Unit

  module _ (laws : IsSuite suite) (b : Bool) where
    rest-Steps :
        (key_bytes input : Bytes) (long : suite.stream_key_size ≤ length key_bytes)
        → b ≡ true
        → Steps cleanup
            (λ r. r ≡ none)
            (Refused suite b (some (some key_bytes)) (some input))
            (shape [] none)
            (shape (cleanup stream_dispose) none)
            (λ t. IsOpened suite b (some (some key_bytes)) (some input) (some t))
            (read_key suite (some (some key_bytes)) >>= λ key.
              create_output suite (length input) >>= λ out. decrypt_key suite key input >>= λ s.
              verify_message suite s input >> decrypt_input suite s input out)
    rest-Steps key_bytes input long on =
        Steps-bind _ _ (read_key-Steps suite laws b key_bytes input long) λ k ek.
          Steps-bind _ _ (create_output-Steps suite laws b key_bytes input long) λ p ep.
            Steps-bind _ _ (decrypt_key-Steps suite laws b key_bytes input long k ek ep.0) λ s es.
              Steps-bind _ _ (verify_message-Steps suite laws b key_bytes input long s es ep.0)
                λ _ good.
                  decrypt_input-Steps suite laws b key_bytes input long on s es p ep.0 ep.1 good

    no_key-Steps :
        (input : Option Bytes)
        → Steps cleanup
            (λ r. r ≡ none)
            (Refused suite b none input)
            (shape [] none)
            (shape (cleanup stream_dispose) none)
            (λ _. ⊥)
            (read_key suite none)
    unfolding read_key
    no_key-Steps input = search (step_rules, reasons) depth 30

    no_key_bytes-Steps :
        (input : Option Bytes)
        → Steps cleanup
            (λ r. r ≡ none)
            (Refused suite b (some none) input)
            (shape [] none)
            (shape (cleanup stream_dispose) none)
            (λ _. ⊥)
            (read_key suite (some none))
    unfolding read_key
    no_key_bytes-Steps input = search (step_rules, reasons) depth 30

    body-Steps :
        (key : Option (Option Bytes)) (input : Option Bytes)
        → LongKey key
        → Steps cleanup
            (λ r. r ≡ none)
            (Refused suite b key input)
            (shape [] none)
            (shape (cleanup stream_dispose) none)
            (λ t. IsOpened suite b key input (some t))
            (decrypt_body suite (some b) key input)
    unfolding decrypt_body
    body-Steps key none long = search (step_rules, reasons) depth 30
    body-Steps none (some input) long =
        search (step_rules, reasons, Steps-jump, no_key-Steps) depth 30
    body-Steps (some none) (some input) long =
        search (step_rules, reasons, Steps-jump, no_key_bytes-Steps) depth 30
    body-Steps (some (some key)) (some input) long =
        search (step_rules, reasons, rest-Steps key input long) depth 30

    -- For every argument, with an instance that is not null, a key of at least the size that the
    -- cipher reads, and whichever calls fail, the decryption ends with defined behaviour and has
    -- given back all that it acquired. It returns the plaintext of the input with nothing
    -- thrown, and then the library is initialized, no argument is null, the input has the size
    -- of an envelope and its authentication code is genuine; or it throws an exception of a
    -- class for which there is a reason, and returns NULL.
    pub decrypt-Ends :
        (key : Option (Option Bytes)) (input : Option Bytes)
        → LongKey key
        → (w : World (Option Bytes))
        → Ends
            (λ r. r ≡ none)
            (Refused suite b key input)
            (IsOpened suite b key input)
            w
            (decrypt suite (some b) key input w)
    unfolding decrypt
    decrypt-Ends key input long w =
        run-Ends stream_dispose refl w some (λ a h. h) _ (body-Steps key input long)
