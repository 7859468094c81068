-- ===== src/SimpleCipher/Encrypt/Complete.antt =====
-- What the encryption returns, in every case.
use v_j_bc.Base.{◌≤◌, ◌≡◌, refl, sym, subst, Bool, true, Option, none, some, [], Bytes, length}
use v_j_bc.Jni.{World, ◌>>=◌}
use v_j_bc.Jni.Point.{shape, Steps}
use v_j_bc.Jni.Rules.{Steps-bind, Steps-mono, Steps-jump, step_rules}
use v_j_bc.Jni.Completes.{Ends, run-Ends}
use v_j_bc.Suite.{Suite, IsSuite}
use v_j_bc.SimpleCipher.Encrypt.{
  cleanup, mac_buffer_dispose, read_key, create_output, create_session, encrypt_key, encrypt_input,
  append_mac, encrypt_body, encrypt,
}
use v_j_bc.SimpleCipher.Encrypt.Phases.{
  Refused, IsMessage, is_message, read_key-Steps, create_output-Steps, create_session-Steps,
  encrypt_key-Steps, encrypt_input-Steps, append_mac-Steps, reasons,
}

module _ (suite : Suite) where
  -- The key of the object, where it has one, is as long as the cipher reads.
  abbrev pub LongKey : Option (Option Bytes) → Type 0
  LongKey (some (some key)) = suite.stream_key_size ≤ length key
  LongKey (some none) = Unit
  LongKey none = Unit

  module _ (laws : IsSuite suite) (b : Bool) where
    rest-Steps :
        (key_bytes input : Bytes) (long : suite.stream_key_size ≤ length key_bytes)
        → b ≡ true
        → Steps cleanup
            (λ r. r ≡ none)
            (Refused suite b (some (some key_bytes)) (some input))
            (shape [] none)
            (shape (cleanup mac_buffer_dispose) none)
            (λ m. IsMessage suite b (some (some key_bytes)) (some input) (some m))
            (read_key suite (some (some key_bytes)) >>= λ key.
              create_output suite (length input) >>= λ out. create_session suite >>= λ s.
              encrypt_key suite key s out >>= λ o.
              encrypt_input suite s input o >>= λ o. append_mac suite s (length input) o)
    rest-Steps key_bytes input long on =
        Steps-bind _ _ (read_key-Steps suite laws b key_bytes input long) λ k ek.
          Steps-bind _ _ (create_output-Steps suite laws b key_bytes input long) λ p ep.
            Steps-bind _ _ (create_session-Steps suite laws b key_bytes input long) λ s is.
              Steps-bind _ _ (encrypt_key-Steps suite laws b key_bytes input long s is k ek p ep)
                λ o ho.
                  Steps-bind _ _ (encrypt_input-Steps suite laws b key_bytes input long s is o ho)
                    λ o ho.
                      Steps-mono
                        (λ m e.
                          subst
                            (λ v. IsMessage suite b (some (some key_bytes)) (some input) (some v))
                            (sym e) (is_message s is on))
                        _ (append_mac-Steps suite laws b key_bytes input long s is o ho)

    no_key-Steps :
        (input : Option Bytes)
        → Steps cleanup
            (λ r. r ≡ none)
            (Refused suite b none input)
            (shape [] none)
            (shape (cleanup mac_buffer_dispose) none)
            (λ _. ⊥)
            (read_key suite none)
    unfolding read_key
    no_key-Steps input = search (step_rules, reasons) depth 30

    no_key_bytes-Steps :
        (input : Option Bytes)
        → Steps cleanup
            (λ r. r ≡ none)
            (Refused suite b (some none) input)
            (shape [] none)
            (shape (cleanup mac_buffer_dispose) none)
            (λ _. ⊥)
            (read_key suite (some none))
    unfolding read_key
    no_key_bytes-Steps input = search (step_rules, reasons) depth 30

    body-Steps :
        (key : Option (Option Bytes)) (input : Option Bytes)
        → LongKey key
        → Steps cleanup
            (λ r. r ≡ none)
            (Refused suite b key input)
            (shape [] none)
            (shape (cleanup mac_buffer_dispose) none)
            (λ m. IsMessage suite b key input (some m))
            (encrypt_body suite (some b) key input)
    unfolding encrypt_body
    body-Steps key none long = search (step_rules, reasons) depth 30
    body-Steps none (some input) long =
        search (step_rules, reasons, Steps-jump, no_key-Steps) depth 30
    body-Steps (some none) (some input) long =
        search (step_rules, reasons, Steps-jump, no_key_bytes-Steps) depth 30
    body-Steps (some (some key)) (some input) long =
        search (step_rules, reasons, rest-Steps key input long) depth 30

    -- For every argument, with an instance that is not null, a key of at least the size that the
    -- cipher reads, and whichever calls fail, the encryption ends with defined behaviour and has
    -- given back all that it acquired. It returns a message made of the input in some session,
    -- with nothing thrown, and then the library is initialized and the input, the key and its
    -- bytes are not null; or it throws an exception of a class for which there is a reason, and
    -- returns NULL.
    pub encrypt-Ends :
        (key : Option (Option Bytes)) (input : Option Bytes)
        → LongKey key
        → (w : World (Option Bytes))
        → Ends
            (λ r. r ≡ none)
            (Refused suite b key input)
            (IsMessage suite b key input)
            w
            (encrypt suite (some b) key input w)
    unfolding encrypt
    encrypt-Ends key input long w =
        run-Ends mac_buffer_dispose refl w some (λ a h. h) _ (body-Steps key input long)
