-- ===== src/SimpleCipher/RoundTrip.antt =====
-- The decryption on what the encryption returned, and on a message that was altered.
use v_j_bc.Base.{◌≤◌, ◌≡◌, refl, ap, true, false, Option, none, some, Bytes, arith, length, take}
use v_j_bc.Jni.{ExceptionClass, message_authentication, World}
use v_j_bc.Jni.Point.{AllSucceed}
use v_j_bc.Jni.Completes.{Succeeds, Yields, Throws, Ends-Yields, Ends-Throws}
use v_j_bc.Suite.{Suite, IsSuite}
use v_j_bc.SimpleCipher.Envelope.{Session, IsSession, message}
use v_j_bc.SimpleCipher.Encrypt.{encrypt}
use v_j_bc.SimpleCipher.Encrypt.Complete.{encrypt-Ends}
use v_j_bc.SimpleCipher.Encrypt.Phases.{IsMessage, is_message}
use v_j_bc.SimpleCipher.Encrypt.Phases as Encrypting
use v_j_bc.SimpleCipher.Decrypt.{decrypt}
use v_j_bc.SimpleCipher.Decrypt.Complete.{decrypt-Ends}
use v_j_bc.SimpleCipher.Decrypt.Phases.{
  genuine, Refusal, not_initialized, too_short, forged, IsOpened, is_opened,
}
use v_j_bc.SimpleCipher.Opens.{length-message, genuine-message, plaintext-message}

module _ (suite : Suite) (laws : IsSuite suite) (all : AllSucceed suite.calls) (key : Bytes)
    (long : suite.stream_key_size ≤ length key) where
  not-Refused :
      (input : Bytes) (c : ExceptionClass)
      → Encrypting.Refusal suite true (some (some key)) (some input) c
      → ⊥
  not-Refused input c (Encrypting.not_initialized h) = cc

  module _ (input : Bytes) (s : Session) (is : IsSession s) where
    abbrev m : Bytes
    m = message suite (take suite.stream_key_size key) s input

    accepts : (c : ExceptionClass) → Refusal suite true (some (some key)) (some m) c → ⊥
    accepts c (not_initialized h) = cc
    accepts c (too_short h) =
        ground (arith, length-message suite laws (take suite.stream_key_size key) s is input)
    accepts c (forged h) =
        cc (genuine-message suite laws (take suite.stream_key_size key) s is input)

    opened : (r : Option Bytes) → IsOpened suite true (some (some key)) (some m) r → r ≡ some input
    opened r (is_opened a b c) =
        ap some (plaintext-message suite laws (take suite.stream_key_size key) s is input)

    pub decrypt-message :
        (w : World (Option Bytes))
        → Succeeds (some input) w (decrypt suite (some true) (some (some key)) (some m) w)
    decrypt-message w =
        Ends-Yields (decrypt-Ends suite laws true (some (some key)) (some m) long w) all accepts
          opened

  -- Where no fallible call fails and the library is initialized, for a key of at least the size
  -- that the cipher reads: whatever the encryption draws at random, it returns a result, and the
  -- decryption of that result with the same key, from any state, returns the input. Neither
  -- throws, and both give back all that they acquired.
  pub decrypt-encrypt :
      (input : Bytes) (w : World (Option Bytes))
      → Yields
          (λ r.
            (v : World (Option Bytes))
            → Succeeds (some input) v (decrypt suite (some true) (some (some key)) r v))
          w
          (encrypt suite (some true) (some (some key)) (some input) w)
  decrypt-encrypt input w =
      Ends-Yields (encrypt-Ends suite laws true (some (some key)) (some input) long w) all
        (not-Refused input) opens
    where
      opens :
          (r : Option Bytes)
          → IsMessage suite true (some (some key)) (some input) r
          → (v : World (Option Bytes))
          → Succeeds (some input) v (decrypt suite (some true) (some (some key)) r v)
      opens r (is_message s is on) v = decrypt-message input s is v

  module _ (input : Bytes)
      (bad : genuine suite (take suite.stream_key_size key) input ≡ false) where
    only_authentication :
        (c : ExceptionClass)
        → Refusal suite true (some (some key)) (some input) c
        → c ≡ message_authentication
    only_authentication c (not_initialized h) = cc
    only_authentication c (too_short h) = refl
    only_authentication c (forged h) = refl

    not-IsOpened : (r : Option Bytes) → ¬ IsOpened suite true (some (some key)) (some input) r
    not-IsOpened r (is_opened a b c) = cc bad

    -- Where no fallible call fails and the library is initialized, for a key of at least the
    -- size that the cipher reads: if the end of the input is not the authentication code of what
    -- stands before it, the decryption throws a MessageAuthenticationException and returns NULL,
    -- and gives back all that it acquired.
    pub decrypt-forged :
        (w : World (Option Bytes))
        → Throws message_authentication
            (λ r. r ≡ none)
            w
            (decrypt suite (some true) (some (some key)) (some input) w)
    decrypt-forged w =
        Ends-Throws (decrypt-Ends suite laws true (some (some key)) (some input) long w) all
          message_authentication only_authentication not-IsOpened
