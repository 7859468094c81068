-- ===== src/Streams/Whole.antt =====
-- Decryption of what the encryptions of a certificate and of the generic stream cipher returned.
use v_j_bc.Base.{◌≡◌, ◌≤◌, refl, ap, true, Option, some, ==_iff, Bytes, length, take}
use v_j_bc.Jni.{World}
use v_j_bc.Jni.Point.{AllSucceed}
use v_j_bc.Jni.Completes.{Succeeds, Yields, Ends-Yields}
use v_j_bc.Suite.{Suite, IsSuite}
use v_j_bc.Streams.Envelope.{piece, plaintext-piece}
use v_j_bc.Streams.Encrypt.{encrypt_generic, encrypt_certificate}
use v_j_bc.Streams.Encrypt.Phases.{IsPiece, is_piece, checked, unchecked}
use v_j_bc.Streams.Encrypt.Complete.{encrypt_generic-Leaves, encrypt_certificate-Leaves}
use v_j_bc.Streams.Decrypt.{decrypt_generic, decrypt_certificate}
use v_j_bc.Streams.Decrypt.Bodies.{IsPlaintext, is_plaintext}
use v_j_bc.Streams.Decrypt.Complete.{decrypt_generic-Leaves, decrypt_certificate-Leaves}
use v_j_bc.Streams.RoundTrip.{accepts, reads, length-piece}

module _ (suite : Suite) (laws : IsSuite suite) (all : AllSucceed suite.calls) (key iv : Bytes)
    (long_iv : 8 ≤ length iv) where
  module _ (long : 32 ≤ length key) where
    decrypt_certificate-piece :
        (input : Bytes) (v : World (Option Bytes))
        → Succeeds (some input) v (
            decrypt_certificate suite
              (some true)
              (some key)
              (some (piece suite (take 32 key) iv 0 input))
              v)
    decrypt_certificate-piece input v =
        Ends-Yields
          (decrypt_certificate-Leaves suite true (some key)
            (some (piece suite (take 32 key) iv 0 input)) long
            (length-piece suite laws all key iv long_iv (take 32 key) 0 input) v)
          all
          (reads suite laws all key iv long_iv unchecked refl
            (piece suite (take 32 key) iv 0 input))
          eq_of
      where
        eq_of :
            (r : Option Bytes)
            → IsPlaintext suite true unchecked
                (λ _. 32)
                (some key)
                (some (piece suite (take 32 key) iv 0 input))
                r
            → r ≡ some input
        eq_of r (is_plaintext on h) =
            ap some (plaintext-piece suite (take 32 key) iv laws true 0 input long_iv)

    -- Where no fallible call fails and the library is initialized, for a key and an initialisation
    -- vector of at least 32 and 8 bytes: the encryption of a certificate returns a result, and the
    -- decryption of that result, in any state, returns the certificate. Neither throws, and both
    -- give back all that they acquired.
    pub decrypt_certificate-encrypt_certificate :
        (input : Bytes) (w : World (Option Bytes))
        → Yields
            (λ r.
              (v : World (Option Bytes))
              → Succeeds (some input) v (decrypt_certificate suite (some true) (some key) r v))
            w
            (encrypt_certificate suite (some true) (some key) (some iv) (some input) w)
    decrypt_certificate-encrypt_certificate input w =
        Ends-Yields
          (encrypt_certificate-Leaves suite true (some key) (some iv) (some input) long long_iv w)
          all (accepts suite laws all key iv long_iv unchecked refl iv input) opens
      where
        opens :
            (r : Option Bytes)
            → IsPiece suite true unchecked (λ _. 32) 0 (some key) (some iv) (some input) r
            → (v : World (Option Bytes))
            → Succeeds (some input) v (decrypt_certificate suite (some true) (some key) r v)
        opens r (is_piece on h) v = decrypt_certificate-piece input v

  module _ (size : length key ≡ suite.stream_key_size) where
    right_size : checked suite key ≡ true
    right_size = (==_iff (length key) suite.stream_key_size).1 size

    decrypt_generic-piece :
        (input : Bytes) (v : World (Option Bytes))
        → Succeeds (some input) v (
            decrypt_generic suite
              (some true)
              (some key)
              (some (piece suite (take (length key) key) iv 0 input))
              v)
    decrypt_generic-piece input v =
        Ends-Yields
          (decrypt_generic-Leaves suite true (some key)
            (some (piece suite (take (length key) key) iv 0 input))
            (length-piece suite laws all key iv long_iv (take (length key) key) 0 input) v)
          all
          (reads suite laws all key iv long_iv (checked suite) right_size
            (piece suite (take (length key) key) iv 0 input))
          eq_of
      where
        eq_of :
            (r : Option Bytes)
            → IsPlaintext suite true
                (checked suite)
                length
                (some key)
                (some (piece suite (take (length key) key) iv 0 input))
                r
            → r ≡ some input
        eq_of r (is_plaintext on h) =
            ap some (plaintext-piece suite (take (length key) key) iv laws true 0 input long_iv)

    -- Where no fallible call fails and the library is initialized, for a key of the size of the
    -- cipher and an initialisation vector of at least 8 bytes: the encryption of the generic stream
    -- cipher returns a result, and its decryption of that result with the same key, in any state,
    -- returns the input. Neither throws, and both give back all that they acquired.
    pub decrypt_generic-encrypt_generic :
        (input : Bytes) (w : World (Option Bytes))
        → Yields
            (λ r.
              (v : World (Option Bytes))
              → Succeeds (some input) v (decrypt_generic suite (some true) (some key) r v))
            w
            (encrypt_generic suite (some true) (some key) (some iv) (some input) w)
    decrypt_generic-encrypt_generic input w =
        Ends-Yields (encrypt_generic-Leaves suite true (some key) (some iv) (some input) long_iv w)
          all (accepts suite laws all key iv long_iv (checked suite) right_size iv input) opens
      where
        opens :
            (r : Option Bytes)
            → IsPiece suite true (checked suite) length 0 (some key) (some iv) (some input) r
            → (v : World (Option Bytes))
            → Succeeds (some input) v (decrypt_generic suite (some true) (some key) r v)
        opens r (is_piece on h) v = decrypt_generic-piece input v
