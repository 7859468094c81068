-- ===== src/SimpleCipher/Opens.antt =====
-- What the decryption reads in a message of the encryption.
use v_j_bc.Base.{
  ◌+◌, ◌-◌, ◌≡◌, sym, ap, ◌∙◌, true, ◌++◌, Bytes, arith, length, length-append, length-take,
  length-drop, take, drop, take-append-drop, take_all,
}
use v_j_bc.Base.Prefix.{
  HasPrefix, HasPrefix-self, HasPrefix-front, take-HasPrefix, take-drop-HasPrefix,
}
use v_j_bc.Suite.{Suite, IsSuite}
use v_j_bc.Suite.Stream.{crypt-crypt, length-crypt}
use v_j_bc.SimpleCipher.Envelope.{
  Session, IsSession, key_block_1, key_block_2, wrapped_key, ciphertext, authenticated, message_mac,
  message,
}
use v_j_bc.SimpleCipher.Encrypt.Layout.{length-wrapped_key, length-authenticated}
use v_j_bc.SimpleCipher.Decrypt.Phases.{opened_key, genuine, plaintext}

module _ (suite : Suite) (laws : IsSuite suite) (key : Bytes) (s : Session) (is : IsSession s)
    (input : Bytes) where
  abbrev m : Bytes
  m = message suite key s input

  pub length-message : length m ≡ 120 + length input
  length-message = omega (
    arith,
    length-append (authenticated suite key s input) (message_mac suite key s input),
    length-authenticated suite laws key s is input,
    laws.length-mac s.key (authenticated suite key s input),
  )

  -- The prefixes of the message.
  whole : HasPrefix (length m) m m
  whole = HasPrefix-self m

  front_5 : HasPrefix (length m) (authenticated suite key s input) m
  front_5 = HasPrefix-front (authenticated suite key s input) (message_mac suite key s input) whole

  front_4 : HasPrefix (length m) (wrapped_key suite key s ++ s.stream_iv) m
  front_4 =
      HasPrefix-front (wrapped_key suite key s ++ s.stream_iv) (ciphertext suite key s input)
        front_5

  front_3 : HasPrefix (length m) (wrapped_key suite key s) m
  front_3 = HasPrefix-front (wrapped_key suite key s) s.stream_iv front_4

  front_2 : HasPrefix (length m) (s.key_iv ++ key_block_1 suite key s) m
  front_2 = HasPrefix-front (s.key_iv ++ key_block_1 suite key s) (key_block_2 suite key s) front_3

  front_1 : HasPrefix (length m) s.key_iv m
  front_1 = HasPrefix-front s.key_iv (key_block_1 suite key s) front_2

  length-block_1 : length (key_block_1 suite key s) ≡ 16
  length-block_1 = laws.length-block_encrypt key s.key_iv (take 16 s.key)

  read_iv : take 16 m ≡ s.key_iv
  read_iv = take-HasPrefix 16 front_1 is.length-key_iv

  read_block_1 : take 16 (drop 16 m) ≡ key_block_1 suite key s
  read_block_1 =
      take-drop-HasPrefix s.key_iv (key_block_1 suite key s) 16 16 front_2 is.length-key_iv
        length-block_1

  read_block_2 : take 16 (drop 32 m) ≡ key_block_2 suite key s
  read_block_2 =
      take-drop-HasPrefix (s.key_iv ++ key_block_1 suite key s) (key_block_2 suite key s) 32 16
        front_3
        (omega (
          arith,
          length-append s.key_iv (key_block_1 suite key s),
          is.length-key_iv,
          length-block_1,
        ))
        (laws.length-block_encrypt key (key_block_1 suite key s) (take 16 (drop 16 s.key)))

  key_halves : take 16 s.key ++ take 16 (drop 16 s.key) ≡ s.key
  key_halves =
      ap (λ t. take 16 s.key ++ t)
        (take_all 16 (drop 16 s.key) (omega (arith, length-drop 16 s.key, is.length-key)))
      ∙ take-append-drop 16 s.key

  opened_key-message : opened_key suite key m ≡ s.key
  opened_key-message =
      rw
        (
          read_block_2,
          read_block_1,
          read_iv,
          laws.block_decrypt-block_encrypt key s.key_iv (take 16 s.key)
              (omega (arith, length-take 16 s.key, is.length-key)),
          laws.block_decrypt-block_encrypt key (key_block_1 suite key s) (take 16 (drop 16 s.key))
              (omega (arith, length-take 16 (drop 16 s.key), length-drop 16 s.key, is.length-key)),
        )
        key_halves

  read_authenticated : take (length m - 64) m ≡ authenticated suite key s input
  read_authenticated =
      take-HasPrefix (length m - 64) front_5
        (omega (arith, length-message, length-authenticated suite laws key s is input))

  read_mac : take 64 (drop (length m - 64) m) ≡ message_mac suite key s input
  read_mac =
      take-drop-HasPrefix (authenticated suite key s input) (message_mac suite key s input)
        (length m - 64) 64 whole
        (omega (arith, length-message, length-authenticated suite laws key s is input))
        (laws.length-mac s.key (authenticated suite key s input))

  pub genuine-message : genuine suite key m ≡ true
  genuine-message = (laws.crypto_memcmp_eq_iff _ _).1 (
      ap (λ k. take 64 (suite.mac k (take (length m - 64) m))) opened_key-message
      ∙ ap (λ t. take 64 (suite.mac s.key t)) read_authenticated
      ∙ take_all 64 (message_mac suite key s input)
          (laws.length-mac s.key (authenticated suite key s input))
      ∙ sym read_mac)

  read_stream_iv : take 8 (drop 48 m) ≡ s.stream_iv
  read_stream_iv =
      take-drop-HasPrefix (wrapped_key suite key s) s.stream_iv 48 8 front_4
        (length-wrapped_key suite laws key s is) is.length-stream_iv

  read_ciphertext : take (length m - 120) (drop 56 m) ≡ ciphertext suite key s input
  read_ciphertext =
      take-drop-HasPrefix (wrapped_key suite key s ++ s.stream_iv) (ciphertext suite key s input) 56
        (length m - 120) front_5
        (omega (
          arith,
          length-append (wrapped_key suite key s) s.stream_iv,
          length-wrapped_key suite laws key s is,
          is.length-stream_iv,
        ))
        (omega (arith, length-message, length-crypt (suite.encrypt_byte s.key s.stream_iv) 0 input))

  pub plaintext-message : plaintext suite key m ≡ input
  plaintext-message =
      rw (read_ciphertext, read_stream_iv, opened_key-message)
        (crypt-crypt (suite.encrypt_byte s.key s.stream_iv) (suite.decrypt_byte s.key s.stream_iv)
          (laws.decrypt_byte-encrypt_byte s.key s.stream_iv) 0 input)
