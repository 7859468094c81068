-- ===== src/SimpleCipher/Encrypt/Layout.antt =====
-- What the copies of the encryption leave in the output array.
use v_j_bc.Base.{
  ℕ, ◌+◌, ◌≡◌, refl, sym, ap, subst, ◌∙◌, [], ◌++◌, append_assoc, Bytes, arith, length,
  length-append, take, drop, write_at,
}
use v_j_bc.Base.Prefix.{
  HasPrefix, HasPrefix-nil, write_at-HasPrefix, take-HasPrefix, take-drop-HasPrefix, HasPrefix-eq,
}
use v_j_bc.Suite.{Suite, IsSuite}
use v_j_bc.Suite.Stream.{length-crypt}
use v_j_bc.SimpleCipher.Envelope.{
  Session, IsSession, key_block_1, key_block_2, wrapped_key, ciphertext, authenticated, message_mac,
  message,
}
use v_j_bc.SimpleCipher.Encrypt.{Output}

module _ (suite : Suite) (laws : IsSuite suite) (key : Bytes) (s : Session) (is : IsSession s) where
  pub length-wrapped_key : length (wrapped_key suite key s) ≡ 48
  length-wrapped_key = omega (
    arith,
    length-append (s.key_iv ++ key_block_1 suite key s) (key_block_2 suite key s),
    length-append s.key_iv (key_block_1 suite key s),
    laws.length-block_encrypt key s.key_iv (take 16 s.key),
    laws.length-block_encrypt key (key_block_1 suite key s) (take 16 (drop 16 s.key)),
    is.length-key_iv,
  )

  pub length-authenticated :
      (input : Bytes) → length (authenticated suite key s input) ≡ 56 + length input
  length-authenticated input = omega (
    arith,
    length-append (wrapped_key suite key s ++ s.stream_iv) (ciphertext suite key s input),
    length-append (wrapped_key suite key s) s.stream_iv,
    length-wrapped_key,
    is.length-stream_iv,
    length-crypt (suite.encrypt_byte s.key s.stream_iv) 0 input,
  )

  -- The array holds the bytes `a` at its front, and these are digested.
  pub record Holds (n : ℕ) (a : Bytes) (o : Output) : Type 0 where
    pub array : HasPrefix (120 + n) a o.array
    pub digested : o.digested ≡ a

  module _ (n : ℕ) where
    pub iv_written :
        (p : Bytes) → length p ≡ 120 + n → HasPrefix (120 + n) s.key_iv (write_at 0 s.key_iv p)
    iv_written p e =
        write_at-HasPrefix 0 s.key_iv (subst (λ t. HasPrefix t [] p) e (HasPrefix-nil p)) refl
          (omega (arith, is.length-key_iv))

    pub block_1_written :
        (p : Bytes)
        → HasPrefix (120 + n) s.key_iv p
        → HasPrefix
            (120 + n)
            (s.key_iv ++ key_block_1 suite key s)
            (write_at 16 (key_block_1 suite key s) p)
    block_1_written p h =
        write_at-HasPrefix 16 (key_block_1 suite key s) h (sym is.length-key_iv)
          (omega (arith, is.length-key_iv, laws.length-block_encrypt key s.key_iv (take 16 s.key)))

    -- The initialisation vector of the second block is read from the array.
    pub chained :
        (p : Bytes)
        → HasPrefix (120 + n) (s.key_iv ++ key_block_1 suite key s) p
        → take 16 (drop 16 p) ≡ key_block_1 suite key s
    chained p h =
        take-drop-HasPrefix s.key_iv (key_block_1 suite key s) 16 16 h is.length-key_iv
          (laws.length-block_encrypt key s.key_iv (take 16 s.key))

    pub block_2_written :
        (p : Bytes)
        → HasPrefix (120 + n) (s.key_iv ++ key_block_1 suite key s) p
        → HasPrefix (120 + n) (wrapped_key suite key s) (
            write_at 32 (suite.block_encrypt key (take 16 (drop 16 p)) (take 16 (drop 16 s.key))) p)
    block_2_written p h =
        subst
          (λ v.
            HasPrefix (120 + n) (wrapped_key suite key s)
              (write_at 32 (suite.block_encrypt key v (take 16 (drop 16 s.key))) p))
          (sym (chained p h))
          (write_at-HasPrefix 32 (key_block_2 suite key s) h (sym lengths) (
            omega (
              arith,
              lengths,
              laws.length-block_encrypt key (key_block_1 suite key s) (take 16 (drop 16 s.key)),
            )))
      where
        lengths : length (s.key_iv ++ key_block_1 suite key s) ≡ 32
        lengths = omega (
          arith,
          length-append s.key_iv (key_block_1 suite key s),
          is.length-key_iv,
          laws.length-block_encrypt key s.key_iv (take 16 s.key),
        )

    pub key_digested :
        (p : Bytes)
        → HasPrefix (120 + n) (wrapped_key suite key s) p
        → Holds n (wrapped_key suite key s) (record { array = p; digested = take 48 p })
    key_digested p h = record { array = h; digested = take-HasPrefix 48 h length-wrapped_key }

  module _ (input : Bytes) where
    pub stream_iv_written :
        (o : Output)
        → Holds (length input) (wrapped_key suite key s) o
        → HasPrefix
            (120 + length input)
            (wrapped_key suite key s ++ s.stream_iv)
            (write_at 48 s.stream_iv o.array)
    stream_iv_written o h =
        write_at-HasPrefix 48 s.stream_iv h.array (sym length-wrapped_key)
          (omega (arith, length-wrapped_key, is.length-stream_iv))

    pub input_written :
        (p : Bytes)
        → HasPrefix (120 + length input) (wrapped_key suite key s ++ s.stream_iv) p
        → HasPrefix
            (120 + length input)
            (authenticated suite key s input)
            (write_at (48 + length s.stream_iv) (ciphertext suite key s input) p)
    input_written p h =
        write_at-HasPrefix (48 + length s.stream_iv) (ciphertext suite key s input) h
          (omega (arith, length-append (wrapped_key suite key s) s.stream_iv, length-wrapped_key))
          (omega (
            arith,
            length-append (wrapped_key suite key s) s.stream_iv,
            length-wrapped_key,
            is.length-stream_iv,
            length-crypt (suite.encrypt_byte s.key s.stream_iv) 0 input,
          ))

    pub input_digested :
        (o : Output) (p : Bytes)
        → o.digested ≡ wrapped_key suite key s
        → HasPrefix (120 + length input) (authenticated suite key s input) p
        → Holds
            (length input)
            (authenticated suite key s input)
            (record { array = p; digested = o.digested ++ take (8 + length input) (drop 48 p) })
    input_digested o p d h = record {
      array = h;
      digested =
          ap (λ t. t ++ take (8 + length input) (drop 48 p)) d
          ∙ ap (λ t. wrapped_key suite key s ++ t)
              (take-drop-HasPrefix (wrapped_key suite key s)
                (s.stream_iv ++ ciphertext suite key s input) 48 (8 + length input)
                (subst (λ a. HasPrefix (120 + length input) a p)
                  (append_assoc (wrapped_key suite key s) s.stream_iv
                    (ciphertext suite key s input))
                  h)
                length-wrapped_key
                (omega (
                  arith,
                  length-append s.stream_iv (ciphertext suite key s input),
                  is.length-stream_iv,
                  length-crypt (suite.encrypt_byte s.key s.stream_iv) 0 input,
                )))
          ∙ sym (append_assoc (wrapped_key suite key s) s.stream_iv (ciphertext suite key s input));
    }

    pub mac_written :
        (o : Output)
        → Holds (length input) (authenticated suite key s input) o
        → write_at (48 + (8 + length input)) (suite.mac s.key o.digested) o.array
          ≡ message suite key s input
    mac_written o h =
        ap (λ d. write_at (48 + (8 + length input)) (suite.mac s.key d) o.array) h.digested
        ∙ HasPrefix-eq
            (write_at-HasPrefix (48 + (8 + length input)) (message_mac suite key s input) h.array
              (omega (arith, length-authenticated input))
              (omega (
                arith,
                length-authenticated input,
                laws.length-mac s.key (authenticated suite key s input),
              )))
            (omega (
              arith,
              length-append (authenticated suite key s input) (message_mac suite key s input),
              length-authenticated input,
              laws.length-mac s.key (authenticated suite key s input),
            ))
