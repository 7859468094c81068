-- ===== src/Streams/Decrypt/Complete.antt =====
-- What the three decryptions of data return, in every case.
use v_j_bc.Base.{
  ℕ, ◌≡◌, refl, sym, subst, Bool, true, [], length, ◌==◌, if◌then◌else◌, Option, none, some, Bytes,
  take, drop,
}
use v_j_bc.Jni.{World, ◌>>=◌}
use v_j_bc.Jni.Rules.{Steps-bind, Steps-mono, step_rules}
use v_j_bc.Jni.Remove.{clean}
use v_j_bc.Jni.Completes.{Leaves, run-Leaves}
use v_j_bc.Suite.{Suite}
use v_j_bc.Streams.{open_stream, create_output, commit, cleanup, stream_cipher_dispose, return_null}
use v_j_bc.Streams.Envelope.{AtLeast}
use v_j_bc.Streams.Phases.{Unreleased, kept, Unreleased-apart, Phase, open_stream-Passes}
use v_j_bc.Streams.Encrypt.Phases.{checked, unchecked, Refusal, Refused, reasons}
use v_j_bc.Streams.Decrypt as Decrypt
use v_j_bc.Streams.Decrypt.{
  output_size, start_decryption, continue_decryption, decrypt_stream, decrypt_generic,
  decrypt_certificate, decrypt_data_body, decrypt_data,
}
use v_j_bc.Streams.Decrypt.Phases.{vector-Passes, read-Passes}
use v_j_bc.Streams.Decrypt.Bodies.{IsPlaintext, IsRead, is_read, generic-Passes, certificate-Passes}
use v_j_bc.Streams.Decrypt.Bodies as Bodies

-- What the size of the input has to be at an offset.
abbrev pub least : ℕ → ℕ
least offset = if offset == 0 then 8 else 0

module _ (suite : Suite) (b : Bool) where
  data-Passes :
      (key iv input : Option Bytes) (offset : ℕ)
      → AtLeast 32 key
      → AtLeast 8 iv
      → AtLeast (least offset) input
      → Phase suite
          (Refusal b unchecked key iv input)
          (cleanup return_null)
          (cleanup stream_cipher_dispose)
          (λ r. IsRead suite b offset key iv input (some r))
          (decrypt_data_body suite (some b) key iv input offset)
  unfolding decrypt_data_body
  data-Passes none iv input offset long long_iv long_input =
      search (step_rules, kept, reasons) depth 30
  data-Passes (some key) none input offset long long_iv long_input =
      search (step_rules, kept, reasons) depth 30
  data-Passes (some key) (some iv) none offset long long_iv long_input =
      search (step_rules, kept, reasons) depth 30
  data-Passes (some key) (some iv) (some input) offset long long_iv long_input =
      search (step_rules, kept, reasons, rest) depth 30
    where
      rest :
          b ≡ true
          → Phase suite
              (Refusal b unchecked (some key) (some iv) (some input))
              (cleanup return_null)
              (cleanup stream_cipher_dispose)
              (λ r. IsRead suite b offset (some key) (some iv) (some input) (some r))
              (open_stream suite 32 key >>= λ k.
                output_size suite stream_cipher_dispose (offset == 0) input >>= λ size.
                create_output suite stream_cipher_dispose size >>= λ out.
                (if offset == 0
                  then start_decryption suite stream_cipher_dispose input
                  else continue_decryption suite stream_cipher_dispose iv)
                >>= λ v.
                    decrypt_stream suite stream_cipher_dispose k v offset
                      (take size (drop (if offset == 0 then 8 else 0) input))
                      out
                    >>= λ out. commit out)
      rest on =
          Steps-mono
            (λ r e.
              subst (λ t. IsRead suite b offset (some key) (some iv) (some input) (some t)) (sym e)
                (is_read on))
            _
            (Steps-bind _ _ (open_stream-Passes suite _ 32 key long) λ k ek.
              read-Passes cleanup suite _ stream_cipher_dispose (take 32 key) iv k (offset == 0)
                offset input _ ek long_input
                (vector-Passes cleanup suite _ stream_cipher_dispose iv (offset == 0) input
                  long_input long_iv))

  -- For every argument, with an instance that is not null, an input of at least 8 bytes, and
  -- whichever calls fail, `decryptNative` of the generic stream cipher ends with defined behaviour.
  -- It returns the plaintext under the key and the vector at the front of the input, with nothing
  -- thrown and all that it acquired given back, and then the library is initialized, no argument is
  -- null and the key has the size of the cipher; or it throws an exception of a class for which
  -- there is a reason and returns NULL, and then it has given back all that it acquired, or all but
  -- the elements of the output array.
  pub decrypt_generic-Leaves :
      (key input : Option Bytes)
      → AtLeast 8 input
      → (w : World (Option Bytes))
      → Leaves [] Unreleased
          (λ r. r ≡ none)
          (Bodies.Refused suite b (checked suite) key input)
          (IsPlaintext suite b (checked suite) length key input)
          w
          (decrypt_generic suite (some b) key input w)
  unfolding decrypt_generic
  decrypt_generic-Leaves key input long w =
      run-Leaves Bodies.Unreleased-apart Decrypt.stream_cipher_dispose clean refl w some (λ a h. h)
        _ (generic-Passes suite b key input long)

  -- The same of `decryptNative` of encrypted certificates, for a key and an input of at least 32
  -- and 8 bytes, where the size of the key is not tested.
  pub decrypt_certificate-Leaves :
      (key input : Option Bytes)
      → AtLeast 32 key
      → AtLeast 8 input
      → (w : World (Option Bytes))
      → Leaves [] Unreleased
          (λ r. r ≡ none)
          (Bodies.Refused suite b unchecked key input)
          (IsPlaintext suite b unchecked (λ _. 32) key input)
          w
          (decrypt_certificate suite (some b) key input w)
  unfolding decrypt_certificate
  decrypt_certificate-Leaves key input long long_input w =
      run-Leaves Bodies.Unreleased-apart Decrypt.stream_cipher_dispose clean refl w some (λ a h. h)
        _ (certificate-Passes suite b key input long long_input)

  -- For every argument, with an instance that is not null, a key and an initialisation vector of
  -- at least 32 and 8 bytes, an input of at least 8 bytes where the offset is 0, and whichever
  -- calls fail, `decryptData` of encrypted documents ends with defined behaviour. It returns the
  -- plaintext of the piece that stands at the offset, with nothing thrown and all that it acquired
  -- given back, and then the library is initialized and no argument is null; or it throws an
  -- exception of a class for which there is a reason and returns NULL, and then it has given back
  -- all that it acquired, or all but the elements of the output array.
  pub decrypt_data-Leaves :
      (key iv input : Option Bytes) (offset : ℕ)
      → AtLeast 32 key
      → AtLeast 8 iv
      → AtLeast (least offset) input
      → (w : World (Option Bytes))
      → Leaves [] Unreleased
          (λ r. r ≡ none)
          (Refused suite b unchecked key iv input)
          (IsRead suite b offset key iv input)
          w
          (decrypt_data suite (some b) key iv input offset w)
  unfolding decrypt_data
  decrypt_data-Leaves key iv input offset long long_iv long_input w =
      run-Leaves Unreleased-apart stream_cipher_dispose clean refl w some (λ a h. h) _
        (data-Passes key iv input offset long long_iv long_input)
