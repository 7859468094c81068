-- ===== src/Streams/Encrypt/Complete.antt =====
-- What the three encryptions of data return, in every case.
use v_j_bc.Base.{ℕ, ◌≡◌, refl, Bool, Option, none, some, [], Bytes, length}
use v_j_bc.Jni.{World}
use v_j_bc.Jni.Remove.{clean}
use v_j_bc.Jni.Completes.{Leaves, run-Leaves}
use v_j_bc.Suite.{Suite}
use v_j_bc.Streams.{stream_cipher_dispose}
use v_j_bc.Streams.Envelope.{AtLeast}
use v_j_bc.Streams.Phases.{Unreleased, Unreleased-apart}
use v_j_bc.Streams.Encrypt.{encrypt_generic, encrypt_certificate, encrypt_data}
use v_j_bc.Streams.Encrypt.Phases.{Refused, IsPiece, checked, unchecked}
use v_j_bc.Streams.Encrypt.Bodies.{generic-Passes, certificate-Passes, data-Passes}

module _ (suite : Suite) (b : Bool) where
  -- For every argument, with an instance that is not null, an initialisation vector of at least 8
  -- bytes, and whichever calls fail, `encryptNative` of the generic stream cipher ends with
  -- defined behaviour. It returns the vector and behind it the ciphertext of the input under the
  -- key, with nothing thrown and all that it acquired given back, and then the library is
  -- initialized, no argument is null and the key has the size of the cipher; or it throws an
  -- exception of a class for which there is a reason and returns NULL, and then it has given back
  -- all that it acquired, or all but the elements of the output array.
  pub encrypt_generic-Leaves :
      (key iv input : Option Bytes)
      → AtLeast 8 iv
      → (w : World (Option Bytes))
      → Leaves [] Unreleased
          (λ r. r ≡ none)
          (Refused suite b (checked suite) key iv input)
          (IsPiece suite b (checked suite) length 0 key iv input)
          w
          (encrypt_generic suite (some b) key iv input w)
  unfolding encrypt_generic
  encrypt_generic-Leaves key iv input long w =
      run-Leaves Unreleased-apart stream_cipher_dispose clean refl w some (λ a h. h) _
        (generic-Passes suite b key iv input long)

  -- The same of `encryptData` of encrypted certificates, for a key and a vector of at least 32 and
  -- 8 bytes, where the size of the key is not tested.
  pub encrypt_certificate-Leaves :
      (key iv input : Option Bytes)
      → AtLeast 32 key
      → AtLeast 8 iv
      → (w : World (Option Bytes))
      → Leaves [] Unreleased
          (λ r. r ≡ none)
          (Refused suite b unchecked key iv input)
          (IsPiece suite b unchecked (λ _. 32) 0 key iv input)
          w
          (encrypt_certificate suite (some b) key iv input w)
  unfolding encrypt_certificate
  encrypt_certificate-Leaves key iv input long long_iv w =
      run-Leaves Unreleased-apart stream_cipher_dispose clean refl w some (λ a h. h) _
        (certificate-Passes suite b key iv input long long_iv)

  -- For every argument, with an instance that is not null, a key and an initialisation vector of
  -- at least 32 and 8 bytes, and whichever calls fail, `encryptData` of encrypted documents ends
  -- with defined behaviour. It returns the piece of the encrypted document that stands at the
  -- offset, with nothing thrown and all that it acquired given back, and then the library is
  -- initialized and no argument is null; or it throws an exception of a class for which there is
  -- a reason and returns NULL, and then it has given back all that it acquired, or all but the
  -- elements of the output array.
  pub encrypt_data-Leaves :
      (key iv input : Option Bytes) (offset : ℕ)
      → AtLeast 32 key
      → AtLeast 8 iv
      → (w : World (Option Bytes))
      → Leaves [] Unreleased
          (λ r. r ≡ none)
          (Refused suite b unchecked key iv input)
          (IsPiece suite b unchecked (λ _. 32) offset key iv input)
          w
          (encrypt_data suite (some b) key iv input offset w)
  unfolding encrypt_data
  encrypt_data-Leaves key iv input offset long long_iv w =
      run-Leaves Unreleased-apart stream_cipher_dispose clean refl w some (λ a h. h) _
        (data-Passes suite b key iv input offset long long_iv)
