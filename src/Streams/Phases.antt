-- ===== src/Streams/Phases.antt =====
-- What each phase of a method on a stream does, and what a failure leaves held.
use v_j_bc.Base.{
  ℕ, ◌+◌, ◌≡◌, ◌≤◌, refl, none, List, [], ◌∷◌, ◌++◌, Bytes, arith, length, length-take, leb, le→leb,
  take, length-new_array, Option, write_at, subst, true,
}
use v_j_bc.Base.Prefix.{HasPrefix, HasPrefix-nil, write_at-HasPrefix}
use v_j_bc.Jni.{ExceptionClass, Resource, output_array_data, Body}
use v_j_bc.Jni.Point.{shape, nothing, Reason, Passes}
use v_j_bc.Jni.Rules.{step_rules}
use v_j_bc.Jni.Remove.{left, apart}
use v_j_bc.Jni.Completes.{Nothing-apart}
use v_j_bc.Suite.{Suite}
use v_j_bc.Streams.Envelope.{ciphertext, length-ciphertext}
use v_j_bc.Streams.{
  Label, stream_cipher_dispose, input_array_data_dispose, iv_array_data_dispose,
  key_array_data_dispose, key_buffer_dispose, return_null, cleanup, open_stream, create_output,
  start_encryption, encrypt_stream, commit,
}

-- What a failure may leave for ever: nothing, or the elements of the output array.
pub data Unreleased : List Resource → Type 0 where
  all_released : Unreleased []
  output_left : Unreleased (output_array_data ∷ [])

pub ruleset kept = (all_released, output_left, left)

module _ {L : Type 0} {cleanup : L → List Resource} (suite : Suite) (X : ExceptionClass → Type 0)
    (stop : L) where
  pub create_output-Passes :
      (size : ℕ)
      → Passes cleanup Unreleased
          (λ r. r ≡ none)
          (Reason suite.calls X)
          (shape (cleanup stop) none)
          (shape (output_array_data ∷ cleanup stop) none)
          (λ out. length out ≡ size)
          (create_output suite stop size)
  unfolding create_output
  create_output-Passes size = search (step_rules, kept, length-new_array) depth 30

  pub commit-Passes :
      (out : Bytes)
      → Passes cleanup Unreleased
          (λ r. r ≡ none)
          (Reason suite.calls X)
          (shape (output_array_data ∷ cleanup stop) none)
          (shape (cleanup stop) none)
          (λ r. r ≡ out)
          (commit out)
  unfolding commit
  commit-Passes out = search (step_rules, kept) depth 30

module _ (suite : Suite) (X : ExceptionClass → Type 0) where
  abbrev pub Phase :
      {A : Type 0}
      → List Resource
      → List Resource
      → (A → Type 0)
      → Body Label (Option Bytes) A
      → Type 0
  Phase h h' Q m =
      Passes cleanup Unreleased (λ r. r ≡ none) (Reason suite.calls X) (shape h none)
        (shape h' none) Q m

  -- What is held while the output is written.
  abbrev pub writing : List Resource
  writing = output_array_data ∷ cleanup stream_cipher_dispose

  pub open_stream-Passes :
      (size : ℕ) (key : Bytes)
      → size ≤ length key
      → Phase
          (cleanup return_null)
          (cleanup stream_cipher_dispose)
          (λ k. k ≡ take size key)
          (open_stream suite size key)
  unfolding open_stream
  open_stream-Passes size key long = search (step_rules, kept, fits) depth 30
    where
      fits : leb size (length key) ≡ true
      fits = le→leb size (length key) long

  pub start_encryption-Passes :
      (iv out : Bytes) {total : ℕ}
      → 8 ≤ length iv
      → 8 ≤ total
      → length out ≡ total
      → Phase writing writing (HasPrefix total (take 8 iv)) (start_encryption suite iv out)
  unfolding start_encryption
  start_encryption-Passes iv out {total} long room e =
      search (step_rules, kept, fits, begins) depth 30
    where
      fits : leb 8 (length iv) ≡ true
      fits = le→leb 8 (length iv) long

      begins : HasPrefix total (take 8 iv) (write_at 0 (take 8 iv) out)
      begins =
          write_at-HasPrefix 0 (take 8 iv) (subst (λ n. HasPrefix n [] out) e (HasPrefix-nil out))
            refl (omega (arith, length-take 8 iv))

  pub encrypt_stream-Passes :
      (key iv : Bytes) (position : ℕ) (input : Bytes) (offset : ℕ) (a out : Bytes) {total : ℕ}
      → HasPrefix total a out
      → offset ≡ length a
      → length a + length input ≤ total
      → Phase writing writing
          (HasPrefix total (a ++ ciphertext suite key iv position input))
          (encrypt_stream suite key iv position input offset out)
  unfolding encrypt_stream
  encrypt_stream-Passes key iv position input offset a out {total} h e room =
      search (step_rules, kept, written) depth 30
    where
      written :
          HasPrefix total
            (a ++ ciphertext suite key iv position input)
            (write_at offset (ciphertext suite key iv position input) out)
      written =
          write_at-HasPrefix offset (ciphertext suite key iv position input) h e
            (omega (arith, length-ciphertext suite key iv position input))

-- What is left does not stand in the way of a cleanup.
pub Unreleased-apart :
    (leaked : List Resource) → Unreleased leaked → (l : Label) → apart leaked (cleanup l) ≡ true
Unreleased-apart _ all_released l = Nothing-apart cleanup [] nothing l
Unreleased-apart _ output_left stream_cipher_dispose = refl
Unreleased-apart _ output_left input_array_data_dispose = refl
Unreleased-apart _ output_left iv_array_data_dispose = refl
Unreleased-apart _ output_left key_array_data_dispose = refl
Unreleased-apart _ output_left key_buffer_dispose = refl
Unreleased-apart _ output_left return_null = refl
