-- ===== src/Streams/Decrypt/Phases.antt =====
-- What each phase of a decryption of data does.
use v_j_bc.Base.{
  ℕ, ◌-◌, ◌≡◌, ◌≤◌, ap, sym, ◌∙◌, Bool, true, false, if◌then◌else◌, none, Option, List, ◌∷◌, Bytes,
  arith, length, length-take, length-drop, leb, le→leb, take, take_all, drop, write_at,
  write_at-all,
}
use v_j_bc.Jni.{ExceptionClass, null_pointer, Resource, output_array_data, Body, ◌>>=◌}
use v_j_bc.Jni.Point.{shape, Reason, Passes}
use v_j_bc.Jni.Rules.{Steps-bind, Steps-mono, step_rules}
use v_j_bc.Suite.{Suite}
use v_j_bc.Suite.Stream.{crypt, length-crypt}
use v_j_bc.Streams.{create_output, commit}
use v_j_bc.Streams.Envelope.{vector_of, plaintext}
use v_j_bc.Streams.Phases.{Unreleased, kept, create_output-Passes, commit-Passes}
use v_j_bc.Streams.Decrypt.{output_size, start_decryption, continue_decryption, decrypt_stream}

module _ {L : Type 0} (cleanup : L → List Resource) (suite : Suite) (X : ExceptionClass → Type 0)
    (stop : L) where
  abbrev pub Phase :
      {A : Type 0} → List Resource → List Resource → (A → Type 0) → Body L (Option Bytes) A → Type 0
  Phase h h' Q m =
      Passes cleanup Unreleased (λ r. r ≡ none) (Reason suite.calls X) (shape h none)
        (shape h' none) Q m

  abbrev pub writing : List Resource
  writing = output_array_data ∷ cleanup stop

  output_size-Passes :
      (first : Bool) (input : Bytes)
      → (if first then 8 else 0) ≤ length input
      → Phase
          (cleanup stop)
          (cleanup stop)
          (λ n. n ≡ length input - (if first then 8 else 0))
          (output_size suite stop first input)
  unfolding output_size
  output_size-Passes first input long = search (step_rules, kept, never) depth 30
    where
      never :
          leb (if first then 8 else 0) (length input) ≡ false
          → (m n : ℕ) → Reason suite.calls X m n null_pointer
      never h m n = cc (h, le→leb (if first then 8 else 0) (length input) long)

  pub start_decryption-Passes :
      (input : Bytes)
      → 8 ≤ length input
      → Phase writing writing (λ v. v ≡ take 8 input) (start_decryption suite stop input)
  unfolding start_decryption
  start_decryption-Passes input long = search (step_rules, kept, fits) depth 30
    where
      fits : leb 8 (length input) ≡ true
      fits = le→leb 8 (length input) long

  continue_decryption-Passes :
      (iv : Bytes)
      → 8 ≤ length iv
      → Phase writing writing (λ v. v ≡ take 8 iv) (continue_decryption suite stop iv)
  unfolding continue_decryption
  continue_decryption-Passes iv long = search (step_rules, kept, fits) depth 30
    where
      fits : leb 8 (length iv) ≡ true
      fits = le→leb 8 (length iv) long

  pub vector-Passes :
      (iv : Bytes) (first : Bool) (input : Bytes)
      → (if first then 8 else 0) ≤ length input
      → 8 ≤ length iv
      → Phase writing writing
          (λ v. v ≡ vector_of suite iv iv first input)
          (if first then start_decryption suite stop input else continue_decryption suite stop iv)
  vector-Passes iv true input long long_iv = start_decryption-Passes input long
  vector-Passes iv false input long long_iv = continue_decryption-Passes iv long_iv

  decrypt_stream-Passes :
      (key vector : Bytes) (position : ℕ) (input out : Bytes)
      → length out ≡ length input
      → Phase writing writing
          (λ r. r ≡ crypt (suite.decrypt_byte key vector) position input)
          (decrypt_stream suite stop key vector position input out)
  unfolding decrypt_stream
  decrypt_stream-Passes key vector position input out e =
      search (step_rules, kept, written) depth 30
    where
      written :
          write_at 0 (crypt (suite.decrypt_byte key vector) position input) out
          ≡ crypt (suite.decrypt_byte key vector) position input
      written =
          write_at-all (crypt (suite.decrypt_byte key vector) position input) out
            (length-crypt (suite.decrypt_byte key vector) position input ∙ sym e)

  -- Everything behind the opening of the stream.
  pub read-Passes :
      (key iv k : Bytes) (first : Bool) (position : ℕ) (input : Bytes)
      (vector : Body L (Option Bytes) Bytes)
      → k ≡ key
      → (if first then 8 else 0) ≤ length input
      → Phase writing writing (λ v. v ≡ vector_of suite iv iv first input) vector
      → Phase
          (cleanup stop)
          (cleanup stop)
          (λ r. r ≡ plaintext suite key iv first position input)
          (output_size suite stop first input >>= λ size. create_output suite stop size >>= λ out.
            vector >>= λ v.
            decrypt_stream suite stop k v position
              (take size (drop (if first then 8 else 0) input))
              out
            >>= λ out. commit out)
  read-Passes key iv k first position input vector ek long vectors =
      Steps-bind _ _ (output_size-Passes first input long) λ n en.
        Steps-bind _ _ (create_output-Passes suite X stop n) λ o eo. Steps-bind _ _ vectors λ v ev.
          Steps-bind _ _
            (decrypt_stream-Passes k v position (take n (drop (if first then 8 else 0) input)) o (
              omega (
                arith,
                eo,
                en,
                length-take n (drop (if first then 8 else 0) input),
                length-drop (if first then 8 else 0) input,
              )))
            λ p ep.
              Steps-mono
                (λ r er.
                  er
                  ∙ ep
                  ∙ ap (crypt (suite.decrypt_byte k v) position) (
                      take_all n (drop (if first then 8 else 0) input)
                        (length-drop (if first then 8 else 0) input ∙ sym en))
                  ∙ ap
                      (λ t.
                        crypt (suite.decrypt_byte t v) position
                          (drop (if first then 8 else 0) input))
                      ek
                  ∙ ap
                      (λ t.
                        crypt (suite.decrypt_byte key t) position
                          (drop (if first then 8 else 0) input))
                      ev)
                _ (commit-Passes suite X stop p)
