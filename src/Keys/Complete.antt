-- ===== src/Keys/Complete.antt =====
-- What the operations on keys return, in every case.
use v_j_bc.Base.{
  ℕ, ◌≡◌, refl, inl, inr, Bool, true, false, Bool-cases, ◌&&◌, ◌==◌, ==_iff, if◌then◌else◌, Option,
  none, some, [], Bytes, length, new_array, write_at,
}
use v_j_bc.Jni.{ExceptionClass, illegal_state, invalid_key_size, World, ◌>>=◌}
use v_j_bc.Jni.Point.{shape, Steps, Reason}
use v_j_bc.Jni.Rules.{Steps-bind, deref-then, test-then, step_rules}
use v_j_bc.Jni.Completes.{Ends, run-Ends, Completes, run-Completes}
use v_j_bc.Suite.{Suite}
use v_j_bc.KeyPairs.Encryption.Complete.{Refusal, not_initialized, copied}
use v_j_bc.Keys.{
  cleanup, output_array_dispose, prng_dispose, draw_bytes, make_key, create_random_body,
  create_random, verify_key_size_body, verify_key_size,
}

-- Why the test of a key throws, and the class of the exception.
pub data BadKey (suite : Suite) (initialized : Bool) (key : Bytes) : ExceptionClass → Type 0 where
  closed : initialized ≡ false → BadKey suite initialized key illegal_state
  bad_size : ¬ (length key ≡ suite.stream_key_size) → BadKey suite initialized key invalid_key_size

module _ (suite : Suite) where
  abbrev pub Refused : Bool → ℕ → ℕ → ExceptionClass → Type 0
  Refused initialized = Reason suite.calls (Refusal initialized)

  -- A key of the size of the cipher that a call of the generator has drawn, or NULL if the call
  -- that makes the object fails.
  pub data IsRandom (initialized : Bool) : Option Bytes → Type 0 where
    is_random :
        (n : ℕ)
        → initialized ≡ true
        → IsRandom initialized (some (suite.random n suite.stream_key_size))
    no_object : (n : ℕ) → initialized ≡ true → suite.makes n ≡ false → IsRandom initialized none

  data IsDrawn : Bytes → Type 0 where
    is_drawn : (n : ℕ) → IsDrawn (suite.random n suite.stream_key_size)

  ruleset reasons = (not_initialized, is_drawn)

  module _ (b : Bool) where
    draw_bytes-Steps :
        Steps cleanup
          (λ r. r ≡ none)
          (Refused b)
          (shape [] none)
          (shape (cleanup prng_dispose) none)
          IsDrawn
          (draw_bytes suite)
    unfolding draw_bytes
    draw_bytes-Steps = search (step_rules, reasons) depth 30

    made_key :
        b ≡ true
        → (bytes : Bytes) → IsDrawn bytes
        → (n : ℕ)
        → IsRandom b (
            if suite.makes n && true
            then some (write_at 0 bytes (new_array (length bytes)))
            else none)
    made_key on _ (is_drawn m) n = elim (Bool-cases (suite.makes n)) [
      | inl p ↦ rw (p, copied (suite.random m suite.stream_key_size)) (is_random m on)
      | inr p ↦ rw p (no_object n on p)
    ]

    make_key-Steps :
        b ≡ true
        → (bytes : Bytes) → IsDrawn bytes
        → Steps cleanup
            (λ r. r ≡ none)
            (Refused b)
            (shape (cleanup prng_dispose) none)
            (shape (cleanup output_array_dispose) none)
            (IsRandom b)
            (make_key suite bytes)
    unfolding make_key
    make_key-Steps on bytes is =
        search (step_rules, test-then, reasons, made_key on bytes is) depth 30

    create_random_body-Steps :
        Steps cleanup
          (λ r. r ≡ none)
          (Refused b)
          (shape [] none)
          (shape (cleanup output_array_dispose) none)
          (IsRandom b)
          (create_random_body suite (some b))
    unfolding create_random_body
    create_random_body-Steps = search (step_rules, reasons, rest) depth 30
      where
        rest :
            b ≡ true
            → Steps cleanup
                (λ r. r ≡ none)
                (Refused b)
                (shape [] none)
                (shape (cleanup output_array_dispose) none)
                (IsRandom b)
                (draw_bytes suite >>= λ bytes. make_key suite bytes)
        rest on = Steps-bind _ _ draw_bytes-Steps λ p ip. make_key-Steps on p ip

    -- With an instance that is not null, and whichever calls fail, the creation of a random key ends
    -- with defined behaviour and has given back all that it acquired. It returns a key of the size
    -- of the cipher that the generator has drawn, or NULL if the object can not be made, with
    -- nothing thrown by the method itself; or it throws an exception of a class for which there is
    -- a reason, and returns NULL.
    pub create_random-Ends :
        (w : World (Option Bytes))
        → Ends (λ r. r ≡ none) (Refused b) (IsRandom b) w (create_random suite (some b) w)
    unfolding create_random
    create_random-Ends w =
        run-Ends output_array_dispose refl w (λ r. r) (λ a h. h) _ create_random_body-Steps

    verify_body-Steps :
        (key : Bytes)
        → Steps
            (λ _. [])
            (λ _. Unit {0})
            (λ m n. BadKey suite b key)
            (shape [] tt)
            (shape [] tt)
            (λ _. (b ≡ true) × (length key ≡ suite.stream_key_size))
            (verify_key_size_body suite (some b) (some key))
    unfolding verify_key_size_body
    verify_body-Steps key = search (step_rules, deref-then, closed, unequal, equal, tt) depth 30
      where
        unequal :
            (length key == suite.stream_key_size) ≡ false → BadKey suite b key invalid_key_size
        unequal h = bad_size λ e. cc ((==_iff (length key) suite.stream_key_size).1 e)

        equal :
            b ≡ true
            → (length key == suite.stream_key_size) ≡ true
            → (b ≡ true) × (length key ≡ suite.stream_key_size)
        equal on h = (on, (==_iff (length key) suite.stream_key_size).0 h)

    -- With an instance and a key that are not null, the test of the size of a key throws nothing just
    -- where the library is initialized and the key has the size of the cipher. Otherwise it throws
    -- an IllegalStateException if the library is not initialized, or an InvalidKeySizeException.
    pub verify_key_size-Completes :
        (key : Bytes) (w : World (Unit {0}))
        → Completes
            (λ _. Unit {0})
            (λ m n. BadKey suite b key)
            ((b ≡ true) × (length key ≡ suite.stream_key_size))
            tt
            w
            (verify_key_size suite (some b) (some key) w)
    unfolding verify_key_size
    verify_key_size-Completes key w = run-Completes tt refl w _ (verify_body-Steps key)
