-- ===== src/Documents/Generate/Complete.antt =====
-- What the generation of a key returns, in every case, and what becomes of the key.
use v_j_bc.Base.{
  ℕ, ◌≡◌, ◌≤◌, refl, Bool, true, false, Option, none, some, [], Bytes, length, leb, le→leb, take,
  take_all, arith,
}
use v_j_bc.Jni.{ExceptionClass, illegal_state, World, ◌>>=◌}
use v_j_bc.Jni.Point.{shape, Steps, Reason, AllSucceed}
use v_j_bc.Jni.Rules.{Steps-bind, step_rules}
use v_j_bc.Jni.Completes.{Ends, run-Ends, Yields, Succeeds, Ends-Yields}
use v_j_bc.Suite.{Suite, IsSuite}
use v_j_bc.Documents.Generate.{
  cleanup, dispose_prng, draw_key, return_key, generate_key_body, generate_key,
}
use v_j_bc.Documents.Wrap.{wrap_key}
use v_j_bc.Documents.Unwrap.{unwrap_key}
use v_j_bc.Documents.RoundTrip.{unwrap_key-wrap_key}

module _ (suite : Suite) where
  -- Why the generation refuses, and the class of the exception that says so.
  pub data Refusal (initialized : Bool) : ExceptionClass → Type 0 where
    not_initialized : initialized ≡ false → Refusal initialized illegal_state

  -- The same, or a call that failed.
  abbrev pub Refused : Bool → ℕ → ℕ → ExceptionClass → Type 0
  Refused initialized = Reason suite.calls (Refusal initialized)

  -- The 32 bytes that a call of the generator has drawn.
  pub data IsKey (initialized : Bool) : Option Bytes → Type 0 where
    is_key : (n : ℕ) → initialized ≡ true → IsKey initialized (some (suite.random n 32))

  -- The same, known as bytes.
  data IsDrawn : Bytes → Type 0 where
    is_drawn : (n : ℕ) → IsDrawn (suite.random n 32)

  ruleset reasons = (not_initialized, is_drawn)

  module _ (private public peer_private peer_public : Bytes) where
    -- The wrapping of `key`, in any state, returns what the peer unwraps to it.
    abbrev pub Shared : Option Bytes → Type 0
    Shared key =
        (v : World (Option Bytes))
        → Yields
            (λ r.
              (u : World (Option Bytes))
              → Succeeds key u (
                  unwrap_key suite (some true) (some (some peer_private)) (some (some public)) r u))
            v (wrap_key suite (some true) (some (some private)) (some (some peer_public)) key v)

  module _ (laws : IsSuite suite) (b : Bool) where
    draw_key-Steps :
        Steps cleanup
          (λ r. r ≡ none)
          (Refused b)
          (shape [] none)
          (shape (cleanup dispose_prng) none)
          IsDrawn
          (draw_key suite)
    unfolding draw_key
    draw_key-Steps = search (step_rules, reasons) depth 30

    return_key-Steps :
        b ≡ true
        → (k : Bytes) → IsDrawn k
        → Steps cleanup
            (λ r. r ≡ none)
            (Refused b)
            (shape (cleanup dispose_prng) none)
            (shape (cleanup dispose_prng) none)
            (λ r. IsKey b (some r))
            (return_key suite k)
    unfolding return_key
    return_key-Steps on _ (is_drawn n) = search (step_rules, reasons, fits, whole) depth 30
      where
        fits : leb 32 (length (suite.random n 32)) ≡ true
        fits = le→leb 32 (length (suite.random n 32)) (omega (arith, laws.length-random n 32))

        whole : IsKey b (some (take 32 (suite.random n 32)))
        whole = rw (take_all 32 (suite.random n 32) (laws.length-random n 32)) (is_key n on)

    body-Steps :
        Steps cleanup
          (λ r. r ≡ none)
          (Refused b)
          (shape [] none)
          (shape (cleanup dispose_prng) none)
          (λ r. IsKey b (some r))
          (generate_key_body suite (some b))
    unfolding generate_key_body
    body-Steps = search (step_rules, reasons, rest) depth 30
      where
        rest :
            b ≡ true
            → Steps cleanup
                (λ r. r ≡ none)
                (Refused b)
                (shape [] none)
                (shape (cleanup dispose_prng) none)
                (λ r. IsKey b (some r))
                (draw_key suite >>= return_key suite)
        rest on = Steps-bind _ _ draw_key-Steps (return_key-Steps on)

    -- With an instance that is not null, and whichever calls fail, the generation of a key ends
    -- with defined behaviour and has given back all that it acquired. It returns the 32
    -- bytes that one call of the random generator has drawn, with nothing thrown, and then the
    -- library is initialized; or it throws an exception of a class for which there is a reason, and
    -- returns NULL.
    pub generate_key-Ends :
        (w : World (Option Bytes))
        → Ends (λ r. r ≡ none) (Refused b) (IsKey b) w (generate_key suite (some b) w)
    unfolding generate_key
    generate_key-Ends w = run-Ends dispose_prng refl w some (λ a h. h) _ body-Steps

  module _ (laws : IsSuite suite) (all : AllSucceed suite.calls)
      (private public peer_private peer_public : Bytes) (long : 32 ≤ length private)
      (long_public : 32 ≤ length public) (long_peer : 32 ≤ length peer_private)
      (long_peer_public : 32 ≤ length peer_public)
      (agreed : suite.long_term_secret (take 32 peer_private) (take 32 public)
        ≡ suite.long_term_secret (take 32 private) (take 32 peer_public)) where
    generates : (c : ExceptionClass) → Refusal true c → ⊥
    generates c (not_initialized h) = cc

    shares : (r : Option Bytes) → IsKey true r → Shared private public peer_private peer_public r
    shares _ (is_key n on) v =
        unwrap_key-wrap_key suite laws (suite.random n 32) (laws.length-random n 32) all private
          public peer_private peer_public long long_public long_peer long_peer_public agreed v

    -- Where no fallible call fails and the library is initialized, for key objects of at least 32
    -- bytes with which both sides agree on one secret: the generation of a key throws
    -- nothing and gives back all that it acquired; it returns the 32 bytes that one call of the
    -- random generator has drawn, and what it returns, wrapped by one side in any state, is
    -- unwrapped by the other side, in any state, to the same key.
    pub generate_key-Shared :
        (w : World (Option Bytes))
        → Yields
            (λ r. IsKey true r × Shared private public peer_private peer_public r)
            w
            (generate_key suite (some true) w)
    generate_key-Shared w =
        Ends-Yields (generate_key-Ends laws true w) all generates λ r k. (k, shares r k)
