-- ===== src/Documents/RoundTrip.antt =====
-- The unwrapping on what the wrapping returned.
use v_j_bc.Base.{
  ◌≤◌, ◌≡◌, ap, subst, sym, ◌∙◌, true, Option, some, ◌++◌, Bytes, arith, length, length-append,
  length-take, length-drop, take, drop, take_all, take-append-drop,
}
use v_j_bc.Base.Prefix.{
  HasPrefix, HasPrefix-eq, HasPrefix-front, HasPrefix-self, take-HasPrefix, take-drop-HasPrefix,
}
use v_j_bc.Jni.{ExceptionClass, World}
use v_j_bc.Jni.Point.{AllSucceed}
use v_j_bc.Jni.Completes.{Succeeds, Yields, Ends-Yields}
use v_j_bc.Suite.{Suite, IsSuite}
use v_j_bc.Documents.Envelope.{wrapped, wrapped_1, wrapped_2, length-wrapped, unwrapped}
use v_j_bc.Documents.Wrap.{wrap_key}
use v_j_bc.Documents.Wrap.Complete.{wrap_key-Ends}
use v_j_bc.Documents.Wrap.Phases.{IsWrapped, is_wrapped}
use v_j_bc.Documents.Wrap.Phases as Wrapping
use v_j_bc.Documents.Unwrap.{unwrap_key}
use v_j_bc.Documents.Unwrap.Complete.{unwrap_key-Ends}
use v_j_bc.Documents.Unwrap.Phases.{IsUnwrapped, is_unwrapped}
use v_j_bc.Documents.Unwrap.Phases as Unwrapping

module _ (suite : Suite) (laws : IsSuite suite) (key : Bytes) (size : length key ≡ 32) where
  module _ (secret iv : Bytes) (is : length iv ≡ 16) where
    abbrev m : Bytes
    m = wrapped suite secret iv key

    abbrev b1 : Bytes
    b1 = wrapped_1 suite secret iv key

    abbrev b2 : Bytes
    b2 = wrapped_2 suite secret iv key

    length-b1 : length b1 ≡ 16
    length-b1 = laws.length-block_encrypt secret iv (take 16 key)

    front : HasPrefix (length m) (iv ++ b1) m
    front = HasPrefix-front (iv ++ b1) b2 (HasPrefix-self m)

    read_iv : take 16 m ≡ iv
    read_iv = take-HasPrefix 16 (HasPrefix-front iv b1 front) is

    read_block_1 : take 16 (drop 16 m) ≡ b1
    read_block_1 = take-drop-HasPrefix iv b1 16 16 front is length-b1

    read_block_2 : take 16 (drop 32 m) ≡ b2
    read_block_2 =
        take-drop-HasPrefix (iv ++ b1) b2 32 16 (HasPrefix-self m)
          (omega (arith, length-append iv b1, is, length-b1))
          (laws.length-block_encrypt secret b1 (take 16 (drop 16 key)))

    halves : take 16 key ++ take 16 (drop 16 key) ≡ key
    halves =
        ap (λ t. take 16 key ++ t)
          (take_all 16 (drop 16 key) (omega (arith, length-drop 16 key, size)))
        ∙ take-append-drop 16 key

    decrypt_blocks_eq :
        (x y z : Bytes)
        → x ≡ iv
        → y ≡ b1
        → z ≡ b2
        → suite.block_decrypt secret x y ++ suite.block_decrypt secret y z ≡ key
    decrypt_blocks_eq x y z ex ey ez =
        rw (ez, ey, ex)
          (ap (λ t. t ++ suite.block_decrypt secret b1 b2)
              (laws.block_decrypt-block_encrypt secret iv (take 16 key)
                (omega (arith, length-take 16 key, size)))
            ∙ ap (λ t. take 16 key ++ t)
                (laws.block_decrypt-block_encrypt secret b1 (take 16 (drop 16 key))
                  (omega (arith, length-take 16 (drop 16 key), length-drop 16 key, size)))
            ∙ halves)

    unwrapped-wrapped : unwrapped suite secret m ≡ key
    unwrapped-wrapped = decrypt_blocks_eq _ _ _ read_iv read_block_1 read_block_2

  module _ (all : AllSucceed suite.calls) (private public peer_private peer_public : Bytes)
      (long : 32 ≤ length private) (long_public : 32 ≤ length public)
      (long_peer : 32 ≤ length peer_private) (long_peer_public : 32 ≤ length peer_public)
      (agreed : suite.long_term_secret (take 32 peer_private) (take 32 public)
        ≡ suite.long_term_secret (take 32 private) (take 32 peer_public)) where
    wraps :
        (c : ExceptionClass)
        → Wrapping.Refusal suite true (some (some private)) (some (some peer_public)) (some key) c
        → ⊥
    wraps c (Wrapping.not_initialized h) = cc

    unwraps :
        (m : Bytes) (c : ExceptionClass)
        → Unwrapping.Refusal suite true (some (some peer_private)) (some (some public)) (some m) c
        → ⊥
    unwraps m c (Unwrapping.not_initialized h) = cc

    abbrev secret : Bytes
    secret = suite.long_term_secret (take 32 private) (take 32 peer_public)

    module _ (iv : Bytes) (is : length iv ≡ 16) where
      opened :
          (r : Option Bytes)
          → IsUnwrapped suite true
              (some (some peer_private))
              (some (some public))
              (some (m secret iv is))
              r
          → r ≡ some key
      opened r (is_unwrapped {out = out} on h) = ap some (
          HasPrefix-eq h
            (ap length plain ∙ omega (arith, size, length-wrapped suite secret iv key laws is))
          ∙ plain)
        where
          plain :
              unwrapped suite
                (suite.long_term_secret (take 32 peer_private) (take 32 public))
                (m secret iv is)
              ≡ key
          plain =
              ap (λ s. unwrapped suite s (m secret iv is)) agreed ∙ unwrapped-wrapped secret iv is

      unwrap_key-wrapped :
          (v : World (Option Bytes))
          → Succeeds (some key) v (
              unwrap_key suite
                (some true)
                (some (some peer_private))
                (some (some public))
                (some (m secret iv is))
                v)
      unwrap_key-wrapped v =
          Ends-Yields
            (unwrap_key-Ends suite laws true (some (some peer_private)) (some (some public))
              (some (m secret iv is)) long_peer long_public
              (omega (arith, length-wrapped suite secret iv key laws is)) v)
            all (unwraps (m secret iv is)) opened

    -- Where no fallible call fails and the library is initialized, for a key of 32 bytes and key
    -- objects of at least 32 bytes: if the private key of each side and the public key of the other
    -- agree on one secret, then, whatever initialisation vector the wrapping draws, it returns a
    -- result, and the other side, from any state, unwraps that result to the key. Neither
    -- throws, and both give back all that they acquired.
    pub unwrap_key-wrap_key :
        (w : World (Option Bytes))
        → Yields
            (λ r.
              (v : World (Option Bytes))
              → Succeeds (some key) v (
                  unwrap_key suite (some true) (some (some peer_private)) (some (some public)) r v))
            w
            (wrap_key suite
              (some true)
              (some (some private))
              (some (some peer_public))
              (some key)
              w)
    unwrap_key-wrap_key w =
        Ends-Yields
          (wrap_key-Ends suite laws true (some (some private)) (some (some peer_public)) (some key)
            long long_peer_public (omega (arith, size)) w)
          all wraps opens
      where
        opens :
            (r : Option Bytes)
            → IsWrapped suite true (some (some private)) (some (some peer_public)) (some key) r
            → (v : World (Option Bytes))
            → Succeeds
                (some key)
                v
                (unwrap_key suite (some true) (some (some peer_private)) (some (some public)) r v)
        opens r (is_wrapped {out = out} iv is on h) v =
            subst
              (λ t. Succeeds (some key) v (
                unwrap_key suite (some true) (some (some peer_private)) (some (some public))
                  (some t) v))
              (sym
                (HasPrefix-eq h (omega (arith, size, length-wrapped suite secret iv key laws is))))
              (unwrap_key-wrapped iv is v)
