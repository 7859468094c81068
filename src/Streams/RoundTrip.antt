-- ===== src/Streams/RoundTrip.antt =====
-- Decryption of what an encryption of data returned, and encryption in pieces.
use v_j_bc.Base.{
  ℕ, ◌≡◌, ◌≤◌, refl, sym, ap, subst, Bool, true, false, Option, none, some, ◌==◌, if◌then◌else◌,
  Bytes, ◌++◌, [], arith, length, length-append, length-take, take,
}
use v_j_bc.Jni.{ExceptionClass, World, Finish}
use v_j_bc.Jni.Point.{AllSucceed}
use v_j_bc.Jni.Completes.{Succeeds, Yields, yields, Ends-Yields}
use v_j_bc.Suite.{Suite, IsSuite}
use v_j_bc.Streams.Envelope.{ciphertext, piece, plaintext-piece, piece-append}
use v_j_bc.Streams.Encrypt.{encrypt_data}
use v_j_bc.Streams.Encrypt.Phases.{
  Refusal, not_initialized, bad_key_size, IsPiece, is_piece, unchecked,
}
use v_j_bc.Streams.Encrypt.Complete.{encrypt_data-Leaves}
use v_j_bc.Streams.Decrypt.{decrypt_data}
use v_j_bc.Streams.Decrypt.Bodies.{IsPlaintext, is_plaintext, IsRead, is_read}
use v_j_bc.Streams.Decrypt.Bodies as Reading
use v_j_bc.Streams.Decrypt.Complete.{least, decrypt_data-Leaves}

Succeeds-Yields :
    {R : Type 0} {r : R} {V : R → Type 0} {w : World R} {o : Finish R}
    → V r
    → Succeeds r w o
    → Yields V w o
Succeeds-Yields {V} v (yields h t e) = yields h t (subst V (sym e) v)

-- Two results, one behind the other.
abbrev pub join : Option Bytes → Option Bytes → Option Bytes
join (some a) (some b) = some (a ++ b)
join _ _ = none

module _ (suite : Suite) (laws : IsSuite suite) (all : AllSucceed suite.calls) (key iv : Bytes)
    (long_iv : 8 ≤ length iv) where
  module _ (sized : Bytes → Bool) (right : sized key ≡ true) where
    pub accepts :
        (iv input : Bytes) (c : ExceptionClass)
        → Refusal true sized (some key) (some iv) (some input) c
        → ⊥
    accepts iv input c (not_initialized h) = cc
    accepts iv input c (bad_key_size h) = cc right

    pub reads :
        (input : Bytes) (c : ExceptionClass)
        → Reading.Refusal true sized (some key) (some input) c
        → ⊥
    reads input c (Reading.not_initialized h) = cc
    reads input c (Reading.bad_key_size h) = cc right

  pub length-piece :
      (k : Bytes) (position : ℕ) (text : Bytes)
      → least position ≤ length (piece suite k iv position text)
  length-piece k position text = go (position == 0)
    where
      go :
          (first : Bool)
          → (if first then 8 else 0)
            ≤ length ((if first then take 8 iv else []) ++ ciphertext suite k iv position text)
      go true =
          omega (
            arith,
            length-append (take 8 iv) (ciphertext suite k iv position text),
            length-take 8 iv,
          )
      go false = omega arith

  module _ (long : 32 ≤ length key) where
    pub encrypt_data-Succeeds :
        (input : Bytes) (offset : ℕ) (w : World (Option Bytes))
        → Succeeds
            (some (piece suite (take 32 key) iv offset input))
            w
            (encrypt_data suite (some true) (some key) (some iv) (some input) offset w)
    encrypt_data-Succeeds input offset w =
        Ends-Yields
          (encrypt_data-Leaves suite true (some key) (some iv) (some input) offset long long_iv w)
          all (accepts unchecked refl iv input) eq_of
      where
        eq_of :
            (r : Option Bytes)
            → IsPiece suite true unchecked (λ _. 32) offset (some key) (some iv) (some input) r
            → r ≡ some (piece suite (take 32 key) iv offset input)
        eq_of r (is_piece on h) = refl

    decrypt_data-piece :
        (input : Bytes) (offset : ℕ) (v : World (Option Bytes))
        → Succeeds (some input) v (
            decrypt_data suite
              (some true)
              (some key)
              (some iv)
              (some (piece suite (take 32 key) iv offset input))
              offset
              v)
    decrypt_data-piece input offset v =
        Ends-Yields
          (decrypt_data-Leaves suite true (some key) (some iv)
            (some (piece suite (take 32 key) iv offset input)) offset long long_iv
            (length-piece (take 32 key) offset input) v)
          all (accepts unchecked refl iv (piece suite (take 32 key) iv offset input)) eq_of
      where
        eq_of :
            (r : Option Bytes)
            → IsRead suite true offset
                (some key)
                (some iv)
                (some (piece suite (take 32 key) iv offset input))
                r
            → r ≡ some input
        eq_of r (is_read on) =
            ap some (plaintext-piece suite (take 32 key) iv laws (offset == 0) offset input long_iv)

    -- Where no fallible call fails and the library is initialized, for a key and an initialisation
    -- vector of at least 32 and 8 bytes, and any offset in the document: the encryption of a piece
    -- returns a result, and the decryption of that result at the same offset, in any state, returns
    -- the piece. Neither throws, and both give back all that they acquired.
    pub decrypt_data-encrypt_data :
        (input : Bytes) (offset : ℕ) (w : World (Option Bytes))
        → Yields
            (λ r.
              (v : World (Option Bytes))
              → Succeeds
                  (some input)
                  v
                  (decrypt_data suite (some true) (some key) (some iv) r offset v))
            w
            (encrypt_data suite (some true) (some key) (some iv) (some input) offset w)
    decrypt_data-encrypt_data input offset w =
        Succeeds-Yields (decrypt_data-piece input offset) (encrypt_data-Succeeds input offset w)

    -- Under the same conditions, for a first part that is not empty: the encryption of a document in
    -- two parts, the second at the offset where the first ends, gives, one behind the other, what the
    -- encryption of the whole document returns, each from any state.
    pub encrypt_data-append :
        (a b : Bytes)
        → 1 ≤ length a
        → (w : World (Option Bytes))
        → Yields
            (λ r.
              (v : World (Option Bytes))
              → Yields
                  (λ s.
                    (u : World (Option Bytes))
                    → Succeeds
                        (join r s)
                        u
                        (encrypt_data suite (some true) (some key) (some iv) (some (a ++ b)) 0 u))
                  v
                  (encrypt_data suite (some true) (some key) (some iv) (some b) (length a) v))
            w
            (encrypt_data suite (some true) (some key) (some iv) (some a) 0 w)
    encrypt_data-append a b some_a w =
        Succeeds-Yields
          (λ v.
            Succeeds-Yields
              (λ u.
                subst
                  (λ r.
                    Succeeds (some r) u
                      (encrypt_data suite (some true) (some key) (some iv) (some (a ++ b)) 0 u))
                  (piece-append suite (take 32 key) iv a b some_a)
                  (encrypt_data-Succeeds (a ++ b) 0 u))
              (encrypt_data-Succeeds b (length a) v))
          (encrypt_data-Succeeds a 0 w)
