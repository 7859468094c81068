-- ===== src/Documents/Wrap/Layout.antt =====
-- The bytes that the wrapping writes, one block after the other.
use v_j_bc.Base.{
  ℕ, ◌+◌, ◌≤◌, ◌≡◌, refl, sym, subst, true, [], ◌++◌, Bytes, arith, leb, le→leb, length,
  length-append, length-new_array, new_array, take, drop, write_at, take_all,
}
use v_j_bc.Base.Prefix.{
  HasPrefix, HasPrefix-nil, write_at-HasPrefix, take-HasPrefix, take-drop-HasPrefix,
  length-HasPrefix,
}
use v_j_bc.Suite.{Suite, IsSuite}
use v_j_bc.Documents.Envelope.{wrapped_1, wrapped_2, wrapped}

-- `p` is an output array for `key` that begins with `a`.
abbrev pub Begins : Bytes → Bytes → Bytes → Type 0
Begins key a p = HasPrefix (16 + length key) a p

pub room :
    (key : Bytes)
    → 32 ≤ length key
    → (n : ℕ) (a p : Bytes) → Begins key a p
    → n ≤ 48
    → leb n (length p) ≡ true
room key long n a p h small = le→leb _ _ (omega (arith, length-HasPrefix h))

module _ (suite : Suite) (laws : IsSuite suite) (secret key iv : Bytes) (is : length iv ≡ 16)
    (long : 32 ≤ length key) where
  pub iv_written : Begins key iv (write_at 0 (take 16 iv) (new_array (16 + length key)))
  iv_written =
      subst (λ t. Begins key iv (write_at 0 t (new_array (16 + length key))))
        (sym (take_all 16 iv is))
        (write_at-HasPrefix 0 iv
          (subst (λ t. HasPrefix t [] (new_array (16 + length key)))
            (length-new_array (16 + length key)) (HasPrefix-nil (new_array (16 + length key))))
          refl (omega (arith, is)))

  pub block_1_written :
      (p : Bytes)
      → Begins key iv p
      → Begins key
          (iv ++ wrapped_1 suite secret iv key)
          (write_at 16 (suite.block_encrypt secret (take 16 p) (take 16 key)) p)
  block_1_written p h =
      subst
        (λ v.
          Begins key (iv ++ wrapped_1 suite secret iv key)
            (write_at 16 (suite.block_encrypt secret v (take 16 key)) p))
        (sym (take-HasPrefix 16 h is))
        (write_at-HasPrefix 16 (wrapped_1 suite secret iv key) h (sym is)
          (omega (arith, is, laws.length-block_encrypt secret iv (take 16 key))))

  pub block_2_written :
      (p : Bytes)
      → Begins key (iv ++ wrapped_1 suite secret iv key) p
      → Begins key
          (wrapped suite secret iv key)
          (write_at 32 (suite.block_encrypt secret (take 16 (drop 16 p)) (take 16 (drop 16 key))) p)
  block_2_written p h =
      subst
        (λ v.
          Begins key (wrapped suite secret iv key)
            (write_at 32 (suite.block_encrypt secret v (take 16 (drop 16 key))) p))
        (sym (
          take-drop-HasPrefix iv (wrapped_1 suite secret iv key) 16 16 h is
            (laws.length-block_encrypt secret iv (take 16 key))))
        (write_at-HasPrefix 32 (wrapped_2 suite secret iv key) h (sym lengths) (
          omega (
            arith,
            lengths,
            laws.length-block_encrypt secret (wrapped_1 suite secret iv key)
                (take 16 (drop 16 key)),
          )))
    where
      lengths : length (iv ++ wrapped_1 suite secret iv key) ≡ 32
      lengths = omega (
        arith,
        length-append iv (wrapped_1 suite secret iv key),
        is,
        laws.length-block_encrypt secret iv (take 16 key),
      )
