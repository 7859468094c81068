-- ===== src/Documents/Envelope.antt =====
-- The layout of a wrapped key, independently of the code.
use v_j_bc.Base.{
  ◌≡◌, Bytes, ◌++◌, length, take, drop, length-append, arith, Option, none, some, ◌≤◌,
}
use v_j_bc.Suite.{Suite, IsSuite}

-- A key object of Java that may be null, with raw bytes that may be null.
abbrev pub KeyObject : Type 0
KeyObject = Option (Option Bytes)

-- The key, where there is one, is as long as the code reads.
abbrev pub LongKey : KeyObject → Type 0
LongKey (some (some key)) = 32 ≤ length key
LongKey (some none) = Unit
LongKey none = Unit

-- What is unwrapped has the size of a wrapped key.
abbrev pub LongEnveloped : Option Bytes → Type 0
LongEnveloped (some enveloped) = 48 ≤ length enveloped
LongEnveloped none = Unit

module _ (suite : Suite) (secret iv key : Bytes) where
  -- The key in two blocks, the second chained to the first.
  abbrev pub wrapped_1 : Bytes
  wrapped_1 = suite.block_encrypt secret iv (take 16 key)

  abbrev pub wrapped_2 : Bytes
  wrapped_2 = suite.block_encrypt secret wrapped_1 (take 16 (drop 16 key))

  abbrev pub wrapped : Bytes
  wrapped = iv ++ wrapped_1 ++ wrapped_2

  pub length-wrapped : IsSuite suite → length iv ≡ 16 → length wrapped ≡ 48
  length-wrapped laws is = omega (
    arith,
    length-append (iv ++ wrapped_1) wrapped_2,
    length-append iv wrapped_1,
    laws.length-block_encrypt secret iv (take 16 key),
    laws.length-block_encrypt secret wrapped_1 (take 16 (drop 16 key)),
    is,
  )

module _ (suite : Suite) (secret enveloped : Bytes) where
  abbrev pub unwrapped_1 : Bytes
  unwrapped_1 = suite.block_decrypt secret (take 16 enveloped) (take 16 (drop 16 enveloped))

  abbrev pub unwrapped_2 : Bytes
  unwrapped_2 =
      suite.block_decrypt secret (take 16 (drop 16 enveloped)) (take 16 (drop 32 enveloped))

  abbrev pub unwrapped : Bytes
  unwrapped = unwrapped_1 ++ unwrapped_2
