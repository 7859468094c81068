-- ===== src/SimpleCipher/Envelope.antt =====
-- The layout of an encrypted message, independently of the code.
use v_j_bc.Base.{◌≡◌, Bytes, ◌++◌, length, take, drop}
use v_j_bc.Suite.{Suite}
use v_j_bc.Suite.Stream.{crypt}

-- What the encryption draws from the generator of random numbers.
pub record Session : Type 0 where
  pub key : Bytes
  pub key_iv : Bytes
  pub stream_iv : Bytes

pub record IsSession (s : Session) : Type 0 where
  pub length-key : length s.key ≡ 32
  pub length-key_iv : length s.key_iv ≡ 16
  pub length-stream_iv : length s.stream_iv ≡ 8

module _ (suite : Suite) (key : Bytes) (s : Session) where
  -- The session key in two blocks, the second chained to the first.
  abbrev pub key_block_1 : Bytes
  key_block_1 = suite.block_encrypt key s.key_iv (take 16 s.key)

  abbrev pub key_block_2 : Bytes
  key_block_2 = suite.block_encrypt key key_block_1 (take 16 (drop 16 s.key))

  abbrev pub wrapped_key : Bytes
  wrapped_key = s.key_iv ++ key_block_1 ++ key_block_2

  abbrev pub ciphertext : Bytes → Bytes
  ciphertext = crypt (suite.encrypt_byte s.key s.stream_iv) 0

  abbrev pub authenticated : Bytes → Bytes
  authenticated input = wrapped_key ++ s.stream_iv ++ ciphertext input

  abbrev pub message_mac : Bytes → Bytes
  message_mac input = suite.mac s.key (authenticated input)

  abbrev pub message : Bytes → Bytes
  message input = authenticated input ++ message_mac input
