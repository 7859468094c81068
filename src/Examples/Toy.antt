-- ===== src/Examples/Toy.antt =====
-- A crypto suite whose ciphers add the position of a byte to it and leave a block as it is.
use v_j_bc.Base.{
  ℕ, ◌+◌, ◌-◌, ◌%◌, ◌≡◌, refl, ◌∙◌, subst, memcmp_eq, memcmp_eq→eq, memcmp_eq_self, Bool, true,
  false, if◌then◌else◌, none, [], ◌∷◌, ◌++◌, Bytes, length, take, take-append_eq, new_array,
  length-new_array, arith, length-append, length-take, ap,
}
use v_j_bc.Jni.{World}
use v_j_bc.Suite.{Suite, IsSuite}

abbrev pub block_of : Bytes → Bytes
block_of block = take 16 (block ++ new_array 16)

abbrev sum : Bytes → ℕ
sum [] = 0
sum (b ∷ text) = b + sum text

abbrev pub toy : Suite
toy = record {
  calls = λ _. true;
  makes = λ _. true;
  fresh = λ n size. new_array size;
  random = λ n size. new_array size;
  host_u64 = λ n. (n % 256) ∷ new_array 7;
  stream_key_size = 32;
  mac_short_size = 32;
  mac_size = 64;
  hmac_digest_length = λ sha512. if sha512 then 64 else 32;
  derive_key = λ sha512 password salt iterations.
      (sum password + sum salt + iterations) ∷ new_array (if sha512 then 63 else 31);
  key_pair = λ n. (new_array 32, new_array 32);
  signing_pair = λ n. (new_array 64, new_array 32);
  private_key_size = 32;
  public_key_size = 32;
  short_term_secret = λ private public server_nonce client_nonce.
      (sum private + sum public) ∷ sum server_nonce ∷ sum client_nonce ∷ [];
  signing_key_size = 64;
  signature = λ private message. (sum private + sum message) ∷ [];
  verifying_key_size = 32;
  signature_size = 1;
  verify = λ public message signed. memcmp_eq ((sum public + sum message) ∷ []) signed;
  long_term_secret = λ private public. (sum private + sum public) ∷ [];
  encrypt_byte = λ key iv position byte. byte + position;
  decrypt_byte = λ key iv position byte. byte - position;
  block_encrypt = λ key iv block. block_of block;
  block_decrypt = λ key iv block. block_of block;
  mac_short = λ key text. (sum text % 256) ∷ new_array 31;
  mac = λ key text. (sum text % 256) ∷ new_array 63;
  crypto_memcmp_eq = memcmp_eq;
}

length-block_of : (block : Bytes) → length (block_of block) ≡ 16
length-block_of block = omega (
  arith,
  length-take 16 (block ++ new_array 16),
  length-append block (new_array 16),
  length-new_array 16,
)

block_of-block : (block : Bytes) → length block ≡ 16 → block_of block ≡ block
block_of-block block h = take-append_eq 16 block (new_array 16) h

length-derived :
    (sha512 : Bool) (password salt : Bytes) (iterations : ℕ)
    → length (toy.derive_key sha512 password salt iterations) ≡ toy.hmac_digest_length sha512
length-derived true password salt iterations = refl
length-derived false password salt iterations = refl

pub toy-IsSuite : IsSuite toy
toy-IsSuite = record {
  length-fresh = λ n size. length-new_array size;
  length-random = λ n size. length-new_array size;
  stream_key_size_lem = refl;
  mac_short_size_lem = refl;
  mac_size_lem = refl;
  length-derive_key = length-derived;
  length-private = λ n. refl;
  length-public = λ n. refl;
  agreement = λ m n. refl;
  length-signing_private = λ n. refl;
  length-signing_public = λ n. refl;
  length-signature = λ private text. refl;
  verify-signature = λ n text. memcmp_eq_self ((0 + sum text) ∷ []);
  private_key_size_lem = refl;
  public_key_size_lem = refl;
  length-mac_short = λ key text. refl;
  length-mac = λ key text. refl;
  crypto_memcmp_eq_iff =
      λ a b. (memcmp_eq→eq a b, λ e. subst (λ c. memcmp_eq a c ≡ true) e (memcmp_eq_self a));
  decrypt_byte-encrypt_byte = λ key iv position byte. omega arith;
  length-block_encrypt = λ key iv block. length-block_of block;
  length-block_decrypt = λ key iv block. length-block_of block;
  block_decrypt-block_encrypt =
      λ key iv block h. ap block_of (block_of-block block h) ∙ block_of-block block h;
}

-- The state at the start of a call.
abbrev pub start : {R : Type 0} → R → World R
start r = record { clock = 0; held = []; thrown = none; retval = r }
