-- ===== src/Uuid.antt =====
-- util/uuid_conv.c: a Java UUID, two `jlong`s, and its 16 bytes. A `jlong` is its pattern of 64 bits.
pub mod RoundTrip
use Prim.Native.Nat.{bit_and, bit_or}
use v_j_bc.Base.{
  ℕ, zero, suc, ◌+◌, ◌*◌, ◌/◌, ◌%◌, ◌^◌, Bool, true, false, Option, none, some, List, [], ◌∷◌,
  Bytes, ◌++◌, drop, if◌then◌else◌,
}

pub record Uuid : Type 0 where
  pub most_significant : ℕ
  pub least_significant : ℕ

-- `((uint64_t)byte) << k`
abbrev pub shifted : ℕ → ℕ → ℕ
shifted byte k = byte * 2 ^ k % 2 ^ 64

-- The eight bytes of a `uint64_t`, the most significant first, joined with `|`.
unfoldable pub word_of : Bytes → Option ℕ
word_of (a ∷ b ∷ c ∷ d ∷ e ∷ f ∷ g ∷ h ∷ rest) = some (
    bit_or
      (bit_or
        (bit_or
          (bit_or
            (bit_or (bit_or (bit_or (shifted a 56) (shifted b 48)) (shifted c 40)) (shifted d 32))
            (shifted e 24))
          (shifted f 16))
        (shifted g 8))
      h)
word_of _ = none

-- `(word & (0xFF << k)) >> k`, stored in a `uint8_t`
abbrev pub byte_of : ℕ → ℕ → ℕ
byte_of word k = bit_and word (255 * 2 ^ k) / 2 ^ k % 256

unfoldable pub bytes_of : ℕ → Bytes
bytes_of word =
    byte_of word 56
    ∷ byte_of word 48
    ∷ byte_of word 40
    ∷ byte_of word 32
    ∷ byte_of word 24
    ∷ byte_of word 16
    ∷ byte_of word 8
    ∷ byte_of word 0
    ∷ []

-- What `uuidFromBytes` returns or does.
pub data FromBytes : Type 0 where
  -- a read beyond the end of the array
  out_of_bounds : FromBytes
  null : FromBytes
  object : Uuid → FromBytes

abbrev pub new_uuid : Bool → Option ℕ → Option ℕ → FromBytes
new_uuid created (some msb) (some lsb) =
    if created then object (record { most_significant = msb; least_significant = lsb }) else null
new_uuid created (some msb) none = out_of_bounds
new_uuid created none lsb = out_of_bounds

-- `uuidFromBytes`; whether `NewObject` succeeds is the argument `created`.
unfoldable pub uuid_from_bytes : Bool → Bytes → FromBytes
unfolding word_of
uuid_from_bytes created uuid_bytes =
    new_uuid created (word_of uuid_bytes) (word_of (drop 8 uuid_bytes))

-- `uuidToBytes`, which writes the 16 bytes of its buffer.
unfoldable pub uuid_to_bytes : Uuid → Bytes
unfolding bytes_of
uuid_to_bytes uuid = bytes_of uuid.most_significant ++ bytes_of uuid.least_significant
