-- ===== src/Uuid/RoundTrip.antt =====
-- Both conversions are inverse to one another.
use Prim.Native.Nat.{bit_or}
use v_j_bc.Base.{
  ℕ, zero, suc, ◌+◌, ◌*◌, ◌/◌, ◌%◌, ◌^◌, ◌≤◌, ◌<◌, ◌≡◌, refl, ap, sym, ◌∙◌, true, Option, some, [],
  ◌∷◌, ◌++◌, Bytes, drop, take, length, length-drop, take_all, take-append-drop, append-nil, arith,
}
use v_j_bc.Base.Bits.{bit_or_join, bit_and_shift}
use v_j_bc.Uuid.{
  Uuid, shifted, word_of, byte_of, bytes_of, new_uuid, object, uuid_from_bytes, uuid_to_bytes,
}

-- Every element is the value of a byte.
abbrev pub AreBytes : Bytes → Type 0
AreBytes [] = Unit
AreBytes (b ∷ rest) = (b < 256) × AreBytes rest

byte_of_lem : (word k : ℕ) → byte_of word k ≡ word / 2 ^ k % 256
byte_of_lem word k = ap (λ t. t % 256) (bit_and_shift k word) ∙ omega arith

joined : (k q r : ℕ) {x y : ℕ} → x ≡ q * 2 ^ k → y ≡ r → r < 2 ^ k → bit_or x y ≡ q * 2 ^ k + r
joined k q r ex ey h = rw (ex, ey) (bit_or_join k q r h)

-- The value of eight bytes.
abbrev horner : (a b c d e f g h : ℕ) → ℕ
horner a b c d e f g h =
    ((((((a * 256 + b) * 256 + c) * 256 + d) * 256 + e) * 256 + f) * 256 + g) * 256 + h

module _ (a b c d e f g h : ℕ) (la : a < 256) (lb : b < 256) (lc : c < 256) (ld : d < 256)
    (le : e < 256) (lf : f < 256) (lg : g < 256) (lh : h < 256) where
  two : bit_or (shifted a 56) (shifted b 48) ≡ (a * 256 + b) * 2 ^ 48
  two = joined 56 a (b * 2 ^ 48) (omega arith) (omega arith) (omega arith) ∙ omega arith

  three :
      bit_or (bit_or (shifted a 56) (shifted b 48)) (shifted c 40)
      ≡ ((a * 256 + b) * 256 + c) * 2 ^ 40
  three = joined 48 (a * 256 + b) (c * 2 ^ 40) two (omega arith) (omega arith) ∙ omega arith

  four :
      bit_or (bit_or (bit_or (shifted a 56) (shifted b 48)) (shifted c 40)) (shifted d 32)
      ≡ (((a * 256 + b) * 256 + c) * 256 + d) * 2 ^ 32
  four =
      joined 40 ((a * 256 + b) * 256 + c) (d * 2 ^ 32) three (omega arith) (omega arith)
      ∙ omega arith

  five :
      {x : ℕ}
      → x ≡ (((a * 256 + b) * 256 + c) * 256 + d) * 2 ^ 32
      → bit_or x (shifted e 24) ≡ ((((a * 256 + b) * 256 + c) * 256 + d) * 256 + e) * 2 ^ 24
  five x =
      joined 32 (((a * 256 + b) * 256 + c) * 256 + d) (e * 2 ^ 24) x (omega arith) (omega arith)
      ∙ omega arith

  six :
      {x : ℕ}
      → x ≡ ((((a * 256 + b) * 256 + c) * 256 + d) * 256 + e) * 2 ^ 24
      → bit_or x (shifted f 16)
        ≡ (((((a * 256 + b) * 256 + c) * 256 + d) * 256 + e) * 256 + f) * 2 ^ 16
  six x =
      joined 24 ((((a * 256 + b) * 256 + c) * 256 + d) * 256 + e) (f * 2 ^ 16) x (omega arith)
        (omega arith)
      ∙ omega arith

  seven :
      {x : ℕ}
      → x ≡ (((((a * 256 + b) * 256 + c) * 256 + d) * 256 + e) * 256 + f) * 2 ^ 16
      → bit_or x (shifted g 8)
        ≡ ((((((a * 256 + b) * 256 + c) * 256 + d) * 256 + e) * 256 + f) * 256 + g) * 2 ^ 8
  seven x =
      joined 16 (((((a * 256 + b) * 256 + c) * 256 + d) * 256 + e) * 256 + f) (g * 2 ^ 8) x
        (omega arith) (omega arith)
      ∙ omega arith

  word_of_lem :
      (rest : Bytes)
      → word_of (a ∷ b ∷ c ∷ d ∷ e ∷ f ∷ g ∷ h ∷ rest) ≡ some (horner a b c d e f g h)
  unfolding word_of
  word_of_lem rest = ap some (
      joined 8 ((((((a * 256 + b) * 256 + c) * 256 + d) * 256 + e) * 256 + f) * 256 + g) h
        (seven (six (five four))) refl (omega arith)
      ∙ omega arith)

  abbrev n : ℕ
  n = horner a b c d e f g h

  at_56 : byte_of n 56 ≡ a
  at_56 = byte_of_lem n 56 ∙ omega arith

  at_48 : byte_of n 48 ≡ b
  at_48 = byte_of_lem n 48 ∙ omega arith

  at_40 : byte_of n 40 ≡ c
  at_40 = byte_of_lem n 40 ∙ omega arith

  at_32 : byte_of n 32 ≡ d
  at_32 = byte_of_lem n 32 ∙ omega arith

  at_24 : byte_of n 24 ≡ e
  at_24 = byte_of_lem n 24 ∙ omega arith

  at_16 : byte_of n 16 ≡ f
  at_16 = byte_of_lem n 16 ∙ omega arith

  at_8 : byte_of n 8 ≡ g
  at_8 = byte_of_lem n 8 ∙ omega arith

  at_0 : byte_of n 0 ≡ h
  at_0 = byte_of_lem n 0 ∙ omega arith

  bytes_of_lem : bytes_of n ≡ a ∷ b ∷ c ∷ d ∷ e ∷ f ∷ g ∷ h ∷ []
  unfolding bytes_of
  bytes_of_lem = rw (at_56, at_48, at_40, at_32, at_24, at_16, at_8, at_0) refl

module _ (word : ℕ) (small : word < 2 ^ 64) where
  abbrev digit : ℕ → ℕ
  digit k = word / 2 ^ k % 256

  bytes_of-digits :
      bytes_of word
      ≡ digit 56 ∷ digit 48 ∷ digit 40 ∷ digit 32 ∷ digit 24 ∷ digit 16 ∷ digit 8 ∷ digit 0 ∷ []
  unfolding bytes_of
  bytes_of-digits =
      rw
        (
          byte_of_lem word 56,
          byte_of_lem word 48,
          byte_of_lem word 40,
          byte_of_lem word 32,
          byte_of_lem word 24,
          byte_of_lem word 16,
          byte_of_lem word 8,
          byte_of_lem word 0,
        )
        refl

  horner-digits :
      horner (digit 56) (digit 48) (digit 40) (digit 32) (digit 24) (digit 16) (digit 8) (digit 0)
      ≡ word
  horner-digits = omega arith

  word_of-bytes_of : (rest : Bytes) → word_of (bytes_of word ++ rest) ≡ some word
  word_of-bytes_of rest =
      ap (λ t. word_of (t ++ rest)) bytes_of-digits
      ∙ word_of_lem (digit 56) (digit 48) (digit 40) (digit 32) (digit 24) (digit 16) (digit 8)
          (digit 0) (omega arith) (omega arith) (omega arith) (omega arith) (omega arith)
          (omega arith) (omega arith) (omega arith) rest
      ∙ ap some horner-digits

drop-bytes_of : (word : ℕ) (rest : Bytes) → drop 8 (bytes_of word ++ rest) ≡ rest
unfolding bytes_of
drop-bytes_of word rest = refl

-- A UUID whose two halves fit 64 bits is the result of the conversion of its bytes, if the object
-- can be created.
pub uuid_from_bytes-uuid_to_bytes :
    (uuid : Uuid)
    → uuid.most_significant < 2 ^ 64
    → uuid.least_significant < 2 ^ 64
    → uuid_from_bytes true (uuid_to_bytes uuid) ≡ object uuid
unfolding uuid_from_bytes uuid_to_bytes
uuid_from_bytes-uuid_to_bytes uuid hm hl =
    ap
      (λ (t : Option ℕ).
        new_uuid true t
          (word_of (drop 8 (bytes_of uuid.most_significant ++ bytes_of uuid.least_significant))))
      (word_of-bytes_of uuid.most_significant hm (bytes_of uuid.least_significant))
    ∙ ap (λ (t : Bytes). new_uuid true (some uuid.most_significant) (word_of t))
        (drop-bytes_of uuid.most_significant (bytes_of uuid.least_significant)
          ∙ sym (append-nil (bytes_of uuid.least_significant)))
    ∙ ap (λ (t : Option ℕ). new_uuid true (some uuid.most_significant) t)
        (word_of-bytes_of uuid.least_significant hl [])

-- The eight bytes that a buffer of eight or more bytes begins with are a word, and its bytes.
IsWord : Bytes → Bytes → Type 0
IsWord bytes front = (word : ℕ) × ((word_of bytes ≡ some word) × (bytes_of word ≡ front))

take-IsWord : (bytes : Bytes) → AreBytes bytes → 8 ≤ length bytes → IsWord bytes (take 8 bytes)
unfolding IsWord
take-IsWord [] are h = absurd (omega arith)
take-IsWord (a ∷ []) are h = absurd (omega arith)
take-IsWord (a ∷ b ∷ []) are h = absurd (omega arith)
take-IsWord (a ∷ b ∷ c ∷ []) are h = absurd (omega arith)
take-IsWord (a ∷ b ∷ c ∷ d ∷ []) are h = absurd (omega arith)
take-IsWord (a ∷ b ∷ c ∷ d ∷ e ∷ []) are h = absurd (omega arith)
take-IsWord (a ∷ b ∷ c ∷ d ∷ e ∷ f ∷ []) are h = absurd (omega arith)
take-IsWord (a ∷ b ∷ c ∷ d ∷ e ∷ f ∷ g ∷ []) are h = absurd (omega arith)
take-IsWord (a ∷ b ∷ c ∷ d ∷ e ∷ f ∷ g ∷ i ∷ rest)
      (la, (lb, (lc, (ld, (le, (lf, (lg, (li, are)))))))) h =
    (
      horner a b c d e f g i,
      (
        word_of_lem a b c d e f g i la lb lc ld le lf lg li rest,
        bytes_of_lem a b c d e f g i la lb lc ld le lf lg li,
      ),
    )

AreBytes-drop : (n : ℕ) (bytes : Bytes) → AreBytes bytes → AreBytes (drop n bytes)
AreBytes-drop zero bytes are = are
AreBytes-drop (suc n) [] are = are
AreBytes-drop (suc n) (b ∷ rest) are = AreBytes-drop n rest are.1

-- From 16 bytes there comes, if the object can be created, a UUID, and its bytes are these 16.
pub uuid_to_bytes-uuid_from_bytes :
    (bytes : Bytes)
    → AreBytes bytes
    → length bytes ≡ 16
    → (uuid : Uuid) × ((uuid_from_bytes true bytes ≡ object uuid) × (uuid_to_bytes uuid ≡ bytes))
unfolding uuid_from_bytes uuid_to_bytes IsWord
uuid_to_bytes-uuid_from_bytes bytes are h =
    let m = take-IsWord bytes are (omega arith) in
    let l =
      take-IsWord (drop 8 bytes) (AreBytes-drop 8 bytes are) (omega (arith, length-drop 8 bytes)) in
    (
      record { most_significant = m.0; least_significant = l.0 },
      (
        ap (λ (t : Option ℕ). new_uuid true t (word_of (drop 8 bytes))) m.1.0
            ∙ ap (λ (t : Option ℕ). new_uuid true (some m.0) t) l.1.0,
        ap (λ t. t ++ bytes_of l.0) m.1.1
            ∙ ap (λ t. take 8 bytes ++ t)
                (l.1.1 ∙ take_all 8 (drop 8 bytes) (omega (arith, length-drop 8 bytes)))
            ∙ take-append-drop 8 bytes,
      ),
    )
