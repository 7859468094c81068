-- ===== src/Agentd/Envelope.antt =====
-- The layout of a packet, independently of the code: a header of five bytes, encrypted from
-- position 0; the authentication code; the payload, encrypted from position 5.
use v_j_bc.Base.{ℕ, ◌+◌, ◌*◌, ◌/◌, ◌%◌, ◌^◌, ◌≡◌, refl, ◌<◌, Bytes, [], ◌∷◌, ◌++◌, arith, length}
use v_j_bc.Suite.{Suite}
use v_j_bc.Suite.Stream.{crypt}

-- `IPC_DATA_TYPE_AUTHED_PACKET`
abbrev pub authed_packet : ℕ
authed_packet = 0x30

-- 10 MB
abbrev pub max_payload_size : ℕ
max_payload_size = 10 * 1024 * 1024

-- The memory of `htonl (n)`.
unfoldable pub htonl_bytes : ℕ → Bytes
htonl_bytes n = (n / 2 ^ 24 % 256) ∷ (n / 2 ^ 16 % 256) ∷ (n / 2 ^ 8 % 256) ∷ (n % 256) ∷ []

-- `ntohl` of the four bytes that `memcpy (&nsize, p, 4)` reads.
unfoldable pub ntohl_bytes : Bytes → ℕ
ntohl_bytes (a ∷ b ∷ c ∷ d ∷ rest) = ((a * 256 + b) * 256 + c) * 256 + d
ntohl_bytes _ = 0

pub ntohl_bytes-htonl_bytes : (n : ℕ) → n < 2 ^ 32 → ntohl_bytes (htonl_bytes n) ≡ n
unfolding ntohl_bytes htonl_bytes
ntohl_bytes-htonl_bytes n h = omega arith

pub length-htonl_bytes : (n : ℕ) → length (htonl_bytes n) ≡ 4
unfolding htonl_bytes
length-htonl_bytes n = refl

module _ (suite : Suite) (secret : Bytes) (iv : ℕ) where
  abbrev pub encrypt_from : ℕ → Bytes → Bytes
  encrypt_from = crypt (suite.encrypt_byte secret (suite.host_u64 iv))

  -- The header of a packet with `n` bytes of payload.
  abbrev pub packet_header : ℕ → Bytes
  packet_header n = encrypt_from 0 (authed_packet ∷ htonl_bytes n)

  abbrev pub packet_body : Bytes → Bytes
  packet_body = encrypt_from 5

  abbrev pub packet_mac : Bytes → Bytes
  packet_mac payload =
      suite.mac_short secret (packet_header (length payload) ++ packet_body payload)

  abbrev pub packet : Bytes → Bytes
  packet payload = packet_header (length payload) ++ (packet_mac payload ++ packet_body payload)
