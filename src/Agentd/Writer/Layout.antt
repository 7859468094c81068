-- ===== src/Agentd/Writer/Layout.antt =====
-- What the copies of the writer leave in the packet buffer, whatever the buffer held before.
use v_j_bc.Base.{
  ℕ, ◌+◌, ◌≡◌, refl, sym, ap, ◌∙◌, [], ◌∷◌, ◌++◌, append_assoc, append-nil, Bytes, arith, length,
  length-append, length-take, length-drop, take, drop, take-append-drop, write_at, write_at-after,
  take-append_eq, drop-append_eq, take_all, drop_all,
}
use v_j_bc.Suite.{Suite, IsSuite}
use v_j_bc.Suite.Stream.{length-crypt, crypt-append}
use v_j_bc.Agentd.Envelope.{
  authed_packet, htonl_bytes, length-htonl_bytes, encrypt_from, packet_header, packet_body,
  packet_mac, packet,
}

module _ (suite : Suite) (secret : Bytes) (iv : ℕ) where
  abbrev enc : ℕ → Bytes → Bytes
  enc = encrypt_from suite secret iv

  pub length-enc : (position : ℕ) (text : Bytes) → length (enc position text) ≡ length text
  length-enc = length-crypt (suite.encrypt_byte secret (suite.host_u64 iv))

  pub length-packet_header : (n : ℕ) → length (packet_header suite secret iv n) ≡ 5
  length-packet_header n =
      omega (arith, length-enc 0 (authed_packet ∷ htonl_bytes n), length-htonl_bytes n)

  -- `p` begins with the header of a payload of `n` bytes, and has room for the rest.
  pub record HasHeader (n : ℕ) (p : Bytes) : Type 0 where
    pub rest : Bytes
    pub length-rest : length rest ≡ 32 + n
    pub layout : p ≡ packet_header suite secret iv n ++ rest

  -- `p` has the header and the body of `payload`, and any 32 bytes between.
  pub record HasBody (payload p : Bytes) : Type 0 where
    pub code : Bytes
    pub length-code : length code ≡ 32
    pub layout :
        p
        ≡ packet_header suite secret iv (length payload)
          ++ (code ++ packet_body suite secret iv payload)

  pub header_written :
      (n : ℕ) (p : Bytes)
      → length p ≡ 37 + n
      → HasHeader n (write_at 1 (enc 1 (htonl_bytes n)) (write_at 0 (enc 0 (authed_packet ∷ [])) p))
  header_written n p h = record {
    rest = drop 4 (drop 1 p);
    length-rest = omega (arith, length-drop 4 (drop 1 p), length-drop 1 p);
    layout =
        ap (write_at 1 (enc 1 (htonl_bytes n))) (
          write_at-after 0 [] p (enc 0 (authed_packet ∷ [])) refl
            (omega (arith, length-enc 0 (authed_packet ∷ [])))
          ∙ ap (λ k. enc 0 (authed_packet ∷ []) ++ drop k p) (length-enc 0 (authed_packet ∷ [])))
        ∙ write_at-after 1 (enc 0 (authed_packet ∷ [])) (drop 1 p) (enc 1 (htonl_bytes n))
            (sym (length-enc 0 (authed_packet ∷ [])))
            (omega (arith, length-enc 1 (htonl_bytes n), length-htonl_bytes n, length-drop 1 p))
        ∙ ap (λ k. enc 0 (authed_packet ∷ []) ++ (enc 1 (htonl_bytes n) ++ drop k (drop 1 p)))
            (length-enc 1 (htonl_bytes n) ∙ length-htonl_bytes n)
        ∙ sym
            (append_assoc (enc 0 (authed_packet ∷ [])) (enc 1 (htonl_bytes n)) (drop 4 (drop 1 p)))
        ∙ ap (λ t. t ++ drop 4 (drop 1 p))
            (sym (
              crypt-append (suite.encrypt_byte secret (suite.host_u64 iv)) 0 (authed_packet ∷ [])
                (htonl_bytes n)));
  }

  pub length-HasHeader : {n : ℕ} {p : Bytes} → HasHeader n p → length p ≡ 37 + n
  length-HasHeader {n} h =
      ap length h.layout
      ∙ omega (
        arith,
        length-append (packet_header suite secret iv n) h.rest,
        h.length-rest,
        length-packet_header n,
      )

  pub length-HasBody : {payload p : Bytes} → HasBody payload p → length p ≡ 37 + length payload
  length-HasBody {payload} h =
      ap length h.layout
      ∙ omega (
        arith,
        length-append (packet_header suite secret iv (length payload))
            (h.code ++ packet_body suite secret iv payload),
        length-append h.code (packet_body suite secret iv payload),
        length-enc 5 payload,
        h.length-code,
        length-packet_header (length payload),
      )

  pub body_written :
      (payload p : Bytes)
      → HasHeader (length payload) p
      → HasBody payload (write_at 37 (packet_body suite secret iv payload) p)
  body_written payload p h = record {
    code = take 32 h.rest;
    length-code = omega (arith, length-take 32 h.rest, h.length-rest);
    layout =
        ap (write_at 37 body) (
          h.layout
          ∙ ap (λ t. header ++ t) (sym (take-append-drop 32 h.rest))
          ∙ sym (append_assoc header (take 32 h.rest) (drop 32 h.rest)))
        ∙ write_at-after 37 (header ++ take 32 h.rest) (drop 32 h.rest) body
            (omega (
              arith,
              length-append header (take 32 h.rest),
              length-packet_header (length payload),
              length-take 32 h.rest,
              h.length-rest,
            ))
            (omega (arith, length-drop 32 h.rest, h.length-rest, length-enc 5 payload))
        ∙ ap (λ t. (header ++ take 32 h.rest) ++ (body ++ t))
            (drop_all (length body) (drop 32 h.rest)
              (omega (arith, length-drop 32 h.rest, h.length-rest, length-enc 5 payload)))
        ∙ ap (λ t. (header ++ take 32 h.rest) ++ t) (append-nil body)
        ∙ append_assoc header (take 32 h.rest) body;
  }
    where
      header : Bytes
      header = packet_header suite secret iv (length payload)

      body : Bytes
      body = packet_body suite secret iv payload

  module _ (laws : IsSuite suite) (payload p : Bytes) (h : HasBody payload p) where
    abbrev header : Bytes
    header = packet_header suite secret iv (length payload)

    abbrev body : Bytes
    body = packet_body suite secret iv payload

    header_read : take 5 p ≡ header
    header_read =
        ap (take 5) h.layout
        ∙ take-append_eq 5 header (h.code ++ body) (length-packet_header (length payload))

    body_read : take (length payload) (drop 37 p) ≡ body
    body_read =
        ap (λ t. take (length payload) (drop 37 t))
          (h.layout ∙ sym (append_assoc header h.code body))
        ∙ ap (take (length payload)) (
            drop-append_eq 37 (header ++ h.code) body (
              omega (
                arith,
                length-append header h.code,
                length-packet_header (length payload),
                h.length-code,
              )))
        ∙ take_all (length payload) body (length-enc 5 payload)

    -- What the two calls of `vccrypt_mac_digest` read.
    pub digested :
        take 5 p ++ take (length payload) (drop 37 p)
        ≡ packet_header suite secret iv (length payload) ++ packet_body suite secret iv payload
    digested = rw (header_read, body_read)

    pub sealed : write_at 5 (packet_mac suite secret iv payload) p ≡ packet suite secret iv payload
    sealed =
        ap (write_at 5 (packet_mac suite secret iv payload)) h.layout
        ∙ write_at-after 5 header (h.code ++ body) (packet_mac suite secret iv payload)
            (sym (length-packet_header (length payload)))
            (omega (
              arith,
              length-append h.code body,
              h.length-code,
              laws.length-mac_short secret (header ++ body),
            ))
        ∙ ap (λ t. header ++ (packet_mac suite secret iv payload ++ t))
            (drop-append_eq (length (packet_mac suite secret iv payload)) h.code body
              (h.length-code ∙ sym (laws.length-mac_short secret (header ++ body))))
