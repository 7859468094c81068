-- ===== src/Documents/Unwrap/Phases.antt =====
-- What each phase of the unwrapping does.
use v_j_bc.Base.{
  ℕ, ◌-◌, ◌≤◌, ◌≡◌, refl, sym, subst, Bool, true, false, Option, none, some, [], Bytes, arith, leb,
  ◌&&◌, length, length-new_array, new_array, take, drop, write_at,
}
use v_j_bc.Base.Prefix.{HasPrefix, HasPrefix-nil, write_at-HasPrefix, length-HasPrefix}
use v_j_bc.Jni.{Body, ExceptionClass, illegal_state, null_pointer}
use v_j_bc.Jni.Point.{shape, Steps, Reason}
use v_j_bc.Jni.Rules.{step_rules}
use v_j_bc.Suite.{Suite, IsSuite}
use v_j_bc.Documents.Envelope.{KeyObject, unwrapped, unwrapped_1, unwrapped_2}
use v_j_bc.Documents.Unwrap.{
  Label, return_null, cleanup, block_dispose, ka_dispose, public_key_buffer_dispose,
  private_key_buffer_dispose, read_private_key, read_public_key, agree, decrypt_blocks,
}

module _ (suite : Suite) where
  -- Why the unwrapping refuses its arguments, and the class of the exception that says so.
  pub data Refusal (initialized : Bool)
      : KeyObject → KeyObject → Option Bytes → ExceptionClass → Type 0 where
    not_initialized :
        {private public : KeyObject} {key : Option Bytes}
        → initialized ≡ false
        → Refusal initialized private public key illegal_state
    no_private :
        {public : KeyObject} {key : Option Bytes} → Refusal initialized none public key null_pointer
    no_public :
        {private : KeyObject} {key : Option Bytes}
        → Refusal initialized private none key null_pointer
    no_key : {private public : KeyObject} → Refusal initialized private public none null_pointer
    no_private_bytes :
        {public : KeyObject} {key : Option Bytes}
        → Refusal initialized (some none) public key null_pointer
    no_public_bytes :
        {private : KeyObject} {key : Option Bytes}
        → Refusal initialized private (some none) key null_pointer

  -- The same, or a call that failed.
  abbrev pub Refused : Bool → KeyObject → KeyObject → Option Bytes → ℕ → ℕ → ExceptionClass → Type 0
  Refused initialized private public key =
      Reason suite.calls (Refusal initialized private public key)

  -- `out` is as long as the wrapped key without its initialisation vector, and begins with the two
  -- blocks decrypted.
  pub data IsUnwrapped (initialized : Bool)
      : KeyObject → KeyObject → Option Bytes → Option Bytes → Type 0 where
    is_unwrapped :
        {private public enveloped out : Bytes}
        → initialized ≡ true
        → HasPrefix
            (length enveloped - 16)
            (unwrapped suite (suite.long_term_secret (take 32 private) (take 32 public)) enveloped)
            out
        → IsUnwrapped initialized
            (some (some private))
            (some (some public))
            (some enveloped)
            (some out)

  pub ruleset reasons =
      (not_initialized, no_private, no_public, no_key, no_private_bytes, no_public_bytes)

  module _ (laws : IsSuite suite) (b : Bool) (private public : KeyObject) (key : Bytes) where
    abbrev pub Phase :
        {A : Type 0} → Label → Label → (A → Type 0) → Body Label (Option Bytes) A → Type 0
    Phase l l' Q m =
        Steps cleanup (λ r. r ≡ none) (Refused b private public (some key)) (shape (cleanup l) none)
          (shape (cleanup l') none) Q m

    pub agree-Steps :
        (x y : Bytes)
        → Phase public_key_buffer_dispose ka_dispose
            (λ s. s ≡ suite.long_term_secret x y)
            (agree suite x y)
    unfolding agree
    agree-Steps x y = search (step_rules, reasons) depth 30

    pub decrypt_blocks-Steps :
        (secret : Bytes)
        → 48 ≤ length key
        → Phase ka_dispose block_dispose
            (HasPrefix (length key - 16) (unwrapped suite secret key))
            (decrypt_blocks suite secret key)
    unfolding decrypt_blocks
    decrypt_blocks-Steps secret long =
        search (step_rules, reasons, not_negative, in_32, in_48, block_1_written, block_2_written)
          depth 30
      where
        not_negative :
            leb 16 (length key) ≡ false → Refusal b private public (some key) null_pointer
        not_negative h = ground arith

        first : Bytes
        first = unwrapped_1 suite secret key

        second : Bytes
        second = unwrapped_2 suite secret key

        length_first : length first ≡ 16
        length_first = laws.length-block_decrypt secret (take 16 key) (take 16 (drop 16 key))

        length_second : length second ≡ 16
        length_second =
            laws.length-block_decrypt secret (take 16 (drop 16 key)) (take 16 (drop 32 key))

        in_32 : (leb 32 (length key) && leb 16 (length (new_array (length key - 16)))) ≡ true
        in_32 = ground (arith, length-new_array (length key - 16))

        in_48 :
            (p : Bytes)
            → HasPrefix (length key - 16) first p
            → (leb 48 (length key) && leb 32 (length p)) ≡ true
        in_48 p h = ground (arith, length-HasPrefix h)

        block_1_written :
            HasPrefix (length key - 16) first (write_at 0 first (new_array (length key - 16)))
        block_1_written =
            write_at-HasPrefix 0 first
              (subst (λ t. HasPrefix t [] (new_array (length key - 16)))
                (length-new_array (length key - 16)) (HasPrefix-nil (new_array (length key - 16))))
              refl (omega (arith, length_first))

        block_2_written :
            (p : Bytes)
            → HasPrefix (length key - 16) first p
            → HasPrefix (length key - 16) (unwrapped suite secret key) (write_at 16 second p)
        block_2_written p h =
            write_at-HasPrefix 16 second h (sym length_first)
              (omega (arith, length_first, length_second))

  module _ (laws : IsSuite suite) (b : Bool) where
    pub read_private_key-Steps :
        (x : Bytes) (public : KeyObject) (key : Bytes)
        → 32 ≤ length x
        → Phase laws b
            (some (some x))
            public
            key
            return_null
            private_key_buffer_dispose
            (λ k. k ≡ take 32 x)
            (read_private_key suite (some x))
    unfolding read_private_key
    read_private_key-Steps x public key long = search (step_rules, reasons, fits) depth 30
      where
        fits : (leb 32 (length x) && leb 32 suite.private_key_size) ≡ true
        fits = ground (arith, long, laws.private_key_size_lem)

    pub read_public_key-Steps :
        (private : KeyObject) (y key : Bytes)
        → 32 ≤ length y
        → Phase laws b private
            (some (some y))
            key
            private_key_buffer_dispose
            public_key_buffer_dispose
            (λ k. k ≡ take 32 y)
            (read_public_key suite (some y))
    unfolding read_public_key
    read_public_key-Steps private y key long = search (step_rules, reasons, fits) depth 30
      where
        fits : (leb 32 (length y) && leb 32 suite.public_key_size) ≡ true
        fits = ground (arith, long, laws.public_key_size_lem)

    pub no_private_bytes-Steps :
        (public : KeyObject) (key : Bytes)
        → Phase laws b
            (some none)
            public
            key
            return_null
            block_dispose
            (λ _. ⊥)
            (read_private_key suite none)
    unfolding read_private_key
    no_private_bytes-Steps public key = search (step_rules, reasons) depth 30

    pub no_public_bytes-Steps :
        (private : KeyObject) (key : Bytes)
        → Phase laws b private
            (some none)
            key
            private_key_buffer_dispose
            block_dispose
            (λ _. ⊥)
            (read_public_key suite none)
    unfolding read_public_key
    no_public_bytes-Steps private key = search (step_rules, reasons) depth 30
