-- ===== src/Documents/Wrap/Phases.antt =====
-- What each phase of the wrapping does.
use v_j_bc.Base.{
  ℕ, ◌+◌, ◌≤◌, ◌≡◌, Bool, true, false, Option, none, some, ◌++◌, Bytes, arith, leb, ◌&&◌, length,
  length-new_array, new_array, take,
}
use v_j_bc.Base.Prefix.{HasPrefix}
use v_j_bc.Jni.{Body, ExceptionClass, illegal_state, null_pointer}
use v_j_bc.Jni.Point.{shape, Steps, Reason}
use v_j_bc.Jni.Rules.{step_rules}
use v_j_bc.Suite.{Suite, IsSuite}
use v_j_bc.Documents.Envelope.{KeyObject, wrapped, wrapped_1}
use v_j_bc.Documents.Wrap.{
  Label, return_null, cleanup, block_dispose, iv_buffer_dispose, ka_dispose,
  public_key_buffer_dispose, private_key_buffer_dispose, read_private_key, read_public_key, agree,
  create_iv, encrypt_blocks,
}
use v_j_bc.Documents.Wrap.Layout.{Begins, iv_written, block_1_written, block_2_written, room}

module _ (suite : Suite) where
  -- Why the wrapping refuses its arguments, and the class of the exception that says so.
  pub data Refusal (initialized : Bool)
      : KeyObject → KeyObject → Option Bytes → ExceptionClass → Type 0 where
    not_initialized :
        {private public : KeyObject} {key : Option Bytes}
        → initialized ≡ false
        → Refusal initialized private public key illegal_state
    no_private :
        {public : KeyObject} {key : Option Bytes} → Refusal initialized none public key null_pointer
    no_public :
        {private : KeyObject} {key : Option Bytes}
        → Refusal initialized private none key null_pointer
    no_key : {private public : KeyObject} → Refusal initialized private public none null_pointer
    no_private_bytes :
        {public : KeyObject} {key : Option Bytes}
        → Refusal initialized (some none) public key null_pointer
    no_public_bytes :
        {private : KeyObject} {key : Option Bytes}
        → Refusal initialized private (some none) key null_pointer

  -- The same, or a call that failed.
  abbrev pub Refused : Bool → KeyObject → KeyObject → Option Bytes → ℕ → ℕ → ExceptionClass → Type 0
  Refused initialized private public key =
      Reason suite.calls (Refusal initialized private public key)

  -- `out` is as long as the key and an initialisation vector, and begins with the key, wrapped under
  -- the secret of the two keys.
  pub data IsWrapped (initialized : Bool)
      : KeyObject → KeyObject → Option Bytes → Option Bytes → Type 0 where
    is_wrapped :
        {private public key out : Bytes} (iv : Bytes)
        → length iv ≡ 16
        → initialized ≡ true
        → HasPrefix
            (16 + length key)
            (wrapped suite (suite.long_term_secret (take 32 private) (take 32 public)) iv key)
            out
        → IsWrapped initialized (some (some private)) (some (some public)) (some key) (some out)

  pub ruleset reasons =
      (not_initialized, no_private, no_public, no_key, no_private_bytes, no_public_bytes)

  module _ (laws : IsSuite suite) (b : Bool) (private public : KeyObject) (key : Bytes) where
    abbrev pub Phase :
        {A : Type 0} → Label → Label → (A → Type 0) → Body Label (Option Bytes) A → Type 0
    Phase l l' Q m =
        Steps cleanup (λ r. r ≡ none) (Refused b private public (some key)) (shape (cleanup l) none)
          (shape (cleanup l') none) Q m

    pub agree-Steps :
        (x y : Bytes)
        → Phase public_key_buffer_dispose ka_dispose
            (λ s. s ≡ suite.long_term_secret x y)
            (agree suite x y)
    unfolding agree
    agree-Steps x y = search (step_rules, reasons) depth 30

    pub create_iv-Steps : Phase ka_dispose iv_buffer_dispose (λ v. length v ≡ 16) (create_iv suite)
    unfolding create_iv
    create_iv-Steps = search (step_rules, reasons, drawn) depth 30
      where
        drawn : (n : ℕ) → length (suite.random n 16) ≡ 16
        drawn n = laws.length-random n 16

    pub encrypt_blocks-Steps :
        (secret iv : Bytes) (is : length iv ≡ 16) (long : 32 ≤ length key)
        → Phase iv_buffer_dispose block_dispose
            (Begins key (wrapped suite secret iv key))
            (encrypt_blocks suite secret iv key)
    unfolding encrypt_blocks
    encrypt_blocks-Steps secret iv is long =
        search
          (
            step_rules,
            reasons,
            in_iv,
            in_16,
            in_32,
            block_2_written suite laws secret key iv is long,
            block_1_written suite laws secret key iv is long,
            iv_written suite laws secret key iv is long,
          )
          depth 30
      where
        in_iv : (leb 16 (length iv) && leb 16 (length (new_array (16 + length key)))) ≡ true
        in_iv = ground (arith, is, length-new_array (16 + length key))

        in_16 : (p : Bytes) → Begins key iv p → (leb 16 (length key) && leb 32 (length p)) ≡ true
        in_16 p h = ground (arith, room key long 32 iv p h (omega arith))

        in_32 :
            (p : Bytes)
            → Begins key (iv ++ wrapped_1 suite secret iv key) p
            → (leb 32 (length key) && leb 48 (length p)) ≡ true
        in_32 p h =
            ground (arith, room key long 48 (iv ++ wrapped_1 suite secret iv key) p h (omega arith))

  module _ (laws : IsSuite suite) (b : Bool) where
    pub read_private_key-Steps :
        (x : Bytes) (public : KeyObject) (key : Bytes)
        → 32 ≤ length x
        → Phase laws b
            (some (some x))
            public
            key
            return_null
            private_key_buffer_dispose
            (λ k. k ≡ take 32 x)
            (read_private_key suite (some x))
    unfolding read_private_key
    read_private_key-Steps x public key long = search (step_rules, reasons, fits) depth 30
      where
        fits : (leb 32 (length x) && leb 32 suite.private_key_size) ≡ true
        fits = ground (arith, long, laws.private_key_size_lem)

    pub read_public_key-Steps :
        (private : KeyObject) (y key : Bytes)
        → 32 ≤ length y
        → Phase laws b private
            (some (some y))
            key
            private_key_buffer_dispose
            public_key_buffer_dispose
            (λ k. k ≡ take 32 y)
            (read_public_key suite (some y))
    unfolding read_public_key
    read_public_key-Steps private y key long = search (step_rules, reasons, fits) depth 30
      where
        fits : (leb 32 (length y) && leb 32 suite.public_key_size) ≡ true
        fits = ground (arith, long, laws.public_key_size_lem)

    pub no_private_bytes-Steps :
        (public : KeyObject) (key : Bytes)
        → Phase laws b
            (some none)
            public
            key
            return_null
            block_dispose
            (λ _. ⊥)
            (read_private_key suite none)
    unfolding read_private_key
    no_private_bytes-Steps public key = search (step_rules, reasons) depth 30

    pub no_public_bytes-Steps :
        (private : KeyObject) (key : Bytes)
        → Phase laws b private
            (some none)
            key
            private_key_buffer_dispose
            block_dispose
            (λ _. ⊥)
            (read_public_key suite none)
    unfolding read_public_key
    no_public_bytes-Steps private key = search (step_rules, reasons) depth 30
