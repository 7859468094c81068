-- ===== src/Jni.antt =====
-- The run time of the native methods: the calls into the JVM and into the C libraries that may
-- fail, what a method holds, the exception that it leaves pending, and its `goto` exits.

pub mod Point
pub mod Remove
pub mod Rules
pub mod Completes
use v_j_bc.Base.{
  ◌++◌, ℕ, suc, ◌+◌, String, Bool, true, false, Option, none, some, List, [], ◌∷◌, ◌==◌, ◌&&◌,
  if◌then◌else◌,
}

-- The exception classes that the native methods throw.
pub data ExceptionClass : Type 0 where
  illegal_state null_pointer illegal_argument : ExceptionClass
  message_verification message_authentication attestation unknown_entity : ExceptionClass
  invalid_key_size : ExceptionClass

pub record Thrown : Type 0 where
  pub class : ExceptionClass
  pub message : String

-- What a method acquires and has to give back: the elements of a Java array
-- (`GetByteArrayElements`), a local reference to an array, a vccrypt buffer, or a context of the crypto suite, each by the C
-- variable that holds it.
pub data Resource : Type 0 where
  shared_secret_bytes header_bytes payload_bytes : Resource
  shared_secret_buffer header_buffer payload_buffer dheader_buffer dpayload_buffer : Resource
  digest_buffer packet_buffer : Resource
  input_data key_bytes_data output_array_data : Resource
  key_buffer session_key_buffer session_iv_buffer stream_iv_buffer mac_buffer : Resource
  retval_bytes array_data : Resource
  key_array_data private_key_array private_key_array_data private_key_buffer : Resource
  public_key_array public_key_array_data public_key_buffer iv_buffer agreement_context : Resource
  client_private_key_bytes client_private_key_buffer server_public_key_bytes : Resource
  server_public_key_buffer server_nonce_bytes server_nonce_buffer client_nonce_bytes : Resource
  client_nonce_buffer : Resource
  sign_out_array sign_out_bytes signature_buffer message_bytes message_array : Resource
  signature_context : Resource
  signing_public_array signing_public_bytes signing_public_buffer signature_array : Resource
  signature_array_bytes : Resource
  prng_context mac_context block_context stream_context : Resource
  iv_array_data input_array_data key_bytes msg_bytes output_array : Resource
  derivation_options derivation_context password_array password_buffer : Resource
  salt_array salt_buffer priv_array pub_array priv_key pub_key priv_array_data : Resource
  pub_array_data : Resource
  cert_builder field_val out_data priv priv_bytes signer_id_bytes : Resource

abbrev pub resource_code : Resource → ℕ
resource_code shared_secret_bytes = 0
resource_code header_bytes = 1
resource_code payload_bytes = 2
resource_code shared_secret_buffer = 3
resource_code header_buffer = 4
resource_code payload_buffer = 5
resource_code dheader_buffer = 6
resource_code dpayload_buffer = 7
resource_code digest_buffer = 8
resource_code packet_buffer = 9
resource_code input_data = 10
resource_code key_bytes_data = 11
resource_code output_array_data = 12
resource_code key_buffer = 13
resource_code session_key_buffer = 14
resource_code session_iv_buffer = 15
resource_code stream_iv_buffer = 16
resource_code mac_buffer = 17
resource_code prng_context = 18
resource_code mac_context = 19
resource_code block_context = 20
resource_code stream_context = 21
resource_code retval_bytes = 22
resource_code array_data = 23
resource_code key_array_data = 24
resource_code private_key_array = 25
resource_code private_key_array_data = 26
resource_code private_key_buffer = 27
resource_code public_key_array = 28
resource_code public_key_array_data = 29
resource_code public_key_buffer = 30
resource_code iv_buffer = 31
resource_code agreement_context = 32
resource_code client_private_key_bytes = 33
resource_code client_private_key_buffer = 34
resource_code server_public_key_bytes = 35
resource_code server_public_key_buffer = 36
resource_code server_nonce_bytes = 37
resource_code server_nonce_buffer = 38
resource_code client_nonce_bytes = 39
resource_code client_nonce_buffer = 40
resource_code sign_out_array = 41
resource_code sign_out_bytes = 42
resource_code signature_buffer = 43
resource_code message_bytes = 44
resource_code message_array = 45
resource_code signature_context = 46
resource_code signing_public_array = 47
resource_code signing_public_bytes = 48
resource_code signing_public_buffer = 49
resource_code signature_array = 50
resource_code signature_array_bytes = 51
resource_code iv_array_data = 52
resource_code input_array_data = 53
resource_code key_bytes = 54
resource_code msg_bytes = 55
resource_code output_array = 56
resource_code derivation_options = 57
resource_code derivation_context = 58
resource_code password_array = 59
resource_code password_buffer = 60
resource_code salt_array = 61
resource_code salt_buffer = 62
resource_code priv_array = 63
resource_code pub_array = 64
resource_code priv_key = 65
resource_code pub_key = 66
resource_code priv_array_data = 67
resource_code pub_array_data = 68
resource_code cert_builder = 69
resource_code field_val = 70
resource_code out_data = 71
resource_code priv = 72
resource_code priv_bytes = 73
resource_code signer_id_bytes = 74

-- The state of a call: the number of fallible calls made, what is held, the latest acquired first,
-- the pending exception, and the variable `retval`.
pub record World (R : Type 0) : Type 0 where
  pub clock : ℕ
  pub held : List Resource
  pub thrown : Option Thrown
  pub retval : R

unfoldable pub remove : Resource → List Resource → Option (List Resource)
remove r [] = none
remove r (x ∷ xs) =
    if resource_code x == resource_code r
    then some xs
    else elim (remove r xs) [ none ↦ none | some ys ↦ some (x ∷ ys) ]

-- A statement falls through, jumps to a cleanup label, or has no defined behaviour.
pub data Outcome (L R A : Type 0) : Type 0 where
  next : A → World R → Outcome L R A
  goto : L → World R → Outcome L R A
  undefined : Outcome L R A

abbrev pub Body : Type 0 → Type 0 → Type 0 → Type 0
Body L R A = World R → Outcome L R A

-- Which of the fallible calls succeed, by their number.
abbrev pub Schedule : Type 0
Schedule = ℕ → Bool

module _ {L R A B : Type 0} where
  abbrev pub and_then : Outcome L R A → (A → Body L R B) → Outcome L R B
  and_then (next a w) k = k a w
  and_then (goto l w) k = goto l w
  and_then undefined k = undefined

  infixl 5 ◌>>=◌ ◌>>◌
  unfoldable pub ◌>>=◌ : Body L R A → (A → Body L R B) → Body L R B
  ◌>>=◌ m k w = and_then (m w) k

  abbrev pub ◌>>◌ : Body L R A → Body L R B → Body L R B
  m >> n = m >>= λ _. n

module _ {L R A : Type 0} where
  unfoldable pub pure : A → Body L R A
  pure a w = next a w

  -- `(*env)->ThrowNew (env, class, message); goto l;`
  unfoldable pub throw : ExceptionClass → String → L → Body L R A
  throw c s l w = goto l (record w { thrown = some (record { class = c; message = s }) })

  -- A fallible call. What it returns may depend on when it is made.
  unfoldable pub attempt : Schedule → (ℕ → A) → ExceptionClass → String → L → Body L R A
  unfolding throw
  attempt calls f c s l w =
      if calls w.clock
      then next (f w.clock) (record w { clock = w.clock + 1 })
      else throw c s l (record w { clock = w.clock + 1 })

  -- A fallible call that hands the caller a resource.
  unfoldable pub acquire : Schedule → Resource → (ℕ → A) → ExceptionClass → String → L → Body L R A
  unfolding throw
  acquire calls r f c s l w =
      if calls w.clock
      then next (f w.clock) (record w { clock = w.clock + 1; held = r ∷ w.held })
      else throw c s l (record w { clock = w.clock + 1 })

  -- A fallible call whose failure throws, gives back `r`, and jumps.
  unfoldable pub attempt_with :
      Schedule → Resource → (ℕ → A) → ExceptionClass → String → L → Body L R A
  unfolding throw
  attempt_with calls r f c s l w =
      if calls w.clock
      then next (f w.clock) (record w { clock = w.clock + 1 })
      else elim (remove r w.held) [
        | none ↦ undefined
        | some hs ↦ throw c s l (record w { clock = w.clock + 1; held = hs })
      ]

  -- A parameter or field that has to be non-null.
  unfoldable pub non_null : Option A → ExceptionClass → String → L → Body L R A
  unfolding throw
  non_null (some a) c s l w = next a w
  non_null none c s l w = throw c s l w

  -- A use of a reference with no test for null.
  unfoldable pub deref : Option A → Body L R A
  deref (some a) w = next a w
  deref none w = undefined

module _ {L R : Type 0} where
  -- `if (b) { ThrowNew (...); goto l; }`, written with the test that lets the method go on.
  unfoldable pub guard : Bool → ExceptionClass → String → L → Body L R (Unit {0})
  unfolding throw
  guard b c s l w =
      if b
      then next tt w
      else goto l (record w { thrown = some (record { class = c; message = s }) })

  -- A fallible call whose failure is the answer `false`; if it succeeds, the answer is `b`.
  unfoldable pub test : Schedule → Bool → Body L R Bool
  test calls b w = next (calls w.clock && b) (record w { clock = w.clock + 1 })

  -- A memory access of the program, which has to stay inside its object.
  unfoldable pub in_bounds : Bool → Body L R (Unit {0})
  in_bounds b w = if b then next tt w else undefined

  -- `dispose` or `ReleaseByteArrayElements` within the body.
  unfoldable pub release : Resource → Body L R (Unit {0})
  release r w = elim (remove r w.held) [
    | none ↦ undefined
    | some hs ↦ next tt (record w { held = hs })
  ]

  -- A call of the JVM whose result is used with no test for null. If it succeeds, it hands the
  -- caller `rs`.
  unfoldable pub unchecked : Schedule → List Resource → Body L R (Unit {0})
  unchecked calls rs w =
      if calls w.clock
      then next tt (record w { clock = w.clock + 1; held = rs ++ w.held })
      else undefined

  -- `retval = v;`
  unfoldable pub set_retval : R → Body L R (Unit {0})
  set_retval v w = next tt (record w { retval = v })

  -- `if (!native_inst || !native_inst->initialized)`: the method throws through `native_inst`, so a
  -- null instance is dereferenced. An instance is known by its flag `initialized`.
  unfoldable pub verify_initialized : Option Bool → L → Body L R (Unit {0})
  unfolding guard deref ◌>>=◌
  verify_initialized inst l = do
    initialized ← deref inst
    guard initialized illegal_state "vjblockchain not initialized." l

-- The end of a call.
pub data Finish (R : Type 0) : Type 0 where
  returned : World R → Finish R
  undefined_behaviour : Finish R

-- The cleanup statements from a label on. To dispose what is not held is undefined.
unfoldable pub unwind : {R : Type 0} → List Resource → World R → Finish R
unwind [] w = returned w
unwind (r ∷ rs) w = elim (remove r w.held) [
  | none ↦ undefined_behaviour
  | some hs ↦ unwind rs (record w { held = hs })
]

module _ {L R : Type 0} (cleanup : L → List Resource) (top : L) where
  abbrev pub finish : Outcome L R (Unit {0}) → Finish R
  finish (next _ w) = unwind (cleanup top) w
  finish (goto l w) = unwind (cleanup l) w
  finish undefined = undefined_behaviour

  -- A method: the initial value of `retval`, its body, what each label cleans up, and the label
  -- that the body falls into.
  unfoldable pub run : R → Body L R (Unit {0}) → World R → Finish R
  run init body w = finish (body (record w { retval = init }))
