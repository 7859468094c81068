-- ===== src/Keys/Password/Complete.antt =====
-- What the derivation of a key from a password returns, in every case.
use v_j_bc.Base.{ℕ, ◌≡◌, refl, ap, sym, subst, ◌∙◌, Bool, true, Option, none, some, [], Bytes}
use v_j_bc.Jni.{ExceptionClass, World, ◌>>=◌}
use v_j_bc.Jni.Point.{shape, Steps, Reason}
use v_j_bc.Jni.Rules.{Steps-bind, Steps-mono, deref-then, step_rules}
use v_j_bc.Jni.Completes.{Ends, run-Ends}
use v_j_bc.Suite.{Suite}
use v_j_bc.KeyPairs.Encryption.Complete.{Refusal, not_initialized, copied}
use v_j_bc.Keys.Password.{
  cleanup, salt_buffer_dispose, password_buffer_dispose, kd_dispose, key_buffer_dispose,
  open_derivation, read_password, read_salt, derive, create_from_password_body,
  create_from_password,
}

module _ (suite : Suite) where
  abbrev pub Refused : Bool → ℕ → ℕ → ExceptionClass → Type 0
  Refused initialized = Reason suite.calls (Refusal initialized)

  -- The key that the derivation defines.
  pub data IsDerived (initialized sha512 : Bool) (password salt : Bytes) (iterations : ℕ)
      : Option Bytes → Type 0 where
    is_derived :
        initialized ≡ true
        → IsDerived initialized sha512 password salt iterations
            (some (suite.derive_key sha512 password salt iterations))

  ruleset reasons = (not_initialized)

  module _ (b sha512 : Bool) (iterations : ℕ) where
    open-Steps :
        Steps cleanup
          (λ r. r ≡ none)
          (Refused b)
          (shape [] none)
          (shape (cleanup kd_dispose) none)
          (λ _. Unit {0})
          (open_derivation suite)
    unfolding open_derivation
    open-Steps = search (step_rules, reasons, tt) depth 30

    read_password-Steps :
        (password : Bytes)
        → Steps cleanup
            (λ r. r ≡ none)
            (Refused b)
            (shape (cleanup kd_dispose) none)
            (shape (cleanup password_buffer_dispose) none)
            (λ p. p ≡ password)
            (read_password suite (some password))
    unfolding read_password
    read_password-Steps password = search (step_rules, deref-then, reasons) depth 30

    read_salt-Steps :
        (salt : Bytes)
        → Steps cleanup
            (λ r. r ≡ none)
            (Refused b)
            (shape (cleanup password_buffer_dispose) none)
            (shape (cleanup salt_buffer_dispose) none)
            (λ s. s ≡ salt)
            (read_salt suite (some salt))
    unfolding read_salt
    read_salt-Steps salt = search (step_rules, deref-then, reasons) depth 30

    derive-Steps :
        (password salt : Bytes)
        → Steps cleanup
            (λ r. r ≡ none)
            (Refused b)
            (shape (cleanup salt_buffer_dispose) none)
            (shape (cleanup key_buffer_dispose) none)
            (λ k. k ≡ suite.derive_key sha512 password salt iterations)
            (derive suite sha512 password salt iterations)
    unfolding derive
    derive-Steps password salt = search (step_rules, reasons, copied) depth 30

    body-Steps :
        (password salt : Bytes)
        → Steps cleanup
            (λ r. r ≡ none)
            (Refused b)
            (shape [] none)
            (shape (cleanup key_buffer_dispose) none)
            (λ k. IsDerived b sha512 password salt iterations (some k))
            (create_from_password_body suite (some b) (some password) (some salt) iterations sha512)
    unfolding create_from_password_body
    body-Steps password salt = search (step_rules, reasons, rest) depth 30
      where
        rest :
            b ≡ true
            → Steps cleanup
                (λ r. r ≡ none)
                (Refused b)
                (shape [] none)
                (shape (cleanup key_buffer_dispose) none)
                (λ k. IsDerived b sha512 password salt iterations (some k))
                (open_derivation suite >>= λ _. read_password suite (some password) >>= λ p.
                  read_salt suite (some salt) >>= λ s. derive suite sha512 p s iterations)
        rest on = Steps-bind _ _ open-Steps λ _ _.
            Steps-bind _ _ (read_password-Steps password) λ p ep.
              Steps-bind _ _ (read_salt-Steps salt) λ s es.
                Steps-mono
                  (λ k ek.
                    subst (λ t. IsDerived b sha512 password salt iterations (some t))
                      (sym (
                        ek
                        ∙ ap (λ t. suite.derive_key sha512 t s iterations) ep
                        ∙ ap (λ t. suite.derive_key sha512 password t iterations) es))
                      (is_derived on))
                  _ (derive-Steps p s)

    -- For a password and a salt that are not null, any number of iterations and either hash, with an
    -- instance that is not null, and whichever calls fail, `createFromPasswordNative` ends with
    -- defined behaviour and has given back all that it acquired. It returns the key that the
    -- derivation defines for them, with nothing thrown, and then the library is initialized; or it
    -- throws an exception of a class for which there is a reason, and returns NULL.
    pub create_from_password-Ends :
        (password salt : Bytes) (w : World (Option Bytes))
        → Ends
            (λ r. r ≡ none)
            (Refused b)
            (IsDerived b sha512 password salt iterations)
            w
            (create_from_password suite (some b) (some password) (some salt) iterations sha512 w)
    unfolding create_from_password
    create_from_password-Ends password salt w =
        run-Ends key_buffer_dispose refl w some (λ a h. h) _ (body-Steps password salt)
