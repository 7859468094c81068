-- ===== src/Jni/Remove.antt =====
-- To dispose what stands first, or behind what is never disposed.
use v_j_bc.Base.{
  ◌≡◌, refl, Bool, true, false, ◌&&◌, ◌==◌, some, List, [], ◌∷◌, ◌++◌, arith, if◌then◌else◌,
}
use v_j_bc.Jni.{Resource, resource_code, remove}

-- `held` is `rs`, in the order of `rs`, with `leaked` in between.
pub data Parted : (leaked rs held : List Resource) → Type 0 where
  clean : {rs : List Resource} → Parted [] rs rs
  left :
      {r : Resource} {leaked rs held : List Resource}
      → Parted leaked rs held
      → Parted (r ∷ leaked) rs (r ∷ held)
  given :
      {r : Resource} {leaked rs held : List Resource}
      → Parted leaked rs held
      → Parted leaked (r ∷ rs) (r ∷ held)

-- None of the resources `xs` is `r`; none of them is one of `rs`.
abbrev pub absent : Resource → List Resource → Bool
absent r [] = true
absent r (x ∷ xs) = if resource_code x == resource_code r then false else absent r xs

abbrev pub apart : List Resource → List Resource → Bool
apart xs [] = true
apart xs (r ∷ rs) = absent r xs && apart xs rs

pub remove_self : (r : Resource) (xs : List Resource) → remove r (r ∷ xs) ≡ some xs
unfolding remove
remove_self r xs = ground arith

remove_skip :
    (r x : Resource) (xs ys : List Resource)
    → (resource_code x == resource_code r) ≡ false
    → remove r xs ≡ some ys
    → remove r (x ∷ xs) ≡ some (x ∷ ys)
unfolding remove
remove_skip r x xs ys e h = rw (e, h) refl

neither : (b c : Bool) → (if b then false else c) ≡ true → (b ≡ false) × (c ≡ true)
neither true c h = cc
neither false c h = (refl, h)

pub remove_behind :
    (r : Resource) (leaked xs : List Resource)
    → absent r leaked ≡ true
    → remove r (leaked ++ (r ∷ xs)) ≡ some (leaked ++ xs)
remove_behind r [] xs h = remove_self r xs
remove_behind r (x ∷ leaked) xs h =
    let p = neither (resource_code x == resource_code r) (absent r leaked) h in
    remove_skip r x (leaked ++ (r ∷ xs)) (leaked ++ xs) p.0 (remove_behind r leaked xs p.1)

-- What is absent from a list is absent from its beginning.
pub absent-append :
    (r : Resource) (xs ys : List Resource) → absent r (xs ++ ys) ≡ true → absent r xs ≡ true
absent-append r [] ys h = refl
absent-append r (x ∷ xs) ys h =
    let p = neither (resource_code x == resource_code r) (absent r (xs ++ ys)) h in
    rw p.0 (absent-append r xs ys p.1)
