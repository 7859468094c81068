-- ===== src/Jni/Rules.antt =====
-- A rule for each kind of statement of a native method.
mod Basic
mod Then
use v_j_bc.Base.{refl}
use v_j_bc.Jni.Remove.{clean}
use v_j_bc.Jni.Point.{nothing, state_of, null_of, because}
pub use Basic.{
  Steps-pure, Steps-throw, Steps-bind, Steps-mono, Steps-jump, Steps-attempt, Steps-acquire,
  Steps-guard, Steps-set_retval,
}
pub use Then.*

pub ruleset step_rules = (
  refl, clean, nothing, state_of, null_of, because, attempt-then, attempt_with-then, acquire-then,
  guard-then, release-then, non_null-some, non_null-none, verify_initialized-then, in_bounds-then,
  set_retval-then, Steps-attempt, Steps-acquire, Steps-guard, Steps-set_retval, Steps-throw,
  Steps-pure,
)
