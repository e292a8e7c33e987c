-- ===== src/Runner/Output.antt =====
-- `normalizeOutput`, `isConditionTrue`, `shouldFollowTransition` and `calculateBackoff`.
use birthub_360_innovation.Base.{
  ℕ, ◌-◌, ◌*◌, ◌≤◌, String, Bool, true, false, ◌&&◌, not, Option, none, some, ◌≡◌, arith, ltb, leb,
  if◌then◌else◌, min, str_append, ◌^◌,
}
use native.Mathlib.Nat.{pow-le-pow_right}
use Prim.Native.Char.{code}
use Prim.Native.String.{len}
use birthub_360_innovation.Base.Json.{Value, null, member, truthy, or_null}
use birthub_360_innovation.Dag.{Route, always, if_true, if_false, on_success, on_failure, fallback}
use birthub_360_innovation.Runner.{Host}

abbrev pub output_max_bytes : ℕ
output_max_bytes = 204800

pub record Envelope : Type 0 where
  pub external_payload_url : Option String
  pub output : Value
  pub output_preview : Option String
  pub output_size : ℕ

-- The first `n` UTF-16 units of a text. A character of two units that the cut would part is left out.
unfoldable pub take_units : ℕ → String → String
take_units n String.[] = String.[]
take_units n (String.◌∷◌ c s) =
    let width = if ltb (code c) 0x10000 then 1 else 2 in
    let rest = String.◌∷◌ c (take_units (n - width) s) in if leb width n then rest else String.[]

infixl 65 ◌&◌
abbrev pub ◌&◌ : String → String → String
a & b = str_append a b

-- `Buffer.byteLength(serialized, "utf8")` is `len`.
unfoldable pub normalize_output : Host → Value → String → String → Envelope
normalize_output host output execution_id step_key =
    let serialized = host.stringify (or_null output) in
    let size = len serialized in
    if leb size output_max_bytes
    then record {
      external_payload_url = none;
      output = output;
      output_preview = none;
      output_size = size;
    }
    else record {
      external_payload_url = some (
          "s3://workflow-step-results/"
          & execution_id
          & "/"
          & step_key
          & "/"
          & host.sha256 serialized
          & ".json");
      output = null;
      output_preview = some (take_units 1500 serialized & "...");
      output_size = size;
    }

-- An array is an object with no such key.
unfoldable pub is_condition_true : Value → Bool
is_condition_true output = truthy (member "result" output)

unfoldable pub should_follow_transition : Route → Value → Bool → Bool
should_follow_transition on_failure output failed = failed
should_follow_transition fallback output failed = failed
should_follow_transition always output failed = not failed
should_follow_transition on_success output failed = not failed
should_follow_transition if_true output failed = not failed && is_condition_true output
should_follow_transition if_false output failed = not failed && not (is_condition_true output)

unfoldable pub calculate_backoff : ℕ → ℕ
calculate_backoff attempt = min 60000 (2 ^ attempt * 1000)

-- Of the two conditional routes out of a step that succeeded exactly one is followed, and of any
-- route never both the outcome for success and the one for failure.
pub should_follow_transition_lem :
    (route : Route) (output : Value)
    → (should_follow_transition if_true output false
        ≡ not (should_follow_transition if_false output false))
      × ((should_follow_transition route output false && should_follow_transition route output true)
          ≡ false)
unfolding should_follow_transition
should_follow_transition_lem route output = ground arith

pub pow_mono : (a b : ℕ) → a ≤ b → 2 ^ a ≤ 2 ^ b
pow_mono a b h = pow-le-pow_right (omega arith) h

-- The delay before a retry grows with the number of attempts, and lies between a second and a minute.
pub calculate_backoff_bounds :
    (a b : ℕ)
    → a ≤ b
    → (1000 ≤ calculate_backoff a)
      × (calculate_backoff a ≤ calculate_backoff b)
      × (calculate_backoff b ≤ 60000)
unfolding calculate_backoff
calculate_backoff_bounds a b h = omega (arith, pow_mono a b h, pow_mono 0 a)
