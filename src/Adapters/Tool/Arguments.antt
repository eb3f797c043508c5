-- ===== src/Adapters/Tool/Arguments.antt =====
-- What `validate_arguments` of crates/aios-adapter-tool/src/lib.rs accepts.
use ai_os.Prelude.{
  ℕ, ◌+◌, ◌≤◌, ◌≡◌, ◌↔◌, arith, inl, inr, false, ◌||◌, List, [], ◌∷◌, some, ltb, length, contains,
  All, nat_eq, checked_add, ok, ok_or, ◌>>=◌, Bool-cases,
}
use ai_os.Core.Text.{Text, byte_len}
use ai_os.Adapters.Tool.{
  max_arguments, max_argument_bytes, max_total_argument_bytes, validate_each, validate_arguments,
}

abbrev pub total_bytes : List Text → ℕ
total_bytes [] = 0
total_bytes (argument ∷ arguments) = byte_len argument + total_bytes arguments

-- An argument that is short enough and has no NUL.
abbrev pub IsArgument : Text → Type 0
IsArgument argument = (byte_len argument ≤ max_argument_bytes) × (contains 0 argument ≡ false)

abbrev pub IsWithinLimits : List Text → Type 0
IsWithinLimits arguments =
    (length arguments ≤ max_arguments)
    × All IsArgument arguments
    × (total_bytes arguments ≤ max_total_argument_bytes)

add_small :
    (total size : ℕ)
    → total ≤ max_total_argument_bytes
    → size ≤ max_argument_bytes
    → checked_add total size ≡ some (total + size)
add_small total size h k = ground arith

validate_each_iff :
    (total : ℕ) (arguments : List Text)
    → total ≤ max_total_argument_bytes
    → (validate_each total arguments ≡ ok tt)
      ↔ (All IsArgument arguments × (total + total_bytes arguments ≤ max_total_argument_bytes))
unfolding validate_each
validate_each_iff total [] h = ground arith
validate_each_iff total (argument ∷ arguments) h =
    elim (Bool-cases (ltb max_argument_bytes (byte_len argument) || contains 0 argument)) [
      | inl refused ↦ rw refused (ground arith)
      | inr short ↦
          rw (short, add_small total (byte_len argument) h (ground arith), ◌>>=◌, ok_or)
            (elim (Bool-cases (ltb max_total_argument_bytes (total + byte_len argument))) [
              | inl over ↦ rw over (ground arith)
              | inr fits ↦ rw fits (
                  ground
                    (arith, validate_each_iff (total + byte_len argument) arguments (ground arith)))
            ])
    ]

-- The arguments are accepted exactly when there are at most 64 of them, each has at most 4,096 bytes
-- and no NUL, and they have at most 65,536 bytes together.
pub validate_arguments_iff :
    (arguments : List Text) → (validate_arguments arguments ≡ ok tt) ↔ IsWithinLimits arguments
unfolding validate_arguments
validate_arguments_iff arguments = ground (arith, validate_each_iff 0 arguments (omega arith))
