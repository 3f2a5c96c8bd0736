-- ===== src/Sftp/Numbering.antt =====
-- Handle names: different numbers have different names.
use wftpd_linux.Base.{
  ℕ, zero, suc, ◌+◌, ◌-◌, ◌*◌, ◌/◌, ◌%◌, ◌<◌, ◌≡◌, refl, sym, ap, ◌∙◌, [], ◌∷◌, Text, arith, ltb,
  Bool-cases, inl, inr, Option, none, some, if◌then◌else◌,
}
use wftpd_linux.Base.Dict.{Dict, lookup, contains_key-absent}
use wftpd_linux.Sftp.Session.{OpenEntry, hex_digit, hex_digits, handle_name, fresh_handle, u64_mod}

-- The number that hexadecimal digits stand for, behind those that were read already.
abbrev digit_value : ℕ → ℕ
digit_value c = if ltb c 87 then c - 48 else c - 87

abbrev value_from : ℕ → Text → ℕ
value_from v [] = v
value_from v (c ∷ s) = value_from (v * 16 + digit_value c) s

digit_value-hex_digit : (d : ℕ) → d < 16 → digit_value (hex_digit d) ≡ d
digit_value-hex_digit d h = ground arith

value-hex_digits :
    (fuel n : ℕ) (digits : Text)
    → n < fuel
    → value_from 0 (hex_digits fuel n digits) ≡ value_from n digits
unfolding hex_digits
value-hex_digits zero n digits h = absurd (omega arith)
value-hex_digits (suc fuel) n digits h = elim (Bool-cases (ltb n 16)) [
  | inl small ↦ rw small (ap (λ (v : ℕ). value_from v digits) (first n (ground arith)))
  | inr large ↦ rw large (
      value-hex_digits fuel (n / 16) (hex_digit (n % 16) ∷ digits) (ground arith)
      ∙ ap (λ (v : ℕ). value_from v digits) (step n))
]
  where
    first : (n : ℕ) → n < 16 → 0 * 16 + digit_value (hex_digit n) ≡ n
    first n h = omega (arith, digit_value-hex_digit n h)

    step : (n : ℕ) → n / 16 * 16 + digit_value (hex_digit (n % 16)) ≡ n
    step n = omega (arith, digit_value-hex_digit (n % 16) (omega arith))

pub handle_name-injective : (i j : ℕ) → handle_name i ≡ handle_name j → i ≡ j
unfolding handle_name
handle_name-injective i j e =
    let digits : hex_digits (suc i) i [] ≡ hex_digits (suc j) j [] = cc in
    sym (value-hex_digits (suc i) i [] (omega arith))
    ∙ ap (value_from 0) digits
    ∙ value-hex_digits (suc j) j [] (omega arith)

-- Every handle in use bears a number that was given out before.
abbrev pub IsNumbered : Dict OpenEntry → ℕ → Type 0
IsNumbered handles next =
    (k : Text) (entry : OpenEntry)
    → lookup k handles ≡ some entry
    → (i : ℕ) × (k ≡ handle_name i) × (i < next)

pub lookup-handle_name :
    (handles : Dict OpenEntry) (next : ℕ)
    → IsNumbered handles next
    → lookup (handle_name next) handles ≡ none
lookup-handle_name handles next numbered = at (lookup (handle_name next) handles) refl
  where
    at :
        (o : Option OpenEntry)
        → lookup (handle_name next) handles ≡ o
        → lookup (handle_name next) handles ≡ none
    at none e = e
    at (some entry) e =
        let (i, same, older) = numbered (handle_name next) entry e in
        absurd (omega (arith, handle_name-injective next i same))

-- So the loop for a new name ends in its first round.
pub fresh_handle_lem :
    (fuel next : ℕ) (handles : Dict OpenEntry)
    → IsNumbered handles next
    → fresh_handle (suc fuel) next handles ≡ some (handle_name next, (next + 1) % u64_mod)
unfolding fresh_handle
fresh_handle_lem fuel next handles numbered =
    rw (contains_key-absent _ handles (lookup-handle_name handles next numbered))
