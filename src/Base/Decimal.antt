-- ===== src/Base/Decimal.antt =====
-- Decimal text of a number, as `%d` prints it.
use Prim.Native.Nat.{ℕ, zero, suc, ◌+◌, ◌-◌, ◌*◌, ◌^◌, ◌<◌, ◌/◌, ◌%◌, ◌≤◌}
use Prim.Native.Char.{Char, code}
use Prim.Native.String.{String, ◌++◌ as ◌<>◌}
use mathlib.Core.Path.{◌≡◌, sym, ap, ◌∙◌}
use mathlib.Core.Logic.{◌≢◌, inl, inr}
use mathlib.Core.Bool.{true, ◌&&◌}
use mathlib.Core.Option.{Option, none, some}
use mathlib.Core.List.{List, [], ◌∷◌, ◌++◌}
use native.Mathlib.Nat.{pow-succ'}
use native.Mathlib.Omega.{arith}
use postgres_config_operator.Base.Tests.{if◌then◌else◌, if_both, ltb, leb, Bool-cases}
use postgres_config_operator.Base.Lists.{All, All-append}
use postgres_config_operator.Base.Text.{bytes, bytes-append}

digit : ℕ → Char
digit zero = "0"
digit (suc zero) = "1"
digit (suc (suc zero)) = "2"
digit (suc (suc (suc zero))) = "3"
digit (suc (suc (suc (suc zero)))) = "4"
digit (suc (suc (suc (suc (suc zero))))) = "5"
digit (suc (suc (suc (suc (suc (suc zero)))))) = "6"
digit (suc (suc (suc (suc (suc (suc (suc zero))))))) = "7"
digit (suc (suc (suc (suc (suc (suc (suc (suc zero)))))))) = "8"
digit _ = "9"

one_char : Char → String
one_char c = String.◌∷◌ c String.[]

-- With `k` for the number of digits at most.
print_digits : ℕ → ℕ → String
unfolding digit one_char
print_digits zero n = ""
print_digits (suc k) n =
    let front = print_digits k (n / 10) in
    if ltb n 10 then one_char (digit n) else front <> one_char (digit (n % 10))

-- A `uint16` has five digits at most.
unfoldable pub decimal : ℕ → String
unfolding print_digits
decimal n = print_digits 5 n

abbrev pub IsDigit : ℕ → Type 0
IsDigit c = (b'0' ≤ c) × (c ≤ b'9')

digit-IsDigit : (n : ℕ) → IsDigit (code (digit n))
unfolding digit
digit-IsDigit zero = omega arith
digit-IsDigit (suc zero) = omega arith
digit-IsDigit (suc (suc zero)) = omega arith
digit-IsDigit (suc (suc (suc zero))) = omega arith
digit-IsDigit (suc (suc (suc (suc zero)))) = omega arith
digit-IsDigit (suc (suc (suc (suc (suc zero))))) = omega arith
digit-IsDigit (suc (suc (suc (suc (suc (suc zero)))))) = omega arith
digit-IsDigit (suc (suc (suc (suc (suc (suc (suc zero))))))) = omega arith
digit-IsDigit (suc (suc (suc (suc (suc (suc (suc (suc zero)))))))) = omega arith
digit-IsDigit (suc (suc (suc (suc (suc (suc (suc (suc (suc n))))))))) = omega arith

print_digits-IsDigit : (k n : ℕ) → All IsDigit (bytes (print_digits k n))
unfolding print_digits bytes one_char
print_digits-IsDigit zero n = tt
print_digits-IsDigit (suc k) n =
    if_both (λ s. All IsDigit (bytes s)) (ltb n 10) (one_char (digit n))
      (print_digits k (n / 10) <> one_char (digit (n % 10))) (digit-IsDigit n, tt)
      (rw (bytes-append (print_digits k (n / 10)) (one_char (digit (n % 10)))) (
        All-append IsDigit (bytes (print_digits k (n / 10))) (bytes (one_char (digit (n % 10))))
          (print_digits-IsDigit k (n / 10)) (digit-IsDigit (n % 10), tt)))

pub decimal-IsDigit : (n : ℕ) → All IsDigit (bytes (decimal n))
unfolding decimal
decimal-IsDigit n = print_digits-IsDigit 5 n

-- The number that decimal digits write, behind those of `v`; `none` at any other byte
unfoldable pub parse_digits : ℕ → List ℕ → Option ℕ
parse_digits v [] = some v
parse_digits v (c ∷ cs) =
    let rest = parse_digits (v * 10 + (c - b'0')) cs in
    if leb b'0' c && leb c b'9' then rest else none

parse_digits-append :
    (v w : ℕ) (xs ys : List ℕ)
    → parse_digits v xs ≡ some w
    → parse_digits v (xs ++ ys) ≡ parse_digits w ys
unfolding parse_digits
parse_digits-append v w [] ys e = ground arith
parse_digits-append v w (c ∷ xs) ys e = elim (Bool-cases (leb b'0' c && leb c b'9')) [
  | inl digit ↦ rw digit (parse_digits-append (v * 10 + (c - b'0')) w xs ys (rw digit at e))
  | inr other ↦ absurd (cc (rw other at e))
]

code-digit : (n : ℕ) → n < 10 → code (digit n) ≡ b'0' + n
unfolding digit
code-digit zero h = omega arith
code-digit (suc zero) h = omega arith
code-digit (suc (suc zero)) h = omega arith
code-digit (suc (suc (suc zero))) h = omega arith
code-digit (suc (suc (suc (suc zero)))) h = omega arith
code-digit (suc (suc (suc (suc (suc zero))))) h = omega arith
code-digit (suc (suc (suc (suc (suc (suc zero)))))) h = omega arith
code-digit (suc (suc (suc (suc (suc (suc (suc zero))))))) h = omega arith
code-digit (suc (suc (suc (suc (suc (suc (suc (suc zero)))))))) h = omega arith
code-digit (suc (suc (suc (suc (suc (suc (suc (suc (suc n))))))))) h = omega arith

parse_one : (v c n : ℕ) → n < 10 → c ≡ b'0' + n → parse_digits v (c ∷ []) ≡ some (v * 10 + n)
unfolding parse_digits
parse_one v c n h e = ground arith

parse_digits-digit :
    (v n : ℕ) → n < 10 → parse_digits v (bytes (one_char (digit n))) ≡ some (v * 10 + n)
unfolding bytes one_char
parse_digits-digit v n h = parse_one v (code (digit n)) n h (code-digit n h)

quotient_bound : (n b : ℕ) → n < 10 * b → n / 10 < b
quotient_bound n b h = omega arith

one_digit : (n : ℕ) → n < 10 → parse_digits 0 (bytes (one_char (digit n))) ≡ some n
one_digit n h = parse_digits-digit 0 n h ∙ ap some (omega arith)

parse_digits-print_digits :
    (k n : ℕ) → n < 10 ^ suc k → parse_digits 0 (bytes (print_digits (suc k) n)) ≡ some n
unfolding print_digits
parse_digits-print_digits zero n h =
    let small : ltb n 10 ≡ true = ground arith in rw small (one_digit n (omega arith))
parse_digits-print_digits (suc k) n h = elim (Bool-cases (ltb n 10)) [
  | inl small ↦ rw small (one_digit n (ground arith))
  | inr large ↦
      let front : parse_digits 0 (bytes (print_digits (suc k) (n / 10))) ≡ some (n / 10) =
        parse_digits-print_digits k (n / 10)
          (quotient_bound n (10 ^ suc k) (rw (pow-succ' 10 (suc k)) at h)) in
      rw large (
        ap (parse_digits 0)
          (bytes-append (print_digits (suc k) (n / 10)) (one_char (digit (n % 10))))
        ∙ parse_digits-append 0 (n / 10) (bytes (print_digits (suc k) (n / 10)))
            (bytes (one_char (digit (n % 10)))) front
        ∙ parse_digits-digit (n / 10) (n % 10) (omega arith)
        ∙ ap some (omega arith))
]

-- A number of at most five digits is read back from its text.
pub parse_digits-decimal : (n : ℕ) → n < 100000 → parse_digits 0 (bytes (decimal n)) ≡ some n
unfolding decimal
parse_digits-decimal n h = parse_digits-print_digits 4 n h

snoc-ne : (xs : List ℕ) (x : ℕ) → xs ++ (x ∷ []) ≢ []
snoc-ne [] x e = cc
snoc-ne (y ∷ xs) x e = cc

pub decimal-ne : (n : ℕ) → bytes (decimal n) ≢ []
unfolding decimal print_digits bytes one_char
decimal-ne n =
    if_both (λ s. bytes s ≢ []) (ltb n 10) (one_char (digit n))
      (print_digits 4 (n / 10) <> one_char (digit (n % 10))) (λ e. cc)
      (λ e.
        snoc-ne (bytes (print_digits 4 (n / 10))) (code (digit (n % 10)))
          (sym (bytes-append (print_digits 4 (n / 10)) (one_char (digit (n % 10)))) ∙ e))
