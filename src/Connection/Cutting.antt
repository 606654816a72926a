-- ===== src/Connection/Cutting.antt =====
-- Where the reader of `UrlText` cuts a text, and the bytes that escaping leaves out of one.
use postgres_config_operator.Base.{
  ℕ, ◌/◌, ◌%◌, ◌*◌, ◌+◌, suc, ◌<◌, ◌≤◌, true, false, Option, none, some, List, [], ◌∷◌, ◌++◌, ◌≡◌,
  refl, sym, ap, ◌∙◌, arith, All, eqb, Bool-cases, if_both, inl, inr, length,
}
use mathlib.Core.Option
use postgres_config_operator.Connection.Escape.{
  Encoding, Pending, decode, digit, escape, half, hex, ready, should_escape, unhex,
}
use postgres_config_operator.Connection.UrlText.{cut, cut_last}

-- The byte does not stand in the text.
abbrev pub IsFree : ℕ → List ℕ → Type 0
IsFree x s = All (λ c. eqb c x ≡ false) s

pub cut_first : (x : ℕ) (a b : List ℕ) → IsFree x a → cut x (a ++ (x ∷ b)) ≡ some (a, b)
unfolding cut
cut_first x [] b free = ground arith
cut_first x (c ∷ a) b free = rw (free.0, cut_first x a b free.1)

cut_last-none : (x : ℕ) (b : List ℕ) → IsFree x b → cut_last x b ≡ none
unfolding cut_last
cut_last-none x [] free = refl
cut_last-none x (c ∷ b) free = rw (cut_last-none x b free.1, free.0)

pub cut_last_one : (x : ℕ) (a b : List ℕ) → IsFree x b → cut_last x (a ++ (x ∷ b)) ≡ some (a, b)
unfolding cut_last
cut_last_one x [] b free = rw (cut_last-none x b free) (ground arith)
cut_last_one x (c ∷ a) b free = rw (cut_last_one x a b free)

-- What escaping writes for a byte does not hold `x`.
abbrev pub IsEscaped : ℕ → Encoding → Type 0
IsEscaped x mode =
    (should_escape mode x ≡ true)
    × (eqb b'%' x ≡ false)
    × ((n : ℕ) → n < 16 → eqb (hex n) x ≡ false)

other_byte :
    (mode : Encoding) (x c : ℕ)
    → should_escape mode x ≡ true
    → should_escape mode c ≡ false
    → eqb c x ≡ false
other_byte mode x c escaped plain = elim (Bool-cases (eqb c x)) [
  | inl same ↦
      let e : c ≡ x = ground arith in
      absurd (cc (sym escaped ∙ ap (should_escape mode) (sym e) ∙ plain))
  | inr other ↦ other
]

pub escape-IsFree :
    (x : ℕ) (mode : Encoding) (s : List ℕ)
    → IsEscaped x mode
    → All (λ c. c < 256) s
    → IsFree x (escape mode s)
unfolding escape
escape-IsFree x mode [] e h = tt
escape-IsFree x mode (c ∷ cs) e h = elim (Bool-cases (should_escape mode c)) [
  | inl escaped ↦ rw escaped (
    e.1,
    (e.2 (c / 16) (omega arith), (e.2 (c % 16) (omega arith), escape-IsFree x mode cs e h.1)),
  )
  | inr plain ↦ rw plain (other_byte mode x c e.0 plain, escape-IsFree x mode cs e h.1)
]

abbrev pub HasLength : Option (List ℕ) → ℕ → Type 0
HasLength none n = Unit
HasLength (some r) n = length r ≤ n

HasLength-map :
    (c : ℕ) (o : Option (List ℕ)) (n : ℕ)
    → HasLength o n
    → HasLength (Option.map (λ r. c ∷ r) o) (suc n)
HasLength-map c none n h = tt
HasLength-map c (some r) n h = omega arith

HasLength-suc : (o : Option (List ℕ)) (n : ℕ) → HasLength o n → HasLength o (suc n)
HasLength-suc none n h = tt
HasLength-suc (some r) n h = omega arith

HasLength-elim :
    (u : Option ℕ) (f : ℕ → Option (List ℕ)) (n : ℕ)
    → ((v : ℕ) → HasLength (f v) n)
    → HasLength (elim u as (λ _. Option (List ℕ)) [ none ↦ none | some v ↦ f v ]) n
HasLength-elim none f n h = tt
HasLength-elim (some v) f n h = h v

-- Decoding never makes a text longer.
pub decode-length : (p : Pending) (s : List ℕ) → HasLength (decode p s) (length s)
unfolding decode
decode-length ready [] = omega arith
decode-length half [] = tt
decode-length (digit v) [] = tt
decode-length ready (c ∷ s) =
    if_both (λ o. HasLength o (suc (length s))) (eqb c b'%') (decode half s)
      (Option.map (λ r. c ∷ r) (decode ready s))
      (HasLength-suc (decode half s) (length s) (decode-length half s))
      (HasLength-map c (decode ready s) (length s) (decode-length ready s))
decode-length half (c ∷ s) =
    HasLength-elim (unhex c) (λ v. decode (digit v) s) (suc (length s))
      (λ v. HasLength-suc (decode (digit v) s) (length s) (decode-length (digit v) s))
decode-length (digit v) (c ∷ s) =
    HasLength-elim (unhex c) (λ u. Option.map (λ r. (v * 16 + u) ∷ r) (decode ready s))
      (suc (length s))
      (λ u. HasLength-map (v * 16 + u) (decode ready s) (length s) (decode-length ready s))
