-- ===== src/Ack/Codec.antt =====
-- Reading the numbers and the escaped bytes of a link (internal/ack/ack.go).
use kerberon.Base.{
  ℕ, zero, suc, ◌+◌, ◌-◌, ◌*◌, ◌/◌, ◌%◌, ◌<◌, ◌≡◌, refl, ap, ◌∙◌, true, some, [], ◌∷◌, ◌++◌, ltb,
  All, All-append, arith, Bool-cases, inl, inr,
}
use kerberon.Base.Bytes.{Bytes}
use kerberon.Ack.Url.{
  plain, hex, unhex, put, path_escape, path_unescape, digits, decimal, is_digit, parse_digits,
  parse_unsigned, parse_positive,
}

-- ─── Numbers ───

parse_digits-last :
    (acc : ℕ) (s : Bytes) (c m : ℕ)
    → parse_digits acc s ≡ some m
    → is_digit c ≡ true
    → parse_digits acc (s ++ c ∷ []) ≡ some (m * 10 + (c - 48))
unfolding parse_digits
parse_digits-last acc [] c m h d = ground arith
parse_digits-last acc (x ∷ s) c m h d =
    ground (arith, parse_digits-last (acc * 10 + (x - 48)) s c m)

-- The number has at most that many digits.
abbrev Short : ℕ → ℕ → Type 0
Short zero n = n ≡ 0
Short (suc fuel) n = Short fuel (n / 10)

parse_digits-digits :
    (fuel n : ℕ) → Short (suc fuel) n → parse_digits 0 (digits (suc fuel) n) ≡ some n
unfolding digits parse_digits
parse_digits-digits zero n s = ground arith
parse_digits-digits (suc fuel) n s = elim (Bool-cases (ltb n 10)) [
  | inl e ↦ rw e (ground arith)
  | inr e ↦ rw e (
      parse_digits-last 0 (digits (suc fuel) (n / 10)) (48 + n % 10) (n / 10)
        (parse_digits-digits fuel (n / 10) s) (ground arith)
      ∙ ap some (omega arith))
]

pub digits-All : (fuel n : ℕ) → All (λ c. is_digit c ≡ true) (digits fuel n)
unfolding digits
digits-All zero n = tt
digits-All (suc fuel) n = elim (Bool-cases (ltb n 10)) [
  | inl e ↦ rw e (ground arith, tt)
  | inr e ↦ rw e (
      All-append (λ c. is_digit c ≡ true) (digits fuel (n / 10)) ((48 + n % 10) ∷ [])
        (digits-All fuel (n / 10)) (ground arith, tt))
]

parse_positive-digits :
    (s : Bytes) (n : ℕ)
    → All (λ c. is_digit c ≡ true) s
    → parse_digits 0 s ≡ some n
    → 0 < n
    → n < 9223372036854775808
    → parse_positive s ≡ some n
unfolding parse_positive parse_unsigned parse_digits
parse_positive-digits [] n d h pos small = ground arith
parse_positive-digits (c ∷ s) n d h pos small = ground arith

pub parse_positive-decimal :
    (n : ℕ) → 0 < n → n < 9223372036854775808 → parse_positive (decimal n) ≡ some n
unfolding decimal
parse_positive-decimal n pos small =
    parse_positive-digits (digits 20 n) n (digits-All 20 n) (parse_digits-digits 19 n (omega arith))
      pos small

-- ─── Escapes ───

-- A byte.
abbrev pub IsByte : ℕ → Type 0
IsByte c = c < 256

unhex-hex : (d : ℕ) → d < 16 → unhex (hex d) ≡ some d
unhex-hex d h = ground arith

unescape-plain :
    (c : ℕ) (s : Bytes) → plain c ≡ true → path_unescape (c ∷ s) ≡ put c (path_unescape s)
unfolding path_unescape
unescape-plain c [] h = ground arith
unescape-plain c (d ∷ []) h = ground arith
unescape-plain c (d ∷ e ∷ s) h = ground arith

pub path_unescape-path_escape : (s : Bytes) → All IsByte s → path_unescape (path_escape s) ≡ some s
unfolding path_escape path_unescape
path_unescape-path_escape [] h = refl
path_unescape-path_escape (c ∷ s) h = elim (Bool-cases (plain c)) [
  | inl e ↦ rw e (unescape-plain c (path_escape s) e ∙ ap (put c) (path_unescape-path_escape s h.1))
  | inr e ↦ rw e (
      rw
        (
          unhex-hex (c / 16) (omega (arith, h.0)),
          unhex-hex (c % 16) (omega arith),
          path_unescape-path_escape s h.1,
        )
        (ap (λ b. some (b ∷ s)) (omega arith)))
]
