-- ===== src/Base/Bytes.antt =====
-- Texts as lists of bytes, and numbers in them (`binary.BigEndian`).
use kerberon.Base.Lists.{length, length-append}
use Prim.Native.Nat.{ℕ, zero, suc, ◌/◌, ◌%◌, ◌<◌}
use mathlib.Core.Path.{◌≡◌, refl, ap, sym, ◌∙◌}
use mathlib.Core.List.{List, [], ◌∷◌, ◌++◌}
use native.Mathlib.Omega.{arith}

abbrev pub Bytes : Type 0
Bytes = List ℕ

-- The last `w` bytes of a number, the highest first: `PutUint64` and `AppendUint64` at 8.
unfoldable pub big_endian : ℕ → ℕ → Bytes
big_endian zero n = []
big_endian (suc w) n = big_endian w (n / 256) ++ n % 256 ∷ []

tail : Bytes → Bytes
tail [] = []
tail (x ∷ xs) = xs

head : Bytes → ℕ
head [] = 0
head (x ∷ xs) = x

-- Two texts that start with pieces of one length are equal piece by piece.
pub split :
    (xs xs' ys ys' : Bytes)
    → length xs ≡ length xs'
    → xs ++ ys ≡ xs' ++ ys'
    → (xs ≡ xs') × (ys ≡ ys')
unfolding head tail
split [] [] ys ys' l h = (refl, h)
split [] (x ∷ xs') ys ys' l h = absurd (omega arith)
split (x ∷ xs) [] ys ys' l h = absurd (omega arith)
split (x ∷ xs) (x' ∷ xs') ys ys' l h =
    let (same, rest) = split xs xs' ys ys' (omega arith) (ap tail h) in
    let first : x ≡ x' = ap head h in (cc (first, same), rest)

big_endian-length : (w n : ℕ) → length (big_endian w n) ≡ w
unfolding big_endian
big_endian-length zero n = refl
big_endian-length (suc w) n =
    omega
      (arith, length-append (big_endian w (n / 256)) (n % 256 ∷ []), big_endian-length w (n / 256))

-- A number that `w` bytes can hold.
abbrev Fits : ℕ → ℕ → Type 0
Fits zero n = n ≡ 0
Fits (suc w) n = Fits w (n / 256)

word-Fits : (n : ℕ) → n < 18446744073709551616 → Fits 8 n
word-Fits n h = omega arith

big_endian-injective : (w n m : ℕ) → Fits w n → Fits w m → big_endian w n ≡ big_endian w m → n ≡ m
unfolding big_endian head
big_endian-injective zero n m fn fm h = cc (fn, fm)
big_endian-injective (suc w) n m fn fm h =
    let (high, low) =
      split (big_endian w (n / 256)) (big_endian w (m / 256)) (n % 256 ∷ []) (m % 256 ∷ [])
        (big_endian-length w (n / 256) ∙ sym (big_endian-length w (m / 256))) h in
    let same : n / 256 ≡ m / 256 = big_endian-injective w (n / 256) (m / 256) fn fm high in
    let byte : n % 256 ≡ m % 256 = ap head low in omega (arith, same, byte)

-- A word of 64 bits at the beginning of a text is determined, and so is what follows it.
pub word-split :
    (n m : ℕ) (xs ys : Bytes)
    → n < 18446744073709551616
    → m < 18446744073709551616
    → big_endian 8 n ++ xs ≡ big_endian 8 m ++ ys
    → (n ≡ m) × (xs ≡ ys)
word-split n m xs ys hn hm h =
    let (word, rest) =
      split (big_endian 8 n) (big_endian 8 m) xs ys
        (big_endian-length 8 n ∙ sym (big_endian-length 8 m)) h in
    (big_endian-injective 8 n m (word-Fits n hn) (word-Fits m hm) word, rest)

-- So is a text that follows its length.
pub text-split :
    (u v xs ys : Bytes)
    → length u < 18446744073709551616
    → length v < 18446744073709551616
    → big_endian 8 (length u) ++ (u ++ xs) ≡ big_endian 8 (length v) ++ (v ++ ys)
    → (u ≡ v) × (xs ≡ ys)
text-split u v xs ys hu hv h =
    let (same, rest) = word-split (length u) (length v) (u ++ xs) (v ++ ys) hu hv h in
    split u v xs ys same rest

-- A last word has nothing after it.
pub word-last :
    (n m : ℕ)
    → n < 18446744073709551616
    → m < 18446744073709551616
    → big_endian 8 n ≡ big_endian 8 m
    → n ≡ m
word-last n m hn hm h = big_endian-injective 8 n m (word-Fits n hn) (word-Fits m hm) h
