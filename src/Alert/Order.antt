-- ===== src/Alert/Order.antt =====
-- The order of two texts, which `sort.Strings` of internal/alert/alert.go uses.
use Prim.Native.Char.{Char, code}
use Prim.Native.String.{compare, then}
use Prim.Native.String.compare
use Prim.Native.Nat.{compare as compare_nat, Ordering}
use text.Mathlib.Text.{is_le}
use text.Mathlib.TextEquality.{Char-path}
use mathlib.Core.Bool.{false≢true, true≢false}
use kerberon.Base.{ltb, ◌==◌, String, ◌≡◌, refl, ap, sym, ◌∙◌, true, false, ◌&&◌, ◌||◌, arith}
use kerberon.Alert.{text_le}

nil_first : (t : String) → text_le String.[] t ≡ true
nil_first String.[] = ap is_le compare.nil-nil
nil_first (String.◌∷◌ d t) = ap is_le (compare.nil-cons d t)

nil_last : (c : Char) (s : String) → text_le (String.◌∷◌ c s) String.[] ≡ false
nil_last c s = ap is_le (compare.cons-nil c s)

-- The first characters decide, and the rest where they are equal.
text_le-cons :
    (c d : Char) (s t : String)
    → text_le (String.◌∷◌ c s) (String.◌∷◌ d t)
      ≡ (ltb (code c) (code d) || (code c == code d) && text_le s t)
text_le-cons c d s t =
    ap is_le (compare.cons-cons c d s t) ∙ by_first (compare_nat (code c) (code d)) (compare s t)
  where
    by_first :
        (o r : Ordering)
        → is_le (then o r) ≡ (
            elim o [ Ordering.lt ↦ true | _ ↦ false ]
            || elim o [ Ordering.eq ↦ true | _ ↦ false ] && is_le r)
    by_first Ordering.lt r = refl
    by_first Ordering.eq r = refl
    by_first Ordering.gt r = refl

not_last : {A : Type 0} (c : Char) (s : String) → text_le (String.◌∷◌ c s) String.[] ≡ true → A
not_last c s h = absurd (false≢true (sym (nil_last c s) ∙ h))

pub text_le-total : (s t : String) → text_le s t ≡ false → text_le t s ≡ true
text_le-total String.[] t h = absurd (true≢false (sym (nil_first t) ∙ h))
text_le-total (String.◌∷◌ c s) String.[] h = nil_first (String.◌∷◌ c s)
text_le-total (String.◌∷◌ c s) (String.◌∷◌ d t) h =
    rw (text_le-cons d c t s) (ground (arith, text_le-total s t, rw (text_le-cons c d s t) at h))

pub text_le_trans : (s t u : String) → text_le s t ≡ true → text_le t u ≡ true → text_le s u ≡ true
text_le_trans String.[] t u h k = nil_first u
text_le_trans (String.◌∷◌ c s) String.[] u h k = not_last c s h
text_le_trans (String.◌∷◌ c s) (String.◌∷◌ d t) String.[] h k = not_last d t k
text_le_trans (String.◌∷◌ c s) (String.◌∷◌ d t) (String.◌∷◌ e u) h k = rw (text_le-cons c e s u) (
    ground
      (arith, text_le_trans s t u, rw (text_le-cons c d s t) at h, rw (text_le-cons d e t u) at k))

pub text_le-antisym : (s t : String) → text_le s t ≡ true → text_le t s ≡ true → s ≡ t
text_le-antisym String.[] String.[] h k = refl
text_le-antisym String.[] (String.◌∷◌ d t) h k = not_last d t k
text_le-antisym (String.◌∷◌ c s) String.[] h k = not_last c s h
text_le-antisym (String.◌∷◌ c s) (String.◌∷◌ d t) h k =
    let (same, (first, second)) : (code c ≡ code d)
        × ((text_le s t ≡ true) × (text_le t s ≡ true)) =
      ground (arith, rw (text_le-cons c d s t) at h, rw (text_le-cons d c t s) at k) in
    λ i. String.◌∷◌ (Char-path c d same i) (text_le-antisym s t first second i)
