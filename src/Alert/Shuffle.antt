-- ===== src/Alert/Shuffle.antt =====
-- The order of the labels does not matter to an identity (internal/alert/alert.go).
use mathlib.Core.List.{Perm, Permᴰ}
use mathlib.Core.Path.{subst}
use mathlib.Core.HLevel.{Discrete, hedberg}
use mathlib.Core.Bool.{false≢true}
use mathlib.Core.List.Permᴰ
use mathlib.Core.Logic.{∥∥₁_elim}
use Prim.Native.String.{◌++◌}
use kerberon.Base.{
  map, String, ◌≡◌, refl, ap, sym, ◌∙◌, true, false, not, List, [], ◌∷◌, Bool-cases, inl, inr,
  if◌then◌else◌, arith, All, All-filter, eq_iff, str_eq,
}
use kerberon.Base.Sort.{sort}
use kerberon.Base.Permuted.{sort-Permᴰ}
use kerberon.Core.Records.{Labels}
use kerberon.Alert.{
  is_volatile, canonical_labels, fingerprint, key_le, pairs, group_key, group_text, get, text_le,
  terminator,
}
use kerberon.Alert.Identity.{stable}
use kerberon.Alert.Order.{text_le-total, text_le_trans, text_le-antisym}

-- The labels of a map: what stands with a key is its value.
abbrev pub OfMap : (String → String) → Labels → Type 0
OfMap value labels = All (λ p. p.1 ≡ value p.0) labels

-- Two labels of a map whose keys are equal are the same label.
same_label :
    (value : String → String) (p q : String × String)
    → p.1 ≡ value p.0
    → q.1 ≡ value q.0
    → key_le p q ≡ true
    → key_le q p ≡ true
    → p ≡ q
same_label value (j, v) (k, w) hv hw below above =
    let same = text_le-antisym j k below above in λ i. (same i, (hv ∙ ap value same ∙ sym hw) i)

key_le-total : (p q : String × String) → key_le p q ≡ false → key_le q p ≡ true
key_le-total (j, v) (k, w) h = text_le-total j k h

key_le_trans : (p q r : String × String) → key_le p q ≡ true → key_le q r ≡ true → key_le p r ≡ true
key_le_trans (i, u) (j, v) (k, w) = text_le_trans i j k

stable-Perm :
    (volatile : List String) {xs ys : Labels}
    → Permᴰ xs ys
    → Permᴰ (stable volatile xs) (stable volatile ys)
stable-Perm volatile Permᴰ.nil = Permᴰ.nil
stable-Perm volatile (Permᴰ.cons {a} {l₁ = xs} {l₂ = ys} e p) =
    subst (λ c. Permᴰ (stable volatile (a ∷ xs)) (stable volatile (c ∷ ys))) e
      (elim (Bool-cases (is_volatile volatile a.0)) [
        | inl h ↦ rw h (stable-Perm volatile p)
        | inr h ↦ rw h (Permᴰ.cons refl (stable-Perm volatile p))
      ])
stable-Perm volatile (Permᴰ.swap {a} {b} {a'} {b'} {l} e f) =
    subst (λ c. Permᴰ (stable volatile (a ∷ b ∷ l)) (stable volatile (a' ∷ c ∷ l))) e
      (subst (λ c. Permᴰ (stable volatile (a ∷ b ∷ l)) (stable volatile (c ∷ a ∷ l))) f swapped)
  where
    swapped : Permᴰ (stable volatile (a ∷ b ∷ l)) (stable volatile (b ∷ a ∷ l))
    swapped = elim (Bool-cases (is_volatile volatile a.0)) [
      | inl h ↦ rw h (Permᴰ.refl (stable volatile (b ∷ l)))
      | inr h ↦ elim (Bool-cases (is_volatile volatile b.0)) [
        | inl k ↦ rw (h, k) (Permᴰ.refl (a ∷ stable volatile l))
        | inr k ↦ rw (h, k) (Permᴰ.swap refl refl)
      ]
    ]
stable-Perm volatile (Permᴰ.trans p q) =
    Permᴰ.trans (stable-Perm volatile p) (stable-Perm volatile q)

String-IsSet : IsSet String
String-IsSet = hedberg same?
  where
    same? : Discrete String
    same? s t = elim (Bool-cases (str_eq s t)) [
      | inl e ↦ yes ((eq_iff s t).0 e)
      | inr e ↦ no (λ p. false≢true (sym e ∙ (eq_iff s t).1 p))
    ]

get-swap :
    (value : String → String) (k : String) (a b : String × String) (found : String)
    → a.1 ≡ value a.0
    → b.1 ≡ value b.0
    → (if str_eq a.0 k then a.1 else if str_eq b.0 k then b.1 else found)
      ≡ (if str_eq b.0 k then b.1 else if str_eq a.0 k then a.1 else found)
get-swap value k a b found ha hb = grind (arith, (eq_iff a.0 k).0, (eq_iff b.0 k).0, ha, hb)

get-Permᴰ :
    (value : String → String) (k : String) {xs ys : Labels}
    → Permᴰ xs ys
    → OfMap value xs
    → OfMap value ys × (get k xs ≡ get k ys)
get-Permᴰ value k Permᴰ.nil m = (tt, refl)
get-Permᴰ value k (Permᴰ.cons {a} {b} e p) m =
    let (rest, same) = get-Permᴰ value k p m.1 in
    ((subst (λ p. p.1 ≡ value p.0) e m.0, rest), λ i. if str_eq (e i).0 k then (e i).1 else same i)
get-Permᴰ value k (Permᴰ.swap {a} {b} {a'} {b'} {l} e f) m = (
  (subst (λ p. p.1 ≡ value p.0) f m.1.0, (subst (λ p. p.1 ≡ value p.0) e m.0, m.1.1)),
  get-swap value k a b (get k l) m.0 m.1.0
      ∙ (λ i. if str_eq (f i).0 k then (f i).1 else if str_eq (e i).0 k then (e i).1 else get k l),
)
get-Permᴰ value k (Permᴰ.trans p q) m =
    let (middle, first) = get-Permᴰ value k p m in
    let (last, second) = get-Permᴰ value k q middle in (last, first ∙ second)

All-units : {A : Type 0} (xs : List A) → All {0, 0} (λ x. Unit) xs
All-units [] = tt
All-units (x ∷ xs) = (tt, All-units xs)

pairs_same :
    (labels labels' : Labels) (keys : List String)
    → ((k : String) → get k labels ≡ get k labels')
    → pairs (map (λ k. (k, get k labels)) keys) ≡ pairs (map (λ k. (k, get k labels')) keys)
pairs_same labels labels' keys same = λ i. pairs (map (λ k. (k, same k i)) keys)

-- The order in which the labels of a map are read does not matter to the fingerprint, and neither it nor
-- the order in which the route lists its labels matters to the group key.
pub identity_ignores_order :
    (hash : String → String) (volatile : List String) (route_name : String)
    (value : String → String) (labels labels' : Labels) (group_by group_by' : List String)
    → OfMap value labels
    → Perm labels labels'
    → Perm group_by group_by'
    → (fingerprint hash labels volatile ≡ fingerprint hash labels' volatile)
      × (group_key hash route_name group_by labels ≡ group_key hash route_name group_by' labels')
unfolding fingerprint canonical_labels group_key group_text
identity_ignores_order hash volatile route_name value labels labels' group_by group_by' m p r = (
  ∥∥₁_elim p (String-IsSet _ _) λ q.
      ap (λ ps. hash (pairs ps))
        (sort-Permᴰ key_le key_le-total key_le_trans (λ p. p.1 ≡ value p.0) (same_label value)
          (stable-Perm volatile q)
          (All-filter (λ p. p.1 ≡ value p.0) (λ p. not (is_volatile volatile p.0)) labels m)).1,
  ∥∥₁_elim p (String-IsSet _ _) λ q. ∥∥₁_elim r (String-IsSet _ _) λ s.
      ap (λ text. hash (route_name ++ terminator ++ text))
        (ap (λ keys. pairs (map (λ k. (k, get k labels)) keys))
            (sort-Permᴰ text_le text_le-total text_le_trans (λ k. Unit {0})
              (λ j k _ _. text_le-antisym j k) s (All-units group_by)).1
          ∙ pairs_same labels labels' (sort text_le group_by') (λ k. (get-Permᴰ value k q m).1)),
)
