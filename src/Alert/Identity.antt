-- ===== src/Alert/Identity.antt =====
-- What the identity of an alert does not depend on (internal/alert/alert.go).
use kerberon.Base.{
  String, ◌≡◌, refl, ap, sym, ◌∙◌, Bool, true, not, List, [], ◌∷◌, ◌++◌, filter, if◌then◌else◌,
  Bool-cases, inl, inr,
}
use kerberon.Core.Records.{Labels}
use kerberon.Alert.{is_volatile, canonical_labels, fingerprint}

-- Taking the volatile labels out changes nothing, wherever they stand.
abbrev pub stable : List String → Labels → Labels
stable volatile labels = filter (λ p. not (is_volatile volatile p.0)) labels

filter-twice : {A : Type 0} (p : A → Bool) (xs : List A) → filter p (filter p xs) ≡ filter p xs
filter-twice p [] = refl
filter-twice p (x ∷ xs) = elim (Bool-cases (p x)) [
  | inl e ↦ rw e (rw e (ap (◌∷◌ x) (filter-twice p xs)))
  | inr e ↦ rw e (filter-twice p xs)
]

-- Two alerts whose labels agree once the volatile ones are dropped have the same fingerprint.
same_stable-fingerprint :
    (hash : String → String) (volatile : List String) (labels labels' : Labels)
    → stable volatile labels ≡ stable volatile labels'
    → fingerprint hash labels volatile ≡ fingerprint hash labels' volatile
unfolding fingerprint canonical_labels
same_stable-fingerprint hash volatile labels labels' h = rw h refl

insert-volatile :
    (volatile : List String) (before after : Labels) (k v : String)
    → is_volatile volatile k ≡ true
    → stable volatile (before ++ (k, v) ∷ after) ≡ stable volatile (before ++ after)
insert-volatile volatile [] after k v h = rw h refl
insert-volatile volatile (p ∷ before) after k v h =
    ap (λ rest. if not (is_volatile volatile p.0) then p ∷ rest else rest)
      (insert-volatile volatile before after k v h)

-- A label whose name is volatile, in any case of letters, may come, go or change its value, at any place
-- among the labels: the fingerprint is the same.
pub volatile_labels_ignored :
    (hash : String → String) (volatile : List String) (before after : Labels) (k v v' : String)
    → is_volatile volatile k ≡ true
    → (fingerprint hash (before ++ (k, v) ∷ after) volatile
        ≡ fingerprint hash (before ++ after) volatile)
      × (fingerprint hash (before ++ (k, v) ∷ after) volatile
          ≡ fingerprint hash (before ++ (k, v') ∷ after) volatile)
volatile_labels_ignored hash volatile before after k v v' h = (
  same_stable-fingerprint hash volatile _ _ (insert-volatile volatile before after k v h),
  same_stable-fingerprint hash volatile _ _ (
      insert-volatile volatile before after k v h
      ∙ sym (insert-volatile volatile before after k v' h)),
)
