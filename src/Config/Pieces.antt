-- ===== src/Config/Pieces.antt =====
-- What the expansion of a text of the configuration gives (internal/config/expand.go), described by the
-- pieces that the text is written of.
use kerberon.Base.{
  ℕ, suc, ◌+◌, ◌-◌, ◌==◌, ◌<◌, ◌≡◌, refl, ap, sym, ◌∙◌, inl, inr, Bool, true, false, ◌&&◌, not,
  Option, some, List, [], ◌∷◌, ◌++◌, any, length, take, arith, Bool-cases,
}
use kerberon.Base.Bytes.{Bytes}
use kerberon.Config.Expand.{
  dollar, open_brace, close_brace, is_var_char, all_var_chars, valid_var_name, name_width,
  index_byte, parse_var_ref, emit, substitute, expand_from, expand_string,
}

-- Plain text, `$$`, `${name}` and `$name`.
pub data Piece : Type 0 where
  literal : Bytes → Piece
  escaped : Piece
  braced bare : Bytes → Piece

abbrev write : Piece → Bytes → Bytes
write (literal s) r = s ++ r
write escaped r = dollar ∷ dollar ∷ r
write (braced n) r = dollar ∷ open_brace ∷ (n ++ close_brace ∷ r)
write (bare n) r = dollar ∷ (n ++ r)

abbrev pub write_all : List Piece → Bytes
write_all [] = []
write_all (p ∷ ps) = write p (write_all ps)

abbrev ends_name : Bytes → Bool
ends_name [] = true
ends_name (c ∷ s) = not (is_var_char c false)

-- Plain text has no dollar, names are names, and a bare one ends where the next piece starts.
abbrev IsPiece : Piece → Bytes → Type 0
IsPiece (literal s) r = any (λ c. c == dollar) s ≡ false
IsPiece escaped r = Unit
IsPiece (braced n) r = valid_var_name n ≡ true
IsPiece (bare n) r = (valid_var_name n ≡ true) × (ends_name r ≡ true)

abbrev pub ArePieces : List Piece → Type 0
ArePieces [] = Unit
ArePieces (p ∷ ps) = IsPiece p (write_all ps) × ArePieces ps

take-append : (s r : Bytes) → take (length s) (s ++ r) ≡ s
take-append [] r = refl
take-append (c ∷ s) r = ap (λ t. c ∷ t) (take-append s r)

index_byte-close :
    (first : Bool) (n r : Bytes)
    → all_var_chars first n ≡ true
    → index_byte close_brace (n ++ close_brace ∷ r) ≡ some (length n)
unfolding all_var_chars is_var_char index_byte
index_byte-close first [] r h = refl
index_byte-close first (c ∷ n) r h = elim (Bool-cases (is_var_char c first)) [
  | inl e ↦
      let other : (c == close_brace) ≡ false = ground arith in
      rw (other, index_byte-close false n r (rw e at h)) refl
  | inr e ↦ absurd (cc (rw e at h))
]

width-name :
    (first : Bool) (n r : Bytes)
    → all_var_chars first n ≡ true
    → ends_name r ≡ true
    → 0 < length n
    → name_width first (n ++ r) ≡ length n
unfolding all_var_chars name_width
width-name first [] r h e pos = absurd (omega arith)
width-name first (c ∷ []) [] h e pos = ground arith
width-name first (c ∷ []) (d ∷ r) h e pos = ground arith
width-name first (c ∷ d ∷ n) r h e pos =
    ground (arith, width-name false (d ∷ n) r (ground arith) e (omega arith))

parse-braced :
    (n r : Bytes)
    → valid_var_name n ≡ true
    → parse_var_ref (dollar ∷ open_brace ∷ (n ++ close_brace ∷ r)) ≡ some (n, length n + 3)
unfolding parse_var_ref valid_var_name all_var_chars index_byte
parse-braced [] r h = absurd (cc h)
parse-braced (c ∷ n) r h =
    let named : (is_var_char c true && all_var_chars false n) ≡ true = h in
    rw (index_byte-close true (c ∷ n) r h, take-append n (close_brace ∷ r), named)
      (ap (λ w. some (c ∷ n, w)) (omega arith))

name_start :
    (c : ℕ) → is_var_char c true ≡ true → ((c == dollar) ≡ false) × ((c == open_brace) ≡ false)
unfolding is_var_char
name_start c h = ground arith

parse-bare :
    (n r : Bytes)
    → valid_var_name n ≡ true
    → ends_name r ≡ true
    → parse_var_ref (dollar ∷ (n ++ r)) ≡ some (n, length n + 1)
unfolding parse_var_ref valid_var_name all_var_chars
parse-bare [] r h e = absurd (cc h)
parse-bare (c ∷ n) r h e =
    let (a, b) = name_start c (ground arith) in
    rw (b, width-name true (c ∷ n) r h e (omega arith), take-append n r)
      (ap (λ w. some (c ∷ n, w)) (omega arith))

module _ (lookup_env : Bytes → Option Bytes) where
  abbrev meaning : Piece → Bytes × List Bytes → Bytes × List Bytes
  meaning (literal s) rest = emit s rest
  meaning escaped rest = emit (dollar ∷ []) rest
  meaning (braced n) rest = substitute lookup_env n (lookup_env n) rest
  meaning (bare n) rest = substitute lookup_env n (lookup_env n) rest

  -- Plain text as it stands, a dollar for two, and for a name its value: nothing, and the name among those
  -- that are missing, where it is not set.
  abbrev pub meaning_all : List Piece → Bytes × List Bytes
  meaning_all [] = ([], [])
  meaning_all (p ∷ ps) = meaning p (meaning_all ps)

  skip : (s r : Bytes) → expand_from lookup_env (length s) (s ++ r) ≡ expand_from lookup_env 0 r
  unfolding expand_from
  skip [] r = refl
  skip (c ∷ s) r = skip s r

  skip-braced :
      (n r : Bytes)
      → expand_from lookup_env (suc (length n)) (n ++ close_brace ∷ r) ≡ expand_from lookup_env 0 r
  unfolding expand_from
  skip-braced [] r = refl
  skip-braced (c ∷ n) r = skip-braced n r

  expand-plain :
      (c : ℕ) (r : Bytes)
      → (c == dollar) ≡ false
      → expand_from lookup_env 0 (c ∷ r) ≡ emit (c ∷ []) (expand_from lookup_env 0 r)
  unfolding expand_from
  expand-plain c [] h = refl
  expand-plain c (d ∷ r) h = rw h refl

  expand-literal :
      (s r : Bytes)
      → any (λ c. c == dollar) s ≡ false
      → expand_from lookup_env 0 (s ++ r) ≡ emit s (expand_from lookup_env 0 r)
  expand-literal [] r h = refl
  expand-literal (c ∷ s) r h =
      expand-plain c (s ++ r) (ground arith)
      ∙ ap (emit (c ∷ [])) (expand-literal s r (ground arith))

  expand-braced :
      (n r : Bytes)
      → valid_var_name n ≡ true
      → expand_from lookup_env 0 (write (braced n) r)
        ≡ substitute lookup_env n (lookup_env n) (expand_from lookup_env 0 r)
  unfolding expand_from
  expand-braced n r h =
      let width : length n + 3 - 1 ≡ suc (suc (length n)) = omega arith in
      rw (parse-braced n r h, width, skip-braced n r) refl

  expand-bare :
      (n r : Bytes)
      → valid_var_name n ≡ true
      → ends_name r ≡ true
      → expand_from lookup_env 0 (write (bare n) r)
        ≡ substitute lookup_env n (lookup_env n) (expand_from lookup_env 0 r)
  unfolding expand_from valid_var_name all_var_chars
  expand-bare [] r h e = absurd (cc h)
  expand-bare (c ∷ n) r h e =
      let width : suc (length n) + 1 - 1 ≡ suc (length n) = omega arith in
      let (plain, _) = name_start c (ground arith) in
      rw (plain, parse-bare (c ∷ n) r h e, width, skip n r) refl

  expand-piece :
      (p : Piece) (r : Bytes)
      → IsPiece p r
      → expand_from lookup_env 0 (write p r) ≡ meaning p (expand_from lookup_env 0 r)
  unfolding expand_from
  expand-piece (literal s) r h = expand-literal s r h
  expand-piece escaped r h = refl
  expand-piece (braced n) r h = expand-braced n r h
  expand-piece (bare n) r (h, e) = expand-bare n r h e

  expand-pieces :
      (ps : List Piece) → ArePieces ps → expand_from lookup_env 0 (write_all ps) ≡ meaning_all ps
  unfolding expand_from
  expand-pieces [] h = refl
  expand-pieces (p ∷ ps) (h, hs) =
      expand-piece p (write_all ps) h ∙ ap (meaning p) (expand-pieces ps hs)

  plain_text : (s : Bytes) → any (λ c. c == dollar) s ≡ false → expand_from lookup_env 0 s ≡ (s, [])
  unfolding expand_from
  plain_text [] h = refl
  plain_text (c ∷ s) h =
      expand-plain c s (ground arith) ∙ ap (emit (c ∷ [])) (plain_text s (ground arith))

  -- A text that is written of pieces is expanded piece by piece.
  pub expand_string-pieces :
      (ps : List Piece) → ArePieces ps → expand_string lookup_env (write_all ps) ≡ meaning_all ps
  unfolding expand_string
  expand_string-pieces ps h = elim (Bool-cases (any (λ c. c == dollar) (write_all ps))) [
    | inl e ↦ rw e (expand-pieces ps h)
    | inr e ↦ rw e (sym (plain_text (write_all ps) e) ∙ expand-pieces ps h)
  ]
