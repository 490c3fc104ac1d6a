-- ===== src/Ack/Roundtrip.antt =====
-- `ParseLinkPath` beside `Link` of internal/ack/ack.go.
use kerberon.Base.{
  ℕ, ◌+◌, ◌<◌, ◌==◌, ◌≡◌, refl, ap, ◌∙◌, Bool, true, false, none, some, List, [], ◌∷◌, ◌++◌,
  if◌then◌else◌, All, length, arith, Bool-cases, inl, inr,
}
use mathlib.Core.Bool.{true≢false}
use kerberon.Base.Bytes.{Bytes}
use kerberon.Ack.Url.{
  slash, plain, push, path_escape, digits, decimal, is_digit, split_slash, trim, trim_right,
  trim_left,
}
use kerberon.Ack.Codec.{IsByte, digits-All, parse_positive-decimal, path_unescape-path_escape}
use kerberon.Ack.Link.{link_path, parse_link_path, is_empty, ack_word, parse_parts}

abbrev pub NoSlash : Bytes → Type 0
NoSlash s = All (λ c. (c == slash) ≡ false) s

path_escape-NoSlash : (s : Bytes) → All IsByte s → NoSlash (path_escape s)
unfolding path_escape
path_escape-NoSlash [] h = tt
path_escape-NoSlash (c ∷ s) h = elim (Bool-cases (plain c)) [
  | inl e ↦ rw e (ground arith, path_escape-NoSlash s h.1)
  | inr e ↦ rw e (refl, (ground (arith, h.0), (ground arith, path_escape-NoSlash s h.1)))
]

split_slash-part :
    (s rest : Bytes) → NoSlash s → split_slash (s ++ slash ∷ rest) ≡ s ∷ split_slash rest
unfolding split_slash
split_slash-part [] rest h = refl
split_slash-part (c ∷ s) rest h = rw h.0 (ap (push c) (split_slash-part s rest h.1))

split_slash-last : (s : Bytes) → NoSlash s → split_slash s ≡ s ∷ []
unfolding split_slash
split_slash-last [] h = refl
split_slash-last (c ∷ s) h = rw h.0 (ap (push c) (split_slash-last s h.1))

-- The end of a text that does not end with a slash.
abbrev Solid : Bytes → Type 0
Solid s = (trim_right s ≡ s) × (is_empty s ≡ false)

Solid-cons : (c : ℕ) (s : Bytes) → Solid s → Solid (c ∷ s)
unfolding trim_right
Solid-cons c [] h = absurd (true≢false h.1)
Solid-cons c (d ∷ s) h = (rw (h.0, trim_right) refl, refl)

Solid-append : (xs ys : Bytes) → Solid ys → Solid (xs ++ ys)
Solid-append [] ys h = h
Solid-append (x ∷ xs) ys h = Solid-cons x (xs ++ ys) (Solid-append xs ys h)

NoSlash-Solid : (c : ℕ) (s : Bytes) → NoSlash (c ∷ s) → Solid (c ∷ s)
unfolding trim_right
NoSlash-Solid c [] h = (rw h.0 refl, refl)
NoSlash-Solid c (d ∷ s) h = Solid-cons c (d ∷ s) (NoSlash-Solid d s h.1)

decimal-NoSlash : (n : ℕ) → NoSlash (decimal n)
unfolding decimal
decimal-NoSlash n = no_slash (digits 20 n) (digits-All 20 n)
  where
    no_slash : (s : Bytes) → All (λ c. is_digit c ≡ true) s → NoSlash s
    no_slash [] h = tt
    no_slash (c ∷ s) h = (ground (arith, h.0), no_slash s h.1)

trim-link_path :
    (id : ℕ) (user : Bytes) (c : ℕ) (tok : Bytes)
    → NoSlash (c ∷ tok)
    → trim (link_path id user (c ∷ tok))
      ≡ ack_word ++ slash ∷ (decimal id ++ slash ∷ (path_escape user ++ slash ∷ c ∷ tok))
unfolding trim trim_left link_path
trim-link_path id user c tok h =
    (Solid-append ack_word _ (
      Solid-cons slash _ (
        Solid-append (decimal id) _ (
          Solid-cons slash _
            (Solid-append (path_escape user) _ (Solid-cons slash _ (NoSlash-Solid c tok h))))))).0

-- The path of a link is read back as the incident, the user and the token that it was made of, where the
-- incident's id is positive and below 2^63, the user is a text of bytes that is not empty, and the token
-- is not empty and has no slash.
pub parse_link_path-link_path :
    (id : ℕ) (user tok : Bytes)
    → 0 < id
    → id < 9223372036854775808
    → All IsByte user
    → is_empty user ≡ false
    → NoSlash tok
    → is_empty tok ≡ false
    → parse_link_path (link_path id user tok)
      ≡ some (record { incident_id = id; user_id = user; token = tok })
unfolding parse_link_path
parse_link_path-link_path id user [] pos small bytes named clean full = absurd (true≢false full)
parse_link_path-link_path id user (c ∷ tok) pos small bytes named clean full =
    ap (λ s. parse_parts (split_slash s)) (trim-link_path id user c tok clean)
    ∙ ap parse_parts four_parts
    ∙ rw (parse_positive-decimal id pos small, path_unescape-path_escape user bytes, named) refl
  where
    four_parts :
        split_slash
          (ack_word ++ slash ∷ (decimal id ++ slash ∷ (path_escape user ++ slash ∷ c ∷ tok)))
        ≡ ack_word ∷ decimal id ∷ path_escape user ∷ (c ∷ tok) ∷ []
    four_parts =
        split_slash-part ack_word _ (refl, (refl, (refl, tt)))
        ∙ ap (λ parts. ack_word ∷ parts)
            (split_slash-part (decimal id) _ (decimal-NoSlash id)
              ∙ ap (λ parts. decimal id ∷ parts)
                  (split_slash-part (path_escape user) _ (path_escape-NoSlash user bytes)
                    ∙ ap (λ parts. path_escape user ∷ parts) (split_slash-last (c ∷ tok) clean)))

split_slash-length-pos : (s : Bytes) → 0 < length (split_slash s)
unfolding split_slash
split_slash-length-pos [] = omega arith
split_slash-length-pos (c ∷ s) = pos (c == slash) (split_slash s)
  where
    pos : (b : Bool) (parts : List Bytes) → 0 < length (if b then [] ∷ parts else push c parts)
    pos true parts = omega arith
    pos false [] = omega arith
    pos false (part ∷ parts) = omega arith

length-push : (c : ℕ) (parts : List Bytes) → 0 < length parts → length (push c parts) ≡ length parts
length-push c [] h = absurd (omega arith)
length-push c (part ∷ parts) h = refl

-- A slash parts a text in two.
length-split_slash :
    (s rest : Bytes)
    → length (split_slash (s ++ slash ∷ rest)) ≡ length (split_slash s) + length (split_slash rest)
unfolding split_slash
length-split_slash [] rest = omega arith
length-split_slash (c ∷ s) rest = ground (
  arith,
  length-split_slash s rest,
  length-push c (split_slash (s ++ slash ∷ rest)),
  length-push c (split_slash s),
  split_slash-length-pos (s ++ slash ∷ rest),
  split_slash-length-pos s,
)

five_parts :
    (word id : Bytes) (parts : List Bytes)
    → 2 < length parts
    → parse_parts (word ∷ id ∷ parts) ≡ none
five_parts word id [] h = absurd (omega arith)
five_parts word id (a ∷ []) h = absurd (omega arith)
five_parts word id (a ∷ b ∷ []) h = absurd (omega arith)
five_parts word id (a ∷ b ∷ c ∷ parts) h = refl

-- What the handler is given is the path with its escapes already undone. There a user whose name has a
-- slash in it is never found: the link is malformed, whatever the incident and the token.
pub decoded_slash_is_malformed :
    (id : ℕ) (before after tok : Bytes)
    → NoSlash tok
    → is_empty tok ≡ false
    → parse_link_path (
        slash
        ∷ (ack_word ++ slash ∷ (decimal id ++ slash ∷ (before ++ slash ∷ (after ++ slash ∷ tok)))))
      ≡ none
unfolding parse_link_path trim trim_left
decoded_slash_is_malformed id before after [] clean full = absurd (true≢false full)
decoded_slash_is_malformed id before after (c ∷ tok) clean full =
    ap (λ s. parse_parts (split_slash s)) whole
    ∙ ap parse_parts parts
    ∙ five_parts ack_word (decimal id) (split_slash user_and_token) many
  where
    user_and_token : Bytes
    user_and_token = before ++ slash ∷ (after ++ slash ∷ c ∷ tok)

    whole :
        trim_right (ack_word ++ slash ∷ (decimal id ++ slash ∷ user_and_token))
        ≡ ack_word ++ slash ∷ (decimal id ++ slash ∷ user_and_token)
    whole =
        (Solid-append ack_word _ (
          Solid-cons slash _ (
            Solid-append (decimal id) _ (
              Solid-cons slash _ (
                Solid-append before _ (
                  Solid-cons slash _
                    (Solid-append after _ (Solid-cons slash _ (NoSlash-Solid c tok clean))))))))).0

    parts :
        split_slash (ack_word ++ slash ∷ (decimal id ++ slash ∷ user_and_token))
        ≡ ack_word ∷ decimal id ∷ split_slash user_and_token
    parts =
        split_slash-part ack_word _ (refl, (refl, (refl, tt)))
        ∙ ap (λ ps. ack_word ∷ ps) (split_slash-part (decimal id) _ (decimal-NoSlash id))

    many : 2 < length (split_slash user_and_token)
    many = omega (
      arith,
      length-split_slash before (after ++ slash ∷ c ∷ tok),
      length-split_slash after (c ∷ tok),
      split_slash-length-pos before,
      split_slash-length-pos after,
      split_slash-length-pos (c ∷ tok),
    )
