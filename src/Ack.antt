-- ===== src/Ack.antt =====
-- internal/ack/ack.go: the signed acknowledgement tokens. A text is the list of its bytes. The keyed
-- hash, cut to sixteen bytes and encoded in base64, is the parameter `sign`.
pub mod Canonical
pub mod Steps
pub mod Url
pub mod Link
pub mod Codec
pub mod Roundtrip
use kerberon.Base.Bytes.{Bytes, big_endian}
use kerberon.Base.{
  ℕ, zero, suc, ◌+◌, ◌/◌, ◌%◌, ◌^◌, ◌==◌, Bool, true, false, ◌&&◌, Option, none, some, List, [],
  ◌∷◌, ◌++◌, if◌then◌else◌, length, min, leb, ltb,
}

unfoldable pub canonical : ℕ → Bytes → ℕ → Bytes
canonical incident_id user step =
    big_endian 8 incident_id ++ (big_endian 8 (length user) ++ (user ++ big_endian 8 step))

abbrev pub bytes_eq : Bytes → Bytes → Bool
bytes_eq [] [] = true
bytes_eq (a ∷ as') (b ∷ bs) = a == b && bytes_eq as' bs
bytes_eq _ _ = false

abbrev pub hard_limit : ℕ
hard_limit = 256

module _ (sign : Bytes → Bytes) where
  unfoldable pub token : ℕ → Bytes → ℕ → Bytes
  unfolding canonical
  token incident_id user step = sign (canonical incident_id user step)

  unfoldable pub verify : ℕ → Bytes → ℕ → Bytes → Bool
  unfolding token
  verify incident_id user step tok = bytes_eq tok (token incident_id user step)

  -- The loop of `VerifyAny`, on the number of steps left to try.
  unfoldable pub verify_from : ℕ → ℕ → ℕ → Bytes → Bytes → Option ℕ
  unfolding verify
  verify_from zero step incident_id user tok = none
  verify_from (suc left) step incident_id user tok =
      let rest = verify_from left (suc step) incident_id user tok in
      if verify incident_id user step tok then some step else rest

  -- Which step up to the limit minted the token.
  unfoldable pub verify_any : ℕ → Bytes → ℕ → Bytes → Option ℕ
  unfolding verify_from
  verify_any incident_id user max_step tok =
      verify_from (suc (min max_step hard_limit)) 0 incident_id user tok
