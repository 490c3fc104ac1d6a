-- ===== src/Ack/Canonical.antt =====
-- The text that a token signs (`canonical` of internal/ack/ack.go).
use kerberon.Base.{ℕ, ◌<◌, ◌≡◌, length}
use kerberon.Base.Bytes.{Bytes, big_endian, word-split, text-split, word-last}
use kerberon.Ack.{canonical}

-- For 64-bit ids and steps, and users of fewer than 2^64 bytes: two tokens that sign the same text are
-- for the same incident, user and step. So no user name can be chosen that makes the text of one triple
-- that of another.
pub canonical_injective :
    (incident_id incident_id' : ℕ) (user user' : Bytes) (step step' : ℕ)
    → incident_id < 18446744073709551616
    → incident_id' < 18446744073709551616
    → length user < 18446744073709551616
    → length user' < 18446744073709551616
    → step < 18446744073709551616
    → step' < 18446744073709551616
    → canonical incident_id user step ≡ canonical incident_id' user' step'
    → (incident_id ≡ incident_id') × (user ≡ user') × (step ≡ step')
unfolding canonical
canonical_injective i i' u u' s s' hi hi' hu hu' hs hs' h =
    let (same_incident, rest) = word-split i i' _ _ hi hi' h in
    let (same_user, last) = text-split u u' (big_endian 8 s) (big_endian 8 s') hu hu' rest in
    (same_incident, same_user, word-last s s' hs hs' last)
