-- ===== src/Store/Key.antt =====
-- The key of a page in the outbox (`IdempotencyKey` of internal/store/notifications.go): the text that is
-- hashed. A user and a channel stand as their bytes.
use kerberon.Base.{ℕ, ◌<◌, ◌≡◌, ◌++◌, length}
use kerberon.Base.Bytes.{Bytes, big_endian, word-split, text-split, word-last}

unfoldable pub key_text : ℕ → ℕ → Bytes → Bytes → ℕ → Bytes
key_text incident_id step target_user channel attempt_group =
    big_endian 8 incident_id
    ++ (big_endian 8 step
        ++ (big_endian 8 (length target_user)
            ++ (target_user
                ++ (big_endian 8 (length channel) ++ (channel ++ big_endian 8 attempt_group)))))

-- For 64-bit numbers, and names of fewer than 2^64 bytes: pages whose keys hash the same text are of the
-- same incident, rung, user, channel and pass.
pub key_text_injective :
    (incident_id incident_id' step step' : ℕ) (user user' channel channel' : Bytes) (pass pass' : ℕ)
    → incident_id < 18446744073709551616
    → incident_id' < 18446744073709551616
    → step < 18446744073709551616
    → step' < 18446744073709551616
    → length user < 18446744073709551616
    → length user' < 18446744073709551616
    → length channel < 18446744073709551616
    → length channel' < 18446744073709551616
    → pass < 18446744073709551616
    → pass' < 18446744073709551616
    → key_text incident_id step user channel pass ≡ key_text incident_id' step' user' channel' pass'
    → (incident_id ≡ incident_id')
      × (step ≡ step')
      × (user ≡ user')
      × (channel ≡ channel')
      × (pass ≡ pass')
unfolding key_text
key_text_injective i i' s s' u u' c c' p p' hi hi' hs hs' hu hu' hc hc' hp hp' h =
    let (same_incident, after_incident) = word-split i i' _ _ hi hi' h in
    let (same_step, after_step) = word-split s s' _ _ hs hs' after_incident in
    let (same_user, after_user) = text-split u u' _ _ hu hu' after_step in
    let (same_channel, last) = text-split c c' _ _ hc hc' after_user in
    (same_incident, same_step, same_user, same_channel, word-last p p' hp hp' last)
