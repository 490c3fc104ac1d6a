-- ===== src/Store/Pruned.antt =====
-- What the deletion of old incidents takes, and when it fails (internal/store/retention.go).
use kerberon.Base.{◌≡◌, Bool, true, false, List, arith, any}
use kerberon.Core.Time.{Time}
use kerberon.Core.Enums.{is_open}
use kerberon.Core.Records.{Incident}
use kerberon.Store.Keeps.{Keeps}
use kerberon.Store.Retention.{prunable}

open-not_prunable :
    (before : Time) (i : Incident) → is_open i.status ≡ true → prunable before i ≡ false
open-not_prunable before i h = ground arith

-- An incident is deleted only if it is closed and was closed before the instant.
abbrev pub Kept : Time → List Incident → List Incident → Type 0
Kept before rows rows' =
    (q : Incident → Bool)
    → ((i : Incident) → q i ≡ true → prunable before i ≡ false)
    → any q rows' ≡ any q rows
