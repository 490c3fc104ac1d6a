-- ===== src/Schedule/Rotation.antt =====
-- The rotation of a layer (internal/schedule/schedule.go): the position in the list of participants.
use kerberon.Base.{ℕ, ◌<◌, if◌then◌else◌, str_eq, length, arith}
use kerberon.Core.Time.{Time}
use kerberon.Schedule.Layers.{Layer, position}

pub position-lt :
    (l : Layer) (h : Time) → 0 < length l.participants → position l h < length l.participants
unfolding position
position-lt l h pos = ground arith

-- One period later: a day, or a week in a weekly rotation.
abbrev pub period : Layer → ℕ
period l = if str_eq l.rotation "weekly" then 7 else 1
