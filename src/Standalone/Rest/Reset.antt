-- ===== src/Standalone/Rest/Reset.antt =====
-- What a resetConnectivityGroup of connect/hub/standalone_rest.go that succeeds has done, and what it
-- ends in the backend.
use wispers_hub.Base.{◌≡◌, none, Bytes, bytes_eq}
use wispers_hub.Base.Int.{int_eq}
use wispers_hub.Standalone.Db.{Db, GroupRow, NodeRow}
use wispers_hub.Standalone.Messages

-- A live node of the group, and the live group itself.
abbrev pub LiveNode : Bytes → NodeRow → Type 0
LiveNode cg r = (r.group_id ≡ cg) × (r.deleted_at ≡ none)

abbrev pub LiveGroup : Bytes → GroupRow → Type 0
LiveGroup cg g = (g.id ≡ cg) × (g.deleted_at ≡ none)
