-- ===== src/Cap/Audit.antt =====
-- kernel/src/cap.rs: the entries of the audit log.
use atom.Prelude.{ℕ, Option, none, some}

pub data AuditEventType : Type 0 where
  create derive transfer revoke : AuditEventType

pub record AuditLogEntry : Type 0 where
  pub timestamp : ℕ
  pub event_type : AuditEventType
  pub thread_id : ℕ
  pub cap_handle : ℕ
  pub parent_handle : Option ℕ
  pub target_thread : Option ℕ

-- `AuditLogEntry::new`; the time is the ticks that `get_ticks` returns.
unfoldable pub new_entry : ℕ → AuditEventType → ℕ → ℕ → AuditLogEntry
new_entry ticks event_type thread_id cap_handle = record {
  timestamp = ticks;
  event_type = event_type;
  thread_id = thread_id;
  cap_handle = cap_handle;
  parent_handle = none;
  target_thread = none;
}

unfoldable pub new_derive : ℕ → ℕ → ℕ → ℕ → AuditLogEntry
unfolding new_entry
new_derive ticks thread_id child_handle parent_handle =
    record (new_entry ticks derive thread_id child_handle) { parent_handle = some parent_handle }

unfoldable pub new_transfer : ℕ → ℕ → ℕ → ℕ → AuditLogEntry
unfolding new_entry
new_transfer ticks thread_id cap_handle target_thread =
    record (new_entry ticks transfer thread_id cap_handle) { target_thread = some target_thread }
