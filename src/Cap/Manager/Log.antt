-- ===== src/Cap/Manager/Log.antt =====
-- kernel/src/cap.rs, `log_audit` and `get_audit_log`: a bounded log, read newest first.
use atom.Prelude.{
  ℕ, suc, ◌≤◌, ◌-◌, ◌<◌, ◌≡◌, ◌∙◌, sym, ap, inl, inr, List, [], ◌∷◌, ◌++◌, arith, Bool-cases, leb,
  length, length-append, length-reverse, take-append_left, take, drop, reverse, min,
}
use mathlib.Core.List.{reverse-append, reverse-cons}
use atom.Cap.Audit.{AuditLogEntry}
use atom.Cap.Manager.{State, log_audit, get_audit_log, max_audit_log_entries}

-- The newest entries of a log to which one entry was added at the end.
newest_of :
    (entry : AuditLogEntry) (log : List AuditLogEntry) (n : ℕ)
    → take (min (suc n) (length (log ++ entry ∷ []))) (reverse (log ++ entry ∷ []))
      ≡ entry ∷ take (min n (length log)) (reverse log)
newest_of entry log n =
    let e : min (suc n) (length (log ++ entry ∷ [])) ≡ suc (min n (length log)) =
      omega (arith, length-append log (entry ∷ [])) in
    rw (e, reverse-append log (entry ∷ []))

newest :
    (entry : AuditLogEntry) (log : List AuditLogEntry) (n : ℕ)
    → length log < max_audit_log_entries
    → take (min (suc n) (length (log ++ entry ∷ []))) (reverse (log ++ entry ∷ []))
      ≡ entry ∷ take (min (min n (max_audit_log_entries - 1)) (length log)) (reverse log)
newest entry log n room =
    let e : min (min n (max_audit_log_entries - 1)) (length log) ≡ min n (length log) =
      omega arith in
    rw e (newest_of entry log n)

newest_full :
    (entry : AuditLogEntry) (log : List AuditLogEntry) (n : ℕ)
    → length log ≡ max_audit_log_entries
    → take (min (suc n) (length (drop 1 log ++ entry ∷ []))) (reverse (drop 1 log ++ entry ∷ []))
      ≡ entry ∷ take (min (min n (max_audit_log_entries - 1)) (length log)) (reverse log)
newest_full entry [] n full = absurd (omega arith)
newest_full entry (x ∷ log) n full =
    let e : min (min n (max_audit_log_entries - 1)) (suc (length log)) ≡ min n (length log) =
      omega arith in
    newest_of entry log n
    ∙ rw (e, reverse-cons x log)
        (ap (◌∷◌ entry) (
          sym (
            take-append_left (min n (length log)) (reverse log) (x ∷ [])
              (omega (arith, length-reverse log)))))

-- If the log has at most 1000 entries, asking for at least one after one was logged returns that
-- entry first; the entries after it are the newest of the earlier log, as many as were asked for
-- and as the limit of the log left.
pub get_audit_log-log_audit :
    (entry : AuditLogEntry) (s : State) (n : ℕ)
    → length s.audit_log ≤ max_audit_log_entries
    → get_audit_log (suc n) (log_audit entry s)
      ≡ entry ∷ get_audit_log (min n (max_audit_log_entries - 1)) s
unfolding get_audit_log log_audit
get_audit_log-log_audit entry s n bound =
    elim (Bool-cases (leb max_audit_log_entries (length s.audit_log))) [
      | inl full ↦ rw full (newest_full entry s.audit_log n (ground arith))
      | inr room ↦ rw room (newest entry s.audit_log n (ground arith))
    ]
