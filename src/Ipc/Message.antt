-- ===== src/Ipc/Message.antt =====
-- kernel/src/ipc.rs, `Message`. A payload is a list of bytes; the time is an argument.
use atom.Prelude.{ℕ, List, [], Option, none, some, Bool, is_some, length}
use atom.Cap.Permissions.{CapPermissions}

pub data IpcCapability : Type 0 where
  grant : ℕ → CapPermissions → IpcCapability
  move : ℕ → IpcCapability

pub record Message : Type 0 where
  pub sender : ℕ
  pub message_type : ℕ
  pub payload : List ℕ
  pub capability : Option IpcCapability
  pub shared_region : Option ℕ
  pub timestamp_ms : ℕ

unfoldable pub new : ℕ → ℕ → List ℕ → ℕ → Message
new sender message_type payload now = record {
  sender = sender;
  message_type = message_type;
  payload = payload;
  capability = none;
  shared_region = none;
  timestamp_ms = now;
}

unfoldable pub new_with_shared_region : ℕ → ℕ → ℕ → ℕ → Message
new_with_shared_region sender message_type region_id now = record {
  sender = sender;
  message_type = message_type;
  payload = [];
  capability = none;
  shared_region = some region_id;
  timestamp_ms = now;
}

unfoldable pub new_with_grant : ℕ → ℕ → List ℕ → ℕ → CapPermissions → ℕ → Message
new_with_grant sender message_type payload cap_handle permissions now = record {
  sender = sender;
  message_type = message_type;
  payload = payload;
  capability = some (grant cap_handle permissions);
  shared_region = none;
  timestamp_ms = now;
}

unfoldable pub new_with_move : ℕ → ℕ → List ℕ → ℕ → ℕ → Message
new_with_move sender message_type payload cap_handle now = record {
  sender = sender;
  message_type = message_type;
  payload = payload;
  capability = some (move cap_handle);
  shared_region = none;
  timestamp_ms = now;
}

unfoldable pub size : Message → ℕ
size self = length self.payload

unfoldable pub has_capability : Message → Bool
has_capability self = is_some self.capability
