-- ===== src/Ipc/Metrics.antt =====
-- kernel/src/ipc.rs, `IpcPortMetrics`: what a port counts.
use atom.Prelude.{
  ℕ, ◌+◌, ◌-◌, ◌*◌, ◌/◌, ◌%◌, ◌^◌, min, max, Option, none, some, unwrap_or, ltb, if◌then◌else◌,
}

pub record IpcPortMetrics : Type 0 where
  pub messages_sent : ℕ
  pub messages_received : ℕ
  pub bytes_sent : ℕ
  pub bytes_received : ℕ
  pub min_latency_ms : Option ℕ
  pub max_latency_ms : Option ℕ
  pub total_latency_ms : ℕ
  pub first_message_timestamp_ms : Option ℕ
  pub last_message_timestamp_ms : Option ℕ

-- `Default`
abbrev pub no_metrics : IpcPortMetrics
no_metrics = record {
  messages_sent = 0;
  messages_received = 0;
  bytes_sent = 0;
  bytes_received = 0;
  min_latency_ms = none;
  max_latency_ms = none;
  total_latency_ms = 0;
  first_message_timestamp_ms = none;
  last_message_timestamp_ms = none;
}

-- The first timestamp stays once it is set.
abbrev pub or_first : Option ℕ → ℕ → Option ℕ
or_first none now = some now
or_first (some first) now = some first

-- `+=` on a `u64`.
abbrev pub add_u64 : ℕ → ℕ → ℕ
add_u64 a b = (a + b) % 2 ^ 64

unfoldable pub record_send : ℕ → ℕ → IpcPortMetrics → IpcPortMetrics
record_send size timestamp_ms self = record self {
  messages_sent = add_u64 self.messages_sent 1;
  bytes_sent = add_u64 self.bytes_sent size;
  first_message_timestamp_ms = or_first self.first_message_timestamp_ms timestamp_ms;
  last_message_timestamp_ms = some timestamp_ms;
}

abbrev pub least : Option ℕ → ℕ → ℕ
least none latency = latency
least (some current_min) latency = min current_min latency

abbrev pub greatest : Option ℕ → ℕ → ℕ
greatest none latency = latency
greatest (some current_max) latency = max current_max latency

unfoldable pub record_receive : ℕ → ℕ → ℕ → IpcPortMetrics → IpcPortMetrics
record_receive size send_timestamp_ms receive_timestamp_ms self =
    let latency = receive_timestamp_ms - send_timestamp_ms in
    record self {
      messages_received = add_u64 self.messages_received 1;
      bytes_received = add_u64 self.bytes_received size;
      min_latency_ms = some (least self.min_latency_ms latency);
      max_latency_ms = some (greatest self.max_latency_ms latency);
      total_latency_ms = min (self.total_latency_ms + latency) (2 ^ 128 - 1);
      first_message_timestamp_ms = or_first self.first_message_timestamp_ms send_timestamp_ms;
      last_message_timestamp_ms = some receive_timestamp_ms;
    }

pub record IpcPortStats : Type 0 where
  pub messages_sent : ℕ
  pub messages_received : ℕ
  pub bytes_sent : ℕ
  pub bytes_received : ℕ
  pub min_latency_ms : ℕ
  pub max_latency_ms : ℕ
  pub avg_latency_ms : ℕ
  pub messages_per_second : ℕ

-- `messages_received.saturating_mul(1000) / duration_ms`, if both times are known.
unfoldable pub rate : Option ℕ → Option ℕ → ℕ → ℕ
rate (some first) (some last) received = min (received * 1000) (2 ^ 64 - 1) / max (last - first) 1
rate (some first) none received = 0
rate none last received = 0

unfoldable pub to_stats : IpcPortMetrics → IpcPortStats
to_stats self = record {
  messages_sent = self.messages_sent;
  messages_received = self.messages_received;
  bytes_sent = self.bytes_sent;
  bytes_received = self.bytes_received;
  min_latency_ms = unwrap_or self.min_latency_ms 0;
  max_latency_ms = unwrap_or self.max_latency_ms 0;
  avg_latency_ms =
      if ltb 0 self.messages_received
      then self.total_latency_ms / self.messages_received % 2 ^ 64
      else 0;
  messages_per_second =
      rate self.first_message_timestamp_ms self.last_message_timestamp_ms self.messages_received;
}
