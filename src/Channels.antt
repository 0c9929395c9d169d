-- ===== src/Channels.antt =====
-- tokio's one-shot channels, as far as src/scheduler.rs and src/gpu_lock.rs use them: channels are
-- numbered as they are made, and sending on one succeeds exactly if its receiver still exists.
pub mod Deadline
use aivyx_broker.Prelude.{ℕ, Bool, true, false, List, if◌then◌else◌, elem}

-- The receiver waits, a signal was sent to it, or the receiver is gone.
pub data Channel : Type 0 where
  open_ended sent closed : Channel

abbrev pub is_receiving : Channel → Bool
is_receiving closed = false
is_receiving _ = true

-- The channels in `woken` get a signal.
abbrev pub signal : List ℕ → (ℕ → Channel) → ℕ → Channel
signal woken channel c = if elem c woken then sent else channel c
