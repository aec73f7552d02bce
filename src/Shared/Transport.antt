-- ===== src/Shared/Transport.antt =====
-- shared/transport/transport.hpp: what a transport offers to the code above it. `T` is the state of the
-- transport, which each call may change.
use ultra_display_os.Prelude.{ℕ, List}
use ultra_display_os.Shared.Result.{Result}

pub record TransportStats (Single : Type 0) : Type 0 where
  pub bytes_sent : ℕ  -- uint64
  pub bytes_received : ℕ  -- uint64
  pub rtt_us : ℕ  -- uint32
  pub packet_loss_percent : Single
  pub bandwidth_est_bps : ℕ  -- uint64

pub record Transport (Single : Type 0) (T : Type 0) : Type 0 where
  pub send : T → List ℕ → ℕ → Result (Unit {0}) × T
  pub receive : T → ℕ → Result (List ℕ) × T
  pub stats : T → TransportStats Single
