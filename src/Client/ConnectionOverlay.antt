-- ===== src/Client/ConnectionOverlay.antt =====
-- client/tui/screens/connection_screen.cpp and its header: the latencies of the last minute, and their graph. The
-- other statistics are only printed, and left out.
pub mod History
pub mod Graph
mod Tests
use ultra_display_os.Prelude.{
  ℕ, zero, suc, ◌+◌, ◌*◌, ◌/◌, ◌%◌, max, List, [], ◌∷◌, length, replicate, get_or,
}

-- The member `latency_history_`, from its first element.
abbrev pub new : List ℕ
new = replicate 60 0

-- The loop over the history, in which each element takes the next one's value, and the store of the last.
pub shift : List ℕ → ℕ → List ℕ
shift [] latency = []
shift (x ∷ []) latency = latency ∷ []
shift (x ∷ y ∷ ys) latency = y ∷ shift (y ∷ ys) latency

-- `rtt_us` is that of the statistics.
pub update_stats : List ℕ → ℕ → List ℕ
unfolding shift
update_stats history rtt_us = shift history (rtt_us / 1000)

-- The elements of the graph from the column `i` on, of `n` columns.
pub columns : List ℕ → ℕ → ℕ → ℕ → List ℕ
columns history step i zero = []
columns history step i (suc n) =
    get_or history (i * step % length history) 0 ∷ columns history step (i + 1) n

-- The function that is given to `graph`, for a width that is not 0.
pub graph : List ℕ → ℕ → List ℕ
unfolding columns
graph history width = columns history (max 1 (length history / width)) 0 width
