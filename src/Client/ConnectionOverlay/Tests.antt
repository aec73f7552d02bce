-- ===== src/Client/ConnectionOverlay/Tests.antt =====
-- Three updates.
use ultra_display_os.Prelude.{ℕ, ◌≡◌, refl, List, [], ◌∷◌, ◌++◌, map, take, drop, length, arith}
use ultra_display_os.Client.ConnectionOverlay.{new, shift, update_stats, columns, graph}
use ultra_display_os.Client.ConnectionOverlay.Graph.{graph-oldest}
use ultra_display_os.Client.ConnectionOverlay.History.{updates, milliseconds, zeros, history_lem}

shift_test : update_stats (1 ∷ 2 ∷ 3 ∷ []) 4500 ≡ 2 ∷ 3 ∷ 4 ∷ []
unfolding update_stats shift
shift_test = refl

-- A wider graph begins again with the oldest.
graph_test : graph (1 ∷ 2 ∷ 3 ∷ []) 5 ≡ 1 ∷ 2 ∷ 3 ∷ 1 ∷ 2 ∷ []
unfolding graph columns
graph_test = refl

abbrev rtts : List ℕ
rtts = 1000 ∷ 2000 ∷ 3000 ∷ []

history_lem_example :
    (updates new rtts ≡ drop (length rtts) (zeros ++ map milliseconds rtts))
    × (length (updates new rtts) ≡ 60)
history_lem_example = history_lem rtts

-- Sixty different latencies, the oldest first.
abbrev ascending : List ℕ
ascending =
    1 ∷ 2 ∷ 3 ∷ 4 ∷ 5 ∷ 6 ∷ 7 ∷ 8 ∷ 9 ∷ 10 ∷ 11 ∷ 12 ∷ 13 ∷ 14 ∷ 15 ∷ 16 ∷ 17 ∷ 18 ∷ 19 ∷ 20 ∷ 21
    ∷ 22 ∷ 23 ∷ 24 ∷ 25 ∷ 26 ∷ 27 ∷ 28 ∷ 29 ∷ 30 ∷ 31 ∷ 32 ∷ 33 ∷ 34 ∷ 35 ∷ 36 ∷ 37 ∷ 38 ∷ 39 ∷ 40
    ∷ 41 ∷ 42 ∷ 43 ∷ 44 ∷ 45 ∷ 46 ∷ 47 ∷ 48 ∷ 49 ∷ 50 ∷ 51 ∷ 52 ∷ 53 ∷ 54 ∷ 55 ∷ 56 ∷ 57 ∷ 58 ∷ 59
    ∷ 60 ∷ []

graph-oldest_example : graph ascending 90 ≡ take 90 (ascending ++ ascending)
graph-oldest_example = graph-oldest ascending 90 refl (omega arith) (omega arith)
