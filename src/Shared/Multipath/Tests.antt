-- ===== src/Shared/Multipath/Tests.antt =====
-- Two paths: one with the shorter round trip, by Wi-Fi, and one that delivers.
use ultra_display_os.Prelude.{
  ℕ, ◌≡◌, ◌≢◌, refl, Bool, true, false, none, some, List, [], ◌∷◌, arith, set, map,
}
use ultra_display_os.Shared.Result.{Result, ok, err, timeout}
use ultra_display_os.Shared.Float.Fixed.{fixed}
use ultra_display_os.Shared.Transport.{Transport}
use ultra_display_os.Shared.Multipath.{
  PathInfo, MultipathManager, new, choose, calculate_score, refresh, evaluate, evaluate_paths,
  add_path, send, receive, get_path_stats,
}
use ultra_display_os.Shared.Multipath.Best.{IsBest, IsValid, evaluate_paths-IsBest, send-add_path}
use ultra_display_os.Shared.Multipath.Polling.{first_value, answer, others_without, receive_lem}

-- A transport with a round trip and the datagrams that it has yet to deliver.
record Line : Type 0 where
  rtt : ℕ
  inbox : List (List ℕ)

abbrev deliver : Line → Result (List ℕ) × Line
deliver line = elim line.inbox [
  | [] ↦ (err timeout, line)
  | d ∷ rest ↦ (ok d, record line { inbox = rest })
]

abbrev ops : Transport ℕ Line
ops = record {
  send = λ line payload stream_id. (ok tt, line);
  receive = λ line timeout_us. deliver line;
  stats = λ line. record {
    bytes_sent = 0;
    bytes_received = 0;
    rtt_us = line.rtt;
    packet_loss_percent = 0;
    bandwidth_est_bps = 0;
  };
}

abbrev wifi_line : Line
wifi_line = record { rtt = 1000; inbox = [] }

abbrev wired_line : Line
wired_line = record { rtt = 2500; inbox = (7 ∷ []) ∷ [] }

abbrev path : Line → Bool → PathInfo ℕ Line
path line wifi = record {
  transport = line;
  stats = record {
    rtt_us = 0;
    loss_percent = 0;
    bandwidth_bps = 0;
    is_active = true;
    is_wifi = wifi;
  };
  score = 0;
}

abbrev two_paths : MultipathManager ℕ Line
two_paths = record { paths = path wifi_line true ∷ path wired_line false ∷ []; active_path_idx = 0 }

-- With the 2000 that Wi-Fi adds, the wired path is the better one.
evaluate_paths_test : (evaluate_paths fixed ops two_paths).active_path_idx ≡ 1
unfolding evaluate_paths evaluate refresh calculate_score choose
evaluate_paths_test = refl

add_path_test :
    map
      (λ s. s.rtt_us)
      (get_path_stats fixed ops
        (add_path fixed ops (add_path fixed ops new wifi_line true) wired_line false))
    ≡ 1000 ∷ 2500 ∷ []
unfolding add_path evaluate_paths evaluate refresh get_path_stats
add_path_test = refl

evaluate_paths-IsBest_example : IsBest fixed ops (evaluate_paths fixed ops two_paths)
evaluate_paths-IsBest_example = evaluate_paths-IsBest fixed ops two_paths (omega arith)

send-add_path_test :
    let m' = add_path fixed ops two_paths wired_line false in
    IsValid fixed ops m' × (send fixed ops m' (1 ∷ []) 0 ≢ none)
send-add_path_test = send-add_path fixed ops two_paths wired_line false (1 ∷ []) 0

-- The active path has nothing; the other one delivers.
receive_lem_example :
    let asked = set two_paths.paths 0 (path wifi_line true) in
    (m' : MultipathManager ℕ Line) × (receive fixed ops two_paths 500
      ≡ some (answer (err timeout) (others_without fixed ops 0 0 asked), m'))
    × (m'.active_path_idx ≡ 0)
receive_lem_example = receive_lem fixed ops two_paths (path wifi_line true) 500 refl

answer_test : answer (err timeout) (others_without fixed ops 0 0 two_paths.paths) ≡ ok (7 ∷ [])
unfolding answer others_without first_value
answer_test = refl
