-- ===== src/Shared/Congestion/Tests.antt =====
-- A session in thousandths.
use ultra_display_os.Prelude.{ℕ, ◌*◌, ◌≡◌, ◌⊎◌, refl, none, List, [], ◌∷◌}
use ultra_display_os.Prelude.Int.{◌+ℤ◌, ◌-ℤ◌, ◌*ℤ◌}
use ultra_display_os.Shared.Float.Fixed.{fixed}
use ultra_display_os.Shared.Congestion.{
  PacketInfo, State, new, find, erase, on_packet_sent, on_packet_acked, on_packet_lost,
  update_bitrate_estimate, delay_control, loss_control, scale, acked, feed_trendline,
  update_trendline,
}
use ultra_display_os.Shared.Congestion.Bitrate.{
  IsValid, Event, sent, acknowledged, lost, step, run, run-IsValid,
}
use ultra_display_os.Shared.Congestion.History.{IsFound, history-on_packet_acked}

abbrev events : List Event
events =
    sent 1 1200 1000 ∷ sent 2 1200 2000 ∷ acknowledged 1 5000 ∷ acknowledged 2 16000 ∷ lost 3 ∷ []

run-IsValid_example : IsValid (run fixed (new fixed) events)
run-IsValid_example = run-IsValid fixed events

new_is_valid : IsValid (new fixed)
unfolding run
new_is_valid = run-IsValid fixed []

abbrev packet : ℕ → PacketInfo
packet n = record { sequence_number = n; size = 1200; send_time = 1000 * n }

abbrev three_sent : State fixed
three_sent = record (new fixed) { history = packet 1 ∷ packet 2 ∷ packet 3 ∷ [] }

history-on_packet_acked_test :
    ((find 2 (packet 1 ∷ packet 2 ∷ packet 3 ∷ []) ≡ none)
      × ((on_packet_acked fixed three_sent 2 9000).history ≡ packet 1 ∷ packet 2 ∷ packet 3 ∷ []))
    ⊎ ((p : PacketInfo) × IsFound 2 p
          (packet 1 ∷ packet 2 ∷ packet 3 ∷ [])
          (on_packet_acked fixed three_sent 2 9000).history)
history-on_packet_acked_test = history-on_packet_acked fixed three_sent 2 9000

erase_test : erase 2 three_sent.history ≡ packet 1 ∷ packet 3 ∷ []
unfolding erase
erase_test = refl

-- The second packet came ten milliseconds late: the target falls to 85 in the hundred at its
-- acknowledgement, and again at the loss after it.
delay_test : (run fixed (new fixed) events).target_bitrate_bps ≡ 722500
unfolding run step new on_packet_sent on_packet_acked on_packet_lost find erase acked feed_trendline
    update_trendline update_bitrate_estimate delay_control loss_control scale ◌+ℤ◌ ◌-ℤ◌ ◌*ℤ◌
delay_test = refl
