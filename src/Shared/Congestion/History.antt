-- ===== src/Shared/Congestion/History.antt =====
-- What an acknowledgement takes out of the history.
use ultra_display_os.Prelude.{
  ℕ, ◌≡◌, refl, ap, none, some, List, [], ◌∷◌, ◌++◌, arith, ◌==◌, Bool-cases, inl, inr, ◌⊎◌,
  Option-cases,
}
use ultra_display_os.Shared.Float.{Floats}
use ultra_display_os.Shared.Congestion.{
  PacketInfo, State, find, erase, on_packet_acked, acked, feed_trendline, update_trendline,
  update_bitrate_estimate, delay_control, loss_control,
}

-- The first packet with the number, between those before it, which have other numbers, and the rest.
pub record IsFound (s : ℕ) (p : PacketInfo) (ps rest : List PacketInfo) : Type 0 where
  pub before : List PacketInfo
  pub after : List PacketInfo
  pub number : p.sequence_number ≡ s
  pub whole : ps ≡ before ++ (p ∷ after)
  pub left : rest ≡ before ++ after
  pub earlier : find s before ≡ none

find-IsFound :
    (s : ℕ) (ps : List PacketInfo) (p : PacketInfo)
    → find s ps ≡ some p
    → IsFound s p ps (erase s ps)
unfolding find erase
find-IsFound s [] p e = cc
find-IsFound s (q ∷ ps) p e = elim (Bool-cases (q.sequence_number == s)) [
  | inl h ↦ record {
    before = [];
    after = ps;
    number = ground arith;
    whole = ground arith;
    left = ground arith;
    earlier = refl;
  }
  | inr h ↦
      let f = find-IsFound s ps p (ground arith) in
      record {
        before = q ∷ f.before;
        after = f.after;
        number = f.number;
        whole = ap (λ l. q ∷ l) f.whole;
        left = rw h (ap (λ l. q ∷ l) f.left);
        earlier = rw h f.earlier;
      }
]

module _ (floats : Floats) where
  history-estimate : (c : State floats) → (update_bitrate_estimate floats c).history ≡ c.history
  unfolding update_bitrate_estimate delay_control loss_control
  history-estimate c = ground arith

  history-acked :
      (c : State floats) (s : ℕ) (p : PacketInfo) (t : ℕ)
      → (acked floats c s p t).history ≡ erase s c.history
  unfolding acked feed_trendline update_trendline
  history-acked c s p t = ground arith

  -- An acknowledgement takes the first packet with its number out of the history and keeps the others in
  -- their order; one of a number that the history does not hold leaves the history as it is.
  pub history-on_packet_acked :
      (c : State floats) (s t : ℕ)
      → ((find s c.history ≡ none) × ((on_packet_acked floats c s t).history ≡ c.history))
        ⊎ ((p : PacketInfo) × IsFound s p c.history (on_packet_acked floats c s t).history)
  unfolding on_packet_acked
  history-on_packet_acked c s t = elim (Option-cases (find s c.history)) [
    | inl e ↦ inl (e, rw e (history-estimate c))
    | inr (p, e) ↦ inr (
      p,
      rw (e, history-estimate (acked floats c s p t), history-acked c s p t)
          (find-IsFound s c.history p e),
    )
  ]
