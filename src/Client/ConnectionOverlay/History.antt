-- ===== src/Client/ConnectionOverlay/History.antt =====
-- Which latencies client/tui/screens/connection_screen.cpp keeps.
use ultra_display_os.Prelude.{
  ℕ, ◌/◌, ◌<◌, ◌≡◌, refl, sym, ap, ◌∙◌, List, [], ◌∷◌, ◌++◌, map, length, replicate, drop,
  length-append, length-drop, length-map, append_assoc, append-nil, arith,
}
use ultra_display_os.Client.ConnectionOverlay.{new, shift, update_stats}

pub updates : List ℕ → List ℕ → List ℕ
unfolding update_stats
updates history [] = history
updates history (rtt_us ∷ rest) = updates (update_stats history rtt_us) rest

abbrev pub milliseconds : ℕ → ℕ
milliseconds rtt_us = rtt_us / 1000

shift_lem : (x : ℕ) (xs : List ℕ) (v : ℕ) → shift (x ∷ xs) v ≡ xs ++ (v ∷ [])
unfolding shift
shift_lem x [] v = refl
shift_lem x (y ∷ ys) v = ap (λ zs. y ∷ zs) (shift_lem y ys v)

updates_lem :
    (history rest : List ℕ)
    → 0 < length history
    → updates history rest ≡ drop (length rest) (history ++ map milliseconds rest)
unfolding updates update_stats
updates_lem history [] h = sym (append-nil history)
updates_lem [] (r ∷ rest) h = absurd (omega arith)
updates_lem (x ∷ xs) (r ∷ rest) h =
    ap (λ u. updates u rest) (shift_lem x xs (r / 1000))
    ∙ updates_lem (xs ++ (r / 1000 ∷ [])) rest (omega (arith, length-append xs (r / 1000 ∷ [])))
    ∙ ap (drop (length rest)) (append_assoc xs (r / 1000 ∷ []) (map milliseconds rest))

abbrev pub zeros : List ℕ
zeros = replicate 60 0

-- After any number of updates, the history has the latencies of the last sixty, in milliseconds, the oldest first,
-- with zeros before them as long as there are fewer.
pub history_lem :
    (rtts : List ℕ)
    → (updates new rtts ≡ drop (length rtts) (zeros ++ map milliseconds rtts))
      × (length (updates new rtts) ≡ 60)
history_lem rtts =
    let e = updates_lem new rtts (omega arith) in
    (
      e,
      ap length e
          ∙ omega (
            arith,
            length-drop (length rtts) (zeros ++ map milliseconds rtts),
            length-append zeros (map milliseconds rtts),
            length-map rtts milliseconds,
          ),
    )
