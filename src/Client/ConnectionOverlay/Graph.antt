-- ===== src/Client/ConnectionOverlay/Graph.antt =====
-- Which latencies the graph of client/tui/screens/connection_screen.cpp shows.
use ultra_display_os.Prelude.{
  ℕ, zero, suc, ◌+◌, ◌*◌, ◌/◌, ◌%◌, ◌≤◌, ◌<◌, ◌≡◌, refl, sym, ap, ap₂, ◌∙◌, max, List, [], ◌∷◌,
  ◌++◌, length, get_or, take, length-append, append_assoc, append-nil, arith, all_below,
  all_below_sound, ==_iff, ◌==◌, ◌-◌,
}
use native.Mathlib.Decide.{dec_lt}
use native.Mathlib.Nat.{mod-eq_of_lt, mod-eq-sub-mod, div-eq_of_lt}
use ultra_display_os.Client.ConnectionOverlay.{columns, graph}

get_or-middle :
    (before : List ℕ) (x : ℕ) (xs : List ℕ) → get_or (before ++ x ∷ xs) (length before) 0 ≡ x
get_or-middle [] x xs = refl
get_or-middle (y ∷ before) x xs = get_or-middle before x xs

columns-take :
    (all before history : List ℕ) (i n : ℕ)
    → all ≡ before ++ history
    → i ≡ length before
    → i + n ≤ length all
    → columns all 1 i n ≡ take n history
unfolding columns
columns-take all before history i zero e l h = refl
columns-take all before [] i (suc n) e l h =
    absurd (omega (arith, l, ap length (e ∙ append-nil before)))
columns-take all before (x ∷ xs) i (suc n) e l h =
    let same : i * 1 ≡ i = omega arith in
    let small : i * 1 % length all ≡ i =
      ap (λ k. k % length all) same ∙ mod-eq_of_lt (omega arith) in
    ap₂ (λ y ys. y ∷ ys)
      (ap (λ k. get_or all k 0) (small ∙ l)
        ∙ ap (λ ys. get_or ys (length before) 0) e
        ∙ get_or-middle before x xs)
      (columns-take all (before ++ (x ∷ [])) xs (i + 1) n
        (e ∙ sym (append_assoc before (x ∷ []) xs))
        (omega (arith, l, length-append before (x ∷ []))) (omega arith))

-- By evaluation of the thirty widths.
one_step : (width : ℕ) → 30 < width → width ≤ 60 → 60 / width ≡ 1
unfolding all_below
one_step width l u =
    let same : 31 + (width - 31) ≡ width = omega arith in
    ap (λ w. 60 / w) (sym same)
    ∙ (==_iff (60 / (31 + (width - 31))) 1).0
        (all_below_sound 30 (λ k. 60 / (31 + k) == 1) (width - 31) refl (omega arith))

columns-append :
    (history : List ℕ) (step i n m : ℕ)
    → columns history step i (n + m) ≡ columns history step i n ++ columns history step (i + n) m
unfolding columns
columns-append history step i zero m =
    ap₂ (λ j k. columns history step j k) (omega arith) (omega arith)
columns-append history step i (suc n) m =
    let more : suc n + m ≡ suc (n + m) = omega arith in
    let moved : i + 1 + n ≡ i + suc n = omega arith in
    ap (columns history step i) more
    ∙ ap (λ xs. get_or history (i * step % length history) 0 ∷ xs)
        (columns-append history step (i + 1) n m
          ∙ ap (λ j. columns history step (i + 1) n ++ columns history step j m) moved)

-- Behind the end of the history the values begin again.
columns-again :
    (history : List ℕ) (i n : ℕ)
    → 0 < length history
    → columns history 1 (length history + i) n ≡ columns history 1 i n
unfolding columns
columns-again history i zero h = refl
columns-again history i (suc n) h =
    let same : (length history + i) * 1 % length history ≡ i * 1 % length history =
      mod-eq-sub-mod {n = (length history + i) * 1} {m = length history} (omega arith)
      ∙ ap (λ k. k % length history) (omega arith) in
    let moved : length history + i + 1 ≡ length history + (i + 1) = omega arith in
    ap₂ (λ k xs. get_or history k 0 ∷ xs) same
      (ap (λ j. columns history 1 j n) moved ∙ columns-again history (i + 1) n h)

take_whole : (xs : List ℕ) → take (length xs) xs ≡ xs
take_whole [] = refl
take_whole (x ∷ xs) = ap (λ ys. x ∷ ys) (take_whole xs)

take_front : (n : ℕ) (xs ys : List ℕ) → n ≤ length xs → take n (xs ++ ys) ≡ take n xs
take_front zero xs ys h = refl
take_front (suc n) [] ys h = absurd (omega arith)
take_front (suc n) (x ∷ xs) ys h = ap (λ zs. x ∷ zs) (take_front n xs ys (omega arith))

take_past : (xs : List ℕ) (n : ℕ) (ys : List ℕ) → take (length xs + n) (xs ++ ys) ≡ xs ++ take n ys
take_past [] n ys = ap (λ m. take m ys) (omega arith)
take_past (x ∷ xs) n ys =
    let more : suc (length xs) + n ≡ suc (length xs + n) = omega arith in
    ap (λ m. take m (x ∷ xs ++ ys)) more ∙ ap (λ zs. x ∷ zs) (take_past xs n ys)

columns-once_more :
    (history : List ℕ) (n : ℕ)
    → 0 < length history
    → n ≤ length history
    → columns history 1 0 (length history + n) ≡ take (length history + n) (history ++ history)
columns-once_more history n h l =
    columns-append history 1 0 (length history) n
    ∙ ap₂ (λ xs ys. xs ++ ys)
        (columns-take history [] history 0 (length history) refl refl (omega arith)
          ∙ take_whole history)
        (ap (λ j. columns history 1 j n) (omega arith)
          ∙ columns-again history 0 n h
          ∙ columns-take history [] history 0 n refl refl (omega arith))
    ∙ sym (take_past history n history)

wide_step : (more : ℕ) → max 1 (60 / (60 + more)) ≡ 1
wide_step zero = refl
wide_step (suc more) = ap (max 1) (div-eq_of_lt (omega arith))

-- The step is 1 for all of these widths.
graph_step :
    (history : List ℕ) (width : ℕ)
    → length history ≡ 60
    → 30 < width
    → max 1 (length history / width) ≡ 1
graph_step history width h l = elim (dec_lt 60 width) [
  | no u ↦ omega (arith, ap (λ n. n / width) h, one_step width l (omega arith))
  | yes u ↦
      let more : 60 + (width - 60) ≡ width = omega arith in
      ap₂ (λ n w. max 1 (n / w)) h (sym more) ∙ wide_step (width - 60)
]

columns_twice :
    (history : List ℕ) (width : ℕ)
    → length history ≡ 60
    → width ≤ 120
    → columns history 1 0 width ≡ take width (history ++ history)
columns_twice history width h u = elim (dec_lt 60 width) [
  | no l ↦
      columns-take history [] history 0 width refl refl (omega arith)
      ∙ sym (take_front width history history (omega arith))
  | yes l ↦
      let more : length history + (width - 60) ≡ width = omega arith in
      ap (columns history 1 0) (sym more)
      ∙ columns-once_more history (width - 60) (omega arith) (omega arith)
      ∙ ap (λ w. take w (history ++ history)) more
]

-- Asked for more than thirty and at most a hundred and twenty values, the function of the graph gives the first so many
-- of the history written twice: the oldest latencies where they are at most sixty, and else the whole history,
-- and to the right of the newest latency the oldest ones again.
pub graph-oldest :
    (history : List ℕ) (width : ℕ)
    → length history ≡ 60
    → 30 < width
    → width ≤ 120
    → graph history width ≡ take width (history ++ history)
unfolding graph
graph-oldest history width h l u =
    ap (λ step. columns history step 0 width) (graph_step history width h l)
    ∙ columns_twice history width h u
