-- ===== src/Server/TrayControls/Layout.antt =====
-- Where server/gui/tray_app.cpp puts the controls.
use ultra_display_os.Prelude.{ℕ, ◌+◌, ◌≤◌, ◌≡◌, sym, subst, List, [], ◌∷◌, ◌++◌, arith, refl}
use ultra_display_os.Prelude.Int.{ℤ, pos, ◌+ℤ◌, ◌-ℤ◌, ◌≤ℤ◌, int_laws}
use ultra_display_os.Server.TrayControls.{
  Control, Rect, Created, create_devices_tab, make_row, create_display_tab, make_stat_row,
  create_network_tab, label_monitor, combo_monitor, label_resolution, combo_resolution, label_fps,
  combo_fps, label_codec, combo_codec, label_quality, combo_quality, label_latency, static_latency,
  label_fps_stat, static_fps_stat, label_bitrate, static_bitrate, label_packetloss,
  static_packetloss,
}

-- A span that begins at the offset `n` of `a`, and ends before `b`.
abbrev Within : ℤ → ℤ → ℤ → ℤ → Type 0
Within a b x w = (a ≤ℤ x) × (x +ℤ w ≤ℤ b)

abbrev pub Inside : Rect → Created → Type 0
Inside rc c = Within rc.left rc.right c.x c.w × Within rc.top rc.bottom c.y c.h

abbrev pub All : {A : Type 0} → (A → Type 0) → List A → Type 0
All P [] = Unit
All P (x ∷ xs) = P x × All P xs

All-append : {A : Type 0} (P : A → Type 0) (xs ys : List A) → All P xs → All P ys → All P (xs ++ ys)
All-append P [] ys h k = k
All-append P (x ∷ xs) ys h k = (h.0, All-append P xs ys h.1 k)

-- With one, two or three offsets.
first-Within : (a b : ℤ) (n w k : ℕ) → a +ℤ pos k ≤ℤ b → n + w ≤ k → Within a b (a +ℤ pos n) (pos w)
first-Within a b n w k h e = grind int_laws

second-Within :
    (a b : ℤ) (n m w k : ℕ)
    → a +ℤ pos k ≤ℤ b
    → n + m + w ≤ k
    → Within a b (a +ℤ pos n +ℤ pos m) (pos w)
second-Within a b n m w k h e = grind int_laws

third-Within :
    (a b : ℤ) (n m l w k : ℕ)
    → a +ℤ pos k ≤ℤ b
    → n + m + l + w ≤ k
    → Within a b (a +ℤ pos n +ℤ pos m +ℤ pos l) (pos w)
third-Within a b n m l w k h e = grind int_laws

list_wide : (a b : ℤ) → Within a b (a +ℤ pos 16) (b -ℤ a -ℤ pos 32)
list_wide a b = grind int_laws

list_tall : (a b : ℤ) → Within a b (a +ℤ pos 10) (b -ℤ a -ℤ pos 60)
list_tall a b = grind int_laws

below_list :
    (a b : ℤ) → a +ℤ pos 350 ≤ℤ b → Within a b (a +ℤ pos 10 +ℤ (b -ℤ a -ℤ pos 60) +ℤ pos 8) (pos 28)
below_list a b h = grind int_laws

-- The content of the tabs is at least as wide as the values of the bandwidth, and as high as the last list
-- that drops down.
module _ (rc : Rect) (h : rc.left +ℤ pos 536 ≤ℤ rc.right) (k : rc.top +ℤ pos 350 ≤ℤ rc.bottom) where
  devices_Inside : All (Inside rc) (create_devices_tab rc)
  unfolding create_devices_tab
  devices_Inside =
      let row = below_list rc.top rc.bottom k in
      (
        (list_wide rc.left rc.right, list_tall rc.top rc.bottom),
        (
          (first-Within rc.left rc.right 16 90 536 h (omega arith), row),
          (
            (third-Within rc.left rc.right 16 90 8 90 536 h (omega arith), row),
            ((second-Within rc.left rc.right 16 196 90 536 h (omega arith), row), tt),
          ),
        ),
      )

  row_Inside :
      (y : ℤ) (n : ℕ) (label combo : Control)
      → y ≡ rc.top +ℤ pos n
      → n + 200 ≤ 350
      → All (Inside rc) (make_row rc y label combo)
  unfolding make_row
  row_Inside y n label combo e l =
      subst (λ y. All (Inside rc) (make_row rc y label combo)) (sym e)
        (
          (
            first-Within rc.left rc.right 16 100 536 h (omega arith),
            second-Within rc.top rc.bottom n 3 18 350 k (omega arith),
          ),
          (
            (
              second-Within rc.left rc.right 16 110 200 536 h (omega arith),
              first-Within rc.top rc.bottom n 200 350 k l,
            ),
            tt,
          ),
        )

  stat_row_Inside :
      (y : ℤ) (n : ℕ) (label value : Control)
      → y ≡ rc.top +ℤ pos n
      → n + 19 ≤ 350
      → All (Inside rc) (make_stat_row rc y label value)
  unfolding make_stat_row
  stat_row_Inside y n label value e l =
      subst (λ y. All (Inside rc) (make_stat_row rc y label value)) (sym e)
        (
          (
            first-Within rc.left rc.right 16 120 536 h (omega arith),
            second-Within rc.top rc.bottom n 1 18 350 k (omega arith),
          ),
          (
            (
              second-Within rc.left rc.right 16 130 200 536 h (omega arith),
              second-Within rc.top rc.bottom n 1 18 350 k (omega arith),
            ),
            tt,
          ),
        )

-- Below a row.
shift : (a y : ℤ) (n m : ℕ) → y ≡ a +ℤ pos n → y +ℤ pos m ≡ a +ℤ pos (n + m)
shift a y n m e = grind int_laws

module _ (rc : Rect) (h : rc.left +ℤ pos 536 ≤ℤ rc.right) (k : rc.top +ℤ pos 350 ≤ℤ rc.bottom) where
  display_Inside : All (Inside rc) (create_display_tab rc)
  unfolding create_display_tab make_row
  display_Inside =
      let y₁ = shift rc.top _ 14 34 refl in
      let y₂ = shift rc.top _ 48 34 y₁ in
      let y₃ = shift rc.top _ 82 34 y₂ in
      let y₄ = shift rc.top _ 116 34 y₃ in
      let r₀ = row_Inside rc h k _ 14 label_monitor combo_monitor refl (omega arith) in
      let r₁ = row_Inside rc h k _ 48 label_resolution combo_resolution y₁ (omega arith) in
      let r₂ = row_Inside rc h k _ 82 label_fps combo_fps y₂ (omega arith) in
      let r₃ = row_Inside rc h k _ 116 label_codec combo_codec y₃ (omega arith) in
      let r₄ = row_Inside rc h k _ 150 label_quality combo_quality y₄ (omega arith) in
      (r₀.0, (r₀.1.0, (r₁.0, (r₁.1.0, (r₂.0, (r₂.1.0, (r₃.0, (r₃.1.0, r₄))))))))

  network_Inside : All (Inside rc) (create_network_tab rc)
  unfolding create_network_tab make_stat_row
  network_Inside =
      let y₂ = shift rc.top _ 64 28 (shift rc.top _ 14 50 refl) in
      let y₃ = shift rc.top _ 92 34 y₂ in
      let y₄ = shift rc.top _ 126 34 y₃ in
      let y₅ = shift rc.top _ 160 34 y₄ in
      let r₁ = stat_row_Inside rc h k _ 92 label_latency static_latency y₂ (omega arith) in
      let r₂ = stat_row_Inside rc h k _ 126 label_fps_stat static_fps_stat y₃ (omega arith) in
      let r₃ = stat_row_Inside rc h k _ 160 label_bitrate static_bitrate y₄ (omega arith) in
      let r₄ = stat_row_Inside rc h k _ 194 label_packetloss static_packetloss y₅ (omega arith) in
      (
        (
          first-Within rc.left rc.right 16 120 536 h (omega arith),
          second-Within rc.top rc.bottom 14 3 18 350 k (omega arith),
        ),
        (
          (
            second-Within rc.left rc.right 16 130 280 536 h (omega arith),
            first-Within rc.top rc.bottom 14 30 350 k (omega arith),
          ),
          (
            (
              third-Within rc.left rc.right 16 130 290 100 536 h (omega arith),
              second-Within rc.top rc.bottom 14 5 18 350 k (omega arith),
            ),
            (
              (
                first-Within rc.left rc.right 16 300 536 h (omega arith),
                second-Within rc.top rc.bottom 14 50 18 350 k (omega arith),
              ),
              (r₁.0, (r₁.1.0, (r₂.0, (r₂.1.0, (r₃.0, (r₃.1.0, r₄)))))),
            ),
          ),
        ),
      )

-- In a content of the tabs that is at least 536 wide and 350 high, every control of the three tabs is created
-- inside of it.
pub created_Inside :
    (rc : Rect)
    → rc.left +ℤ pos 536 ≤ℤ rc.right
    → rc.top +ℤ pos 350 ≤ℤ rc.bottom
    → All (Inside rc) (create_devices_tab rc ++ (create_display_tab rc ++ create_network_tab rc))
created_Inside rc h k =
    All-append (Inside rc) (create_devices_tab rc) (create_display_tab rc ++ create_network_tab rc)
      (devices_Inside rc h k)
      (All-append (Inside rc) (create_display_tab rc) (create_network_tab rc)
        (display_Inside rc h k) (network_Inside rc h k))
