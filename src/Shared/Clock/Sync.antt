-- ===== src/Shared/Clock/Sync.antt =====
-- A session of exchanges with a peer whose clock is ahead.
use ultra_display_os.Prelude.{
  ℕ, ◌+◌, ◌-◌, ◌*◌, ◌/◌, ◌^◌, ◌≤◌, ◌<◌, ◌≡◌, ◌⊎◌, inl, inr, refl, ◌∙◌, ap₂, arith, false, true,
  List, [], ◌∷◌,
}
use ultra_display_os.Prelude.Int.{pos, ◌+ℤ◌, ◌*ℤ◌}
use ultra_display_os.Shared.Clock.{ClockSync, new, measured_offset, smooth, update, local_to_remote}
use ultra_display_os.Shared.Clock.Offset.{measured_offset_ahead}

-- A ping at local time `start`, under way for `there`, held by the peer for `held`; the pong is under
-- way for `back`.
pub record Exchange : Type 0 where
  pub start : ℕ
  pub there : ℕ
  pub held : ℕ
  pub back : ℕ

-- The four timestamps of an exchange with a clock that is ahead.
pub exchange : ℕ → ClockSync → Exchange → ClockSync
exchange ahead c x =
    update c x.start (x.start + ahead + x.there) (x.start + ahead + x.there + x.held)
      (x.start + x.there + x.held + x.back)

pub sync : ℕ → ClockSync → List Exchange → ClockSync
unfolding exchange
sync ahead c [] = c
sync ahead c (x ∷ xs) = sync ahead (exchange ahead c x) xs

-- The two journeys differ by at most twice `skew`.
pub record IsFair (ahead skew : ℕ) (x : Exchange) : Type 0 where
  pub no_wrap : x.start + ahead + x.there + x.held + x.back < 2 ^ 62
  pub longer_there : x.there ≤ x.back + 2 * skew
  pub longer_back : x.back ≤ x.there + 2 * skew

abbrev pub AllFair : ℕ → ℕ → List Exchange → Type 0
AllFair ahead skew [] = Unit {0}
AllFair ahead skew (x ∷ xs) = IsFair ahead skew x × AllFair ahead skew xs

-- The offset is within `skew` of the true one.
record IsNear (ahead skew : ℕ) (c : ClockSync) : Type 0 where
  ready : c.initialized ≡ true
  offset : ℕ
  is_offset : c.offset ≡ pos offset
  above : ahead ≤ offset + skew
  below : offset ≤ ahead + skew

smooth-pos : (old sample : ℕ) → smooth (pos old) (pos sample) ≡ pos ((old * 7 + sample) / 8)
unfolding smooth ◌+ℤ◌ ◌*ℤ◌
smooth-pos old sample = ground arith

update_first :
    (c : ClockSync) (t0 t1 t2 t3 : ℕ)
    → c.initialized ≡ false
    → ((update c t0 t1 t2 t3).initialized ≡ true)
      × ((update c t0 t1 t2 t3).offset ≡ measured_offset t0 t1 t2 t3)
unfolding update
update_first c t0 t1 t2 t3 e = rw e (refl, refl)

update_next :
    (c : ClockSync) (t0 t1 t2 t3 : ℕ)
    → c.initialized ≡ true
    → ((update c t0 t1 t2 t3).initialized ≡ true)
      × ((update c t0 t1 t2 t3).offset ≡ smooth c.offset (measured_offset t0 t1 t2 t3))
unfolding update
update_next c t0 t1 t2 t3 e = rw e (refl, refl)

exchange-IsNear :
    (ahead skew : ℕ) (c : ClockSync) (x : Exchange)
    → skew ≤ ahead
    → IsFair ahead skew x
    → (c.initialized ≡ false) ⊎ IsNear ahead skew c
    → IsNear ahead skew (exchange ahead c x)
unfolding exchange
exchange-IsNear ahead skew c x h f (inl e) =
    let (ready, same) =
      update_first c x.start (x.start + ahead + x.there) (x.start + ahead + x.there + x.held)
        (x.start + x.there + x.held + x.back) e in
    record {
      ready = ready;
      offset = (2 * ahead + x.there - x.back) / 2;
      is_offset =
          same
          ∙ measured_offset_ahead x.start ahead x.there x.held x.back f.no_wrap
              (omega (arith, f.longer_back));
      above = omega (arith, f.longer_back);
      below = omega (arith, f.longer_there);
    }
exchange-IsNear ahead skew c x h f (inr n) =
    let (ready, same) =
      update_next c x.start (x.start + ahead + x.there) (x.start + ahead + x.there + x.held)
        (x.start + x.there + x.held + x.back) n.ready in
    record {
      ready = ready;
      offset = (n.offset * 7 + (2 * ahead + x.there - x.back) / 2) / 8;
      is_offset =
          same
          ∙ ap₂ smooth n.is_offset (
              measured_offset_ahead x.start ahead x.there x.held x.back f.no_wrap
                (omega (arith, f.longer_back)))
          ∙ smooth-pos n.offset ((2 * ahead + x.there - x.back) / 2);
      above = omega (arith, f.longer_back, n.above);
      below = omega (arith, f.longer_there, n.below);
    }

sync-IsNear :
    (ahead skew : ℕ) (c : ClockSync) (xs : List Exchange)
    → skew ≤ ahead
    → AllFair ahead skew xs
    → IsNear ahead skew c
    → IsNear ahead skew (sync ahead c xs)
unfolding sync
sync-IsNear ahead skew c [] h f n = n
sync-IsNear ahead skew c (x ∷ xs) h f n =
    sync-IsNear ahead skew (exchange ahead c x) xs h f.1
      (exchange-IsNear ahead skew c x h f.0 (inr n))

-- After at least one exchange with a clock that is ahead by at least `skew`, where in each exchange the
-- two journeys differ by at most twice `skew`, the smoothed offset is within `skew` of the true one, and
-- so is the local time that is converted to the peer's.
pub sync_lem :
    (ahead skew : ℕ) (x : Exchange) (xs : List Exchange) (time : ℕ)
    → skew ≤ ahead
    → AllFair ahead skew (x ∷ xs)
    → time + 2 * ahead < 2 ^ 64
    → let c = sync ahead new (x ∷ xs) in
      (offset : ℕ) × (c.offset ≡ pos offset)
      × (ahead ≤ offset + skew)
      × (offset ≤ ahead + skew)
      × (local_to_remote c time ≡ time + offset)
unfolding sync local_to_remote
sync_lem ahead skew x xs time h f w =
    let n =
      sync-IsNear ahead skew (exchange ahead new x) xs h f.1
        (exchange-IsNear ahead skew new x h f.0 (inl refl)) in
    (n.offset, n.is_offset, n.above, n.below, rw n.is_offset (omega (arith, n.below)))
