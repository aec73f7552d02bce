-- ===== src/Shared/Clock/Offset.antt =====
-- What one exchange of a ping and a pong tells of the other clock.
use ultra_display_os.Prelude.{ℕ, ◌+◌, ◌-◌, ◌*◌, ◌/◌, ◌^◌, ◌≤◌, ◌<◌, ◌≡◌, arith}
use ultra_display_os.Prelude.Int.{ℤ, pos, negsuc, ◌+ℤ◌, ◌*ℤ◌, ◌≤ℤ◌}
use ultra_display_os.Shared.Clock.{
  ClockSync, word, round_trip, measured_offset, smooth, local_to_remote, remote_to_local,
}

-- An exchange: the ping leaves at local time `t0` and takes `there`, the peer holds it for `held`, the
-- pong takes `back`. The peer's clock is ahead by `ahead`: the measured round trip is the time that
-- the two messages were under way.
pub round_trip_lem :
    (t0 ahead there held back : ℕ)
    → t0 + ahead + there + held + back < 2 ^ 63
    → round_trip t0 (t0 + ahead + there) (t0 + ahead + there + held) (t0 + there + held + back)
      ≡ pos (there + back)
unfolding round_trip
round_trip_lem t0 ahead there held back h = ground arith

-- With the peer's clock ahead by at least what the pong takes longer than the ping, the measured
-- offset is the true one but for half the difference of the two journeys.
pub measured_offset_ahead :
    (t0 ahead there held back : ℕ)
    → t0 + ahead + there + held + back < 2 ^ 62
    → back ≤ 2 * ahead + there
    → measured_offset t0 (t0 + ahead + there) (t0 + ahead + there + held) (t0 + there + held + back)
      ≡ pos ((2 * ahead + there - back) / 2)
unfolding measured_offset
measured_offset_ahead t0 ahead there held back h k = ground arith

-- With the peer's clock behind by more than half of what the ping takes longer than the pong, the
-- sum wraps before it is halved: the measured offset is about 2 ^ 63 instead of small and negative.
pub measured_offset_behind :
    (t0 behind there held back : ℕ)
    → t0 + behind + there + held + back < 2 ^ 62
    → there < 2 * behind + back
    → measured_offset
        (t0 + behind)
        (t0 + there)
        (t0 + there + held)
        (t0 + behind + there + held + back)
      ≡ pos (2 ^ 63 - (2 * behind + back - there + 1) / 2)
unfolding measured_offset
measured_offset_behind t0 behind there held back h k = ground arith

-- Converting a time to the peer's clock and back gives it again, whatever the offset.
pub remote_to_local-local_to_remote :
    (c : ClockSync) (time : ℕ) → time < word → remote_to_local c (local_to_remote c time) ≡ time
unfolding remote_to_local local_to_remote
remote_to_local-local_to_remote c time h = ground arith

smooth_bound :
    (bound : ℕ) (old sample : ℤ)
    → old ≤ℤ pos bound
    → negsuc bound ≤ℤ old
    → sample ≤ℤ pos bound
    → negsuc bound ≤ℤ sample
    → (smooth old sample ≤ℤ pos bound) × (negsuc bound ≤ℤ smooth old sample)
unfolding smooth ◌+ℤ◌ ◌*ℤ◌
smooth_bound bound old sample a b c d = ground arith
