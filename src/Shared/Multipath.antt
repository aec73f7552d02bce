-- ===== src/Shared/Multipath.antt =====
-- shared/transport/multipath.cpp and multipath.hpp: several transports behind one, of which the one with
-- the lowest score is active.
pub mod Best
pub mod Polling
mod Tests
use ultra_display_os.Prelude.{
  ℕ, zero, suc, ◌+◌, ◌*◌, ◌%◌, ◌^◌, Bool, true, false, not, Option, none, some, List, [], ◌∷◌, ◌++◌,
  map, ltb, ◌==◌, if◌then◌else◌, get_elem?, set, length,
}
use ultra_display_os.Shared.Result.{Result, ok, err, system_error}
use ultra_display_os.Shared.Float.{Floats}
use ultra_display_os.Shared.Transport.{Transport}

pub record PathStats (Single : Type 0) : Type 0 where
  pub rtt_us : ℕ  -- uint32
  pub loss_percent : Single
  pub bandwidth_bps : ℕ  -- uint32
  pub is_active : Bool
  pub is_wifi : Bool

pub record PathInfo (Single T : Type 0) : Type 0 where
  pub transport : T
  pub stats : PathStats Single
  pub score : ℕ  -- uint32

pub record MultipathManager (Single T : Type 0) : Type 0 where
  pub paths : List (PathInfo Single T)
  pub active_path_idx : ℕ

abbrev pub max_score : ℕ
max_score = 0xffff_ffff

abbrev pub new : {Single T : Type 0} → MultipathManager Single T
new = record { paths = []; active_path_idx = 0 }

-- The choice that the loop of `evaluate_paths` makes, over the scores from index `i` on.
pub choose : ℕ → ℕ → ℕ → List ℕ → ℕ
choose i best_score best_idx [] = best_idx
choose i best_score best_idx (score ∷ scores) =
    let better = ltb score best_score in
    choose (i + 1) (if better then score else best_score) (if better then i else best_idx) scores

module _ (floats : Floats) where
  open floats use {Single, single_lit, single_to_uint32, mul_single}

  -- Sums of uint32_t wrap.
  pub calculate_score : PathStats Single → ℕ
  calculate_score s =
      if not s.is_active
      then max_score
      else let with_loss : ℕ =
          (s.rtt_us + single_to_uint32 (mul_single s.loss_percent (single_lit 10000 1))) % 2 ^ 32 in
        if s.is_wifi then (with_loss + 2000) % 2 ^ 32 else with_loss

  module _ {T : Type 0} (ops : Transport Single T) where
    -- The body of the loop of `evaluate_paths` on one path.
    pub refresh : PathInfo Single T → PathInfo Single T
    unfolding calculate_score
    refresh p =
        let stats = ops.stats p.transport in
        let updated = record (p.stats) {
          rtt_us = stats.rtt_us;
          loss_percent = stats.packet_loss_percent;
          bandwidth_bps = stats.bandwidth_est_bps % 2 ^ 32;
        } in
        record p { stats = updated; score = calculate_score updated }

    abbrev Manager : Type 0
    Manager = MultipathManager Single T

    pub evaluate : Manager → List (PathInfo Single T) → Manager
    unfolding refresh choose
    evaluate m [] = m
    evaluate m (p ∷ ps) =
        let refreshed = map refresh (p ∷ ps) in
        record {
          paths = refreshed;
          active_path_idx = choose 0 max_score 0 (map (λ q. q.score) refreshed);
        }

    pub evaluate_paths : Manager → Manager
    unfolding evaluate
    evaluate_paths m = evaluate m m.paths

    -- The two statistics that are not set here are those of the initialiser.
    pub add_path : Manager → T → Bool → Manager
    unfolding evaluate_paths
    add_path m transport is_wifi =
        let stats : PathStats Single = record {
          rtt_us = 0;
          loss_percent = single_lit 0 1;
          bandwidth_bps = 0;
          is_active = true;
          is_wifi = is_wifi;
        } in
        evaluate_paths (record m {
          paths = m.paths ++ (record { transport = transport; stats = stats; score = 0 } ∷ []);
        })

    -- `none`: the index lies outside the paths, which `Best` rules out.
    pub send : Manager → List ℕ → ℕ → Option (Result (Unit {0}) × Manager)
    send m payload stream_id =
        if length m.paths == 0
        then some (err system_error, m)
        else elim (get_elem? m.paths m.active_path_idx) [
          | none ↦ none
          | some p ↦
              let (res, t) = ops.send p.transport payload stream_id in
              some (
                res,
                record m { paths = set m.paths m.active_path_idx (record p { transport = t }) },
              )
        ]

    -- The fallback loop of `receive`, over the paths from index `i` on: what the first path that
    -- delivers has, and the paths after the calls.
    pub poll_others : ℕ → ℕ → List (PathInfo Single T) → Option (List ℕ) × List (PathInfo Single T)
    poll_others active i [] = (none, [])
    poll_others active i (p ∷ ps) =
        let rest = poll_others active (i + 1) ps in
        let (res, t) = ops.receive p.transport 0 in
        if i == active then (rest.0, p ∷ rest.1) else elim res [
          | ok received ↦ (some received, record p { transport = t } ∷ ps)
          | err e ↦ (rest.0, record p { transport = t } ∷ rest.1)
        ]

    pub receive : Manager → ℕ → Option (Result (List ℕ) × Manager)
    unfolding poll_others
    receive m timeout_us =
        if length m.paths == 0
        then some (err system_error, m)
        else elim (get_elem? m.paths m.active_path_idx) [
          | none ↦ none
          | some p ↦
              let (res, t) = ops.receive p.transport timeout_us in
              let paths = set m.paths m.active_path_idx (record p { transport = t }) in
              elim res [
                | ok received ↦ some (ok received, record m { paths = paths })
                | err e ↦
                    let (found, paths') = poll_others m.active_path_idx 0 paths in
                    some (
                      elim found [ none ↦ err e | some received ↦ ok received ],
                      record m { paths = paths' },
                    )
              ]
        ]

    pub get_path_stats : Manager → List (PathStats Single)
    get_path_stats m = map (λ p. p.stats) m.paths
