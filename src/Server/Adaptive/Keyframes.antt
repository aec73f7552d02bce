-- ===== src/Server/Adaptive/Keyframes.antt =====
-- When the encoder is told to make a keyframe.
use ultra_display_os.Prelude.{
  ℕ, ◌+◌, ◌%◌, ◌^◌, ◌≤◌, ◌<◌, ◌≡◌, inl, inr, refl, arith, leb, List, [], ◌∷◌, Bool, true, false,
  ◌||◌, length, Bool-cases, ◌≢◌,
}
use ultra_display_os.Shared.CodecConfig.{VideoCodec}
use ultra_display_os.Server.Adaptive.{
  AdaptiveController, EncoderConfig, SceneFlags, update_network_stats, evaluate_frame, adapt_codec,
  adapt_bitrate,
}

-- Frames are counted below the group's size, which the counter can hold.
pub record IsValid (c : AdaptiveController) : Type 0 where
  pub counted : c.frames_since_keyframe < c.max_gop_size
  pub fits : c.max_gop_size < 2 ^ 32

pub evaluate_frame-IsValid :
    (c : AdaptiveController) (scene : SceneFlags) → IsValid c → IsValid (evaluate_frame c scene).0
unfolding evaluate_frame
evaluate_frame-IsValid c scene v = ground arith

-- The configurations that a run of frames gets.
pub evaluate_frames : AdaptiveController → List SceneFlags → List EncoderConfig
evaluate_frames c [] = []
evaluate_frames c (scene ∷ scenes) =
    let (c', config) = evaluate_frame c scene in config ∷ evaluate_frames c' scenes

pub any_idr : List EncoderConfig → Bool
any_idr [] = false
any_idr (config ∷ configs) = config.force_idr || any_idr configs

-- Whatever the scenes, a keyframe is asked for within the frames that are left of the group: so
-- in any run of as many frames as the group's size.
pub evaluate_frames-any_idr :
    (c : AdaptiveController) (scenes : List SceneFlags)
    → IsValid c
    → c.max_gop_size ≤ c.frames_since_keyframe + length scenes
    → any_idr (evaluate_frames c scenes) ≡ true
unfolding evaluate_frames any_idr evaluate_frame
evaluate_frames-any_idr c [] v h = absurd (omega (arith, v.counted))
evaluate_frames-any_idr c (scene ∷ scenes) v h =
    elim (Bool-cases
      (scene.trigger_keyframe || leb c.max_gop_size ((c.frames_since_keyframe + 1) % 2 ^ 32))) [
        | inl e ↦ rw e refl
        | inr e ↦
            let rest =
              evaluate_frames-any_idr (evaluate_frame c scene).0 scenes
                (evaluate_frame-IsValid c scene v) (ground arith) in
            rw e (rw e at rest)
      ]

-- No scene of the list asks for a keyframe.
abbrev pub AllStill : List SceneFlags → Type 0
AllStill [] = Unit {0}
AllStill (scene ∷ scenes) = (scene.trigger_keyframe ≡ false) × AllStill scenes

-- Each configuration has the codec, and asks for no keyframe.
abbrev pub EachGets : VideoCodec → List EncoderConfig → Type 0
EachGets codec [] = Unit {0}
EachGets codec (config ∷ configs) =
    (config.force_idr ≡ false) × (config.codec ≡ codec) × EachGets codec configs

evaluate_frames-EachGets :
    (c : AdaptiveController) (scenes : List SceneFlags) (codec : VideoCodec)
    → c.current_config.codec ≡ codec
    → c.frames_since_keyframe + length scenes < c.max_gop_size
    → c.max_gop_size < 2 ^ 32
    → AllStill scenes
    → EachGets codec (evaluate_frames c scenes)
unfolding evaluate_frames evaluate_frame
evaluate_frames-EachGets c [] codec same h k s = tt
evaluate_frames-EachGets c (scene ∷ scenes) codec same h k s =
    let no_idr : (scene.trigger_keyframe
          || leb c.max_gop_size ((c.frames_since_keyframe + 1) % 2 ^ 32))
        ≡ false =
      ground (arith, s.0) in
    let next = (evaluate_frame c scene).0 in
    let counted : next.frames_since_keyframe ≡ c.frames_since_keyframe + 1 =
      ground (arith, no_idr) in
    (no_idr, same, evaluate_frames-EachGets next scenes codec same (omega (arith, counted)) k s.1)

update_network_stats-force_idr :
    (four_fifths : ℕ → ℕ) (c : AdaptiveController) (bandwidth : ℕ)
    → (update_network_stats four_fifths c bandwidth).current_config.codec ≢ c.current_config.codec
    → (update_network_stats four_fifths c bandwidth).current_config.force_idr ≡ true
unfolding update_network_stats adapt_codec adapt_bitrate
update_network_stats-force_idr four_fifths c bandwidth changed = ground arith

update_network_stats-counts :
    (four_fifths : ℕ → ℕ) (c : AdaptiveController) (bandwidth : ℕ)
    → let c' = update_network_stats four_fifths c bandwidth in
      (c'.frames_since_keyframe ≡ c.frames_since_keyframe) × (c'.max_gop_size ≡ c.max_gop_size)
unfolding update_network_stats adapt_codec adapt_bitrate
update_network_stats-counts four_fifths c bandwidth = ground arith

-- An update of the statistics that changes the codec asks for a keyframe; but as long as no scene asks for one, and
-- the group has frames left, every frame gets the new codec, and none a keyframe.
pub codec_change_idr_lost :
    (four_fifths : ℕ → ℕ) (c : AdaptiveController) (bandwidth : ℕ) (scenes : List SceneFlags)
    → c.frames_since_keyframe + length scenes < c.max_gop_size
    → c.max_gop_size < 2 ^ 32
    → AllStill scenes
    → (update_network_stats four_fifths c bandwidth).current_config.codec ≢ c.current_config.codec
    → let c' = update_network_stats four_fifths c bandwidth in
      (c'.current_config.force_idr ≡ true)
      × EachGets c'.current_config.codec (evaluate_frames c' scenes)
codec_change_idr_lost four_fifths c bandwidth scenes h k s changed =
    let c' = update_network_stats four_fifths c bandwidth in
    let (frames, size) = update_network_stats-counts four_fifths c bandwidth in
    (
      update_network_stats-force_idr four_fifths c bandwidth changed,
      evaluate_frames-EachGets c' scenes c'.current_config.codec refl (omega (arith, frames, size))
          (omega (arith, size)) s,
    )
