-- ===== src/Server/Adaptive/Tests.antt =====
-- A server with all codecs, and a client without AV1.
use ultra_display_os.Prelude.{
  ap, ◌≢◌, ℕ, ◌*◌, ◌/◌, ◌<◌, ◌≤◌, ◌≡◌, ◌⊎◌, refl, true, false, [], ◌∷◌, arith,
}
use ultra_display_os.Shared.CodecConfig.{h264, hevc, av1, codec_index, Capabilities}
use ultra_display_os.Server.Adaptive.{
  AdaptiveController, SceneFlags, new, init, same_codec, offers, next_codec, adapt_codec,
  adapt_bitrate, update_network_stats, clamp, distance,
}
use ultra_display_os.Server.Adaptive.Codec.{BothOffer, adapt_codec_lem}
use ultra_display_os.Server.Adaptive.Keyframes.{
  evaluate_frames, any_idr, evaluate_frames-any_idr, codec_change_idr_lost, EachGets,
}
use ultra_display_os.Server.Adaptive.Bitrate.{InRange, update_network_stats-InRange}

abbrev capabilities : ℕ → Capabilities
capabilities mask = record {
  max_width = 3840;
  max_height = 2160;
  max_fps = 60;
  supported_codecs_mask = mask;
  supports_10bit = true;
  supports_12bit = false;
  supports_lossless = true;
}

-- After `init` the codec is HEVC, the best that both offer.
abbrev controller : AdaptiveController
controller = record {
  server_caps = capabilities 0b1110;
  client_caps = capabilities 0b0110;
  bandwidth_est_bps = 0;
  current_config = record {
    codec = hevc;
    bitrate_bps = 5000000;
    framerate = 60;
    force_idr = true;
    enable_lossless = false;
    roi_qp_delta = 15;
  };
  frames_since_keyframe = 0;
  max_gop_size = 300;
}

abbrev four_fifths : ℕ → ℕ
four_fifths n = n * 4 / 5

init_test : init new (capabilities 0b1110) (capabilities 0b0110) ≡ controller
unfolding init adapt_codec next_codec same_codec offers codec_index
init_test = refl

update_test :
    (update_network_stats four_fifths controller 10000000).current_config.bitrate_bps ≡ 8000000
unfolding update_network_stats adapt_bitrate adapt_codec next_codec same_codec offers codec_index
update_test = refl

adapt_codec_lem_example :
    let config = (adapt_codec controller).current_config in
    ((config.enable_lossless ≡ true) × (2000000000 < 0) × (true ≡ true) × (true ≡ true))
    ⊎ ((config.enable_lossless ≡ false)
        × ¬ ((2000000000 < 0) × (true ≡ true) × (true ≡ true))
        × (((config.codec ≡ av1) × BothOffer controller av1)
            ⊎ ((config.codec ≡ hevc) × BothOffer controller hevc × ¬ BothOffer controller av1)
            ⊎ ((config.codec ≡ h264) × ¬ BothOffer controller av1 × ¬ BothOffer controller hevc)))
adapt_codec_lem_example = adapt_codec_lem controller

abbrev still : SceneFlags
still = record { trigger_keyframe = false; is_idle = true }

-- Two frames before the end of a group.
abbrev late : AdaptiveController
late = record controller { frames_since_keyframe = 298 }

evaluate_frames-any_idr_example : any_idr (evaluate_frames late (still ∷ still ∷ [])) ≡ true
evaluate_frames-any_idr_example =
    evaluate_frames-any_idr late (still ∷ still ∷ [])
      (record { counted = omega arith; fits = omega arith }) (omega arith)

-- The bandwidth falls and the codec changes from AV1 to what both offer.
abbrev falling : AdaptiveController
falling = record controller {
  current_config = record (controller.current_config) { codec = av1; force_idr = false };
}

falling_changes : (update_network_stats four_fifths falling 3000000).current_config.codec ≢ av1
unfolding update_network_stats adapt_bitrate adapt_codec next_codec same_codec offers codec_index
falling_changes e = omega (arith, ap codec_index e)

codec_change_idr_lost_example :
    let c' = update_network_stats four_fifths falling 3000000 in
    (c'.current_config.force_idr ≡ true)
    × EachGets c'.current_config.codec (evaluate_frames c' (still ∷ still ∷ []))
codec_change_idr_lost_example =
    codec_change_idr_lost four_fifths falling 3000000 (still ∷ still ∷ []) (omega arith)
      (omega arith) (refl, (refl, tt)) falling_changes

update_network_stats-InRange_test :
    let bandwidth : ℕ = 10000000 in
    let c' = update_network_stats four_fifths controller bandwidth in
    InRange c'
    × (((0 < bandwidth)
          × (distance (clamp 8000000 1000000 150000000) c'.current_config.bitrate_bps ≤ 1000000))
        ⊎ ((bandwidth ≡ 0) × (c'.current_config.bitrate_bps ≡ 5000000)))
update_network_stats-InRange_test =
    update_network_stats-InRange four_fifths controller 10000000 (omega arith, omega arith)
