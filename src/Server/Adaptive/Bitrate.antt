-- ===== src/Server/Adaptive/Bitrate.antt =====
-- The bitrate that the controller asks of the encoder.
use ultra_display_os.Prelude.{ℕ, ◌≤◌, ◌<◌, ◌≡◌, ◌⊎◌, arith}
use ultra_display_os.Shared.CodecConfig.{Capabilities}
use ultra_display_os.Server.Adaptive.{
  AdaptiveController, init, adapt_codec, adapt_bitrate, update_network_stats, clamp, distance,
}

abbrev pub InRange : AdaptiveController → Type 0
InRange c = (1000000 ≤ c.current_config.bitrate_bps) × (c.current_config.bitrate_bps ≤ 150000000)

bitrate-adapt_codec :
    (c : AdaptiveController)
    → (adapt_codec c).current_config.bitrate_bps ≡ c.current_config.bitrate_bps
unfolding adapt_codec
bitrate-adapt_codec c = ground arith

pub init-InRange :
    (c : AdaptiveController) (server client : Capabilities) → InRange (init c server client)
unfolding init
init-InRange c server client = omega (arith, bitrate-adapt_codec _)

module _ (four_fifths : ℕ → ℕ) where
  -- From any configuration within the range of the bitrates, an update stays within it. With bandwidth
  -- estimated, the bitrate ends up within 1 Mbit/s of the clamped four fifths of it; without, it stays.
  pub update_network_stats-InRange :
      (c : AdaptiveController) (bandwidth : ℕ)
      → InRange c
      → let c' = update_network_stats four_fifths c bandwidth in
        InRange c'
        × (((0 < bandwidth)
              × (distance
                    (clamp (four_fifths bandwidth) 1000000 150000000)
                    c'.current_config.bitrate_bps
                  ≤ 1000000))
            ⊎ ((bandwidth ≡ 0) × (c'.current_config.bitrate_bps ≡ c.current_config.bitrate_bps)))
  unfolding update_network_stats adapt_bitrate
  update_network_stats-InRange c bandwidth v = ground (
    arith,
    bitrate-adapt_codec (adapt_bitrate four_fifths (record c { bandwidth_est_bps = bandwidth })),
  )
