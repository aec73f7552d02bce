-- ===== src/Shared/AudioFormat.antt =====
-- shared/audio/audio_pipeline.hpp: the format of samples.
use ultra_display_os.Prelude.{ℕ}

pub record AudioFormat : Type 0 where
  pub sample_rate : ℕ  -- uint32
  pub channels : ℕ  -- uint8
  pub bit_depth : ℕ  -- uint8

-- The format without arguments.
abbrev pub no_format : AudioFormat
no_format = record { sample_rate = 0; channels = 0; bit_depth = 0 }
