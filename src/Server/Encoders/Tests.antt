-- ===== src/Server/Encoders/Tests.antt =====
-- Sessions of the three vendors.
use ultra_display_os.Prelude.{
  ℕ, ◌≡◌, ◌/◌, ◌<◌, ◌↔◌, refl, Bool, true, false, List, [], ◌∷◌, Option, none, some,
}
use ultra_display_os.Shared.Result.{ok, err, not_implemented, system_error}
use ultra_display_os.Shared.CodecConfig.{h264, av1}
use ultra_display_os.Server.Adaptive.{EncoderConfig}
use ultra_display_os.Server.Encoders.{
  qsv, Libraries, is_qsv_available, create, get_codec_guid, amf_codec_id, qsv_codec_id, new_nvenc,
  nvenc_params, nvenc_reconfigure, nvenc_init, NvencCalls, nvenc_packets, encode_registered,
  nvenc_encode, Amf, new_amf, amf_reconfigure, amf_init, new_qsv, qsv_params,
}
use ultra_display_os.Server.Encoders.Frames.{
  encoded, AllOf, encoded_first, amf_packets, qsv_packets, NumberedFrom, packets-NumberedFrom,
}
use ultra_display_os.Server.Encoders.Streams.{qsv_bitrate}

abbrev intel : Libraries
intel = record { nv_encode_api = false; amfrt = false; libmfxhw = false; libvpl = true }

abbrev config : EncoderConfig
config = record {
  codec = av1;
  bitrate_bps = 100_000_000;
  framerate = 60;
  force_idr = true;
  enable_lossless = false;
  roi_qp_delta = 0;
}

create_test :
    (create intel av1 ≡ ok qsv)
    × (create (record intel { libvpl = false }) av1 ≡ err not_implemented)
unfolding create is_qsv_available
create_test = (refl, refl)

-- 100 Mbit/s become 34.464.
qsv_test : (qsv_params config).bitrate ≡ 34_464
unfolding qsv_params
qsv_test = refl

nvenc_test : (nvenc_init new_nvenc true config true false).0 ≡ ok tt
unfolding nvenc_init nvenc_reconfigure nvenc_params
nvenc_test = refl

amf_test :
    (amf_init new_amf config false true ≡ some (err system_error, new_amf))
    × (amf_reconfigure new_amf config true ≡ none)
unfolding amf_init amf_reconfigure
amf_test = (refl, refl)

abbrev fine : NvencCalls
fine = record {
  registers = true;
  maps = true;
  encodes = true;
  bitstream = some (1 ∷ 2 ∷ [], true, 65_537);
}

encoded_test : encoded new_nvenc ((7, fine) ∷ (8, fine) ∷ []) ≡ some 7 ∷ some 7 ∷ []
unfolding encoded nvenc_encode encode_registered nvenc_packets
encoded_test = refl

packet_test :
    nvenc_packets (some (1 ∷ [], true, 65_537))
    ≡ record { bytes = 1 ∷ []; is_keyframe = true; frame_number = 1 } ∷ []
unfolding nvenc_packets
packet_test = refl

encoded_first_example : AllOf 7 (encoded new_nvenc ((7, fine) ∷ (8, fine) ∷ []))
encoded_first_example = encoded_first new_nvenc 7 fine ((8, fine) ∷ []) refl

abbrev later : Amf
later = record new_amf { frame_count = 65_535 }

abbrev outputs : List (Bool × Bool × Option (List ℕ × Bool))
outputs =
    (true, true, some (1 ∷ [], true))
    ∷ (true, false, none)
    ∷ (true, true, some (2 ∷ [], false))
    ∷ []

packets-NumberedFrom_test :
    NumberedFrom 65_535 (amf_packets later outputs)
    × NumberedFrom 0 (qsv_packets new_qsv (none ∷ some (1 ∷ [], false) ∷ []))
packets-NumberedFrom_test =
    packets-NumberedFrom later new_qsv outputs (none ∷ some (1 ∷ [], false) ∷ [])

qsv_bitrate_test :
    ((qsv_params config).bitrate ≡ config.bitrate_bps / 1000) ↔ (config.bitrate_bps < 65_536_000)
qsv_bitrate_test = qsv_bitrate config

codec_test : (get_codec_guid av1 ≡ av1) × (amf_codec_id av1 ≡ av1) × (qsv_codec_id av1 ≡ h264)
unfolding get_codec_guid amf_codec_id qsv_codec_id
codec_test = (refl, refl, refl)
