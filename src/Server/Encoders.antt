-- ===== src/Server/Encoders.antt =====
-- server/encoder/encoder_factory.cpp, nvenc_encoder.cpp, amf_encoder.cpp and qsv_encoder.cpp: sessions of the
-- encoders of three vendors. What a call of a vendor's library comes back with is an argument.
pub mod Frames
pub mod Streams
mod Tests
use ultra_display_os.Prelude.{
  ℕ, zero, suc, ◌+◌, ◌*◌, ◌/◌, ◌%◌, ◌^◌, Bool, true, false, ◌&&◌, ◌||◌, List, [], ◌∷◌,
  if◌then◌else◌, Option, none, some,
}
use ultra_display_os.Shared.Result.{Result, ok, err, not_implemented, system_error}
use ultra_display_os.Shared.CodecConfig.{VideoCodec, auto, h264, hevc, av1, raw_rgb}
use ultra_display_os.Server.Adaptive.{EncoderConfig}

pub data Vendor : Type 0 where
  nvenc amf qsv : Vendor

-- Whether the library of the name loads: nvEncodeAPI64, amfrt64, libmfxhw64, libvpl.
pub record Libraries : Type 0 where
  pub nv_encode_api : Bool
  pub amfrt : Bool
  pub libmfxhw : Bool
  pub libvpl : Bool

pub is_qsv_available : Libraries → Bool
is_qsv_available libs = if libs.libmfxhw then true else libs.libvpl

pub create : Libraries → VideoCodec → Result Vendor
unfolding is_qsv_available
create libs codec =
    if libs.nv_encode_api
    then ok nvenc
    else if libs.amfrt
    then ok amf
    else if is_qsv_available libs
    then ok qsv
    else err not_implemented

pub record EncodedPacket : Type 0 where
  pub bytes : List ℕ
  pub is_keyframe : Bool
  pub frame_number : ℕ  -- uint16

-- The codec of the stream that a session is set to, by the vendor's constants: H.264, HEVC and AV1.
pub get_codec_guid : VideoCodec → VideoCodec
get_codec_guid hevc = hevc
get_codec_guid av1 = av1
get_codec_guid auto = h264
get_codec_guid h264 = h264
get_codec_guid raw_rgb = h264

pub amf_codec_id : VideoCodec → VideoCodec
amf_codec_id hevc = hevc
amf_codec_id av1 = av1
amf_codec_id auto = h264
amf_codec_id h264 = h264
amf_codec_id raw_rgb = h264

pub qsv_codec_id : VideoCodec → VideoCodec
qsv_codec_id hevc = hevc
qsv_codec_id auto = h264
qsv_codec_id h264 = h264
qsv_codec_id av1 = h264
qsv_codec_id raw_rgb = h264

-- What a session is set to. A length of the group of pictures is `none` when it is endless: that is
-- NVENC_INFINITE_GOPLENGTH, and 0xFFFF of the field of QSV.
pub record Params : Type 0 where
  pub codec : VideoCodec
  pub bitrate : ℕ
  pub framerate : ℕ
  pub gop_length : Option ℕ

-- `encoder_`, with the parameters that it was last initialised with; textures are known by numbers.
pub record Nvenc : Type 0 where
  pub session : Bool
  pub params : Option Params
  pub registered_resource : Option ℕ
  pub bitstream_buffer : Bool

abbrev pub new_nvenc : Nvenc
new_nvenc = record {
  session = false;
  params = none;
  registered_resource = none;
  bitstream_buffer = false;
}

pub nvenc_params : EncoderConfig → Params
unfolding get_codec_guid
nvenc_params config = record {
  codec = get_codec_guid config.codec;
  bitrate = config.bitrate_bps;
  framerate = config.framerate;
  gop_length = if config.force_idr then some 1 else none;
}

-- The outcomes of nvEncInitializeEncoder, and of the creation of the buffer.
pub nvenc_reconfigure : Nvenc → EncoderConfig → Bool → Bool → Result (Unit {0}) × Nvenc
unfolding nvenc_params
nvenc_reconfigure t config false buffer = (err system_error, t)
nvenc_reconfigure t config true buffer = (
  ok tt,
  record t { params = some (nvenc_params config); bitstream_buffer = t.bitstream_buffer || buffer },
)

pub nvenc_init : Nvenc → Bool → EncoderConfig → Bool → Bool → Result (Unit {0}) × Nvenc
unfolding nvenc_reconfigure
nvenc_init t false config initialised buffer = (err system_error, t)
nvenc_init t true config initialised buffer =
    nvenc_reconfigure (record t { session = true }) config initialised buffer

-- The outcomes of the calls of an `encode`. A bitstream that cannot be locked is `none`; a packet has its bytes,
-- whether its picture is an IDR, and the index of its frame.
pub record NvencCalls : Type 0 where
  pub registers : Bool
  pub maps : Bool
  pub encodes : Bool
  pub bitstream : Option (List ℕ × Bool × ℕ)

pub nvenc_packets : Option (List ℕ × Bool × ℕ) → List EncodedPacket
nvenc_packets none = []
nvenc_packets (some (bytes, is_idr, frame_idx)) =
    record { bytes = bytes; is_keyframe = is_idr; frame_number = frame_idx % 2 ^ 16 } ∷ []

-- The encoding of the resource that is registered. The second result is the texture that is encoded.
pub encode_registered : ℕ → NvencCalls → Result (List EncodedPacket) × Option ℕ
unfolding nvenc_packets
encode_registered resource calls =
    if calls.maps
    then (if calls.encodes
        then (ok (nvenc_packets calls.bitstream), some resource)
        else (err system_error, none))
    else (err system_error, none)

-- `nv12_texture` is registered if no texture was.
pub nvenc_encode : Nvenc → ℕ → NvencCalls → (Result (List EncodedPacket) × Option ℕ) × Nvenc
unfolding encode_registered
nvenc_encode t nv12_texture calls = elim t.registered_resource [
  | none ↦
      if calls.registers
      then (
        encode_registered nv12_texture calls,
        record t { registered_resource = some nv12_texture },
      )
      else ((err system_error, none), t)
  | some resource ↦ (encode_registered resource calls, t)
]

pub record Amf : Type 0 where
  pub encoder : Option VideoCodec
  pub params : Option Params
  pub force_picture_type : Bool
  pub encoder_initialized : Bool
  pub frame_count : ℕ  -- uint32

abbrev pub new_amf : Amf
new_amf = record {
  encoder = none;
  params = none;
  force_picture_type = false;
  encoder_initialized = false;
  frame_count = 0;
}

-- `codec` is that of the component: it stays when the configuration has another.
pub amf_params : VideoCodec → EncoderConfig → Params
amf_params codec config = record {
  codec = codec;
  bitrate = config.bitrate_bps;
  framerate = config.framerate;
  gop_length = none;
}

-- `none` is a null pointer that is followed: that of the component.
pub amf_reconfigure : Amf → EncoderConfig → Bool → Option (Result (Unit {0}) × Amf)
unfolding amf_params
amf_reconfigure t config initialised = elim t.encoder [
  | none ↦ none
  | some codec ↦
      let set : Amf = record t {
        params = some (amf_params codec config);
        force_picture_type = config.force_idr || t.force_picture_type;
      } in
      if t.encoder_initialized
      then some (ok tt, set)
      else (if initialised
          then some (ok tt, record set { encoder_initialized = true })
          else some (err system_error, set))
]

-- The pointer of the component is released before it is created.
pub amf_init : Amf → EncoderConfig → Bool → Bool → Option (Result (Unit {0}) × Amf)
unfolding amf_reconfigure amf_codec_id
amf_init t config false initialised = some (err system_error, record t { encoder = none })
amf_init t config true initialised =
    amf_reconfigure (record t { encoder = some (amf_codec_id config.codec) }) config initialised

-- A packet that is numbered by the frames that were returned before.
pub numbered : ℕ → List ℕ → Bool → EncodedPacket
numbered frame_count bytes is_idr = record {
  bytes = bytes;
  is_keyframe = is_idr;
  frame_number = frame_count % 2 ^ 16;
}

-- The outcomes of CreateSurfaceFromDX11Native and SubmitInput, and the buffer that QueryOutput gives, if any.
pub amf_encode : Amf → Bool → Bool → Option (List ℕ × Bool) → Result (List EncodedPacket) × Amf
unfolding numbered
amf_encode t false submitted output = (err system_error, t)
amf_encode t true false output = (err system_error, t)
amf_encode t true true none = (ok [], t)
amf_encode t true true (some (bytes, is_idr)) = (
  ok (numbered t.frame_count bytes is_idr ∷ []),
  record t { frame_count = (t.frame_count + 1) % 2 ^ 32 },
)

pub record Qsv : Type 0 where
  pub params : Option Params
  pub encoder_initialized : Bool
  pub max_length : ℕ
  pub frame_count : ℕ  -- uint32

abbrev pub new_qsv : Qsv
new_qsv = record { params = none; encoder_initialized = false; max_length = 0; frame_count = 0 }

-- TargetKbps has 16 bits.
pub qsv_params : EncoderConfig → Params
unfolding qsv_codec_id
qsv_params config = record {
  codec = qsv_codec_id config.codec;
  bitrate = config.bitrate_bps / 1000 % 2 ^ 16;
  framerate = config.framerate;
  gop_length = if config.force_idr then some 1 else none;
}

-- The outcome of MFXVideoENCODE_Init with the size of the buffer in KB, or of MFXVideoENCODE_Reset, which is
-- not looked at: the parameters stay when it fails.
pub qsv_reconfigure : Qsv → EncoderConfig → Bool → ℕ → Result (Unit {0}) × Qsv
unfolding qsv_params
qsv_reconfigure t config success kb =
    if t.encoder_initialized
    then (ok tt, if success then record t { params = some (qsv_params config) } else t)
    else (if success
        then (
          ok tt,
          record t {
            params = some (qsv_params config);
            encoder_initialized = true;
            max_length = kb * 1000;
          },
        )
        else (err system_error, t))

-- The frame that EncodeFrameAsync gives, if its status is good and there is a sync point.
pub qsv_encode : Qsv → Option (List ℕ × Bool) → Result (List EncodedPacket) × Qsv
unfolding numbered
qsv_encode t none = (ok [], t)
qsv_encode t (some (bytes, is_idr)) = (
  ok (numbered t.frame_count bytes is_idr ∷ []),
  record t { frame_count = (t.frame_count + 1) % 2 ^ 32 },
)
