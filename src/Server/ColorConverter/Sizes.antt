-- ===== src/Server/ColorConverter/Sizes.antt =====
-- The sizes of the textures of server/encoder/d3d11_color_convert.cpp.
use ultra_display_os.Prelude.{◌≡◌, ap, Bool, true, false, ◌&&◌, if-Is, Option, none, some, arith}
use ultra_display_os.Shared.Result.{Result, ok, err}
use ultra_display_os.Server.ColorConverter.{
  Size, Texture, ColorConverter, all_succeed, same_size, is_some, output_texture, create_output,
  ensure_output_texture, blt, convert,
}

-- The texture of the mode, if there is one, is one of the current size and of that mode.
abbrev Fits : Bool → Size → Option Texture → Type 0
Fits is_hdr current none = Unit
Fits is_hdr current (some x) = (same_size current x.size ≡ true) × (x.is_p010 ≡ is_hdr)

abbrev pub Usable : Bool → ColorConverter → Type 0
Usable is_hdr t =
    (t.video_device && t.video_context ≡ true) × Fits is_hdr t.current (output_texture t is_hdr)

-- A result with a texture of the size and the mode, and a converter that stays usable.
abbrev pub Converted : Bool → Size → Result (Option Texture) × ColorConverter → Type 0
Converted is_hdr src (ok none, t) = ⊥
Converted is_hdr src (ok (some x), t) =
    (same_size src x.size ≡ true) × (x.is_p010 ≡ is_hdr) × Usable is_hdr t
Converted is_hdr src (err e, t) = ⊥

-- The old texture `x` is returned.
abbrev pub Returns : Texture → Result (Option Texture) × ColorConverter → Type 0
Returns x (ok y, t) = y ≡ some x
Returns x (err e, t) = ⊥

-- The converter after a texture of the other mode was made.
abbrev pub after_hdr : ColorConverter → Size → ColorConverter
after_hdr t src = (convert t src true all_succeed).1

abbrev Kept : Texture → Size → ColorConverter → Type 0
Kept x src t =
    (t.video_device && t.video_context ≡ true)
    × (t.nv12_texture ≡ some x)
    × (same_size t.current src ≡ true)

after_hdr-Kept :
    (t : ColorConverter) (x : Texture) (src : Size)
    → t.video_device && t.video_context ≡ true
    → t.nv12_texture ≡ some x
    → same_size t.current src ≡ false
    → Kept x src (after_hdr t src)
unfolding convert ensure_output_texture blt create_output
after_hdr-Kept t x src h e differs =
    if-Is (λ (r : Result (Option Texture) × ColorConverter). Kept x src r.1)
      (t.video_device && t.video_context)
      (λ ready.
        if-Is (λ (r : Result (Unit {0}) × ColorConverter). Kept x src (blt r true all_succeed).1)
          (same_size t.current src && is_some t.p010_texture) (λ same. absurd (ground arith))
          (λ other. (h, e, ground arith)))
      (λ n. absurd (cc (h, n)))

Kept-Returns :
    (t : ColorConverter) (x : Texture) (src : Size)
    → Kept x src t
    → Returns x (convert t src false all_succeed)
unfolding convert ensure_output_texture blt
Kept-Returns t x src (h, e, same) =
    if-Is (Returns x) (t.video_device && t.video_context)
      (λ ready.
        if-Is (λ r. Returns x (blt r false all_succeed))
          (same_size t.current src && is_some t.nv12_texture) (λ cached. e)
          (λ n. absurd (cc (ap is_some e, same, n))))
      (λ n. absurd (cc (h, n)))

-- The size changes in a call for P010. The next call, for NV12 at the new size, returns the NV12 texture of the
-- size before, though no call of the system has failed.
pub stale_texture :
    (t : ColorConverter) (x : Texture) (src : Size)
    → t.video_device && t.video_context ≡ true
    → t.nv12_texture ≡ some x
    → same_size t.current src ≡ false
    → Returns x (convert (after_hdr t src) src false all_succeed)
stale_texture t x src h e differs =
    Kept-Returns (after_hdr t src) x src (after_hdr-Kept t x src h e differs)
