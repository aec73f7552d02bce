-- ===== src/Server/ColorConverter/Tests.antt =====
-- A converter of a desktop that shrinks.
use ultra_display_os.Prelude.{◌≡◌, refl, true, false, some}
use ultra_display_os.Shared.Result.{ok}
use ultra_display_os.Server.ColorConverter.{
  Size, Texture, ColorConverter, new, init, all_succeed, create_output, ensure_output_texture, blt,
  convert,
}
use ultra_display_os.Server.ColorConverter.Sizes.{Returns, after_hdr, stale_texture}

abbrev large : Size
large = record { width = 1920; height = 1080 }

abbrev small : Size
small = record { width = 1280; height = 720 }

abbrev ready : ColorConverter
ready = record new { video_device = true; video_context = true }

init_test : init new true true ≡ (ok tt, ready)
unfolding init
init_test = refl

abbrev large_texture : Texture
large_texture = record { size = large; is_p010 = false }

abbrev converted : ColorConverter
converted = record ready {
  video_enum = some large;
  video_processor = some large;
  nv12_texture = some large_texture;
  current = large;
}

convert_test : convert ready large false all_succeed ≡ (ok (some large_texture), converted)
unfolding convert ensure_output_texture create_output blt
convert_test = refl

-- When the smaller texture cannot be created, the next call returns the larger one.
failed_test :
    (convert
      (convert converted small false (record all_succeed { texture = false })).1
      small
      false
      all_succeed).0
    ≡ ok (some large_texture)
unfolding convert ensure_output_texture create_output blt
failed_test = refl

stale_texture_example :
    Returns large_texture (convert (after_hdr converted small) small false all_succeed)
stale_texture_example = stale_texture converted large_texture small refl refl refl
