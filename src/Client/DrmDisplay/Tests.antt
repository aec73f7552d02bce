-- ===== src/Client/DrmDisplay/Tests.antt =====
-- A device with two connectors.
use ultra_display_os.Prelude.{◌≡◌, refl, true, false, [], ◌∷◌, none, some}
use ultra_display_os.Client.DrmDisplay.{
  DrmContext, blank, Connector, Resources, usable, first_connected, crtc_of, fallback, first_plane,
  choose, drm_init, planes_of, drm_scanout_dmabuf, drm_move_cursor, drm_cleanup,
}
use ultra_display_os.Client.DrmDisplay.Descriptor.{Ends, drm_init-Ends}

abbrev unplugged : Connector
unplugged = record { connector_id = 7; encoder_id = 1; connected = false; first_mode = none }

abbrev plugged : Connector
plugged = record { connector_id = 8; encoder_id = 2; connected = true; first_mode = some 0 }

abbrev resources : Resources
resources = record {
  connectors = none ∷ some unplugged ∷ some plugged ∷ [];
  encoders = some (record { encoder_id = 1; crtc_id = 3 }) ∷ [];
  crtcs = 4 ∷ 5 ∷ [];
  planes = none ∷ some 9 ∷ some 10 ∷ [];
}

abbrev shown : DrmContext
shown = record blank {
  fd = some 6;
  open_fd = some 6;
  connector_id = 8;
  crtc_id = 4;
  primary_plane_id = 9;
}

drm_init_test : drm_init (some 6) true (some resources) ≡ (true, shown)
unfolding drm_init choose first_connected usable crtc_of fallback first_plane
drm_init_test = refl

planes_test : (planes_of true 1920 1080).offsets ≡ 0 ∷ 2_073_600 ∷ []
unfolding planes_of
planes_test = refl

calls_test :
    (drm_scanout_dmabuf shown true false ≡ false)
    × (drm_move_cursor shown ≡ false)
    × ((drm_cleanup shown).open_fd ≡ none)
unfolding drm_scanout_dmabuf drm_move_cursor drm_cleanup
calls_test = (refl, refl, refl)

drm_init-Ends_test :
    Ends 6
      (some unplugged ∷ [])
      (drm_init (some 6) true (some (record resources { connectors = some unplugged ∷ [] })))
drm_init-Ends_test = drm_init-Ends 6 (record resources { connectors = some unplugged ∷ [] })
