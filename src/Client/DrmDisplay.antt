-- ===== src/Client/DrmDisplay.antt =====
-- client/compositor/drm_display.c and its header: the display of a client, by the mode setting of Linux. What a call
-- of the system comes back with is an argument. An id 0 is none.
pub mod Descriptor
mod Tests
use ultra_display_os.Prelude.{
  ℕ, ◌*◌, ◌%◌, ◌^◌, Bool, true, false, ◌&&◌, List, [], ◌∷◌, ◌==◌, ltb, if◌then◌else◌, Option, none,
  some,
}

-- `fd` is none below 0. The mode is that of the connector, by its number. `open_fd` is the system's: whether the
-- descriptor is open.
pub record DrmContext : Type 0 where
  pub fd : Option ℕ
  pub connector_id : ℕ
  pub crtc_id : ℕ
  pub primary_plane_id : ℕ
  pub cursor_plane_id : ℕ
  pub mode : ℕ
  pub open_fd : Option ℕ

abbrev pub blank : DrmContext
blank = record {
  fd = some 0;
  connector_id = 0;
  crtc_id = 0;
  primary_plane_id = 0;
  cursor_plane_id = 0;
  mode = 0;
  open_fd = none;
}

-- Of drmModeConnector: its first mode, if it has modes.
pub record Connector : Type 0 where
  pub connector_id : ℕ
  pub encoder_id : ℕ
  pub connected : Bool
  pub first_mode : Option ℕ

pub record Encoder : Type 0 where
  pub encoder_id : ℕ
  pub crtc_id : ℕ

-- Of the resources, what can be got of them.
pub record Resources : Type 0 where
  pub connectors : List (Option Connector)
  pub encoders : List (Option Encoder)
  pub crtcs : List ℕ
  pub planes : List (Option ℕ)

-- The test of a connector: it, with its first mode.
pub usable : Connector → Option (Connector × ℕ)
usable c = if c.connected then elim c.first_mode [ none ↦ none | some m ↦ some (c, m) ] else none

-- The loop over the connectors.
pub first_connected : List (Option Connector) → Option (Connector × ℕ)
unfolding usable
first_connected [] = none
first_connected (none ∷ cs) = first_connected cs
first_connected (some c ∷ cs) = elim (usable c) [
  | none ↦ first_connected cs
  | some found ↦ some found
]

-- The loop over the encoders: the CRTC of the connector's encoder, or 0.
pub crtc_of : ℕ → List (Option Encoder) → ℕ
crtc_of id [] = 0
crtc_of id (none ∷ es) = crtc_of id es
crtc_of id (some e ∷ es) = if e.encoder_id == id then e.crtc_id else crtc_of id es

-- The first CRTC, if none is bound.
pub fallback : ℕ → List ℕ → ℕ
fallback id [] = id
fallback id (c ∷ crtcs) = if id == 0 then c else id

-- The loop over the planes, which can be none.
pub first_plane : ℕ → List (Option ℕ) → ℕ
first_plane id [] = id
first_plane id (none ∷ planes) = first_plane id planes
first_plane id (some p ∷ planes) = first_plane (if id == 0 then p else id) planes

-- From the resources on.
pub choose : DrmContext → Resources → Option (Connector × ℕ) → Bool × DrmContext
unfolding crtc_of fallback first_plane
choose ctx res none = (false, ctx)
choose ctx res (some (conn, m)) = (
  true,
  record ctx {
    connector_id = conn.connector_id;
    mode = m;
    crtc_id = fallback (crtc_of conn.encoder_id res.encoders) res.crtcs;
    primary_plane_id = first_plane 0 res.planes;
  },
)

-- The context is cleared first, whatever it was. `opened` is the descriptor, if it can be opened.
pub drm_init : Option ℕ → Bool → Option Resources → Bool × DrmContext
unfolding choose first_connected
drm_init none atomic res = (false, record blank { fd = none })
drm_init (some d) false res = (false, record blank { fd = some d })
drm_init (some d) true none = (false, record blank { fd = some d })
drm_init (some d) true (some res) =
    choose (record blank { fd = some d; open_fd = some d }) res (first_connected res.connectors)

-- The second plane of the framebuffer begins where the first ends. The numbers have 32 bits.
pub record Planes : Type 0 where
  pub pitches : List ℕ
  pub offsets : List ℕ

pub planes_of : Bool → ℕ → ℕ → Planes
planes_of is_nv12 width height =
    if is_nv12
    then record { pitches = width ∷ width ∷ []; offsets = 0 ∷ width * height % 2 ^ 32 ∷ [] }
    else record { pitches = width ∷ []; offsets = 0 ∷ [] }

-- The outcomes of the import and of the framebuffer. Nothing is committed.
pub drm_scanout_dmabuf : DrmContext → Bool → Bool → Bool
drm_scanout_dmabuf ctx imported added = elim ctx.fd [ none ↦ false | some d ↦ imported && added ]

pub drm_move_cursor : DrmContext → Bool
drm_move_cursor ctx = if ctx.cursor_plane_id == 0 then false else true

-- The descriptor of the context is closed, whether it is still open or not.
pub drm_cleanup : DrmContext → DrmContext
drm_cleanup ctx = elim ctx.fd [ none ↦ ctx | some d ↦ record ctx { fd = none; open_fd = none } ]
