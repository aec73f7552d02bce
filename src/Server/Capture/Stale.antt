-- ===== src/Server/Capture/Stale.antt =====
-- A capture of server/capture/dxgi_capture.cpp that loses its desktop and is begun again.
use ultra_display_os.Prelude.{
  ℕ, ◌≡◌, ◌≢◌, refl, sym, ap, ◌∙◌, Bool, true, false, List, [], ◌∷◌, Option, none, some, ◌==◌,
  Option-Is, if-Is, arith,
}
use ultra_display_os.Shared.Result.{Result, ok, err, system_error}
use ultra_display_os.Server.Capture.{
  Desc, Texture, Rect, CapturedFrame, DxgiCapture, Output, create_device, duplicate, search_outputs,
  init_duplication, open_monitor, after_device, init, search_adapters, same_desc,
  ensure_staging_texture, FrameInfo, access_lost, acquired, copy_frame, after_staging, take_frame,
  answer, acquire_next_frame,
}

-- Its access was lost.
abbrev pub lost : DxgiCapture → DxgiCapture
lost t = record t { duplication = false; held = false }

-- A frame in a texture of `owner`, while the device is `d`.
abbrev pub From : ℕ → ℕ → Option (Result CapturedFrame × DxgiCapture) → Type 0
From owner d none = ⊥
From owner d (some (err e, u)) = ⊥
From owner d (some (ok frame, u)) = (frame.texture.owner ≡ owner) × (u.device ≡ some d)

same_desc_refl : (desc : Desc) → same_desc desc desc ≡ true
same_desc_refl desc = ground arith

abbrev Ready : Texture → ℕ → Option (Result (Unit {0}) × DxgiCapture) → Type 0
Ready texture d none = ⊥
Ready texture d (some (err e, u)) = ⊥
Ready texture d (some (ok v, u)) = (u.device ≡ some d) × (u.staging_texture ≡ some texture)

abbrev same_or_true : Option Texture → Desc → Bool
same_or_true none desc = true
same_or_true (some x) desc = same_desc x.desc desc

abbrev owner_or_zero : Option Texture → ℕ
owner_or_zero none = 0
owner_or_zero (some x) = x.owner

reused-Ready :
    (t : DxgiCapture) (texture : Texture) (d : ℕ) (staging : Option Texture) (created : Bool)
    → t.device ≡ some d
    → t.staging_texture ≡ staging
    → staging ≡ some texture
    → Ready texture d (ensure_staging_texture t texture.desc created)
unfolding ensure_staging_texture
reused-Ready t texture d staging created e h s =
    Option-Is (Ready texture d) t.staging_texture (λ n. absurd (cc (n, h, s)))
      (λ x e'.
        if-Is (Ready texture d) (same_desc x.desc texture.desc) (λ same. (e, h ∙ s))
          (λ differs. absurd (
            cc (
              ap (λ o. same_or_true o texture.desc) (sym e' ∙ h ∙ s),
              same_desc_refl texture.desc,
              differs,
            ))))

copied-From :
    (t : DxgiCapture) (texture : Texture) (d : ℕ) (g : Option ℕ) (x : Option Texture)
    (info : FrameInfo) (rects : Option (List Rect × ℕ))
    → t.device ≡ some d
    → g ≡ some d
    → x ≡ some texture
    → From texture.owner d (copy_frame t g x info rects)
unfolding copy_frame
copied-From t texture d none x info rects e h k = absurd (cc h)
copied-From t texture d (some g) none info rects e h k = absurd (cc k)
copied-From t texture d (some g) (some x) info rects e h k = (ap owner_or_zero k, e)

after_staging-From :
    (r : Option (Result (Unit {0}) × DxgiCapture)) (texture : Texture) (d : ℕ) (info : FrameInfo)
    (rects : Option (List Rect × ℕ))
    → Ready texture d r
    → From texture.owner d (after_staging r info rects)
unfolding after_staging
after_staging-From none texture d info rects h = h
after_staging-From (some (err e, u)) texture d info rects h = absurd h
after_staging-From (some (ok v, u)) texture d info rects (h, k) =
    copied-From u texture d u.device u.staging_texture info rects h h k

reused-From :
    (t : DxgiCapture) (texture : Texture) (d : ℕ) (info : FrameInfo)
    (rects : Option (List Rect × ℕ)) (created : Bool)
    → t.device ≡ some d
    → t.staging_texture ≡ some texture
    → t.duplication ≡ true
    → info.last_present_time ≢ 0
    → From texture.owner d (acquire_next_frame t (acquired info (some texture.desc)) created rects)
unfolding acquire_next_frame answer take_frame
reused-From t texture d info rects created e s h present =
    if-Is (From texture.owner d) t.duplication
      (λ dup.
        if-Is (From texture.owner d) (info.last_present_time == 0) (λ z. absurd (ground arith))
          (λ z.
            after_staging-From
              (ensure_staging_texture (record t { held = true }) texture.desc created) texture d
              info rects
              (reused-Ready (record t { held = true }) texture d (some texture) created e s refl)))
      (λ n. absurd (cc (n, h)))

-- A capture has created its texture, and loses the access to its desktop. It is begun again, with the new
-- device `d`. Then the first frame of the earlier size and format is returned in the texture that the earlier
-- device created, into which the context of `d` copies it.
pub again-stale :
    (t : DxgiCapture) (texture : Texture) (d : ℕ) (mode : Desc) (rest : List (List Output))
    (info : FrameInfo) (created : Bool) (rects : Option (List Rect × ℕ))
    → t.duplication ≡ true
    → t.staging_texture ≡ some texture
    → info.last_present_time ≢ 0
    → (acquire_next_frame t access_lost created rects ≡ some (err system_error, lost t))
      × From texture.owner d (
          acquire_next_frame
            (init
              (lost t)
              (some d)
              true
              ((record { supported = true; duplicated = some mode } ∷ []) ∷ rest)
              0).1
            (acquired info (some texture.desc))
            created
            rects)
unfolding acquire_next_frame answer init create_device after_device search_adapters search_outputs
    open_monitor init_duplication duplicate
again-stale t texture d mode rest info created rects h s present = (
  if-Is (λ r. r ≡ some (err system_error, lost t)) t.duplication (λ e. refl)
      (λ n. absurd (cc (n, h))),
  reused-From (record t { device = some d; duplication = true; held = false; mode = mode }) texture
      d info rects created refl s refl present,
)
