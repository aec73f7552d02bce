-- ===== src/Server/Capture/Held.antt =====
-- Which calls of server/capture/dxgi_capture.cpp end with a frame held.
use ultra_display_os.Prelude.{
  ℕ, ◌≡◌, ◌≢◌, refl, sym, subst, ◌∙◌, true, false, List, Option, none, some, ◌==◌, Option-Is, if-Is,
  arith,
}
use ultra_display_os.Shared.Result.{Result, ok, err}
use ultra_display_os.Server.Capture.{
  Desc, Texture, Rect, CapturedFrame, DxgiCapture, same_desc, create_staging_texture,
  ensure_staging_texture, FrameInfo, Acquired, wait_timeout, access_lost, device_removed,
  device_reset, invalid_call, failed, acquired, copy_frame, after_staging, take_frame, answer,
  acquire_next_frame,
}
use ultra_display_os.Server.Capture.Valid.{IsValid}

-- A frame that was acquired is held only if it is returned.
abbrev Returned : Desc → Option (Result CapturedFrame × DxgiCapture) → Type 0
Returned desc none = ⊥
Returned desc (some (ok frame, t)) =
    (t.held ≡ true) × (same_desc frame.texture.desc desc ≡ true) × (frame.shown ≡ t.mode)
Returned desc (some (err e, t)) = t.held ≡ false

-- The texture is made ready while a frame is held.
abbrev HeldReady : Desc → Option (Result (Unit {0}) × DxgiCapture) → Type 0
HeldReady desc none = ⊥
HeldReady desc (some (err e, t)) = ⊥
HeldReady desc (some (ok v, t)) =
    (t.held ≡ true)
    × (t.device ≢ none)
    × ((x : Texture) × (t.staging_texture ≡ some x) × (same_desc x.desc desc ≡ true))

create_staging_texture-held :
    (t : DxgiCapture) (d : Option ℕ) (desc : Desc)
    → t.device ≡ d
    → d ≢ none
    → HeldReady desc (create_staging_texture (record t { held = true }) d desc true)
unfolding create_staging_texture
create_staging_texture-held t none desc e h = h refl
create_staging_texture-held t (some d) desc e h =
    (refl, λ n. h (sym e ∙ n), (_, refl, ground arith))

ensure_staging_texture-held :
    (t : DxgiCapture) (desc : Desc)
    → t.device ≢ none
    → HeldReady desc (ensure_staging_texture (record t { held = true }) desc true)
unfolding ensure_staging_texture
ensure_staging_texture-held t desc h =
    let created_held = create_staging_texture-held t t.device desc refl h in
    Option-Is (HeldReady desc) t.staging_texture (λ e. created_held)
      (λ x e.
        if-Is (HeldReady desc) (same_desc x.desc desc) (λ same. (refl, h, (x, e, same)))
          (λ differs. created_held))

copy_frame-Returned :
    (t : DxgiCapture) (desc : Desc) (d : Option ℕ) (x : Texture) (info : FrameInfo)
    (rects : Option (List Rect × ℕ))
    → t.held ≡ true
    → d ≢ none
    → same_desc x.desc desc ≡ true
    → Returned desc (copy_frame t d (some x) info rects)
unfolding copy_frame
copy_frame-Returned t desc none x info rects h hd same = hd refl
copy_frame-Returned t desc (some d) x info rects h hd same = (h, same, refl)

after_staging-Returned :
    (desc : Desc) (r : Option (Result (Unit {0}) × DxgiCapture)) (info : FrameInfo)
    (rects : Option (List Rect × ℕ))
    → HeldReady desc r
    → Returned desc (after_staging r info rects)
unfolding after_staging
after_staging-Returned desc none info rects h = h
after_staging-Returned desc (some (err e, t)) info rects h = absurd h
after_staging-Returned desc (some (ok v, t)) info rects (held, device, (x, e, same)) =
    subst (λ staging. Returned desc (copy_frame t t.device staging info rects)) (sym e)
      (copy_frame-Returned t desc t.device x info rects held device same)

acquired-Returned :
    (t : DxgiCapture) (info : FrameInfo) (desc : Desc) (rects : Option (List Rect × ℕ))
    → t.device ≢ none
    → Returned desc (take_frame (record t { held = true }) info (some desc) true rects)
unfolding take_frame
acquired-Returned t info desc rects h =
    if-Is (Returned desc) (info.last_present_time == 0) (λ e. refl)
      (λ e.
        after_staging-Returned desc (ensure_staging_texture (record t { held = true }) desc true)
          info rects (ensure_staging_texture-held t desc h))

-- A texture like the one that the call gave, if it gave one.
abbrev pub Alike : Acquired → Desc → Type 0
Alike (acquired info (some desc)) shown = same_desc shown desc ≡ true
Alike call shown = ⊥

-- A frame is returned and held, or an error is, and none is held.
abbrev pub HeldIfReturned : Acquired → Option (Result CapturedFrame × DxgiCapture) → Type 0
HeldIfReturned call none = ⊥
HeldIfReturned call (some (ok frame, t)) =
    (t.held ≡ true) × Alike call frame.texture.desc × (frame.shown ≡ t.mode)
HeldIfReturned call (some (err e, t)) = t.held ≡ false

Returned→HeldIfReturned :
    (info : FrameInfo) (desc : Desc) (r : Option (Result CapturedFrame × DxgiCapture))
    → Returned desc r
    → HeldIfReturned (acquired info (some desc)) r
Returned→HeldIfReturned info desc none h = h
Returned→HeldIfReturned info desc (some (ok frame, t)) h = h
Returned→HeldIfReturned info desc (some (err e, t)) h = h

answer-held :
    (t : DxgiCapture) (call : Acquired) (rects : Option (List Rect × ℕ))
    → t.device ≢ none
    → t.held ≡ false
    → HeldIfReturned call (answer t call true rects)
unfolding answer take_frame
answer-held t wait_timeout rects d h = h
answer-held t access_lost rects d h = refl
answer-held t device_removed rects d h = refl
answer-held t device_reset rects d h = refl
answer-held t invalid_call rects d h = refl
answer-held t failed rects d h = h
answer-held t (acquired info none) rects d h =
    if-Is (HeldIfReturned (acquired info none)) (info.last_present_time == 0) (λ e. refl)
      (λ e. refl)
answer-held t (acquired info (some desc)) rects d h =
    Returned→HeldIfReturned info desc _ (acquired-Returned t info desc rects d)

-- Whatever AcquireNextFrame comes back with: when the texture can be created, a call of acquire_next_frame that
-- begins with no frame held ends so too, unless it returns a frame. This happens only if a texture was acquired, and
-- the frame has a texture like that one, and the mode of the monitor.
pub acquire_next_frame-held :
    (t : DxgiCapture) (call : Acquired) (rects : Option (List Rect × ℕ))
    → IsValid t
    → t.held ≡ false
    → HeldIfReturned call (acquire_next_frame t call true rects)
unfolding acquire_next_frame
acquire_next_frame-held t call rects v h =
    if-Is (HeldIfReturned call) t.duplication (λ d. answer-held t call rects (v.0 d) h) (λ d. h)
