-- ===== src/Server/Capture/Valid.antt =====
-- What the calls of server/capture/dxgi_capture.cpp keep, and that they follow no null pointer.
use ultra_display_os.Prelude.{
  ℕ, ◌≡◌, ◌≢◌, refl, sym, subst, ◌∙◌, Bool, true, false, List, Option, none, some, ◌==◌, Option-Is,
  if-Is, arith,
}
use ultra_display_os.Shared.Result.{Result, ok, err}
use ultra_display_os.Server.Capture.{
  Desc, Texture, Rect, CapturedFrame, DxgiCapture, new, Output, create_device, duplicate,
  init_duplication, open_monitor, after_device, init, search_adapters, same_desc,
  create_staging_texture, ensure_staging_texture, FrameInfo, Acquired, wait_timeout, access_lost,
  device_removed, device_reset, invalid_call, failed, acquired, copy_frame, after_staging,
  take_frame, answer, acquire_next_frame, release_frame,
}

-- A duplication has a device, and a held frame is one of a duplication.
abbrev pub IsValid : DxgiCapture → Type 0
IsValid t = (t.duplication ≡ true → t.device ≢ none) × (t.held ≡ true → t.duplication ≡ true)

-- What an answer leaves behind.
abbrev Kept : {A : Type 0} → Option (Result A × DxgiCapture) → Type 0
Kept none = ⊥
Kept (some (result, t)) = IsValid t

abbrev TextureReady : Desc → Option (Result (Unit {0}) × DxgiCapture) → Type 0
TextureReady desc none = ⊥
TextureReady desc (some (err e, t)) = IsValid t
TextureReady desc (some (ok v, t)) =
    IsValid t
    × (t.device ≢ none)
    × ((x : Texture) × (t.staging_texture ≡ some x) × (same_desc x.desc desc ≡ true))

create_staging_texture-Ready :
    (t : DxgiCapture) (d : Option ℕ) (desc : Desc) (created : Bool)
    → IsValid t
    → t.device ≡ d
    → d ≢ none
    → TextureReady desc (create_staging_texture t d desc created)
unfolding create_staging_texture
create_staging_texture-Ready t none desc created v e h = h refl
create_staging_texture-Ready t (some d) desc false v e h = v
create_staging_texture-Ready t (some d) desc true v e h =
    (v, (λ n. h (sym e ∙ n)), (_, refl, ground arith))

ensure_staging_texture-Ready :
    (t : DxgiCapture) (desc : Desc) (created : Bool)
    → IsValid t
    → t.duplication ≡ true
    → TextureReady desc (ensure_staging_texture t desc created)
unfolding ensure_staging_texture
ensure_staging_texture-Ready t desc created v h =
    let created_ready = create_staging_texture-Ready t t.device desc created v refl (v.0 h) in
    Option-Is (TextureReady desc) t.staging_texture (λ e. created_ready)
      (λ x e.
        if-Is (TextureReady desc) (same_desc x.desc desc) (λ same. (v, v.0 h, (x, e, same)))
          (λ differs. created_ready))

copy_frame-Kept :
    (t : DxgiCapture) (d : Option ℕ) (x : Option Texture) (info : FrameInfo)
    (rects : Option (List Rect × ℕ))
    → IsValid t
    → d ≢ none
    → x ≢ none
    → Kept (copy_frame t d x info rects)
unfolding copy_frame
copy_frame-Kept t none x info rects v hd hx = hd refl
copy_frame-Kept t (some d) none info rects v hd hx = hx refl
copy_frame-Kept t (some d) (some x) info rects v hd hx = v

after_staging-Kept :
    (desc : Desc) (r : Option (Result (Unit {0}) × DxgiCapture)) (info : FrameInfo)
    (rects : Option (List Rect × ℕ))
    → TextureReady desc r
    → Kept (after_staging r info rects)
unfolding after_staging
after_staging-Kept desc none info rects h = h
after_staging-Kept desc (some (err e, t)) info rects h = h
after_staging-Kept desc (some (ok v, t)) info rects (valid, device, (x, e, same)) =
    copy_frame-Kept t t.device t.staging_texture info rects valid device (λ n. absurd (cc (e, n)))

released-IsValid : (t : DxgiCapture) → IsValid t → IsValid (record t { held = false })
released-IsValid t v = (v.0, λ n. absurd (cc n))

take_frame-Kept :
    (t : DxgiCapture) (info : FrameInfo) (desc : Option Desc) (created : Bool)
    (rects : Option (List Rect × ℕ))
    → IsValid t
    → t.duplication ≡ true
    → Kept (take_frame t info desc created rects)
unfolding take_frame
take_frame-Kept t info none created rects v h =
    if-Is Kept (info.last_present_time == 0) (λ e. released-IsValid t v) (λ e. released-IsValid t v)
take_frame-Kept t info (some desc) created rects v h =
    if-Is Kept (info.last_present_time == 0) (λ e. released-IsValid t v)
      (λ e.
        after_staging-Kept desc (ensure_staging_texture t desc created) info rects
          (ensure_staging_texture-Ready t desc created v h))

answer-Kept :
    (t : DxgiCapture) (call : Acquired) (created : Bool) (rects : Option (List Rect × ℕ))
    → IsValid t
    → t.duplication ≡ true
    → Kept (answer t call created rects)
unfolding answer
answer-Kept t wait_timeout created rects v h = v
answer-Kept t access_lost created rects v h = ground arith
answer-Kept t device_removed created rects v h = ground arith
answer-Kept t device_reset created rects v h = ground arith
answer-Kept t invalid_call created rects v h = ground arith
answer-Kept t failed created rects v h = v
answer-Kept t (acquired info desc) created rects v h =
    take_frame-Kept (record t { held = true }) info desc created rects (v.0, λ n. h) h

-- A call of `acquire_next_frame` on a valid capture follows no null pointer, whatever its calls of the
-- system come back with, and leaves the capture valid.
pub acquire_next_frame-IsValid :
    (t : DxgiCapture) (call : Acquired) (created : Bool) (rects : Option (List Rect × ℕ))
    → IsValid t
    → Kept (acquire_next_frame t call created rects)
unfolding acquire_next_frame
acquire_next_frame-IsValid t call created rects v =
    if-Is Kept t.duplication (λ e. answer-Kept t call created rects v e) (λ e. v)

duplicate-IsValid :
    (t : DxgiCapture) (o : Option Desc) → t.device ≢ none → IsValid (duplicate t o).1
unfolding duplicate
duplicate-IsValid t none h = ((λ n. absurd (cc n)), (λ n. n))
duplicate-IsValid t (some desc) h = ((λ n. h), (λ n. absurd (cc n)))

open_monitor-IsValid :
    (t : DxgiCapture) (o : Option Output)
    → t.device ≢ none
    → t.duplication ≡ false
    → (t.held ≡ true → t.duplication ≡ true)
    → IsValid (open_monitor t o).1
unfolding open_monitor init_duplication
open_monitor-IsValid t none h d held = ((λ n. h), held)
open_monitor-IsValid t (some o) h d held =
    if-Is {A = Result (Unit {0}) × DxgiCapture} (λ r. IsValid r.1) o.supported
      (λ e. duplicate-IsValid t o.duplicated h) (λ e. ((λ n. h), held))

init-IsValid :
    (t : DxgiCapture) (device : Option ℕ) (factory : Bool) (adapters : List (List Output)) (i : ℕ)
    → IsValid t
    → t.duplication ≡ false
    → IsValid (init t device factory adapters i).1
unfolding init create_device after_device
init-IsValid t none factory adapters i v d = ((λ n. absurd (cc (n, d))), v.1)
init-IsValid t (some g) false adapters i v d = ((λ n. absurd (cc (n, d))), v.1)
init-IsValid t (some g) true adapters i v d =
    open_monitor-IsValid (record t { device = some g }) (search_adapters adapters i)
      (λ n. absurd (cc n)) d v.1

release_frame-IsValid : (t : DxgiCapture) → IsValid t → IsValid (release_frame t)
unfolding release_frame
release_frame-IsValid t v = if-Is IsValid t.duplication (λ e. released-IsValid t v) (λ e. v)

-- The calls of a client, which begins a duplication only when it has none, as the comment of the reset on a
-- lost access asks.
pub data Step : DxgiCapture → DxgiCapture → Type 0 where
  inits :
      (t : DxgiCapture) (device : Option ℕ) (factory : Bool) (adapters : List (List Output)) (i : ℕ)
      → t.duplication ≡ false
      → Step t (init t device factory adapters i).1
  acquires :
      (t u : DxgiCapture) (result : Result CapturedFrame) (call : Acquired) (created : Bool)
      (rects : Option (List Rect × ℕ))
      → acquire_next_frame t call created rects ≡ some (result, u)
      → Step t u
  releases : (t : DxgiCapture) → Step t (release_frame t)

pub data Reach (s : DxgiCapture) : DxgiCapture → Type 0 where
  here : Reach s s
  next : {t u : DxgiCapture} → Reach s t → Step t u → Reach s u

Step-IsValid : {t u : DxgiCapture} → Step t u → IsValid t → IsValid u
Step-IsValid (inits t device factory adapters i d) v = init-IsValid t device factory adapters i v d
Step-IsValid (acquires t u result call created rects e) v =
    subst Kept e (acquire_next_frame-IsValid t call created rects v)
Step-IsValid (releases t) v = release_frame-IsValid t v

pub Reach-IsValid : {t : DxgiCapture} → Reach new t → IsValid t
Reach-IsValid here = ((λ n. absurd (cc n)), (λ n. absurd (cc n)))
Reach-IsValid (next r st) = Step-IsValid st (Reach-IsValid r)

Kept-not_none : {A : Type 0} (o : Option (Result A × DxgiCapture)) → Kept o → o ≢ none
Kept-not_none none k e = k
Kept-not_none (some x) k e = absurd (cc e)

-- In every state that a client can reach that begins a duplication only when it has none, a call of
-- `acquire_next_frame` follows no null pointer, and a frame that the system holds belongs to a duplication.
pub Reach-safe :
    {t : DxgiCapture} (call : Acquired) (created : Bool) (rects : Option (List Rect × ℕ))
    → Reach new t
    → (acquire_next_frame t call created rects ≢ none) × (t.held ≡ true → t.duplication ≡ true)
Reach-safe {t = t} call created rects r =
    let v = Reach-IsValid r in
    (
      Kept-not_none (acquire_next_frame t call created rects)
          (acquire_next_frame-IsValid t call created rects v),
      v.1,
    )
