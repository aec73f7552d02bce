-- ===== src/Client/AlsaPlayback/Writing.antt =====
-- What the loop of client/audio/alsa_playback.cpp writes, and that it ends.
use ultra_display_os.Prelude.{
  ℕ, zero, suc, ◌+◌, ◌-◌, ◌*◌, ◌/◌, ◌≤◌, ◌<◌, ◌≡◌, refl, sym, ap, ◌∙◌, true, false, List, [], ◌∷◌,
  ◌++◌, ltb, if-Is, length, take, drop, Option, none, some, arith,
}
use ultra_display_os.Shared.Result.{Result, ok, err}
use ultra_display_os.Client.AlsaPlayback.{
  AlsaPlayback, Written, wrote, underrun, suspended, failed, write_loop, write_frames,
}

take_nil : {A : Type 0} (b : ℕ) → take {A = A} b [] ≡ []
take_nil zero = refl
take_nil (suc b) = refl

take-add : {A : Type 0} (a b : ℕ) (xs : List A) → take a xs ++ take b (drop a xs) ≡ take (a + b) xs
take-add zero b xs = let e : b ≡ 0 + b = omega arith in ap (λ k. take k xs) e
take-add (suc a) b [] = take_nil b ∙ sym (take_nil (suc a + b))
take-add (suc a) b (x ∷ xs) =
    let e : suc (a + b) ≡ suc a + b = omega arith in
    ap (λ ys. x ∷ ys) (take-add a b xs) ∙ ap (λ k. take k (x ∷ xs)) e

-- The library writes no more than it is asked to: the frames that are left.
abbrev pub Bounded : ℕ → ℕ → List Written → Type 0
Bounded frames written [] = Unit
Bounded frames written (wrote n ∷ outcomes) =
    (n ≤ frames - written) × Bounded frames (written + n) outcomes
Bounded frames written (underrun ∷ outcomes) = Bounded frames written outcomes
Bounded frames written (suspended ∷ outcomes) = Bounded frames written outcomes
Bounded frames written (failed ∷ outcomes) = Bounded frames written outcomes

-- The device was given the samples of the first frames, all of them if the loop has ended well.
abbrev pub Given : ℕ → List ℕ → ℕ → Option (Result (Unit {0})) × List ℕ → Type 0
Given channels pcm_data frames (some (ok v), given) = given ≡ take (frames * channels) pcm_data
Given channels pcm_data frames (some (err e), given) =
    (k : ℕ) × (k < frames) × (given ≡ take (k * channels) pcm_data)
Given channels pcm_data frames (none, given) =
    (k : ℕ) × (k < frames) × (given ≡ take (k * channels) pcm_data)

module _ (channels : ℕ) (pcm_data : List ℕ) (frames : ℕ) where
  abbrev AllGiven : Option (Result (Unit {0})) × List ℕ → Type 0
  AllGiven = Given channels pcm_data frames

  done_Given :
      (written : ℕ) (given : List ℕ)
      → written ≤ frames
      → ltb written frames ≡ false
      → given ≡ take (written * channels) pcm_data
      → AllGiven (some (ok tt), given)
  done_Given written given l e g =
      let all : written ≡ frames = ground arith in g ∙ ap (λ n. take (n * channels) pcm_data) all

  write_loop-Given :
      (written : ℕ) (outcomes : List Written) (given : List ℕ)
      → written ≤ frames
      → Bounded frames written outcomes
      → given ≡ take (written * channels) pcm_data
      → AllGiven (write_loop channels pcm_data frames written outcomes given)
  unfolding write_loop
  write_loop-Given written [] given l b g =
      if-Is (λ r. AllGiven (r, given)) (ltb written frames) (λ e. (written, ground arith, g))
        (λ e. done_Given written given l e g)
  write_loop-Given written (wrote n ∷ outcomes) given l b g =
      if-Is AllGiven (ltb written frames)
        (λ e. write_loop-Given (written + n) outcomes _ (omega (arith, b.0)) b.1 (
          ap (λ xs. xs ++ take (n * channels) (drop (written * channels) pcm_data)) g
          ∙ take-add (written * channels) (n * channels) pcm_data
          ∙ ap (λ k. take k pcm_data) (grind arith)))
        (λ e. done_Given written given l e g)
  write_loop-Given written (underrun ∷ outcomes) given l b g =
      if-Is AllGiven (ltb written frames) (λ e. write_loop-Given written outcomes given l b g)
        (λ e. done_Given written given l e g)
  write_loop-Given written (suspended ∷ outcomes) given l b g =
      if-Is AllGiven (ltb written frames) (λ e. write_loop-Given written outcomes given l b g)
        (λ e. done_Given written given l e g)
  write_loop-Given written (failed ∷ outcomes) given l b g =
      if-Is AllGiven (ltb written frames) (λ e. (written, ground arith, g))
        (λ e. done_Given written given l e g)

-- Whatever underruns, suspensions and short writes there are, the samples that the device was given are those
-- of the first frames, in their order, none twice: all frames if the call returns without an error, and fewer
-- if it returns an error or goes on.
pub write_frames-Given :
    (t : AlsaPlayback) (pcm_data : List ℕ) (outcomes : List Written)
    → t.pcm_handle ≡ true
    → Bounded (length pcm_data / t.format.channels) 0 outcomes
    → Given t.format.channels pcm_data
        (length pcm_data / t.format.channels)
        (write_frames t pcm_data outcomes)
unfolding write_frames
write_frames-Given t pcm_data outcomes h b =
    if-Is (Given t.format.channels pcm_data (length pcm_data / t.format.channels)) t.pcm_handle
      (λ e.
        let none_yet : 0 ≡ 0 * t.format.channels = grind arith in
        write_loop-Given t.format.channels pcm_data (length pcm_data / t.format.channels) 0 outcomes
          [] (omega arith) b (ap (λ k. take k pcm_data) none_yet))
      (λ e. absurd (cc (h, e)))

-- How often the device takes frames.
abbrev pub takes : List Written → ℕ
takes [] = 0
takes (wrote zero ∷ outcomes) = takes outcomes
takes (wrote (suc n) ∷ outcomes) = 1 + takes outcomes
takes (underrun ∷ outcomes) = takes outcomes
takes (suspended ∷ outcomes) = takes outcomes
takes (failed ∷ outcomes) = takes outcomes

abbrev pub Ended : Option (Result (Unit {0})) × List ℕ → Type 0
Ended (none, given) = ⊥
Ended (some r, given) = Unit

write_loop-Ended :
    (channels : ℕ) (pcm_data : List ℕ) (frames written : ℕ) (outcomes : List Written)
    (given : List ℕ)
    → frames ≤ written + takes outcomes
    → Ended (write_loop channels pcm_data frames written outcomes given)
unfolding write_loop
write_loop-Ended channels pcm_data frames written [] given h =
    if-Is (λ r. Ended (r, given)) (ltb written frames) (λ e. absurd (ground arith)) (λ e. tt)
write_loop-Ended channels pcm_data frames written (wrote zero ∷ outcomes) given h =
    if-Is Ended (ltb written frames)
      (λ e. write_loop-Ended channels pcm_data frames (written + 0) outcomes _ (omega arith))
      (λ e. tt)
write_loop-Ended channels pcm_data frames written (wrote (suc n) ∷ outcomes) given h =
    if-Is Ended (ltb written frames)
      (λ e. write_loop-Ended channels pcm_data frames (written + suc n) outcomes _ (omega arith))
      (λ e. tt)
write_loop-Ended channels pcm_data frames written (underrun ∷ outcomes) given h =
    if-Is Ended (ltb written frames)
      (λ e. write_loop-Ended channels pcm_data frames written outcomes given h) (λ e. tt)
write_loop-Ended channels pcm_data frames written (suspended ∷ outcomes) given h =
    if-Is Ended (ltb written frames)
      (λ e. write_loop-Ended channels pcm_data frames written outcomes given h) (λ e. tt)
write_loop-Ended channels pcm_data frames written (failed ∷ outcomes) given h =
    if-Is Ended (ltb written frames) (λ e. tt) (λ e. tt)

-- The call returns once the device has taken frames as often as there are frames, whatever else happens.
pub write_frames-ends :
    (t : AlsaPlayback) (pcm_data : List ℕ) (outcomes : List Written)
    → length pcm_data / t.format.channels ≤ takes outcomes
    → Ended (write_frames t pcm_data outcomes)
unfolding write_frames
write_frames-ends t pcm_data outcomes h =
    if-Is Ended t.pcm_handle
      (λ e. write_loop-Ended t.format.channels pcm_data _ 0 outcomes [] (omega arith)) (λ e. tt)
