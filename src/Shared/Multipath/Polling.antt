-- ===== src/Shared/Multipath/Polling.antt =====
-- What a receive delivers.
use ultra_display_os.Prelude.{
  ℕ, ◌+◌, ◌≡◌, refl, false, Option, none, some, List, [], ◌∷◌, arith, get_elem?, set, length, ◌==◌,
  if◌then◌else◌,
}
use ultra_display_os.Shared.Result.{Result, ok, err}
use ultra_display_os.Shared.Float.{Floats}
use ultra_display_os.Shared.Transport.{Transport}
use ultra_display_os.Shared.Multipath.{PathInfo, MultipathManager, poll_others, receive}

-- The first value of a list of results.
unfoldable pub first_value : List (Result (List ℕ)) → Option (List ℕ)
first_value [] = none
first_value (ok received ∷ rest) = some received
first_value (err e ∷ rest) = first_value rest

-- What a receive answers, from the answer of the active path and those of the others, in order.
unfoldable pub answer : Result (List ℕ) → List (Result (List ℕ)) → Result (List ℕ)
unfolding first_value
answer (ok received) others = ok received
answer (err e) others = elim (first_value others) [ none ↦ err e | some received ↦ ok received ]

not_empty :
    {A : Type 0} (xs : List A) (i : ℕ) (x : A) → get_elem? xs i ≡ some x → (length xs == 0) ≡ false
not_empty [] i x e = cc
not_empty (y ∷ ys) i x e = ground arith

module _ (floats : Floats) where
  open floats use {Single}

  module _ {T : Type 0} (ops : Transport Single T) where
    -- The answers of the paths but the active one, each asked without a wait.
    unfoldable pub others_without : ℕ → ℕ → List (PathInfo Single T) → List (Result (List ℕ))
    others_without active i [] = []
    others_without active i (p ∷ ps) =
        let rest = others_without active (i + 1) ps in
        if i == active then rest else (ops.receive p.transport 0).0 ∷ rest

    poll_others_lem :
        (active i : ℕ) (ps : List (PathInfo Single T))
        → (poll_others floats ops active i ps).0 ≡ first_value (others_without active i ps)
    unfolding poll_others others_without first_value
    poll_others_lem active i [] = refl
    poll_others_lem active i (p ∷ ps) = ground (arith, poll_others_lem active (i + 1) ps)

    -- With an active path inside the paths, a receive asks that path with the caller's timeout and, if
    -- it has nothing, the others in order without a wait; it answers with the first delivery, or else
    -- with the error of the active path.
    pub receive_lem :
        (m : MultipathManager Single T) (p : PathInfo Single T) (timeout_us : ℕ)
        → get_elem? m.paths m.active_path_idx ≡ some p
        → let (res, t) = ops.receive p.transport timeout_us in
          let asked = set m.paths m.active_path_idx (record p { transport = t }) in
          (m' : MultipathManager Single T) × (receive floats ops m timeout_us
            ≡ some (answer res (others_without m.active_path_idx 0 asked), m'))
          × (m'.active_path_idx ≡ m.active_path_idx)
    unfolding receive answer
    receive_lem m p timeout_us h = go (ops.receive p.transport timeout_us).0 refl
      where
        t : T
        t = (ops.receive p.transport timeout_us).1

        asked : List (PathInfo Single T)
        asked = set m.paths m.active_path_idx (record p { transport = t })

        go :
            (r : Result (List ℕ))
            → (ops.receive p.transport timeout_us).0 ≡ r
            → (m' : MultipathManager Single T) × (receive floats ops m timeout_us
                ≡ some (
                  answer
                      (ops.receive p.transport timeout_us).0
                      (others_without m.active_path_idx 0 asked),
                  m',
                ))
              × (m'.active_path_idx ≡ m.active_path_idx)
        go (ok received) e = (
          record m { paths = asked },
          rw (not_empty m.paths m.active_path_idx p h, h, e, receive, answer) refl,
          refl,
        )
        go (err code) e = (
          record m { paths = (poll_others floats ops m.active_path_idx 0 asked).1 },
          rw
              (
                not_empty m.paths m.active_path_idx p h,
                h,
                e,
                receive,
                answer,
                poll_others_lem m.active_path_idx 0 asked,
              )
              refl,
          refl,
        )
