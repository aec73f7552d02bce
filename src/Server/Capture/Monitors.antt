-- ===== src/Server/Capture/Monitors.antt =====
-- The loops of server/capture/dxgi_capture.cpp over the monitors.
use ultra_display_os.Prelude.{
  ℕ, zero, suc, ◌≡◌, refl, ap, ◌∙◌, true, List, [], ◌∷◌, ◌++◌, Option, none, some, get_elem?,
}
use ultra_display_os.Shared.Result.{err, invalid_parameter}
use ultra_display_os.Server.Capture.{
  DxgiCapture, Output, create_device, init_duplication, Search, found, left_over, search_outputs,
  search_adapters, open_monitor, after_device, init,
}

abbrev pub concat : List (List Output) → List Output
concat [] = []
concat (os ∷ rest) = os ++ concat rest

-- What the outer loop makes of the inner one's end.
abbrev continue : List (List Output) → Search → Option Output
continue rest (found o) = some o
continue rest (left_over j) = get_elem? (concat rest) j

continue-search_outputs :
    (os : List Output) (rest : List (List Output)) (i : ℕ)
    → continue rest (search_outputs os i) ≡ get_elem? (os ++ concat rest) i
unfolding search_outputs
continue-search_outputs [] rest i = refl
continue-search_outputs (o ∷ os) rest zero = refl
continue-search_outputs (o ∷ os) rest (suc i) = continue-search_outputs os rest i

same_end :
    (rest : List (List Output)) (s : Search)
    → ((j : ℕ) → search_adapters rest j ≡ get_elem? (concat rest) j)
    → elim s [ found o ↦ some o | left_over j ↦ search_adapters rest j ] ≡ continue rest s
same_end rest (found o) same = refl
same_end rest (left_over j) same = same j

pub search_adapters_lem :
    (adapters : List (List Output)) (i : ℕ)
    → search_adapters adapters i ≡ get_elem? (concat adapters) i
unfolding search_adapters
search_adapters_lem [] i = refl
search_adapters_lem (os ∷ rest) i =
    same_end rest (search_outputs os i) (search_adapters_lem rest)
    ∙ continue-search_outputs os rest i

open_monitor_lem :
    (t : DxgiCapture) (o : Option Output)
    → open_monitor t o
      ≡ elim o [ none ↦ (err invalid_parameter, t) | some o ↦ init_duplication t o ]
unfolding open_monitor
open_monitor_lem t none = refl
open_monitor_lem t (some o) = refl

-- Once the device and the factory are created, `init` opens the monitor that the index names in the list of
-- the outputs of all the adapters, one adapter after the other. With no output there, it returns
-- invalid_parameter, and changes no more than the device.
pub init_lem :
    (t : DxgiCapture) (d : ℕ) (adapters : List (List Output)) (monitor_index : ℕ)
    → init t (some d) true adapters monitor_index
      ≡ elim (get_elem? (concat adapters) monitor_index) [
        | none ↦ (err invalid_parameter, record t { device = some d })
        | some o ↦ init_duplication (record t { device = some d }) o
      ]
unfolding init create_device after_device
init_lem t d adapters i =
    ap (open_monitor (record t { device = some d })) (search_adapters_lem adapters i)
    ∙ open_monitor_lem (record t { device = some d }) (get_elem? (concat adapters) i)
