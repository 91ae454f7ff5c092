-- ===== src/Xhci/Files/Tests.antt =====
-- The theorem on reads in chunks at a concrete input.
use drivers.Base.{ℕ, ◌≡◌, refl, Option, none, List, [], ◌∷◌}
use drivers.Xhci.Calls.{ok, Call, give}
use drivers.Xhci.Control.{Xhci}
use drivers.Xhci.Endpoints.{CtlReq, CtlRes}
use drivers.Xhci.Handles.{PortReq, Handle, port_desc, Scheme}
use drivers.Xhci.Files.Positions.{read}
use drivers.Xhci.Files.Chunks.{second_read}
use drivers.Xhci.Samples.{controller, await, alloc}
use drivers.Base.Map.{lookup}

abbrev parse_req : List ℕ → Option PortReq
parse_req bytes = none

abbrev parse_ctl : List ℕ → Option CtlReq
parse_ctl bytes = none

abbrev print_ctl : CtlRes → List ℕ
print_ctl res = []

abbrev configure : (port_num : ℕ) → List ℕ → Call (Xhci ℕ) (Unit {0})
configure port_num bytes = give (ok tt)

-- Descriptors of five bytes
abbrev descriptors : Handle
descriptors = port_desc 1 0 (1 ∷ 2 ∷ 3 ∷ 4 ∷ 5 ∷ [])

abbrev scheme : Scheme ℕ
scheme = record { xhci = controller; handles = (3, descriptors) ∷ []; next_handle = 4 }

-- In buffers of two bytes and of three, the second read gives the first byte again.
second_read_example :
    (s1 : Scheme ℕ) × (s2 : Scheme ℕ) × (read await alloc parse_req parse_ctl print_ctl configure 3
        (0 ∷ 0 ∷ [])
        scheme
      ≡ (ok (2, 1 ∷ 2 ∷ []), s1))
    × (read await alloc parse_req parse_ctl print_ctl configure 3 (0 ∷ 0 ∷ 0 ∷ []) s1
        ≡ (ok (1, 1 ∷ []), s2))
unfolding lookup
second_read_example =
    second_read await alloc parse_req parse_ctl print_ctl configure 3 descriptors
      (1 ∷ 2 ∷ 3 ∷ 4 ∷ 5 ∷ []) (0 ∷ 0 ∷ []) (0 ∷ 0 ∷ 0 ∷ []) scheme refl refl
