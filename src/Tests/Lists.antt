-- ===== src/Tests/Lists.antt =====
-- The node arena of one read, lifted and put back.
use porcupine_rust.Base.{ℕ, refl, arith, Option, none, some, [], ◌∷◌}
use porcupine_rust.Entry.{call, return}
use porcupine_rust.Arena.{NodeArena, no_ref}
use porcupine_rust.Arena.Live.{Slot, Live, sentinel}
use porcupine_rust.Arena.Lift.{Lifted, lift_lem}

abbrev read_call : Slot (Option ℕ) ℕ
read_call = record { idx = 1; id = 0; time = 4; value = call none; match_idx = 2 }

abbrev read_return : Slot (Option ℕ) ℕ
read_return = record { idx = 2; id = 0; time = 6; value = return 0; match_idx = no_ref }

abbrev arena : NodeArena (Option ℕ) ℕ
arena =
    record sentinel { next = 1 }
    ∷ record { value = some (call none); id = 0; match_idx = 2; prev = 0; next = 2 }
    ∷ record { value = some (return 0); id = 0; match_idx = no_ref; prev = 1; next = no_ref }
    ∷ []

arena-Live : Live arena (read_call ∷ read_return ∷ [])
arena-Live = (refl, (omega arith, omega arith, refl, (omega arith, omega arith, refl, tt)))

lift_lem_example : Lifted arena read_call []
lift_lem_example = lift_lem [] [] [] arena read_call read_return refl arena-Live
