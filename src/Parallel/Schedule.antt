-- ===== src/Parallel/Schedule.antt =====
-- Running the threads in a given order.
use porcupine_rust.Base.{◌≡◌, subst, Option, some, List, [], ◌∷◌, length}
use porcupine_rust.Base.Do.{◌>>=◌, some_inj, bind_some}
use porcupine_rust.Model.{Model}
use porcupine_rust.Parallel.{System, ThreadEvent, step}
use porcupine_rust.Parallel.Safety.{Reach, here, later}

module _ {S I O : Type 0} (m : Model S I O) where
  -- The state after the events; the last of them is the head.
  unfoldable pub play : List ThreadEvent → System S I O → Option (System S I O)
  unfolding step
  play [] s = some s
  play (e ∷ events) s = play events s >>= step m e

  pub play-Reach :
      (events : List ThreadEvent) (s t : System S I O)
      → play events s ≡ some t
      → Reach m s (length events) t
  unfolding play
  play-Reach [] s t h = subst (Reach m s 0) (some_inj h) here
  play-Reach (e ∷ events) s t h =
      let (u, before, last) = bind_some (play events s) (step m e) t h in
      later e (play-Reach events s u before) last
