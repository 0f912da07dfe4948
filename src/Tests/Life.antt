-- ===== src/Tests/Life.antt =====
-- A program that is told to stop.
use bitcoin_controller.Base.{refl, ◌≤◌, [], ◌∷◌, none}
use bitcoin_controller.Program.Life.{
  Life, sigint, sigterm, returned, in_main, begin, deliver, Events, none_yet, and_then, arrives,
  receives, closes_stop, run_waits, run_returns,
}
use bitcoin_controller.Program.Life.Ends.{arrivals, CanEnd, begin-safe, begin-CanEnd}

-- Three signals arrive, the first one is handled, and `Run` returns.
abbrev stopped : Life
stopped = record {
  pending = sigterm ∷ sigint ∷ [];
  handler = returned;
  closes = 1;
  place = in_main;
}

abbrev stops : Events begin stopped
stops =
    and_then
      (and_then
        (and_then
          (and_then
            (and_then (and_then (and_then none_yet (run_waits none refl)) (arrives sigint))
              (receives refl refl))
            (arrives sigterm))
          (arrives sigint))
        (closes_stop refl))
      (run_returns refl refl)

begin-safe_example : (1 ≤ 1) × (1 ≤ arrivals stops) × (0 ≤ 1) × (2 ≤ 2)
begin-safe_example = begin-safe stops

begin-CanEnd_example : CanEnd (record stopped { pending = deliver sigint stopped.pending })
begin-CanEnd_example = begin-CanEnd stops sigint (λ e. cc)
