-- ===== src/Program/Life.antt =====
-- cmd/controller/main.go: createSignalHandler, and the end of `main` and of `Run`, which wait for the
-- stop channel. What the package os/signal documents of a channel of two places is written out: a
-- signal that finds no place is dropped.
pub mod Ends
use bitcoin_controller.Base.{
  ℕ, suc, ◌≡◌, ◌≢◌, nat_eqb, Bool, true, not, List, [], ◌∷◌, Option, none, some,
}
use bitcoin_controller.Client.{Error}

pub data Signal : Type 0 where
  sigint sigterm : Signal

-- The goroutine of `createSignalHandler`: before `<-c`, before `close(stop)`, or at its end.
pub data Handler : Type 0 where
  receiving : Handler
  printing : Signal → Handler
  returned : Handler

-- `main`: before `Run` has reached its wait or returned an error, in that wait, in its own wait, at
-- its end, or stopped by `os.Exit` or by a panic, which may be one of another goroutine.
pub data Place : Type 0 where
  starting in_run in_main ended died : Place

pub record Life : Type 0 where
  -- What is in the channel `c`.
  pub pending : List Signal
  pub handler : Handler
  -- How often the stop channel has been closed: more than once is a panic.
  pub closes : ℕ
  pub place : Place

abbrev pub deliver : Signal → List Signal → List Signal
deliver s [] = s ∷ []
deliver s (a ∷ []) = a ∷ s ∷ []
deliver s (a ∷ b ∷ rest) = a ∷ b ∷ rest

abbrev pub is_stopped : Life → Bool
is_stopped s = not (nat_eqb s.closes 0)

-- `main` does not look at the error that `Run` returns.
abbrev pub place_of : Option Error → Place
place_of none = in_run
place_of (some e) = in_main

-- When `createSignalHandler` has returned.
abbrev pub begin : Life
begin = record { pending = []; handler = receiving; closes = 0; place = starting }

pub data Event (s : Life) : Life → Type 0 where
  arrives : (sig : Signal) → Event s (record s { pending = deliver sig s.pending })
  receives :
      {sig : Signal} {rest : List Signal}
      → s.handler ≡ receiving
      → s.pending ≡ sig ∷ rest
      → Event s (record s { pending = rest; handler = printing sig })
  closes_stop :
      {sig : Signal}
      → s.handler ≡ printing sig
      → Event s (record s { handler = returned; closes = suc s.closes })
  run_waits :
      (outcome : Option Error)
      → s.place ≡ starting
      → Event s (record s { place = place_of outcome })
  dies : s.place ≢ ended → Event s (record s { place = died })
  run_returns : s.place ≡ in_run → is_stopped s ≡ true → Event s (record s { place = in_main })
  main_ends : s.place ≡ in_main → is_stopped s ≡ true → Event s (record s { place = ended })

pub data Events (s : Life) : Life → Type 0 where
  none_yet : Events s s
  and_then : {t u : Life} → Events s t → Event t u → Events s u
