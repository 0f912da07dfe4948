-- ===== src/Program/Life/Ends.antt =====
-- When the program ends, and how often its stop channel is closed.
use bitcoin_controller.Base.{
  ◌≡◌, ◌≢◌, refl, ap, ◌∙◌, ℕ, suc, ◌+◌, ◌≤◌, true, List, [], ◌∷◌, length, Option, none, some, arith,
}
use bitcoin_controller.Client.{Error}
use bitcoin_controller.Program.Life.{
  Signal, Handler, receiving, printing, returned, Place, starting, in_run, in_main, ended, died,
  Life, deliver, is_stopped, place_of, begin, arrives, receives, closes_stop, run_waits, dies,
  run_returns, main_ends, Events, none_yet, and_then,
}

-- How many signals arrive on the way.
unfoldable pub arrivals : {s t : Life} → Events s t → ℕ
arrivals none_yet = 0
arrivals (and_then r (arrives sig)) = suc (arrivals r)
arrivals (and_then r (receives e f)) = arrivals r
arrivals (and_then r (closes_stop e)) = arrivals r
arrivals (and_then r (run_waits o e)) = arrivals r
arrivals (and_then r (dies e)) = arrivals r
arrivals (and_then r (run_returns e f)) = arrivals r
arrivals (and_then r (main_ends e f)) = arrivals r

-- The signals that the handler has taken, and the times that it has closed the channel.
abbrev taken : Handler → ℕ
taken receiving = 0
taken (printing sig) = 1
taken returned = 1

abbrev closed_by : Handler → ℕ
closed_by receiving = 0
closed_by (printing sig) = 0
closed_by returned = 1

abbrev pub has_ended : Place → ℕ
has_ended ended = 1
has_ended p = 0

-- Signals are neither doubled nor kept beyond two, the channel is closed by the handler alone, and
-- `main` ends after that.
pub record IsSound (n : ℕ) (s : Life) : Type 0 where
  pub counted : taken s.handler + length s.pending ≤ n
  pub fits : length s.pending ≤ 2
  pub closed : s.closes ≡ closed_by s.handler
  pub last : has_ended s.place ≤ s.closes

length-deliver :
    (sig : Signal) (xs : List Signal)
    → length xs ≤ 2
    → (length (deliver sig xs) ≤ suc (length xs)) × (length (deliver sig xs) ≤ 2)
length-deliver sig [] l = (omega arith, omega arith)
length-deliver sig (a ∷ []) l = (omega arith, omega arith)
length-deliver sig (a ∷ b ∷ xs) l = (omega arith, omega (arith, l))

begin-IsSound : IsSound 0 begin
begin-IsSound = record {
  counted = omega arith;
  fits = omega arith;
  closed = refl;
  last = omega arith;
}

place_of-waits : (o : Option Error) → has_ended (place_of o) ≡ 0
place_of-waits none = refl
place_of-waits (some e) = refl

Events-IsSound : {s t : Life} (r : Events s t) → IsSound 0 s → IsSound (arrivals r) t
unfolding arrivals
Events-IsSound none_yet a = a
Events-IsSound (and_then {t} r (arrives sig)) a =
    let b = Events-IsSound r a in
    let l = length-deliver sig t.pending b.fits in
    record { counted = omega (arith, l.0, b.counted); fits = l.1; closed = b.closed; last = b.last }
Events-IsSound (and_then {t} r (receives {sig} {rest} e f)) a =
    let b = Events-IsSound r a in
    record {
      counted = ground (arith, b.counted, e, f);
      fits = ground (arith, b.fits, f);
      closed = ground (arith, b.closed, e);
      last = b.last;
    }
Events-IsSound (and_then {t} r (closes_stop e)) a =
    let b = Events-IsSound r a in
    record {
      counted = ground (arith, b.counted, e);
      fits = b.fits;
      closed = ground (arith, b.closed, e);
      last = omega (arith, b.last);
    }
Events-IsSound (and_then {t} r (run_waits o e)) a =
    let b = Events-IsSound r a in
    record {
      counted = b.counted;
      fits = b.fits;
      closed = b.closed;
      last = omega (arith, place_of-waits o);
    }
Events-IsSound (and_then {t} r (dies e)) a =
    let b = Events-IsSound r a in
    record { counted = b.counted; fits = b.fits; closed = b.closed; last = omega arith }
Events-IsSound (and_then {t} r (run_returns e f)) a =
    let b = Events-IsSound r a in
    record { counted = b.counted; fits = b.fits; closed = b.closed; last = omega arith }
Events-IsSound (and_then {t} r (main_ends e f)) a =
    let b = Events-IsSound r a in
    record { counted = b.counted; fits = b.fits; closed = b.closed; last = ground (arith, f) }

-- From here on `main` can come to its end with the channel closed once, without another signal.
pub record CanEnd (s : Life) : Type 0 where
  pub after : Life
  pub events : Events s after
  pub no_arrival : arrivals events ≡ 0
  pub is_ended : after.place ≡ ended
  pub closed_once : after.closes ≡ 1

-- The end of `main` once the channel is closed.
can_return :
    (s t : Life) (r : Events s t) → arrivals r ≡ 0 → t.closes ≡ 1 → t.place ≢ died → CanEnd s
unfolding arrivals
can_return s t r q c alive = by_place t.place refl
  where
    stopped : is_stopped t ≡ true
    stopped = ground (arith, c)

    by_place : (p : Place) → t.place ≡ p → CanEnd s
    by_place died e = absurd (alive e)
    by_place ended e = record {
      after = t;
      events = r;
      no_arrival = q;
      is_ended = e;
      closed_once = c;
    }
    by_place starting e = record {
      after = record t { place = ended };
      events =
          and_then (and_then (and_then r (run_waits none e)) (run_returns refl stopped))
            (main_ends refl stopped);
      no_arrival = q;
      is_ended = refl;
      closed_once = c;
    }
    by_place in_main e = record {
      after = record t { place = ended };
      events = and_then r (main_ends e stopped);
      no_arrival = q;
      is_ended = refl;
      closed_once = c;
    }
    by_place in_run e = record {
      after = record t { place = ended };
      events = and_then (and_then r (run_returns e stopped)) (main_ends refl stopped);
      no_arrival = q;
      is_ended = refl;
      closed_once = c;
    }

can_close :
    (s : Life) (n : ℕ) (t : Life)
    → (r : Events s t) → arrivals r ≡ 0
    → IsSound n t
    → t.place ≢ died
    → (sig : Signal) (rest : List Signal) → t.pending ≡ sig ∷ rest
    → CanEnd s
unfolding arrivals
can_close s n t r q a alive sig rest e = by_handler t.handler refl
  where
    by_handler : (h : Handler) → t.handler ≡ h → CanEnd s
    by_handler returned f = can_return s t r q (a.closed ∙ ap closed_by f) alive
    by_handler (printing other) f =
        can_return s _ (and_then r (closes_stop f)) q (ap suc (a.closed ∙ ap closed_by f)) alive
    by_handler receiving f =
        can_return s _ (and_then (and_then r (receives f e)) (closes_stop refl)) q
          (ap suc (a.closed ∙ ap closed_by f)) alive

closed_by-le : (h : Handler) → (closed_by h ≤ 1) × (closed_by h ≤ taken h)
closed_by-le receiving = (omega arith, omega arith)
closed_by-le (printing sig) = (omega arith, omega arith)
closed_by-le returned = (omega arith, omega arith)

module _ {t : Life} (r : Events begin t) where
  -- Whatever signals arrive, and wherever `main` stands: the stop channel is closed once at most, so
  -- that this never panics, and not more often than signals have arrived; `main` has come to its end
  -- only if it has been closed; and no more than two signals are pending.
  pub begin-safe :
      (t.closes ≤ 1)
      × (t.closes ≤ arrivals r)
      × (has_ended t.place ≤ t.closes)
      × (length t.pending ≤ 2)
  begin-safe =
      let a = Events-IsSound r begin-IsSound in
      let h = closed_by-le t.handler in
      (omega (arith, a.closed, h.0), omega (arith, a.closed, a.counted, h.1), a.last, a.fits)

  -- Unless the program has died: whatever has happened, when a signal arrives, `main` can come to its
  -- end with the stop channel closed once, and no other signal arrives on the way.
  pub begin-CanEnd :
      (sig : Signal) → t.place ≢ died → CanEnd (record t { pending = deliver sig t.pending })
  unfolding arrivals
  begin-CanEnd sig alive = by_pending t.pending refl
    where
      t' : Life
      t' = record t { pending = deliver sig t.pending }

      a : IsSound (suc (arrivals r)) t'
      a = Events-IsSound (and_then r (arrives sig)) begin-IsSound

      by_pending : (xs : List Signal) → t.pending ≡ xs → CanEnd t'
      by_pending [] f = can_close t' _ t' none_yet refl a alive sig [] (ap (deliver sig) f)
      by_pending (x ∷ []) f =
          can_close t' _ t' none_yet refl a alive x (sig ∷ []) (ap (deliver sig) f)
      by_pending (x ∷ y ∷ xs) f =
          can_close t' _ t' none_yet refl a alive x (y ∷ xs) (ap (deliver sig) f)
