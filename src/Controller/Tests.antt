-- ===== src/Controller/Tests.antt =====
-- A concrete run of src/process_controller.cpp.
use lo2s.Shared.{ℤ, pos, ◌≢◌, refl, inl, false, none, List, [], ◌∷◌, ok, arith}
use lo2s.Controller.{System, Status, stopped, exited, signaled, init, run}
use lo2s.Controller.Signals.{Able}
use lo2s.Controller.Run.{Ran, run-outcome}

-- Every new process or thread is number 21.
abbrev system : System
system = record {
  cont = λ t n. none;
  setoptions = λ t. none;
  geteventmsg = λ t. ok (pos 21);
  exit = λ t. ok tt;
}

system-Able : Able system
system-Able = record {
  conts = λ t n. refl;
  sets = λ t. refl;
  messages = λ t. (pos 21, refl);
  exits = λ t. inl refl;
}

-- Process 20 forks 21, which exits; then 20 itself exits with 3, and 21 is not looked at any more.
abbrev statuses : List (ℤ × Status)
statuses =
    (pos 20, stopped 19 0)
    ∷ (pos 20, stopped 5 1)
    ∷ (pos 21, exited 7)
    ∷ (pos 20, exited 3)
    ∷ (pos 21, signaled 9)
    ∷ []

process≢0 : pos 20 ≢ pos 0
process≢0 = ground arith

run-outcome_example :
    Ran (pos 20) statuses (init (pos 20) false []) (run system statuses (init (pos 20) false []))
run-outcome_example = run-outcome system system-Able (pos 20) false [] statuses tt process≢0
