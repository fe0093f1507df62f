-- ===== src/Cli/Command.antt =====
-- `run_analyzer`, `run_channel_analyzer` and the exit status of `main`, over a collector and a
-- writer that are made, or not.
use ebpf_udp_tcp_analyzer.Base.{ℕ, ◌+◌, Bool, true, false, ◌||◌, Option, none, some, List}
use ebpf_udp_tcp_analyzer.Base.Dict.{is_some}
use ebpf_udp_tcp_analyzer.Errors.{Result, ok, err, keyboard_interrupt}
use ebpf_udp_tcp_analyzer.Cli.Loop.{Pass, loop}

-- `except KeyboardInterrupt: pass`
abbrev pub swallow : Result (Unit {0}) → Result (Unit {0})
swallow (err keyboard_interrupt) = ok tt
swallow r = r

-- What `try … finally …` raises: an exception of `finally` takes the place of the other.
abbrev pub try_finally : Result (Unit {0}) → Result (Unit {0}) → Result (Unit {0})
try_finally tried (err e) = err e
try_finally tried (ok done) = tried

-- What a command has done: what it raised, if anything, the collector that it made and whether
-- `close` of it has returned, and the writer that it made.
pub record Final (C S : Type 0) : Type 0 where
  pub outcome : Result (Unit {0})
  pub collector : Option C
  pub is_closed : Bool
  pub writer : Option S

-- The calls of `finally`.
pub record Closing (C S : Type 0) : Type 0 where
  pub close_collector : C → Result C
  pub flush : S → Result S
  pub close_writer : S → Result S

module _ {C S : Type 0} (closing : Closing C S) where
  unfoldable pub writer_closed : Result S → S → Result (Unit {0}) × S
  writer_closed (err e) s = (err e, s)
  writer_closed (ok s') s = (ok tt, s')

  unfoldable pub writer_flushed : Result S → S → Result (Unit {0}) × S
  unfolding writer_closed
  writer_flushed (err e) s = (err e, s)
  writer_flushed (ok s') s = writer_closed (closing.close_writer s') s'

  -- The `finally` of `run_analyzer`: an exception of one call leaves out those after it.
  unfoldable pub finish : Result (Unit {0}) → Result C → C → S → Final C S
  unfolding writer_flushed
  finish tried (err e) c s = record {
    outcome = err e;
    collector = some c;
    is_closed = false;
    writer = some s;
  }
  finish tried (ok c') c s =
      let (raised, s') = writer_flushed (closing.flush s) s in
      record {
        outcome = try_finally tried raised;
        collector = some c';
        is_closed = true;
        writer = some s';
      }

  unfoldable pub finished : Option (Result (Unit {0}) × C × S) → Option (Final C S)
  unfolding finish
  finished none = none
  finished (some (raised, c, s)) = some (finish (swallow raised) (closing.close_collector c) c s)

  -- `args.watch or args.duration is not None`, and `time.monotonic() + args.duration`
  abbrev pub deadline_of : ℕ → Option ℕ → Option ℕ
  deadline_of start none = none
  deadline_of start (some duration) = some (start + duration)

  module _ {World A : Type 0} (read : World → C → Result (List A × C))
      (write : List A → S → Result S) (watch : Bool) (duration : Option ℕ) (start : ℕ)
      (passes : ℕ → Pass World A S) (fuel : ℕ) where
    -- The `try` statement of the two functions.
    unfoldable pub run_session : C → S → Option (Final C S)
    unfolding loop finished
    run_session c s =
        finished (
          loop read write (watch || is_some duration) (deadline_of start duration) passes fuel 0 c
            s)

    -- `run_analyzer`, on what `create_collector` and `create_writer` give: a writer that cannot be
    -- made raises before the `try` statement.
    unfoldable pub run_analyzer : Result C → Result S → Option (Final C S)
    unfolding run_session
    run_analyzer (err e) made_writer =
        some (record { outcome = err e; collector = none; is_closed = false; writer = none })
    run_analyzer (ok c) (err e) =
        some (record { outcome = err e; collector = some c; is_closed = false; writer = none })
    run_analyzer (ok c) (ok s) = run_session c s

-- `run_channel_analyzer` has no writer: its rows are only printed.
unfoldable pub run_channel_analyzer :
    {World A C : Type 0}
    → (C → Result C)
    → (World → C → Result (List A × C))
    → Bool
    → Option ℕ
    → ℕ
    → (ℕ → Pass World A (Unit {0}))
    → ℕ
    → Result C
    → Option (Final C (Unit {0}))
unfolding run_analyzer
run_channel_analyzer {C = C} close read watch duration start passes fuel made =
    let closing : Closing C (Unit {0}) = record {
      close_collector = close;
      flush = λ s. ok s;
      close_writer = λ s. ok s;
    } in
    run_analyzer closing read (λ rows s. ok s) watch duration start passes fuel made (ok tt)

-- `main`: what is not a RuntimeError or a KeyboardInterrupt ends in a traceback, with status 1 too.
unfoldable pub exit_status : Result (Unit {0}) → ℕ
exit_status (ok done) = 0
exit_status (err keyboard_interrupt) = 130
exit_status (err e) = 1
