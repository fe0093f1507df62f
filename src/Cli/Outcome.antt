-- ===== src/Cli/Outcome.antt =====
-- How a command ends, and which collectors it closes.
use ebpf_udp_tcp_analyzer.Base.{◌≡◌, ◌≢◌, ◌⊎◌, true, false, Option, none, some}
use ebpf_udp_tcp_analyzer.Errors.{Error, Result, ok, err, keyboard_interrupt}
use ebpf_udp_tcp_analyzer.Cli.Command.{Final, Closing, writer_flushed}

module _ {C S : Type 0} (closing : Closing C S) where
  -- The end of a command, by what its loop has left of the collector and the writer, and by what
  -- could be made and closed.
  pub data Ending (left : C → S → Option (Result (Unit {0}) × C × S)) (made : Result C)
      (made_writer : Result S) (final : Final C S) : Type 0 where
    not_made :
        (e : Error)
        → made ≡ err e
        → final.outcome ≡ err e
        → final.collector ≡ none
        → Ending left made made_writer final
    -- the writer could not be made: the collector stays open
    left_open :
        (c : C) (e : Error)
        → made ≡ ok c
        → made_writer ≡ err e
        → final.outcome ≡ err e
        → final.collector ≡ some c
        → final.is_closed ≡ false
        → Ending left made made_writer final
    -- closing the collector that the loop has left raised: the writer is as the loop has left it,
    -- neither flushed nor closed
    not_closed :
        (c_made : C) (s_made : S) (raised : Result (Unit {0})) (c : C) (s : S) (e : Error)
        → made ≡ ok c_made
        → made_writer ≡ ok s_made
        → left c_made s_made ≡ some (raised, c, s)
        → closing.close_collector c ≡ err e
        → final.outcome ≡ err e
        → final.collector ≡ some c
        → final.is_closed ≡ false
        → final.writer ≡ some s
        → Ending left made made_writer final
    -- the collector is closed, and the writer that the loop has left is flushed and closed
    closed :
        (c_made : C) (s_made : S) (raised : Result (Unit {0})) (c c' : C) (s : S)
        → made ≡ ok c_made
        → made_writer ≡ ok s_made
        → left c_made s_made ≡ some (raised, c, s)
        → closing.close_collector c ≡ ok c'
        → final.collector ≡ some c'
        → final.is_closed ≡ true
        → final.writer ≡ some (writer_flushed closing (closing.flush s) s).1
        → final.outcome ≢ err keyboard_interrupt
          ⊎ ((writer_flushed closing (closing.flush s) s).0 ≡ err keyboard_interrupt)
        → Ending left made made_writer final
