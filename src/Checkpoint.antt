-- ===== src/Checkpoint.antt =====
-- The part that the four `read_checkpoint` readers share (src/udp_analyzer/ebpf.py `_read_ingress`
-- and `_read_delivered`, tcp_channel.py and udp_channel.py `_read_flows`): add the entries of a map
-- dump up by identity, drop the baselines of vanished flows, then go through the totals and report
-- each flow that has a baseline. The readers differ in the counters, in the identity and in `emit`,
-- the body of the second loop from the deltas on.
pub mod Sums
pub mod Baseline
pub mod Growth
pub mod Rows
use ebpf_udp_tcp_analyzer.Base.{ℕ, ◌+◌, ◌≡◌, Option, none, some, List, [], ◌∷◌, ◌++◌, foldl, Eq}
use ebpf_udp_tcp_analyzer.Base.Dict.{Dict, get, put, set_default, restrict}
use ebpf_udp_tcp_analyzer.Errors.{Result, ok, require, key_error, ◌>>=◌}

-- A tuple of cumulative counters, added field by field.
pub record Counting (C : Type 0) : Type 0 where
  pub zero : C
  pub add : C → C → C

-- One of the counters.
pub record Reading {C : Type 0} (c : Counting C) : Type 0 where
  pub read : C → ℕ
  pub read-zero : read c.zero ≡ 0
  pub read-add : (a b : C) → read (c.add a b) ≡ read a + read b

-- `totals` and `first_entry`.
pub record Totals (K C E : Type 0) : Type 0 where
  pub totals : Dict K C
  pub first_entry : Dict K E

-- `totals.get(identity)`, or zero counters.
abbrev pub or_zero : {C : Type 0} → Counting C → Option C → C
or_zero c none = c.zero
or_zero c (some a) = a

module _ {K C E : Type 0} ⦃q : Eq K⦄ (c : Counting C) (identity : E → K) (counters : E → C) where
  -- One round of the first loop.
  unfoldable pub add_entry : Totals K C E → E → Totals K C E
  add_entry t entry = record {
    totals =
        put (identity entry) (c.add (or_zero c (get (identity entry) t.totals)) (counters entry))
          t.totals;
    first_entry = set_default (identity entry) entry t.first_entry;
  }

  unfoldable pub aggregate : List E → Totals K C E
  unfolding add_entry
  aggregate = foldl add_entry (record { totals = []; first_entry = [] })

-- The rows of one flow: none at first sight, else those for the deltas to its baseline.
abbrev pub report :
    {C E S R : Type 0}
    → (C → C → E → S → Result (List R × S))
    → Option C
    → C
    → E
    → S
    → Result (List R × S)
report emit none now entry s = ok ([], s)
report emit (some previous) now entry s = emit previous now entry s

module _ {K C E S R : Type 0} ⦃q : Eq K⦄ (emit : C → C → E → S → Result (List R × S)) where
  -- The second loop: `previous` is overwritten as it goes on, and `rows` grows.
  unfoldable pub report_flows :
      Dict K E → Dict K C → Dict K C → S → List R → Result (Dict K C × S × List R)
  report_flows first_entry [] previous s rows = ok (previous, s, rows)
  report_flows first_entry ((k, now) ∷ items) previous s rows = do
    entry ← require (get k first_entry) key_error
    (more, s') ← report emit (get k previous) now entry s
    report_flows first_entry items (put k now previous) s' (rows ++ more)

  -- A whole reader: the new baseline, the state that `emit` goes through, the rows.
  unfoldable pub read_flows :
      Counting C → (E → K) → (E → C) → List E → Dict K C → S → Result (Dict K C × S × List R)
  unfolding aggregate report_flows
  read_flows c identity counters entries previous s =
      let t = aggregate c identity counters entries in
      report_flows t.first_entry t.totals (restrict previous t.totals) s []
