-- ===== src/Cli/Storage.antt =====
-- What a run of the command leaves in the storage.
use ebpf_udp_tcp_analyzer.Base.{
  ℕ, ◌+◌, ◌≡◌, refl, ◌⊎◌, inl, inr, ◌∙◌, sym, ap, Bool, ◌||◌, Option, none, some, String, List, [],
  ◌++◌, arith,
}
use mathlib.Core.Path.{subst}
use mathlib.Core.List.{append-nil}
use ebpf_udp_tcp_analyzer.Errors.{Result, ok, err, ◌>>=◌}
use ebpf_udp_tcp_analyzer.Models.{UdpSample}
use ebpf_udp_tcp_analyzer.Ingress.Wire.{UdpMapEntry}
use ebpf_udp_tcp_analyzer.Collector.{World, Collector, read_checkpoint, run}
use ebpf_udp_tcp_analyzer.Collector.Growth.{
  IsPlain, IsBaselined, packets_in, bytes_in, packets_reported, bytes_reported, run_growth,
}
use ebpf_udp_tcp_analyzer.Writers.{Writer}
use ebpf_udp_tcp_analyzer.Writers.Values.{rows_of}
use ebpf_udp_tcp_analyzer.Writers.Sql.{concat, Appends, write_all-Appends}
use ebpf_udp_tcp_analyzer.Cli.Loop.{Pass}
use ebpf_udp_tcp_analyzer.Cli.Completed.{Completed, completed, worlds, Left, loop-Completed}
use ebpf_udp_tcp_analyzer.Base.Dict.{is_some}
use ebpf_udp_tcp_analyzer.Cli.Turn.{Stopped}
use ebpf_udp_tcp_analyzer.Cli.Command.{
  Final, Closing, finish, finished, swallow, deadline_of, run_analyzer,
}
use ebpf_udp_tcp_analyzer.Cli.Fed.{joined, run-reads, writes-write_all, IsFed, fed-Chain}

abbrev pub closing_of : {C : Type 0} (W : Writer) → (C → Result C) → Closing C W.State
closing_of W close = record { close_collector = close; flush = W.flush; close_writer = W.close }

nothing : {A : Type 0} {a : A} → ◌≡◌ {A = Option A} none (some a) → ⊥
nothing h = absurd (ground (arith, h))

module _ (iso : ℕ → String) (W : Writer) (I : W.State → Type 0) (law : Appends iso W I) where
  -- Some of the rows of a batch, from the first on, are stored behind those of `s`.
  abbrev pub Adds : W.State → List UdpSample → W.State → Type 0
  Adds s rows t =
      (part : List UdpSample) × (rest : List UdpSample) × (rows ≡ part ++ rest)
      × (W.stored t ≡ W.stored s ++ rows_of iso part)

  -- A signal in the write of a batch leaves a storage that holds some of its rows, from the first
  -- on, and that can be flushed and closed, which may store more of them.
  pub record IsCuttable (passes : ℕ → Pass World UdpSample W.State) : Type 0 where
    pub leaves :
        (n : ℕ) (leave : List UdpSample → W.State → W.State) (rows : List UdpSample) (s : W.State)
        → (passes n).cut ≡ some leave
        → I s
        → Adds s rows (leave rows s)
    pub closes :
        (n : ℕ) (leave : List UdpSample → W.State → W.State) (rows : List UdpSample) (s : W.State)
        → (passes n).cut ≡ some leave
        → I s
        → (t : W.State) × (u : W.State) × (W.flush (leave rows s) ≡ ok t)
          × (W.close t ≡ ok u)
          × Adds s rows u

  -- The calls of `finally` keep what is stored, also if closing the collector raises.
  finish-stored :
      (close : Collector → Result Collector) (tried : Result (Unit {0})) (r : Result Collector)
      (c : Collector) (s : W.State)
      → I s
      → (t : W.State) × ((finish (closing_of W close) tried r c s).writer ≡ some t)
        × (W.stored t ≡ W.stored s)
  unfolding finish
  finish-stored close tried (err e) c s i = (s, refl, refl)
  finish-stored close tried (ok c') c s i =
      let (t, flushed, kept, i') = law.flushes s i in
      let (u, closed, kept') = law.closes t i' in (u, rw (flushed, closed) refl, kept' ∙ kept)

  append_none : (s : W.State) → W.stored s ≡ W.stored s ++ rows_of iso []
  append_none s = rw append-nil refl

  module _ (watch : Bool) (deadline : Option ℕ) (passes : ℕ → Pass World UdpSample W.State)
      (dumps : ℕ → List UdpMapEntry) (c : Collector) (s : W.State) where
    -- A signal has cut short the write of the k-th pass, of whose rows `part` is stored.
    abbrev pub IsCutShort : ℕ → Collector → List UdpSample → Type 0
    IsCutShort k c' part =
        (leave : List UdpSample → W.State → W.State) × (rows : List UdpSample) × (c'' : Collector)
        × (rest : List UdpSample) × ((passes k).cut ≡ some leave)
        × (read_checkpoint (passes k).world c' ≡ ok (rows, c''))
        × (rows ≡ part ++ rest)

    finish-Left :
        (close : Collector → Result Collector) (tried : Result (Unit {0})) (r : Result Collector)
        (c' c1 : Collector) (k : ℕ) (t left : W.State)
        → IsCuttable passes
        → I t
        → Left read_checkpoint W.write_samples watch deadline passes k c' t left
        → (u : W.State) × (part : List UdpSample) × ((finish
              (closing_of W close)
              tried
              r
              c1
              left).writer
            ≡ some u)
          × (W.stored u ≡ W.stored t ++ rows_of iso part)
          × ((part ≡ []) ⊎ IsCutShort k c' part)
    unfolding finish
    finish-Left close tried r c' c1 k t left cuts i (inl same) =
        let i' = subst I (sym same) i in
        let (u, kept, stored) = finish-stored close tried r c1 left i' in
        (u, [], kept, stored ∙ (ap W.stored same ∙ append_none t), inl refl)
    finish-Left close tried (err e) c' c1 k t left cuts i
          (inr (leave, rows, c'', cut, read, same)) =
        let (part, rest, split, stored) = cuts.leaves k leave rows t cut i in
        (
          left,
          part,
          refl,
          ap W.stored same ∙ stored,
          inr (leave, rows, c'', rest, cut, read, split),
        )
    finish-Left close tried (ok c2) c' c1 k t left cuts i
          (inr (leave, rows, c'', cut, read, same)) =
        let (f, u, flushed, closed, (part, rest, split, stored)) =
          cuts.closes k leave rows t cut i in
        (
          u,
          part,
          rw (same, flushed, closed) refl,
          stored,
          inr (leave, rows, c'', rest, cut, read, split),
        )

    -- What is stored in a state `u`: the rows of the first k checkpoints, which add up to the growth
    -- of the counters from the first dump to the k-th, where the loop stopped before its k-th pass
    -- did anything, with the collector `c'` and the storage `t`; and then those rows of the k-th pass
    -- that a write cut short by a signal has stored.
    pub record Holds (u : W.State) : Type 0 where
      pub k : ℕ
      pub rows : List UdpSample
      pub part : List UdpSample
      pub c' : Collector
      pub t : W.State
      pub ran : run (worlds passes 0 k) c ≡ ok (rows, c')
      pub stopped : Stopped read_checkpoint W.write_samples watch deadline passes k c' t
      pub stored : W.stored u ≡ (W.stored s ++ rows_of iso rows) ++ rows_of iso part
      pub cut : (part ≡ []) ⊎ IsCutShort k c' part
      pub packets : packets_reported rows + packets_in (dumps 0) ≡ packets_in (dumps k)
      pub bytes : bytes_reported rows + bytes_in (dumps 0) ≡ bytes_in (dumps k)

    -- What the storage holds after a run.
    abbrev pub Stored : Final Collector W.State → Type 0
    Stored final = (u : W.State) × (final.writer ≡ some u) × Holds u

    Completed-Stored :
        (close : Collector → Result Collector) (tried : Result (Unit {0})) (r : Result Collector)
        (out : Result (Unit {0}) × Collector × W.State)
        → IsPlain c
        → IsBaselined c (dumps 0)
        → IsFed passes dumps
        → IsCuttable passes
        → I s
        → Completed read_checkpoint W.write_samples watch deadline passes 0 c s out
        → Stored (finish (closing_of W close) tried r out.1 out.2)
    Completed-Stored close tried r out plain base fed cuts i
          (completed k m batches c' t at h g left stop) =
        let ran : run (worlds passes 0 k) c ≡ ok (concat batches, c') =
          run-reads W.write_samples (worlds passes 0 k) c ∙ ap (λ r. r >>= joined) h in
        let grown =
          run_growth (worlds passes 0 k) c c' (concat batches) (dumps 0) (dumps k) plain base
            (fed-Chain W.write_samples passes dumps fed k 0 k c c' batches (omega arith) h) ran in
        let (t', wrote, stored, i') = write_all-Appends iso W I law batches s i in
        let both : ok t' ≡ ok t = sym wrote ∙ (sym (writes-write_all W batches s) ∙ g) in
        let same : t' ≡ t = cc in
        let last : m ≡ k = omega arith in
        let left' =
          subst (λ n. Left read_checkpoint W.write_samples watch deadline passes n c' t out.2) last
            left in
        let (u, part, kept, more, cut) =
          finish-Left close tried r c' out.1 k t out.2 cuts (subst I same i') left' in
        (
          u,
          kept,
          record {
            k = k;
            rows = concat batches;
            part = part;
            c' = c';
            t = t;
            ran = ran;
            stopped =
                subst (λ n. Stopped read_checkpoint W.write_samples watch deadline passes n c' t)
                  last stop;
            stored = more ∙ ap (λ old. old ++ rows_of iso part) (sym (ap W.stored same) ∙ stored);
            cut = cut;
            packets = grown.0;
            bytes = grown.1;
          },
        )

    finished-Stored :
        (close : Collector → Result Collector) (final : Final Collector W.State)
        (o : Option (Result (Unit {0}) × Collector × W.State))
        → IsPlain c
        → IsBaselined c (dumps 0)
        → IsFed passes dumps
        → IsCuttable passes
        → I s
        → ((out : Result (Unit {0}) × Collector × W.State)
            → o ≡ some out
            → Completed read_checkpoint W.write_samples watch deadline passes 0 c s out)
        → finished (closing_of W close) o ≡ some final
        → Stored final
    unfolding finished
    finished-Stored close final none plain base fed cuts i all h = absurd (nothing h)
    finished-Stored close final (some out) plain base fed cuts i all h =
        let left : finish (closing_of W close) (swallow out.0) (close out.1) out.1 out.2 ≡ final =
          cc in
        subst Stored left (
          Completed-Stored close (swallow out.0) (close out.1) out plain base fed cuts i
            (all out refl))

-- However a run of the command ends - by its deadline, a signal, an exception of a checkpoint, of
-- the output or of `finally` - a storage that appends holds what it held and the rows of the
-- checkpoints of all passes before the one that raised, or up to the one after which the test or the
-- sleep ended the loop; and only where a signal has cut short the write of the pass that raised, some
-- of the rows of that pass, from the first on. The packets and bytes of the passes before add up to
-- the growth of the counters of the ingress map from the dump of the baseline to the dump of the last
-- of these checkpoints, where the dump of each pass whose checkpoint is read has the flows of the one
-- before and no counter goes down, and the collector has no filter, reads no delivered map and does
-- not attribute by port.
pub run_analyzer-Stored :
    (iso : ℕ → String) (W : Writer) (I : W.State → Type 0) (law : Appends iso W I)
    (close : Collector → Result Collector) (watch : Bool) (duration : Option ℕ) (start : ℕ)
    (passes : ℕ → Pass World UdpSample W.State) (fuel : ℕ) (dumps : ℕ → List UdpMapEntry)
    (c : Collector) (s : W.State) (final : Final Collector W.State)
    → IsPlain c
    → IsBaselined c (dumps 0)
    → IsFed passes dumps
    → IsCuttable iso W I law passes
    → I s
    → run_analyzer
        (closing_of W close)
        read_checkpoint
        W.write_samples
        watch
        duration
        start
        passes
        fuel
        (ok c)
        (ok s)
      ≡ some final
    → Stored iso W I law
        (watch || is_some duration)
        (deadline_of (closing_of W close) start duration)
        passes
        dumps
        c
        s
        final
unfolding run_analyzer
run_analyzer-Stored iso W I law close watch duration start passes fuel dumps c s final plain base
      fed cuts i h =
    let until = deadline_of (closing_of W close) start duration in
    finished-Stored iso W I law (watch || is_some duration) until passes dumps c s close final _
      plain base fed cuts i
      (loop-Completed read_checkpoint W.write_samples (watch || is_some duration) until passes fuel
        0 c s)
      h
