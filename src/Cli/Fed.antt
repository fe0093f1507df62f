-- ===== src/Cli/Fed.antt =====
-- The checkpoints that a loop has read as a run of the collector, over dumps whose counters rise.
use ebpf_udp_tcp_analyzer.Base.{
  ℕ, zero, suc, ◌+◌, ◌≡◌, refl, inl, inr, ap, List, [], ◌∷◌, ◌++◌, arith,
}
use ebpf_udp_tcp_analyzer.Errors.{Result, ok, err, ◌>>=◌, Result-cases, >>=-eq-ok}
use ebpf_udp_tcp_analyzer.Models.{UdpSample}
use ebpf_udp_tcp_analyzer.Ingress.Wire.{UdpMapEntry}
use ebpf_udp_tcp_analyzer.Collector.{World, Collector, read_checkpoint, run}
use ebpf_udp_tcp_analyzer.Collector.Baseline.{Dumps}
use ebpf_udp_tcp_analyzer.Collector.Growth.{Continues, Chain, done, next}
use ebpf_udp_tcp_analyzer.Writers.{Writer, write_all}
use ebpf_udp_tcp_analyzer.Writers.Sql.{concat}
use ebpf_udp_tcp_analyzer.Cli.Loop.{Pass, reads, writes}
use ebpf_udp_tcp_analyzer.Cli.Completed.{worlds}

abbrev pub joined : List (List UdpSample) × Collector → Result (List UdpSample × Collector)
joined (batches, c) = ok (concat batches, c)

join_rest :
    (rows : List UdpSample) (r : Result (List (List UdpSample) × Collector))
    → ((r >>= joined) >>= λ (more, c). ok (rows ++ more, c))
      ≡ ((r >>= λ (batches, c). ok (rows ∷ batches, c)) >>= joined)
join_rest rows (err e) = refl
join_rest rows (ok (batches, c)) = refl

pub run-reads :
    {S : Type 0} (write : List UdpSample → S → Result S) (ws : List World) (c : Collector)
    → run ws c ≡ (reads read_checkpoint write ws c >>= joined)
unfolding reads run
run-reads write [] c = refl
run-reads write (w ∷ ws) c = elim (Result-cases (read_checkpoint w c)) [
  | inl (e, raised) ↦ rw raised refl
  | inr ((rows, c'), read) ↦
      rw (read, run-reads write ws c') (join_rest rows (reads read_checkpoint write ws c'))
]

-- The writes of a loop are those of a session's batches.
pub writes-write_all :
    (W : Writer) (batches : List (List UdpSample)) (s : W.State)
    → writes read_checkpoint W.write_samples batches s ≡ write_all W batches s
unfolding writes write_all
writes-write_all W [] s = refl
writes-write_all W (rows ∷ batches) s = elim (Result-cases (W.write_samples rows s)) [
  | inl (e, raised) ↦ rw raised refl
  | inr (s', wrote) ↦ rw wrote (writes-write_all W batches s')
]

-- The dump of a pass whose checkpoint is read parses, has the flows of the dump before, and no
-- counter goes down; nothing is asked of the other passes.
pub record IsFed {S : Type 0} (passes : ℕ → Pass World UdpSample S) (dumps : ℕ → List UdpMapEntry)
    : Type 0 where
  pub parses :
      (n : ℕ) (c c' : Collector) (rows : List UdpSample)
      → read_checkpoint (passes n).world c ≡ ok (rows, c')
      → Dumps (passes n).world (dumps (suc n))
  pub rises :
      (n : ℕ) (c c' : Collector) (rows : List UdpSample)
      → read_checkpoint (passes n).world c ≡ ok (rows, c')
      → Continues (dumps n) (dumps (suc n))

pub fed-Chain :
    {S : Type 0} (write : List UdpSample → S → Result S) (passes : ℕ → Pass World UdpSample S)
    (dumps : ℕ → List UdpMapEntry)
    → IsFed passes dumps
    → (k n m : ℕ) (c c' : Collector) (batches : List (List UdpSample)) → k + n ≡ m
    → reads read_checkpoint write (worlds passes n k) c ≡ ok (batches, c')
    → Chain (dumps n) (worlds passes n k) (dumps m)
unfolding reads
fed-Chain write passes dumps fed zero n m c c' batches at h = done (ap dumps (omega arith))
fed-Chain write passes dumps fed (suc k) n m c c' batches at h =
    let ((rows, c1), first, h1) = >>=-eq-ok (read_checkpoint (passes n).world c) _ h in
    let ((more, c2), rest, h2) =
      >>=-eq-ok (reads read_checkpoint write (worlds passes (suc n) k) c1) _ h1 in
    next (dumps (suc n)) (fed.parses n c c1 rows first) (fed.rises n c c1 rows first)
      (fed-Chain write passes dumps fed k (suc n) m c1 c2 more (omega arith) rest)
