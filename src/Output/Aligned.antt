-- ===== src/Output/Aligned.antt =====
-- The lines of a table have one length.
use Prim.Native.String.append
use Prim.Native.String.{◌++◌}
use ebpf_udp_tcp_analyzer.Base.{
  ℕ, zero, suc, ◌+◌, ◌-◌, ◌≤◌, ◌≡◌, refl, ap, inl, inr, String, List, [], ◌∷◌, map, All, IsIn,
  arith,
}
use ebpf_udp_tcp_analyzer.Base.Text.{text_length, join}
use ebpf_udp_tcp_analyzer.Bpftool.Json.{Json, Fields}
use ebpf_udp_tcp_analyzer.Output.{
  repeated, ljust, head_of, tail_of, longest, widths_of, padded, row_cells, emit_table, columns_of,
}

text_length-append : (s t : String) → text_length (s ++ t) ≡ text_length s + text_length t
unfolding text_length
text_length-append String.[] t = omega (arith, ap text_length (append.nil t))
text_length-append (String.◌∷◌ c s) t =
    omega (arith, ap text_length (append.cons c s t), text_length-append s t)

one : text_length " " ≡ 1
unfolding text_length
one = refl

one_dash : text_length "-" ≡ 1
unfolding text_length
one_dash = refl

text_length-repeated : (c : String) (n : ℕ) → text_length c ≡ 1 → text_length (repeated c n) ≡ n
unfolding text_length repeated
text_length-repeated c zero h = refl
text_length-repeated c (suc n) h =
    omega (arith, text_length-append c (repeated c n), text_length-repeated c n h)

text_length-ljust :
    (value : String) (width : ℕ)
    → text_length value ≤ width
    → text_length (ljust value width) ≡ width
unfolding ljust
text_length-ljust value width h = omega (
  arith,
  text_length-append value (repeated " " (width - text_length value)),
  text_length-repeated " " (width - text_length value) one,
)

-- A row with a cell for each width, none longer than its width.
abbrev IsWithin : List String → List ℕ → Type 0
IsWithin [] [] = Unit {0}
IsWithin (value ∷ row) (width ∷ widths) = (text_length value ≤ width) × IsWithin row widths
IsWithin _ _ = ⊥

same_lengths :
    (row : List String) (widths : List ℕ)
    → IsWithin row widths
    → text_length (join "  " (padded row widths))
      ≡ text_length (join "  " (map (repeated "-") widths))
unfolding join padded
same_lengths [] [] h = refl
same_lengths [] (width ∷ widths) h = elim h [ ]
same_lengths (value ∷ row) [] h = elim h [ ]
same_lengths (value ∷ []) (width ∷ more ∷ widths) h = absurd h.1
same_lengths (value ∷ next ∷ row) (width ∷ []) h = absurd h.1
same_lengths (value ∷ []) (width ∷ []) h =
    omega (arith, text_length-ljust value width h.0, text_length-repeated "-" width one_dash)
same_lengths (value ∷ next ∷ row) (width ∷ more ∷ widths) h =
    let rest = same_lengths (next ∷ row) (more ∷ widths) h.1 in
    let tail = join "  " (padded (next ∷ row) (more ∷ widths)) in
    let dashes = join "  " (map (repeated "-") (more ∷ widths)) in
    omega (
      arith,
      rest,
      text_length-append (ljust value width) ("  " ++ tail),
      text_length-append "  " tail,
      text_length-append (repeated "-" width) ("  " ++ dashes),
      text_length-append "  " dashes,
      text_length-ljust value width h.0,
      text_length-repeated "-" width one_dash,
    )

longest_bounds :
    (n : ℕ) (value : String) (values : List String)
    → IsIn value values
    → text_length value ≤ longest n values
unfolding longest
longest_bounds n value [] h = elim h [ ]
longest_bounds n value (first ∷ values) (inl same) = rw same (ground arith)
longest_bounds n value (first ∷ values) (inr later) =
    ground (arith, longest_bounds n value values later)

longest_above : (n : ℕ) (values : List String) → n ≤ longest n values
unfolding longest
longest_above n [] = omega arith
longest_above n (value ∷ values) = ground (arith, longest_above n values)

IsIn-map : {A B : Type 0} (f : A → B) (x : A) (xs : List A) → IsIn x xs → IsIn (f x) (map f xs)
IsIn-map f x [] h = elim h [ ]
IsIn-map f x (y ∷ xs) (inl same) = inl (ap f same)
IsIn-map f x (y ∷ xs) (inr later) = inr (IsIn-map f x xs later)

-- A cell for each column.
abbrev HasCells : List String → List String → Type 0
HasCells [] [] = Unit {0}
HasCells (column ∷ columns) (value ∷ row) = HasCells columns row
HasCells _ _ = ⊥

row-IsWithin :
    (columns row : List String) (rows : List (List String))
    → IsIn row rows
    → HasCells columns row
    → IsWithin row (widths_of columns rows)
unfolding widths_of
row-IsWithin [] [] rows h shaped = tt
row-IsWithin [] (value ∷ row) rows h shaped = elim shaped [ ]
row-IsWithin (column ∷ columns) [] rows h shaped = elim shaped [ ]
row-IsWithin (column ∷ columns) (value ∷ row) rows h shaped = (
  longest_bounds (text_length column) value (map head_of rows)
      (IsIn-map head_of (value ∷ row) rows h),
  row-IsWithin columns row (map tail_of rows) (IsIn-map tail_of (value ∷ row) rows h) shaped,
)

header-IsWithin :
    (columns : List String) (rows : List (List String)) → IsWithin columns (widths_of columns rows)
unfolding widths_of
header-IsWithin [] rows = tt
header-IsWithin (column ∷ columns) rows = (
  longest_above (text_length column) (map head_of rows),
  header-IsWithin columns (map tail_of rows),
)

module _ (text_of : Json → String) (dumps : Json → String) where
  row_cells-HasCells :
      (columns : List String) (sample : Fields)
      → HasCells columns (row_cells text_of dumps columns sample)
  unfolding row_cells
  row_cells-HasCells [] sample = tt
  row_cells-HasCells (column ∷ columns) sample = row_cells-HasCells columns sample

  row_lines :
      (columns : List String) (rows : List (List String)) (samples : List Fields)
      → ((sample : Fields)
          → IsIn sample samples
          → IsIn (row_cells text_of dumps columns sample) rows)
      → All
          (λ line.
            text_length line
            ≡ text_length (join "  " (map (repeated "-") (widths_of columns rows))))
          (map
            (λ row. join "  " (padded row (widths_of columns rows)))
            (map (row_cells text_of dumps columns) samples))
  row_lines columns rows [] h = tt
  row_lines columns rows (sample ∷ samples) h = (
    same_lengths (row_cells text_of dumps columns sample) (widths_of columns rows) (
        row-IsWithin columns (row_cells text_of dumps columns sample) rows (h sample (inl refl))
          (row_cells-HasCells columns sample)),
    row_lines columns rows samples (λ s here. h s (inr here)),
  )

  -- All lines of a table - the header, the rule and one line for each sample - have one length.
  pub emit_table-IsAligned :
      (sample : Fields) (samples : List Fields)
      → (width : ℕ) × All
          (λ line. text_length line ≡ width)
          (emit_table text_of dumps (sample ∷ samples))
  unfolding emit_table
  emit_table-IsAligned sample samples =
      let columns = columns_of (sample ∷ samples) in
      let rows = map (row_cells text_of dumps columns) (sample ∷ samples) in
      (
        text_length (join "  " (map (repeated "-") (widths_of columns rows))),
        (
          same_lengths columns (widths_of columns rows) (header-IsWithin columns rows),
          (
            refl,
            row_lines columns rows (sample ∷ samples)
                (λ s here. IsIn-map (row_cells text_of dumps columns) s (sample ∷ samples) here),
          ),
        ),
      )
