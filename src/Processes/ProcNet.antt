-- ===== src/Processes/ProcNet.antt =====
-- The rows of /proc/<pid>/net/udp and udp6 (src/udp_analyzer/processes.py `parse_proc_net_udp` and
-- `parse_proc_address`).
use Prim.Native.Char.{code}
use ebpf_udp_tcp_analyzer.Base.{
  ℕ, ◌+◌, ◌*◌, String, List, [], ◌∷◌, ◌++◌, ◌==◌, nat_eq, if◌then◌else◌,
}
use ebpf_udp_tcp_analyzer.Base.Text.{
  split_lines, split_words, split_once, take_text, drop_text, text_length, join,
}
use ebpf_udp_tcp_analyzer.Errors.{Result, ok, err, value_error, require, ◌>>=◌}
use ebpf_udp_tcp_analyzer.Bpftool.Json.{digit, int_of_digits, int_base16}
use ebpf_udp_tcp_analyzer.Bpftool.Address.{dotted}

pub record UdpSocketRow : Type 0 where
  pub local_ip : String
  pub local_port : ℕ
  pub remote_ip : String
  pub remote_port : ℕ
  pub socket_inode : ℕ

-- `bytes.fromhex(s)`; the spaces that it skips are `ValueError`s here.
unfoldable pub from_hex : String → Result (List ℕ)
unfolding digit
from_hex String.[] = ok []
from_hex (String.◌∷◌ c String.[]) = err value_error
from_hex (String.◌∷◌ c (String.◌∷◌ d s)) = do
  high ← require (digit 16 (code c)) value_error
  low ← require (digit 16 (code d)) value_error
  rest ← from_hex s
  ok ((16 * high + low) ∷ rest)

abbrev pub reversed : List ℕ → List ℕ
reversed [] = []
reversed (b ∷ bs) = reversed bs ++ (b ∷ [])

-- The four pieces of 8 digits, with colons between.
abbrev pub chunks : String → String
chunks s = join ":" (
    take_text 8 s
    ∷ take_text 8 (drop_text 8 s)
    ∷ take_text 8 (drop_text 16 s)
    ∷ take_text 8 (drop_text 24 s)
    ∷ [])

unfoldable pub address_text : String → Result String
unfolding from_hex dotted text_length join take_text drop_text
address_text raw_ip =
    if text_length raw_ip == 8
    then (do bytes ← from_hex raw_ip; ok (dotted (reversed bytes)))
    else if text_length raw_ip == 32
    then ok (chunks raw_ip)
    else ok raw_ip

unfoldable pub parse_proc_address : String → Result (String × ℕ)
unfolding address_text split_once int_base16
parse_proc_address value = do
  (raw_ip, raw_port) ← require (split_once b':' value) value_error
  port ← int_base16 raw_port
  ip ← address_text raw_ip
  ok (ip, port)

-- A row by its columns: the two addresses are the second and the third, the inode is the tenth.
unfoldable pub parse_row : List String → Result (List UdpSocketRow)
unfolding parse_proc_address int_of_digits
parse_row (c0 ∷ local ∷ remote ∷ c3 ∷ c4 ∷ c5 ∷ c6 ∷ c7 ∷ c8 ∷ inode ∷ more) = do
  (local_ip, local_port) ← parse_proc_address local
  (remote_ip, remote_port) ← parse_proc_address remote
  socket_inode ← int_of_digits 10 inode
  ok (
      record {
        local_ip = local_ip;
        local_port = local_port;
        remote_ip = remote_ip;
        remote_port = remote_port;
        socket_inode = socket_inode;
      }
      ∷ [])
parse_row columns = ok []

unfoldable pub parse_rows : List String → Result (List UdpSocketRow)
unfolding parse_row split_words
parse_rows [] = ok []
parse_rows (line ∷ lines) = do
  row ← parse_row (split_words line)
  rows ← parse_rows lines
  ok (row ++ rows)

-- `lines[1:]`
abbrev pub after_header : List String → List String
after_header [] = []
after_header (header ∷ lines) = lines

unfoldable pub parse_proc_net_udp : String → Result (List UdpSocketRow)
unfolding parse_rows split_lines
parse_proc_net_udp text = parse_rows (after_header (split_lines text))
