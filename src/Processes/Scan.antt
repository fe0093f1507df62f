-- ===== src/Processes/Scan.antt =====
-- The scan of /proc (src/udp_analyzer/processes.py `ProcessSocketInventory`), on the texts that the
-- files hold; a file that cannot be read is `none`.
use Prim.Native.Char.{code}
use ebpf_udp_tcp_analyzer.Base.{
  ℕ, zero, suc, Bool, true, false, not, ◌&&◌, ◌||◌, String, Option, none, some, List, [], ◌∷◌, ◌++◌,
  map, keep, ◌==◌, nat_eq, string_eq, leb, if◌then◌else◌,
}
use ebpf_udp_tcp_analyzer.Base.Text.{
  strip, split_on, split_lines, split_words, drop_text, drop_last, starts_with, ends_with, join,
}
use ebpf_udp_tcp_analyzer.Errors.{Result, ok, err, value_error, ◌>>=◌}
use ebpf_udp_tcp_analyzer.Bpftool.Json.{int_of_digits}
use ebpf_udp_tcp_analyzer.Processes.{ProcessSocket}
use ebpf_udp_tcp_analyzer.Processes.ProcNet.{UdpSocketRow, parse_proc_net_udp}

-- What stands below /proc.
pub record ProcRoot : Type 0 where
  pub children : List String
  pub comm : ℕ → Option String
  pub cmdline : ℕ → Option String
  pub cgroup : ℕ → Option String
  pub status : ℕ → Option String
  pub net_udp : ℕ → Option String
  pub net_udp6 : ℕ → Option String
  -- the entries of `fd`, each with what `os.readlink` gives
  pub fd : ℕ → Option (List (Option String))
  pub ns_net : ℕ → Option String

-- `read_text`
abbrev pub read_text : Option String → String
read_text none = ""
read_text (some text) = text

abbrev pub is_digit : ℕ → Bool
is_digit c = leb 48 c && leb c 57

abbrev pub all_digits : String → Bool
all_digits String.[] = true
all_digits (String.◌∷◌ c s) = is_digit (code c) && all_digits s

-- `name.isdigit()`, on the names that /proc has
abbrev pub is_number : String → Bool
is_number String.[] = false
is_number (String.◌∷◌ c s) = all_digits (String.◌∷◌ c s)

unfoldable pub iter_pids : List String → Result (List ℕ)
unfolding int_of_digits
iter_pids [] = ok []
iter_pids (name ∷ names) =
    let rest = iter_pids names in
    if is_number name then (do pid ← int_of_digits 10 name; pids ← rest; ok (pid ∷ pids)) else rest

abbrev pub inode_list : Result ℕ → List ℕ
inode_list (err e) = []
inode_list (ok inode) = inode ∷ []

-- `int(target[len(prefix):-1])` where the target has the prefix and ends in "]".
unfoldable pub bracketed : String → ℕ → String → Result ℕ
unfolding starts_with ends_with drop_text drop_last int_of_digits
bracketed prefix length target =
    if starts_with target prefix && ends_with target "]"
    then int_of_digits 10 (drop_last (drop_text length target))
    else err value_error

unfoldable pub link_inodes : List (Option String) → List ℕ
unfolding bracketed
link_inodes [] = []
link_inodes (none ∷ entries) = link_inodes entries
link_inodes (some target ∷ entries) =
    inode_list (bracketed "socket:[" 8 target) ++ link_inodes entries

abbrev or_none : Option (List (Option String)) → List (Option String)
or_none none = []
or_none (some entries) = entries

unfoldable pub process_socket_inodes : ProcRoot → ℕ → List ℕ
unfolding link_inodes
process_socket_inodes proc pid = link_inodes (or_none (proc.fd pid))

unfoldable pub rows_of_file : Option String → Result (List UdpSocketRow)
unfolding parse_proc_net_udp
rows_of_file none = ok []
rows_of_file (some text) = parse_proc_net_udp text

unfoldable pub read_udp_sockets : ProcRoot → ℕ → Result (List UdpSocketRow)
unfolding rows_of_file
read_udp_sockets proc pid = do
  rows ← rows_of_file (proc.net_udp pid)
  rows6 ← rows_of_file (proc.net_udp6 pid)
  ok (rows ++ rows6)

-- `" ".join(part for part in data.split("\x00") if part)`
unfoldable pub read_cmdline : Option String → String
unfolding split_on join
read_cmdline text = join " " (keep (λ part. not (part == "")) (split_on 0 (read_text text)))

-- `[0-9a-f]`
abbrev pub is_hex : ℕ → Bool
is_hex c = is_digit c || (leb 97 c && leb c 102)

-- The first n characters, where all are of `[0-9a-f]`.
unfoldable pub hex_prefix : ℕ → String → Option String
hex_prefix zero s = some ""
hex_prefix (suc n) String.[] = none
hex_prefix (suc n) (String.◌∷◌ c s) =
    let rest = hex_prefix n s in
    if is_hex (code c) then elim rest [ none ↦ none | some t ↦ some (String.◌∷◌ c t) ] else none

-- `CONTAINER_ID_RE.search(text)`: the first run of 64 such characters.
unfoldable pub search_container_id : String → Option String
unfolding hex_prefix
search_container_id String.[] = none
search_container_id (String.◌∷◌ c s) = elim (hex_prefix 64 (String.◌∷◌ c s)) [
  | none ↦ search_container_id s
  | some id ↦ some id
]

unfoldable pub read_container_id : Option String → String
unfolding search_container_id
read_container_id text = read_text (search_container_id (read_text text))

-- `parts[-1]`
abbrev pub last_of : String → List String → String
last_of part [] = part
last_of part (next ∷ parts) = last_of next parts

abbrev pub int_or : ℕ → Result ℕ → ℕ
int_or fallback (err e) = fallback
int_or fallback (ok n) = n

unfoldable pub container_pid_from : List String → ℕ → ℕ
unfolding starts_with split_words int_of_digits
container_pid_from [] fallback = fallback
container_pid_from (line ∷ lines) fallback =
    let rest = container_pid_from lines fallback in
    if starts_with line "NSpid:"
    then int_or fallback (int_of_digits 10 (last_of "" (split_words line)))
    else rest

unfoldable pub read_container_pid : Option String → ℕ → ℕ
unfolding container_pid_from split_lines
read_container_pid text fallback = container_pid_from (split_lines (read_text text)) fallback

unfoldable pub read_namespace_id : Option String → ℕ
unfolding bracketed
read_namespace_id none = 0
read_namespace_id (some target) = int_or 0 (bracketed "net:[" 5 target)

abbrev pub is_member : ℕ → List ℕ → Bool
is_member n [] = false
is_member n (m ∷ ms) = (m == n) || is_member n ms

-- `process_name and name != process_name` is false.
abbrev pub is_wanted : Option String → String → Bool
is_wanted none name = true
is_wanted (some wanted) name = (wanted == "") || (name == wanted)

unfoldable pub name_of : ProcRoot → ℕ → String
unfolding strip
name_of proc pid = strip (read_text (proc.comm pid))

-- `ProcessSocket(…)`
unfoldable pub process_socket : ProcRoot → ℕ → UdpSocketRow → ProcessSocket
unfolding name_of read_cmdline read_container_id read_container_pid read_namespace_id
process_socket proc pid row = record {
  host_pid = pid;
  container_pid = read_container_pid (proc.status pid) pid;
  process_name = name_of proc pid;
  command_line = read_cmdline (proc.cmdline pid);
  netns_id = read_namespace_id (proc.ns_net pid);
  container_id = read_container_id (proc.cgroup pid);
  socket_inode = row.socket_inode;
  local_ip = row.local_ip;
  local_port = row.local_port;
  remote_ip = row.remote_ip;
  remote_port = row.remote_port;
}

-- The body of the loop over pids once the process is wanted.
unfoldable pub sockets_of : ProcRoot → ℕ → List ℕ → Result (List ProcessSocket)
unfolding read_udp_sockets process_socket
sockets_of proc pid [] = ok []
sockets_of proc pid (inode ∷ inodes) = do
  rows ← read_udp_sockets proc pid
  ok (
      map (process_socket proc pid)
        (keep (λ (row : UdpSocketRow). is_member row.socket_inode (inode ∷ inodes)) rows))

unfoldable pub scan_pids : ProcRoot → Option String → List ℕ → Result (List ProcessSocket)
unfolding sockets_of process_socket_inodes name_of
scan_pids proc process_name [] = ok []
scan_pids proc process_name (pid ∷ pids) =
    let rest = scan_pids proc process_name pids in
    if not (is_wanted process_name (name_of proc pid)) then rest else (do
      sockets ← sockets_of proc pid (process_socket_inodes proc pid)
      more ← rest
      ok (sockets ++ more))

unfoldable pub scan : ProcRoot → Option String → Result (List ProcessSocket)
unfolding scan_pids iter_pids
scan proc process_name = do pids ← iter_pids proc.children; scan_pids proc process_name pids
