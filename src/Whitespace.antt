-- ===== src/Whitespace.antt =====
-- Whitespace handling of the naming server (NamingServerModule.c: `removeWhitespace`, `strip`) and
-- of the client (clientfunctions.c: its own `removeWhitespace` and `strip`). All work in place on a
-- `char` array, which is the list of its bytes here: a read behind its end gives NUL and a write
-- there is lost. An index of the source that may be -1 is kept one larger: `stop` is `end + 1`.
pub mod Removal
pub mod Collapse
pub mod Scans
pub mod Edges
pub mod ServerStrip
pub mod ClientStrip
use nfs_mock.Base.{
  ℕ, zero, suc, ◌+◌, ◌-◌, Bool, true, false, not, ◌&&◌, ◌||◌, ltb, leb, ◌==◌, if◌then◌else◌, length,
  get_or, set, Bytes, c_str,
}

-- `isspace` in the "C" locale: the bytes 9 to 13, and the blank.
abbrev pub is_space : ℕ → Bool
is_space c = (leb 9 c && leb c 13) || c == b' '

abbrev pub at : Bytes → ℕ → ℕ
at m i = get_or m i 0

abbrev pub strlen : Bytes → ℕ
strlen m = length (c_str m)

-- The loop of `removeWhitespace`, from `readIndex` and `writeIndex`.
pub remove_loop : ℕ → Bytes → (read write : ℕ) → Bytes
remove_loop zero m read write = m
remove_loop (suc fuel) m read write = elim (at m read == 0) [
  | true ↦ set m write 0
  | false ↦ elim (is_space (at m read)) [
    | true ↦ remove_loop fuel m (suc read) write
    | false ↦ remove_loop fuel (set m write (at m read)) (suc read) (suc write)
  ]
]

pub remove_whitespace : Bytes → Bytes
unfolding remove_loop
remove_whitespace m = remove_loop (length m + 1) m 0 0

-- `while(str[start] && isspace(str[start])) start++`
pub skip_spaces : ℕ → Bytes → ℕ → ℕ
skip_spaces zero m start = start
skip_spaces (suc fuel) m start =
    let rest = skip_spaces fuel m (suc start) in
    if not (at m start == 0) && is_space (at m start) then rest else start

-- `while(end >= start && isspace(str[end])) end--`, on `stop`
pub trim_end : Bytes → ℕ → ℕ → ℕ
trim_end m start zero = zero
trim_end m start (suc end) =
    let rest = trim_end m start end in
    if leb start end && is_space (at m end) then rest else suc end

-- `while(j <= end) …` of the naming server, for so many rounds, and the NUL behind it
pub condense : ℕ → Bytes → (i j : ℕ) → Bool → Bytes
condense zero m i j in_space = set m i 0
condense (suc rounds) m i j in_space = elim (is_space (at m j)) [
  | true ↦ elim in_space [
    | true ↦ condense rounds m i (suc j) true
    | false ↦ condense rounds (set m i b' ') (suc i) (suc j) true
  ]
  | false ↦ condense rounds (set m i (at m j)) (suc i) (suc j) false
]

-- The naming server's `strip`: every loop of it stands there twice.
pub strip : Bytes → Bytes
unfolding skip_spaces trim_end condense
strip m =
    let start = skip_spaces (length m) m (skip_spaces (length m) m 0) in
    let stop = trim_end m start (trim_end m start (strlen m)) in
    let once = condense (stop - start) m 0 start false in condense (stop - start) once 0 start false

-- `for(i = 0; start <= end; i++, start++) str[i] = str[start]`
pub shift_left : ℕ → Bytes → (i start : ℕ) → Bytes
shift_left zero m i start = m
shift_left (suc rounds) m i start = shift_left rounds (set m i (at m start)) (suc i) (suc start)

-- The client's `strip`; `str[end + 1] = '\0'` uses the `end` of before the shift.
unfoldable pub client_strip : Bytes → Bytes
unfolding skip_spaces trim_end shift_left
client_strip m =
    let start = skip_spaces (length m) m 0 in
    let stop = trim_end m start (strlen m) in set (shift_left (stop - start) m 0 start) stop 0
