-- ===== src/Struct/Fields.antt =====
-- The fields of a `struct StorageServer` in its bytes.
use nfs_mock.Base.{
  ℕ, suc, ◌+◌, ◌-◌, ◌<◌, ◌≡◌, refl, ap, ◌∙◌, sym, List, [], ◌∷◌, ◌++◌, append_assoc, arith, Bytes,
  Lacks, All, c_str, c_str-append, length, drop, replicate, length-append, length-replicate,
  take_at, drop_at, ltb, true,
}
use nfs_mock.NamingServer.{StorageServer}
use nfs_mock.Struct.{
  int_bytes, int_of, count_of, record_of, padded, path_bytes, header_bytes, path_arrays, struct_of,
}

-- a text that an array of this size holds with its terminator
abbrev pub FitsArray : ℕ → Bytes → Type 0
FitsArray size s = Lacks 0 s × (length s < size)

-- what an unsigned 32-bit integer holds
abbrev pub IsInt : ℕ → Type 0
IsInt n = n < 4294967296

-- what a signed 32-bit integer holds that is not negative
abbrev pub IsCount : ℕ → Type 0
IsCount n = n < 2147483648

-- A record that the C struct can hold, whatever its paths are.
abbrev pub HasHeader : StorageServer → Type 0
HasHeader s =
    FitsArray 16 s.ip_address
    × IsInt s.nm_port
    × IsInt s.client_port
    × IsInt s.ss_port_send
    × IsInt s.ss_port_recv
    × IsCount s.num_paths

int_of-int_bytes : (n : ℕ) → IsInt n → int_of (int_bytes n) ≡ n
unfolding int_of
int_of-int_bytes n h = omega arith

count_of-int_bytes : (n : ℕ) → IsCount n → count_of (int_bytes n) ≡ n
unfolding count_of
count_of-int_bytes n h =
    let fits : IsInt n = omega arith in
    let small : ltb n 2147483648 ≡ true = ground arith in rw (int_of-int_bytes n fits, small) refl

length-padded : (size : ℕ) (s : Bytes) → length s < size → length (padded size s) ≡ size
length-padded size s h = omega (
  arith,
  length-append s (replicate (size - length s) 0),
  length-replicate {A = ℕ} (size - length s) 0,
)

c_str-padded : (size : ℕ) (s : Bytes) → FitsArray size s → c_str (padded size s) ≡ s
c_str-padded size s (lacks, short) =
    let more : size - length s ≡ suc (size - suc (length s)) = omega arith in
    ap (λ n. c_str (s ++ replicate n 0)) more
    ∙ c_str-append s (replicate (size - suc (length s)) 0) lacks

-- The arrays of some paths are read back, and so many arrays behind them.
pub path_arrays-append :
    (paths : List Bytes) (n : ℕ) (rest : Bytes)
    → All (FitsArray 100) paths
    → path_arrays (length paths + n) (path_bytes paths ++ rest) ≡ paths ++ path_arrays n rest
unfolding path_arrays path_bytes
path_arrays-append [] n rest h = ap (λ k. path_arrays k rest) (omega arith)
path_arrays-append (p ∷ paths) n rest (fits, h) =
    let size = sym (length-padded 100 p fits.1) in
    let one_more : suc (length paths) + n ≡ suc (length paths + n) = omega arith in
    ap (λ k. path_arrays k ((padded 100 p ++ path_bytes paths) ++ rest)) one_more
    ∙ ap (path_arrays (suc (length paths + n)))
        (append_assoc (padded 100 p) (path_bytes paths) rest)
    ∙ ap
        (λ l.
          c_str l
          ∷ path_arrays (length paths + n) (drop 100 (padded 100 p ++ (path_bytes paths ++ rest))))
        (take_at (padded 100 p) (path_bytes paths ++ rest) 100 size)
    ∙ ap (λ l. c_str (padded 100 p) ∷ path_arrays (length paths + n) l)
        (drop_at (padded 100 p) (path_bytes paths ++ rest) 100 size)
    ∙ ap (λ t. t ∷ path_arrays (length paths + n) (path_bytes paths ++ rest))
        (c_str-padded 100 p fits)
    ∙ ap (λ l. p ∷ l) (path_arrays-append paths n rest h)

pub length-header_bytes : (s : StorageServer) → HasHeader s → length (header_bytes s) ≡ 36
unfolding header_bytes
length-header_bytes s h = omega (
  arith,
  length-append (padded 16 s.ip_address) (
      int_bytes s.nm_port
      ++ (int_bytes s.client_port
          ++ (int_bytes s.ss_port_send ++ (int_bytes s.ss_port_recv ++ int_bytes s.num_paths)))),
  length-padded 16 s.ip_address h.0.1,
)

-- a record of its fields
abbrev with_fields : Bytes → (nm client send recv count : ℕ) → List Bytes → StorageServer
with_fields address nm client send recv count paths = record {
  ip_address = address;
  nm_port = nm;
  client_port = client;
  ss_port_send = send;
  ss_port_recv = recv;
  num_paths = count;
  accessible_paths = paths;
}

with_fields_eq :
    (address : Bytes) (nm client send recv count : ℕ) (paths : List Bytes)
    → FitsArray 16 address
    → IsInt nm
    → IsInt client
    → IsInt send
    → IsInt recv
    → IsCount count
    → with_fields
        (c_str (padded 16 address))
        (int_of (int_bytes nm))
        (int_of (int_bytes client))
        (int_of (int_bytes send))
        (int_of (int_bytes recv))
        (count_of (int_bytes count))
        paths
      ≡ with_fields address nm client send recv count paths
with_fields_eq address nm client send recv count paths fits h₁ h₂ h₃ h₄ h₅ =
    rw
      (
        c_str-padded 16 address fits,
        int_of-int_bytes nm h₁,
        int_of-int_bytes client h₂,
        int_of-int_bytes send h₃,
        int_of-int_bytes recv h₄,
        count_of-int_bytes count h₅,
      )
      refl

-- The fields before the paths are read back, whatever stands behind them.
pub struct_of-header_bytes :
    (s : StorageServer) (rest : Bytes)
    → HasHeader s
    → struct_of (header_bytes s ++ rest) ≡ record s { accessible_paths = path_arrays 500 rest }
unfolding struct_of header_bytes
struct_of-header_bytes s rest (address, nm, client, send, recv, count) =
    let ints =
      int_bytes s.nm_port
      ++ (int_bytes s.client_port
          ++ (int_bytes s.ss_port_send
              ++ (int_bytes s.ss_port_recv ++ (int_bytes s.num_paths ++ rest)))) in
    let size = sym (length-padded 16 s.ip_address address.1) in
    ap struct_of (append_assoc (padded 16 s.ip_address) _ rest)
    ∙ ap (λ b. record_of b (drop 16 (padded 16 s.ip_address ++ ints)))
        (take_at (padded 16 s.ip_address) ints 16 size)
    ∙ ap (record_of (padded 16 s.ip_address)) (drop_at (padded 16 s.ip_address) ints 16 size)
    ∙ with_fields_eq s.ip_address s.nm_port s.client_port s.ss_port_send s.ss_port_recv s.num_paths
        (path_arrays 500 rest) address nm client send recv count
