-- ===== src/Struct.antt =====
-- The bytes of a `struct StorageServer` (StorageServerModule.c, NamingServerModule.c): a storage
-- server sends them as they lie in its memory (`reportToNamingServer`), and the naming server
-- copies what it receives into a record of its own (`handleStorageServer`). The naming server's
-- struct has a hash handle behind these fields, which nothing reads.
pub mod Fields
use nfs_mock.Base.{
  ℕ, zero, suc, ◌+◌, ◌-◌, ◌*◌, ◌/◌, ◌%◌, List, [], ◌∷◌, ◌++◌, Bytes, c_str, codes, false, length,
  ltb, if◌then◌else◌, take, drop, replicate,
}
use nfs_mock.NamingServer.{StorageServer}
use nfs_mock.NamingServer.Index.{PathIndex}
use nfs_mock.NamingServer.State.{State, Reaction}
use nfs_mock.NamingServer.Registration.{handle_storage_server}

-- the bytes of a positive `int`
abbrev pub int_bytes : ℕ → Bytes
int_bytes n = n % 256 ∷ n / 256 % 256 ∷ n / 65536 % 256 ∷ n / 16777216 % 256 ∷ []

-- the bits of the `int` of four bytes, as a positive number; ports are passed on as such
unfoldable pub int_of : Bytes → ℕ
int_of (a ∷ b ∷ c ∷ d ∷ _) = a + b * 256 + c * 65536 + d * 16777216
int_of _ = 0

-- An `int` from 2^31 on is negative. A loop up to it has no rounds, as for the number 0, which is
-- what is kept of it.
unfoldable pub count_of : Bytes → ℕ
unfolding int_of
count_of b = let n = int_of b in if ltb n 2147483648 then n else 0

-- a text in a zeroed array of this size
abbrev pub padded : ℕ → Bytes → Bytes
padded size s = s ++ replicate (size - length s) 0

unfoldable pub path_bytes : List Bytes → Bytes
path_bytes [] = []
path_bytes (p ∷ paths) = padded 100 p ++ path_bytes paths

-- what stands before the paths: 36 bytes
unfoldable pub header_bytes : StorageServer → Bytes
header_bytes s =
    padded 16 s.ip_address
    ++ (int_bytes s.nm_port
        ++ (int_bytes s.client_port
            ++ (int_bytes s.ss_port_send ++ (int_bytes s.ss_port_recv ++ int_bytes s.num_paths))))

unfoldable pub struct_bytes : StorageServer → Bytes
unfolding header_bytes path_bytes
struct_bytes s = header_bytes s ++ path_bytes s.accessible_paths

-- the texts in so many arrays of 100 bytes
unfoldable pub path_arrays : ℕ → Bytes → List Bytes
path_arrays zero b = []
path_arrays (suc n) b = c_str (take 100 b) ∷ path_arrays n (drop 100 b)

-- the fields of the bytes of the address and of those behind it
unfoldable pub record_of : (address ints : Bytes) → StorageServer
unfolding int_of count_of path_arrays
record_of address ints = record {
  ip_address = c_str address;
  nm_port = int_of ints;
  client_port = int_of (drop 4 ints);
  ss_port_send = int_of (drop 8 ints);
  ss_port_recv = int_of (drop 12 ints);
  num_paths = count_of (drop 16 ints);
  accessible_paths = path_arrays 500 (drop 20 ints);
}

-- `memcpy(&newServer, buffer, sizeof(StorageServer))`
unfoldable pub struct_of : Bytes → StorageServer
unfolding record_of
struct_of b = record_of (take 16 b) (drop 16 b)

-- What one `recv` yields, over what the buffer on the stack held; nothing if it yields nothing or
-- fails.
unfoldable pub receive_storage_server :
    (ix : PathIndex) → State ix → (stack received : Bytes) → Reaction ix
unfolding struct_of
receive_storage_server ix st stack [] = record { state = st; sent = []; alive = false }
receive_storage_server ix st stack (c ∷ received) =
    handle_storage_server ix st (struct_of (c ∷ received ++ drop (length (c ∷ received)) stack))
