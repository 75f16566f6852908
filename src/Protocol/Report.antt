-- ===== src/Protocol/Report.antt =====
-- The report of a storage server on its way (StorageServerModule.c: `reportToNamingServer`;
-- NamingServerModule.c: `handleStorageServer`).
use nfs_mock.Base.{
  ℕ, zero, suc, ◌+◌, ◌-◌, ◌≤◌, ◌≡◌, refl, ap, ◌∙◌, sym, List, [], ◌∷◌, ◌++◌, append_assoc,
  append-nil, arith, Bytes, All, All-append, codes, length, drop, replicate, length-append,
  length-replicate,
}
use nfs_mock.Checks.{every-Lacks}
use nfs_mock.NamingServer.{StorageServer}
use nfs_mock.NamingServer.Index.{PathIndex}
use nfs_mock.NamingServer.State.{State}
use nfs_mock.NamingServer.Registration.{handle_storage_server}
use nfs_mock.StorageServer.FileSystem.{FileSystem}
use nfs_mock.StorageServer.Scan.{accessible_paths}
use nfs_mock.StorageServer.Registration.{
  Ports, mount, register_storage_server, initialize_storage_server,
}
use nfs_mock.Struct.{
  padded, path_bytes, header_bytes, struct_bytes, path_arrays, struct_of, receive_storage_server,
}
use nfs_mock.Struct.Fields.{
  FitsArray, IsInt, HasHeader, length-header_bytes, struct_of-header_bytes, path_arrays-append,
}

path_bytes-append :
    (front back : List Bytes) → path_bytes (front ++ back) ≡ path_bytes front ++ path_bytes back
unfolding path_bytes
path_bytes-append [] back = refl
path_bytes-append (p ∷ front) back =
    ap (λ l. padded 100 p ++ l) (path_bytes-append front back)
    ∙ sym (append_assoc (padded 100 p) (path_bytes front) (path_bytes back))

module _ (ix : PathIndex) where
  receive-handle :
      (st : State ix) (stack received : Bytes)
      → 1 ≤ length received
      → receive_storage_server ix st stack received
        ≡ handle_storage_server ix st (struct_of (received ++ drop (length received) stack))
  unfolding receive_storage_server
  receive-handle st stack [] h = absurd (omega arith)
  receive-handle st stack (c ∷ received) h = refl

  pub part_received :
      (st : State ix) (stack : Bytes) (s : StorageServer) (front back : List Bytes)
      → HasHeader s
      → s.accessible_paths ≡ front ++ back
      → length front + length back ≡ 500
      → All (FitsArray 100) front
      → let received = header_bytes s ++ path_bytes front in
        (received ++ path_bytes back ≡ struct_bytes s)
        × (receive_storage_server ix st stack received
            ≡ handle_storage_server ix st (record s {
              accessible_paths = front ++ path_arrays (length back) (drop (length received) stack);
            }))
  unfolding struct_bytes
  part_received st stack s front back header split as_many fits =
      let received = header_bytes s ++ path_bytes front in
      let behind = drop (length received) stack in
      (
        append_assoc (header_bytes s) (path_bytes front) (path_bytes back)
            ∙ ap (λ l. header_bytes s ++ l) (sym (path_bytes-append front back))
            ∙ ap (λ l. header_bytes s ++ path_bytes l) (sym split),
        receive-handle st stack received (
              omega (
                arith,
                length-append (header_bytes s) (path_bytes front),
                length-header_bytes s header,
              ))
            ∙ ap (λ b. handle_storage_server ix st (struct_of b))
                (append_assoc (header_bytes s) (path_bytes front) behind)
            ∙ ap (handle_storage_server ix st)
                (struct_of-header_bytes s (path_bytes front ++ behind) header)
            ∙ ap
                (λ n.
                  handle_storage_server ix st
                    (record s { accessible_paths = path_arrays n (path_bytes front ++ behind) }))
                (sym as_many)
            ∙ ap (λ l. handle_storage_server ix st (record s { accessible_paths = l }))
                (path_arrays-append front (length back) behind fits),
      )

  -- A report that arrives whole is registered as it was sent.
  pub report_received :
      (st : State ix) (stack : Bytes) (s : StorageServer)
      → HasHeader s
      → length s.accessible_paths ≡ 500
      → All (FitsArray 100) s.accessible_paths
      → receive_storage_server ix st stack (struct_bytes s) ≡ handle_storage_server ix st s
  unfolding struct_bytes path_arrays
  report_received st stack s header as_many fits =
      let (_, whole) =
        part_received st stack s s.accessible_paths [] header (sym (append-nil s.accessible_paths))
          (omega arith) fits in
      whole
      ∙ ap (λ l. handle_storage_server ix st (record s { accessible_paths = l }))
          (append-nil s.accessible_paths)

All-empty : (n : ℕ) → All (FitsArray 100) (replicate n [])
All-empty zero = tt
All-empty (suc n) = ((tt, omega arith), All-empty n)

module _ (ix : PathIndex) (fs : FileSystem) where
  open fs use {Disk}

  -- A storage server with at most 500 paths, each shorter than 100 bytes, and with 32-bit ports
  -- sends its struct, and all of it arrives with one `recv`: the naming server does what it does
  -- with the record that the storage server made of itself when it started.
  pub report_arrives :
      (st : State ix) (stack : Bytes) (depth : ℕ) (ports : Ports) (d : Disk)
      → IsInt ports.nm_port
        × IsInt ports.client_port
        × IsInt ports.ss_port_send
        × IsInt ports.ss_port_recv
      → length (accessible_paths fs depth mount d) ≤ 500
      → All (FitsArray 100) (accessible_paths fs depth mount d)
      → receive_storage_server ix st stack
          (struct_bytes (initialize_storage_server fs depth ports d))
        ≡ handle_storage_server ix st (initialize_storage_server fs depth ports d)
  unfolding initialize_storage_server register_storage_server
  report_arrives st stack depth ports d (nm, client, send, recv) few fits =
      let paths = accessible_paths fs depth mount d in
      report_received ix st stack (initialize_storage_server fs depth ports d)
        ((every-Lacks 0 (codes "127.0.0.2") refl, omega arith), nm, client, send, recv, omega arith)
        (omega (
          arith,
          length-append paths (replicate (500 - length paths) []),
          length-replicate {A = Bytes} (500 - length paths) [],
        ))
        (All-append (FitsArray 100) paths _ fits (All-empty (500 - length paths)))
