-- ===== src/Protocol/Archive.antt =====
-- The archive of a COPY on its way from the source's storage server through the naming server to
-- the destination's (StorageServerModule.c: `executeSSRequest`, `executeSSRequestRecv`;
-- NamingServerModule.c: the COPY branch of `handleClientInput`).
use nfs_mock.Base.{
  append_assoc, sym, ℕ, zero, suc, ◌≤◌, ◌<◌, ◌≡◌, refl, ap, ◌∙◌, Bool, true, false, Bool-cases, inl,
  inr, Option, none, some, List, [], ◌∷◌, ◌++◌, Bytes, length, length-take, length-drop, take, drop,
  take-append-drop, All, arith, ltb, ◌==◌,
}
use nfs_mock.NamingServer.Copy.{Received, chunk, closed, relay}
use nfs_mock.NamingServer.Copying.{whole, relay-whole}
use nfs_mock.StorageServer.FileSystem.{FileSystem}
use nfs_mock.StorageServer.Archive.{
  Shell, blocks, sent_until_failed, stored, zip_path, zip_command, path_text, dirname, basename,
  send_archive, execute_ss_request, received_path, store_archive,
}
use mathlib.Core.List.{flatten}
use mathlib.Core.Path.{ap₂}
use nfs_mock.Base.{codes, get_or, Lacks, received_over}
use nfs_mock.StorageServer.Listeners.{cleared, request_text}
use nfs_mock.StorageServer.Received.{cleared_text}

-- a peer that closes behind its pieces, each of which is written to the file
abbrev pub all_written : List Bytes → List (Received × ℕ)
all_written [] = (closed, 0) ∷ []
all_written (b ∷ pieces) = (chunk b, length b) ∷ all_written pieces

stored-all_written : (pieces : List Bytes) → stored (all_written pieces) ≡ flatten pieces
unfolding stored flatten
stored-all_written [] = refl
stored-all_written (b ∷ pieces) =
    let whole_piece : ltb (length b) (length b) ≡ false = ground arith in
    rw (whole_piece, stored-all_written pieces) refl

pub flatten-blocks :
    (size calls : ℕ) (s : Bytes) → 1 ≤ size → length s ≤ calls → flatten (blocks size calls s) ≡ s
unfolding blocks flatten
flatten-blocks size zero [] some_room h = refl
flatten-blocks size zero (c ∷ s) some_room h = absurd (omega arith)
flatten-blocks size (suc calls) [] some_room h = refl
flatten-blocks size (suc calls) (c ∷ s) some_room h =
    ap (λ t. take size (c ∷ s) ++ t)
      (flatten-blocks size calls (drop size (c ∷ s)) some_room
        (omega (arith, length-drop size (c ∷ s))))
    ∙ take-append-drop size (c ∷ s)

-- a piece that is not empty, and that a buffer of this size holds
abbrev pub FitsInto : ℕ → Bytes → Type 0
FitsInto size b = (0 < length b) × (length b ≤ size)

abbrev pub IsPiece : Bytes → Type 0
IsPiece b = FitsInto 4096 b

pub blocks-FitsInto :
    (size calls : ℕ) (s : Bytes) → 1 ≤ size → All (FitsInto size) (blocks size calls s)
unfolding blocks
blocks-FitsInto size zero s some_room = tt
blocks-FitsInto size (suc calls) [] some_room = tt
blocks-FitsInto size (suc calls) (c ∷ s) some_room = (
  (omega (arith, length-take size (c ∷ s)), omega (arith, length-take size (c ∷ s))),
  blocks-FitsInto size calls (drop size (c ∷ s)) some_room,
)

until_failed-All :
    (outcomes : List Bool) (pieces : List Bytes)
    → All IsPiece pieces
    → All IsPiece (sent_until_failed outcomes pieces)
unfolding sent_until_failed
until_failed-All outcomes [] h = tt
until_failed-All [] (b ∷ pieces) h = h
until_failed-All (true ∷ outcomes) (b ∷ pieces) (p, h) = (p, until_failed-All outcomes pieces h)
until_failed-All (false ∷ outcomes) (b ∷ pieces) h = tt

all_sent : (pieces : List Bytes) → sent_until_failed [] pieces ≡ pieces
unfolding sent_until_failed
all_sent [] = refl
all_sent (b ∷ pieces) = refl

-- Two texts of the same length that begin the same text are the same, and so is what is behind them.
split_at :
    (xs ys us vs : Bytes) → length xs ≡ length ys → xs ++ us ≡ ys ++ vs → (xs ≡ ys) × (us ≡ vs)
split_at [] [] us vs e h = (refl, h)
split_at [] (y ∷ ys) us vs e h = absurd (omega arith)
split_at (x ∷ xs) [] us vs e h = absurd (omega arith)
split_at (x ∷ xs) (y ∷ ys) us vs e h =
    let (same, behind) = split_at xs ys us vs (omega arith) (ap (λ l. drop 1 l) h) in
    (ap₂ (λ c l. c ∷ l) (ap (λ l. get_or l 0 0) h) same, behind)

-- The request of the thread that the destination's listener starts, for what the first `recv` gets:
-- the array of `malloc`'s block is cleared before.
abbrev pub started_request : (socket : ℕ) → (block first : Bytes) → Bytes
started_request socket block first =
    request_text (record { request = received_over (cleared block) first; socket = socket })

module _ (fs : FileSystem) (shell : Shell fs) where
  open fs use {Disk, read}
  open shell use {system, read-overwrite_new}

  -- packing the path succeeds, and the archive is there
  abbrev pub packs : Bytes → Disk → ℕ × Disk
  packs path d =
      system
        (zip_command (dirname path) (path_text (basename path ++ codes ".zip")) (basename path)) d

  pub sent-archive :
      (path archive : Bytes) (d : Disk)
      → (packs path d).0 ≡ 0
      → read (zip_path path) (packs path d).1 ≡ some (some archive)
      → flatten (execute_ss_request fs shell path [] d).sent ≡ archive
  unfolding execute_ss_request send_archive
  sent-archive path archive d ok there =
      rw (ok, there, send_archive)
        (ap flatten (all_sent (blocks 4096 (length archive) archive))
          ∙ flatten-blocks 4096 (length archive) archive (omega arith) (omega arith))

  archive-IsPiece :
      (zip : Bytes) (outcomes : List Bool) (content : Option (Option Bytes)) (d : Disk)
      → All IsPiece (send_archive fs shell zip outcomes content d).sent
  unfolding send_archive
  archive-IsPiece zip outcomes none d = tt
  archive-IsPiece zip outcomes (some none) d = tt
  archive-IsPiece zip outcomes (some (some content)) d =
      until_failed-All outcomes _ (blocks-FitsInto 4096 (length content) content (omega arith))

  -- Every piece that the source's storage server sends for a COPY has at least one byte and at most
  -- as many as its buffer.
  pub sent-IsPiece :
      (path : Bytes) (outcomes : List Bool) (d : Disk)
      → All IsPiece (execute_ss_request fs shell path outcomes d).sent
  unfolding execute_ss_request
  sent-IsPiece path outcomes d = elim (Bool-cases ((packs path d).0 == 0)) [
    | inl ok ↦ rw ok (archive-IsPiece (zip_path path) outcomes _ _)
    | inr bad ↦ rw bad tt
  ]

  -- The bytes on the destination's connection are the second path and the archive; the first
  -- `recv` takes the path and as much of the archive as it yields with it.
  divided :
      (path path_third archive part : Bytes) (pieces arrived : List Bytes) (d : Disk)
      → (packs path d).0 ≡ 0
      → read (zip_path path) (packs path d).1 ≡ some (some archive)
      → flatten pieces ≡ flatten (execute_ss_request fs shell path [] d).sent
      → flatten ((path_third ++ part) ∷ arrived) ≡ path_third ++ flatten (relay (whole pieces))
      → part ++ flatten arrived ≡ archive
  unfolding flatten
  divided path path_third archive part pieces arrived d ok there cut cut_again =
      (split_at path_third path_third (part ++ flatten arrived) (flatten (relay (whole pieces)))
        refl (sym (append_assoc path_third part (flatten arrived)) ∙ cut_again)).1
      ∙ ap flatten (relay-whole pieces)
      ∙ cut
      ∙ sent-archive path archive d ok there

  -- The source's server can pack the path and read the archive, the connections neither lose nor
  -- reorder bytes but may cut them anew, the naming server's sends and the writes of the
  -- destination's server succeed. The destination's first `recv` gets the second path and a part of
  -- the archive, as both come one behind the other on the same connection; neither has a zero, and
  -- the array holds both; no file of the archive's name, for the request, was there. Then the
  -- thread that is started for the connection has the path with that part behind it as its request,
  -- and what can be read of the file that it stores is the archive without that part.
  pub archive_merged :
      (path path_third archive content block part : Bytes) (pieces arrived : List Bytes)
      (socket : ℕ) (d e e' : Disk)
      → (packs path d).0 ≡ 0
      → read (zip_path path) (packs path d).1 ≡ some (some archive)
      → flatten pieces ≡ flatten (execute_ss_request fs shell path [] d).sent
      → flatten ((path_third ++ part) ∷ arrived) ≡ path_third ++ flatten (relay (whole pieces))
      → Lacks 0 (path_third ++ part)
      → length (path_third ++ part) < length block
      → let request = started_request socket block (path_third ++ part) in
        read (received_path fs shell request) e ≡ none
        → store_archive fs shell request (all_written arrived) e ≡ some e'
        → read (received_path fs shell request) e' ≡ some (some content)
        → (request ≡ path_third ++ part) × (part ++ content ≡ archive)
  unfolding store_archive
  archive_merged path path_third archive content block part pieces arrived socket d e e' ok there
        cut cut_again lacks fits new stored_there got =
      (
        cleared_text (path_third ++ part) block socket lacks fits,
        ap (λ l. part ++ l)
              (read-overwrite_new
                  (received_path fs shell (started_request socket block (path_third ++ part))) _
                  content e e' new stored_there got
                ∙ stored-all_written arrived)
            ∙ divided path path_third archive part pieces arrived d ok there cut cut_again,
      )

  -- The source's server can pack the path and read the archive, the connections neither lose nor
  -- reorder bytes but may cut them anew, the naming server's sends and the writes of the
  -- destination's server succeed. The destination's first `recv` gets as many bytes as the second
  -- path has, though path and archive come one behind the other on the same connection; the path
  -- has no zero and is shorter than the array, and no file of the archive's name was there. Then the
  -- thread that is started for the connection has the second path as its request, and what can be
  -- read of the file that it stores is the archive, byte for byte.
  pub archive_arrives :
      (path path_third archive content block first : Bytes) (pieces arrived : List Bytes)
      (socket : ℕ) (d e e' : Disk)
      → (packs path d).0 ≡ 0
      → read (zip_path path) (packs path d).1 ≡ some (some archive)
      → flatten pieces ≡ flatten (execute_ss_request fs shell path [] d).sent
      → flatten (first ∷ arrived) ≡ path_third ++ flatten (relay (whole pieces))
      → length first ≡ length path_third
      → Lacks 0 path_third
      → length path_third < length block
      → let request = started_request socket block first in
        read (received_path fs shell path_third) e ≡ none
        → store_archive fs shell request (all_written arrived) e ≡ some e'
        → read (received_path fs shell request) e' ≡ some (some content)
        → (request ≡ path_third) × (content ≡ archive)
  unfolding store_archive flatten
  archive_arrives path path_third archive content block first pieces arrived socket d e e' ok there
        cut cut_again alone lacks fits new stored_there got =
      let (path_first, archive_behind) =
        split_at first path_third (flatten arrived) (flatten (relay (whole pieces))) alone
          cut_again in
      let heard : started_request socket block first ≡ path_third =
        ap (started_request socket block) path_first
        ∙ cleared_text path_third block socket lacks fits in
      (
        heard,
        read-overwrite_new (received_path fs shell (started_request socket block first)) _ content e
              e' (ap (λ p. read (received_path fs shell p) e) heard ∙ new) stored_there got
            ∙ stored-all_written arrived
            ∙ archive_behind
            ∙ ap flatten (relay-whole pieces)
            ∙ cut
            ∙ sent-archive path archive d ok there,
      )
