-- ===== src/StorageServer/Answers.antt =====
-- What the storage server answers (StorageServerModule.c: `executeClientRequest`, `executeNMRequest`),
-- and how its peers take it.
use nfs_mock.Base.{
  ℕ, ◌≡◌, ◌≢◌, inl, inr, refl, sym, ap, ◌∙◌, true, Bool-cases, none, some, List, [], ◌∷◌, ◌++◌,
  Bytes, codes, c_str, length, take, ◌==◌, str_eq, if◌then◌else◌,
}
use nfs_mock.Decimal.{decimal}
use nfs_mock.Run.{done, ◌>>=◌, After, After-any, After-bind}
use mathlib.Core.Path.{subst}
use nfs_mock.Paths.{get_substring_before_last_slash}
use nfs_mock.NamingServer.Tasks.{accepted}
use nfs_mock.Client.Session.{Event, printed}
use nfs_mock.Client.Locate.{show_answer, is_one_of, read_errors}
use nfs_mock.StorageServer.FileSystem.{FileSystem, Stat}
use nfs_mock.StorageServer.Folders.{
  last_byte, create_by, create_folder, create_file, execute_create, mkdir_p,
}
use nfs_mock.StorageServer.Deletion.{
  Ending, minus_one, no_value, is_minus_one, is_dir_mode, delete_directory, delete_folder,
  delete_by, execute_delete,
}
use nfs_mock.StorageServer.Files.{
  content_size, read_content, read_reply, write_outcome, serve, serve_read, serve_write,
  execute_client_request,
}
use nfs_mock.StorageServer.Words.{
  IsWord, IsContent, read_request, write_request, scan_read, scan_write, content-write_request,
}

read_content-take :
    (s : Bytes) → IsContent s → read_content (take content_size s) ≡ take content_size s
unfolding read_content
read_content-take [] h = absurd h
read_content-take (c ∷ s) h = refl

module _ (fs : FileSystem) where
  open fs use {Disk, stat, create, read, write, read-write}

  failure_alone :
      (e : Ending) (d : Disk)
      → After {A = Bytes × Disk}
          (do failed ← is_minus_one e; done (if failed then codes "-1" else codes "2", d))
          (λ r. r.0 ≡ codes "-1")
  unfolding is_minus_one
  failure_alone minus_one d = refl
  failure_alone no_value d = tt

  -- Whenever the DELETE of a directory has an answer, the answer is "-1".
  pub delete_folder-answer :
      (depth : ℕ) (path : Bytes) (d : Disk) (s : Stat) (r : Bytes × Disk)
      → stat path d ≡ some s
      → is_dir_mode s.st_mode ≡ true
      → execute_delete fs depth path d ≡ done r
      → r.0 ≡ codes "-1"
  unfolding execute_delete delete_by delete_folder
  delete_folder-answer depth path d s r found folder run =
      let answer : After (delete_folder fs depth path d) (λ t. t.0 ≡ codes "-1") =
        After-bind (λ _. Unit {0}) (λ t. t.0 ≡ codes "-1") (delete_directory fs depth path d) _
          (After-any _) (λ t _. failure_alone t.0 t.1) in
      subst (λ m. After m (λ t. t.0 ≡ codes "-1"))
        (sym (ap (λ o. delete_by fs o depth path d) found ∙ rw folder refl) ∙ run) answer

  last_byte_cons : (c : ℕ) (s : Bytes) → (b : ℕ) × (last_byte fs (c ∷ s) ≡ some b)
  unfolding last_byte
  last_byte_cons c [] = (c, refl)
  last_byte_cons c (d ∷ s) = last_byte_cons d s

  by_last :
      (path : Bytes) (d : Disk)
      → (c : ℕ)
      → (r : Bytes × Disk) × (create_by fs (some c) path d ≡ done r)
        × ((behind : Bytes) → accepted (c_str (r.0 ++ behind)) ≡ true)
  unfolding create_by create_folder create_file str_eq c_str
  by_last path d c = elim (Bool-cases (c == b'/')) [
    | inl slash ↦ elim (Bool-cases (mkdir_p fs path d).0) [
      | inl made ↦ (create_folder fs path d, rw slash refl, rw made (λ x. refl))
      | inr failed ↦ (create_folder fs path d, rw slash refl, rw failed (λ x. refl))
    ]
    | inr other ↦
        elim (Bool-cases
          (create path (mkdir_p fs (get_substring_before_last_slash path [] 1000) d).1).0) [
            | inl made ↦ (create_file fs path d, rw other refl, rw made (λ x. refl))
            | inr failed ↦ (create_file fs path d, rw other refl, rw failed (λ x. refl))
          ]
  ]

  -- The CREATE of a path that is not empty has an answer, and the naming server takes it for a
  -- success, whatever has happened on the disk, and whatever its array holds behind the answer.
  pub create-accepted :
      (path : Bytes) (d : Disk)
      → path ≢ []
      → (r : Bytes × Disk) × (execute_create fs path d ≡ done r)
        × ((behind : Bytes) → accepted (c_str (r.0 ++ behind)) ≡ true)
  unfolding execute_create
  create-accepted [] d h = absurd (h refl)
  create-accepted (c ∷ p) d h =
      let (b, e) = last_byte_cons c p in
      let (r, run, ok) = by_last (c ∷ p) d b in (r, ap (λ o. create_by fs o (c ∷ p) d) e ∙ run, ok)

  -- If the WRITE of a text on one line to a path goes through on the disk and the file can be read
  -- afterwards, the WRITE is answered with the length of the text, and a READ with the text, cut to
  -- what the buffer holds.
  pub write-read :
      (path content c : Bytes) (d d' : Disk)
      → IsWord path
      → IsContent content
      → write path content d ≡ some (true, d')
      → read path d' ≡ some (some c)
      → (execute_client_request fs (write_request path content) d ≡ (
        some (
            take 1023
              (codes "Written " ++ (decimal (length content) ++ (codes " bytes to " ++ path)))),
        d',
      ))
        × (execute_client_request fs (read_request path) d' ≡ (some (take 4095 content), d'))
  unfolding execute_client_request serve serve_write serve_read write_outcome read_reply str_eq
  write-read path content c d d' word text wrote got =
      let same = read-write path content c d d' wrote got in
      (
        ap (λ p. serve fs p.0 p.1 (write_request path content) d) (scan_write path content word)
            ∙ ap
                (λ t. (
                  some (write_outcome fs path t d (write path t d)).0,
                  (write_outcome fs path t d (write path t d)).1,
                ))
                (content-write_request path content word text)
            ∙ rw wrote refl,
        rw (scan_read path word, got, read_reply, same, read_content-take content text) refl,
      )

  -- For a file that cannot be opened, a READ has an answer that the client shows as the content of
  -- the file.
  pub unopened-shown :
      (path : Bytes) (d : Disk) (before : List Event)
      → IsWord path
      → read path d ≡ none
      → (reply : Bytes) × ((execute_client_request fs (read_request path) d).0 ≡ some reply)
        × (show_answer read_errors before reply ≡ before ++ printed reply ∷ [])
  unfolding execute_client_request serve serve_read read_reply show_answer is_one_of str_eq
  unopened-shown path d before word closed =
      (codes "Failed to open file", rw (scan_read path word, closed, read_reply) refl, refl)
