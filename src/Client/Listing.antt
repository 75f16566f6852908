-- ===== src/Client/Listing.antt =====
-- `clientListAll` (clientfunctions.c): how the client reads the listing of the naming server.
use nfs_mock.Base.{
  ℕ, zero, suc, ◌||◌, Option, none, some, List, [], ◌∷◌, ◌++◌, Bytes, ◌==◌, if◌then◌else◌,
}
use mathlib.Core.Option

-- what is printed: "Storage Server: " or "Accessible path: ", and the text
pub data Shown : Type 0 where
  storage_server : Bytes → Shown
  accessible_path : Bytes → Shown

-- `while(response[i] != '$' && response[i] != '\0')`: the bytes printed, and what is left
unfoldable pub until_dollar : Bytes → Bytes × Bytes
until_dollar [] = ([], [])
until_dollar (c ∷ s) =
    let rest = until_dollar s in if c == b'$' then ([], c ∷ s) else (c ∷ rest.0, rest.1)

-- `while(response[i] != '$' && response[i] != '*' && response[i] != '\0')`
unfoldable pub until_mark : Bytes → Bytes × Bytes
until_mark [] = ([], [])
until_mark (c ∷ s) =
    let rest = until_mark s in if c == b'$' || c == b'*' then ([], c ∷ s) else (c ∷ rest.0, rest.1)

-- "Check for a new server block"; at the end of the text the loop is left.
unfoldable pub server_block : Bytes → List Shown × Bytes
server_block (c ∷ d ∷ s) =
    if c == b'*'
    then (storage_server (until_dollar (d ∷ s)).0 ∷ [], (until_dollar (d ∷ s)).1)
    else ([], c ∷ d ∷ s)
server_block (c ∷ []) = if c == b'*' then ([], []) else ([], c ∷ [])
server_block [] = ([], [])

-- "Check for a new path"
unfoldable pub path_block : Bytes → List Shown × Bytes
path_block [] = ([], [])
path_block (c ∷ s) =
    if c == b'$' then (accessible_path (until_mark s).0 ∷ [], (until_mark s).1) else ([], c ∷ s)

-- The loop, for so many rounds; `none` is a loop that has not ended.
unfoldable pub show_listing : ℕ → Bytes → Option (List Shown)
unfolding until_dollar until_mark server_block path_block
show_listing zero response = none
show_listing (suc rounds) [] = some []
show_listing (suc rounds) (c ∷ s) =
    let first = server_block (c ∷ s) in
    let second = path_block first.1 in
    Option.map (λ more. first.0 ++ (second.0 ++ more)) (show_listing rounds second.1)
