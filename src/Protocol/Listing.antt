-- ===== src/Protocol/Listing.antt =====
-- The client reads from the naming server's listing what the naming server has put into it.
use nfs_mock.Base.{
  ℕ, zero, suc, ◌+◌, ◌≤◌, ◌≡◌, ◌≢◌, ◌⊎◌, refl, ap, ◌∙◌, sym, inl, inr, none, some, List, [], ◌∷◌,
  ◌++◌, arith, take, length, Bytes, All, All-take, Lacks, append_assoc, map,
}
use nfs_mock.Decimal.{decimal, decimal-IsDigits, IsDigits}
use nfs_mock.NamingServer.{StorageServer, listed}
use nfs_mock.NamingServer.Listing.{list_paths, list_servers, list_all}
use nfs_mock.Client.Listing.{
  Shown, storage_server, accessible_path, until_dollar, until_mark, server_block, path_block,
  show_listing,
}

-- no byte that the listing uses as a mark
abbrev pub IsPlain : Bytes → Type 0
IsPlain = All (λ c. (c ≢ b'$') × (c ≢ b'*'))

-- every server lists a path, and its paths hold no mark
abbrev pub IsListable : StorageServer → Type 0
IsListable s = (1 ≤ s.num_paths) × All IsPlain (listed s.num_paths s.accessible_paths)

unfoldable pub shown_servers : ℕ → List StorageServer → List Shown
shown_servers i [] = []
shown_servers i (s ∷ servers) =
    storage_server (take 4 (decimal (i + 1)))
    ∷ (map accessible_path (listed s.num_paths s.accessible_paths) ++ shown_servers (suc i) servers)

until_dollar-append : (w r : Bytes) → Lacks b'$' w → until_dollar (w ++ b'$' ∷ r) ≡ (w, b'$' ∷ r)
unfolding until_dollar
until_dollar-append [] r h = refl
until_dollar-append (c ∷ w) r (hc, h) = ground (arith, until_dollar-append w r h)

-- `$` or `*`
abbrev IsMark : ℕ → Type 0
IsMark c = (c ≡ b'$') ⊎ (c ≡ b'*')

until_mark-append :
    (w r : Bytes) (c : ℕ) → IsPlain w → IsMark c → until_mark (w ++ c ∷ r) ≡ (w, c ∷ r)
unfolding until_mark
until_mark-append [] r c h m = ground arith
until_mark-append (x ∷ w) r c ((h, h'), hs) m = ground (arith, until_mark-append w r c hs m)

-- The loop ends within `need` rounds and has printed `out`.
abbrev Reads : Bytes → List Shown → ℕ → Type 0
Reads text out need = (rounds : ℕ) → need ≤ rounds → show_listing rounds text ≡ some out

Reads-end : Reads (b'*' ∷ []) [] 2
unfolding show_listing
Reads-end zero h = absurd (omega arith)
Reads-end (suc zero) h = absurd (omega arith)
Reads-end (suc (suc rounds)) h = refl

one_round :
    (rounds c : ℕ) (s t u : Bytes) (a b : List Shown) {out : List Shown}
    → server_block (c ∷ s) ≡ (a, t)
    → path_block t ≡ (b, u)
    → show_listing rounds u ≡ some out
    → show_listing (suc rounds) (c ∷ s) ≡ some (a ++ (b ++ out))
unfolding show_listing
one_round rounds c s t u a b e1 e2 e3 = rw (e1, e2, e3)

at_dollar : (s : Bytes) → server_block (b'$' ∷ s) ≡ ([], b'$' ∷ s)
unfolding server_block
at_dollar [] = refl
at_dollar (x ∷ s) = refl

at_star :
    (name r : Bytes)
    → Lacks b'$' name
    → server_block (b'*' ∷ (name ++ b'$' ∷ r)) ≡ (storage_server name ∷ [], b'$' ∷ r)
unfolding server_block
at_star [] r h = rw (until_dollar-append [] r h)
at_star (x ∷ name) r h = rw (until_dollar-append (x ∷ name) r h)

at_path :
    (p r : Bytes) (c : ℕ)
    → IsPlain p
    → IsMark c
    → path_block (b'$' ∷ (p ++ c ∷ r)) ≡ (accessible_path p ∷ [], c ∷ r)
unfolding path_block
at_path p r c plain mark = rw (until_mark-append p r c plain mark)

-- One more path in front.
Reads-path :
    (p r : Bytes) (c : ℕ) {out : List Shown} {need : ℕ}
    → IsPlain p
    → IsMark c
    → Reads (c ∷ r) out need
    → Reads (b'$' ∷ (p ++ c ∷ r)) (accessible_path p ∷ out) (suc need)
Reads-path p r c plain mark h zero le = absurd (omega arith)
Reads-path p r c plain mark h (suc rounds) le =
    one_round rounds b'$' (p ++ c ∷ r) (b'$' ∷ (p ++ c ∷ r)) (c ∷ r) [] (accessible_path p ∷ [])
      (at_dollar _) (at_path p r c plain mark) (h rounds (omega arith))

-- A server block in front, and the path behind it, in one round.
Reads-server :
    (name p r : Bytes) (c : ℕ) {out : List Shown} {need : ℕ}
    → Lacks b'$' name
    → IsPlain p
    → IsMark c
    → Reads (c ∷ r) out need
    → Reads
        (b'*' ∷ (name ++ b'$' ∷ (p ++ c ∷ r)))
        (storage_server name ∷ accessible_path p ∷ out)
        (suc need)
Reads-server name p r c ln plain mark h zero le = absurd (omega arith)
Reads-server name p r c ln plain mark h (suc rounds) le =
    one_round rounds b'*' (name ++ b'$' ∷ (p ++ c ∷ r)) (b'$' ∷ (p ++ c ∷ r)) (c ∷ r)
      (storage_server name ∷ []) (accessible_path p ∷ []) (at_star name _ ln)
      (at_path p r c plain mark) (h rounds (omega arith))

-- A list of paths, up to the star behind it, begins with a mark.
paths_front :
    (ps : List Bytes) (r : Bytes)
    → (c : ℕ) × (s : Bytes) × IsMark c × (list_paths ps ++ b'*' ∷ r ≡ c ∷ s)
unfolding list_paths
paths_front [] r = (b'*', r, inr refl, refl)
paths_front (p ∷ ps) r = (b'$', (p ++ list_paths ps) ++ b'*' ∷ r, inl refl, refl)

Reads-paths :
    (ps : List Bytes) (r : Bytes) {out : List Shown} {need : ℕ}
    → All IsPlain ps
    → Reads (b'*' ∷ r) out need
    → Reads (list_paths ps ++ b'*' ∷ r) (map accessible_path ps ++ out) (length ps + need)
unfolding list_paths
Reads-paths [] r h reads = λ rounds le. reads rounds (omega arith)
Reads-paths (p ∷ ps) r {out} {need} (h, hs) reads =
    let (c, s, mark, e) = paths_front ps r in
    let rest = Reads-paths ps r hs reads in
    let shape : (p ++ list_paths ps) ++ b'*' ∷ r ≡ p ++ c ∷ s =
      append_assoc p (list_paths ps) (b'*' ∷ r) ∙ ap (λ t. p ++ t) e in
    λ rounds le.
      ap (λ t. show_listing rounds (b'$' ∷ t)) shape
      ∙ Reads-path p s c h mark (λ k le'. ap (show_listing k) (sym e) ∙ rest k le') rounds
          (omega arith)

-- The rounds that the listing takes: one for each path, and two at the end.
unfoldable pub rounds_needed : List StorageServer → ℕ
rounds_needed [] = 2
rounds_needed (s ∷ servers) = s.num_paths + rounds_needed servers

digits-Lacks : (s : Bytes) → IsDigits s → Lacks b'$' s
digits-Lacks [] h = tt
digits-Lacks (c ∷ s) (hc, h) = (omega arith, digits-Lacks s h)

number-Lacks : (i : ℕ) → Lacks b'$' (take 4 (decimal i))
number-Lacks i = digits-Lacks _ (All-take _ 4 (decimal i) (decimal-IsDigits i))

length-listed : (n : ℕ) (ps : List Bytes) → length (listed n ps) ≡ n
unfolding listed
length-listed zero ps = refl
length-listed (suc n) [] = ap suc (length-listed n [])
length-listed (suc n) (p ∷ ps) = ap suc (length-listed n ps)

Reads-block :
    (name : Bytes) (ps : List Bytes) (r : Bytes) {out : List Shown} {need : ℕ}
    → Lacks b'$' name
    → 1 ≤ length ps
    → All IsPlain ps
    → Reads (b'*' ∷ r) out need
    → Reads
        (b'*' ∷ (name ++ (list_paths ps ++ b'*' ∷ r)))
        (storage_server name ∷ (map accessible_path ps ++ out))
        (length ps + need)
unfolding list_paths
Reads-block name [] r ln some_path h reads = absurd (omega arith)
Reads-block name (p ∷ ps) r ln some_path (h, hs) reads =
    let (c, s, mark, e) = paths_front ps r in
    let rest = Reads-paths ps r hs reads in
    let shape : (p ++ list_paths ps) ++ b'*' ∷ r ≡ p ++ c ∷ s =
      append_assoc p (list_paths ps) (b'*' ∷ r) ∙ ap (λ t. p ++ t) e in
    λ rounds le.
      ap (λ t. show_listing rounds (b'*' ∷ (name ++ b'$' ∷ t))) shape
      ∙ Reads-server name p s c ln h mark (λ k le'. ap (show_listing k) (sym e) ∙ rest k le') rounds
          (omega arith)

Reads-servers :
    (i : ℕ) (servers : List StorageServer)
    → All IsListable servers
    → Reads (b'*' ∷ list_servers i servers) (shown_servers i servers) (rounds_needed servers)
unfolding list_servers shown_servers rounds_needed
Reads-servers i [] h = Reads-end
Reads-servers i (s ∷ servers) ((some_path, plain), h) =
    let ps = listed s.num_paths s.accessible_paths in
    let count = length-listed s.num_paths s.accessible_paths in
    λ rounds le.
      Reads-block (take 4 (decimal (i + 1))) ps (list_servers (suc i) servers)
        (number-Lacks (i + 1)) (omega arith) plain (Reads-servers (suc i) servers h) rounds
        (omega arith)

-- If every server has a path and no path holds `$` or `*`, the client's loop over the naming server's
-- listing ends, and shows each server by its number, in order, and behind it its paths, in order.
pub show_listing-list_all :
    (servers : List StorageServer) (rounds : ℕ)
    → All IsListable servers
    → rounds_needed servers ≤ rounds
    → show_listing rounds (list_all servers) ≡ some (shown_servers 0 servers)
unfolding list_all
show_listing-list_all servers rounds h le = Reads-servers 0 servers h rounds le

-- A reply that does not begin with a mark keeps the client's loop from ending, for any number of
-- rounds.
pub show_listing_stuck :
    (rounds c : ℕ) (s : Bytes) → c ≢ b'$' → c ≢ b'*' → show_listing rounds (c ∷ s) ≡ none
unfolding show_listing
show_listing_stuck zero c s h h' = refl
show_listing_stuck (suc rounds) c [] h h' = ground (arith, show_listing_stuck rounds c [] h h')
show_listing_stuck (suc rounds) c (d ∷ s) h h' =
    ground (arith, show_listing_stuck rounds c (d ∷ s) h h')
