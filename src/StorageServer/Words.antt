-- ===== src/StorageServer/Words.antt =====
-- The words of the requests that a storage server reads with `sscanf` (StorageServerModule.c:
-- `executeClientRequest`, `executeNMRequest`).
use nfs_mock.Base.{ℕ, ◌≡◌, refl, ap, ◌∙◌, true, false, ◌||◌, [], ◌∷◌, ◌++◌, Bytes, All, codes, ◌==◌}
use nfs_mock.Scanf.{AllSolid, skip_space, token, scan_two, skip_space_word, token_word}
use nfs_mock.Whitespace.{is_space}
use nfs_mock.StorageServer.Files.{until_tab, write_content}

-- a word
abbrev pub IsWord : Bytes → Type 0
IsWord [] = ⊥
IsWord (c ∷ s) = AllSolid (c ∷ s)

pub token-append :
    (w : Bytes) (c : ℕ) (r : Bytes)
    → AllSolid w
    → is_space c ≡ true
    → token (w ++ c ∷ r) ≡ (w, c ∷ r)
unfolding token
token-append [] c r h sp = rw sp refl
token-append (x ∷ w) c r (hx, h) sp = rw (hx, token-append w c r h sp) refl

pub skip_word : (w r : Bytes) → IsWord w → skip_space (w ++ r) ≡ w ++ r
unfolding skip_space
skip_word [] r h = absurd h
skip_word (c ∷ w) r (hc, h) = rw hc refl

-- a text on one line that begins with no whitespace
abbrev pub IsContent : Bytes → Type 0
IsContent [] = ⊥
IsContent (c ∷ s) = (is_space c ≡ false) × All (λ b. (b == 9 || b == 10) ≡ false) (c ∷ s)

pub until_tab-content : (s : Bytes) → All (λ b. (b == 9 || b == 10) ≡ false) s → until_tab s ≡ s
unfolding until_tab
until_tab-content [] h = refl
until_tab-content (c ∷ s) (hc, h) = rw (hc, until_tab-content s h) refl

-- "READ %s" and "WRITE %s %s", as the client sends them
abbrev pub read_request : Bytes → Bytes
read_request path = codes "READ " ++ path

abbrev pub write_request : (path content : Bytes) → Bytes
write_request path content = codes "WRITE " ++ (path ++ b' ' ∷ content)

pub IsWord-AllSolid : (w : Bytes) → IsWord w → AllSolid w
IsWord-AllSolid [] h = absurd h
IsWord-AllSolid (c ∷ w) h = h

-- the next word of a text, behind a blank
pub next_word :
    (w r : Bytes) → IsWord w → token (skip_space (b' ' ∷ (w ++ b' ' ∷ r))) ≡ (w, b' ' ∷ r)
unfolding skip_space
next_word w r h =
    ap token (skip_word w (b' ' ∷ r) h) ∙ token-append w b' ' r (IsWord-AllSolid w h) refl

pub last_word : (w : Bytes) → IsWord w → token (skip_space (b' ' ∷ w)) ≡ (w, [])
unfolding skip_space
last_word w h =
    ap token (skip_space_word w (IsWord-AllSolid w h)) ∙ token_word w (IsWord-AllSolid w h)

pub scan_read : (path : Bytes) → IsWord path → scan_two (read_request path) ≡ (codes "READ", path)
unfolding scan_two skip_space token
scan_read path h = ap (λ t. (codes "READ", t.0)) (last_word path h)

pub scan_write :
    (path content : Bytes)
    → IsWord path
    → scan_two (write_request path content) ≡ (codes "WRITE", path)
unfolding scan_two skip_space token
scan_write path content h = ap (λ t. (codes "WRITE", t.0)) (next_word path content h)

pub skip_content : (s : Bytes) → IsContent s → until_tab (skip_space (b' ' ∷ s)) ≡ s
unfolding skip_space
skip_content [] h = absurd h
skip_content (c ∷ s) (solid, h) = rw solid (until_tab-content (c ∷ s) h)

pub content-write_request :
    (path content : Bytes)
    → IsWord path
    → IsContent content
    → write_content (write_request path content) ≡ content
unfolding write_content skip_space token
content-write_request path content h k =
    ap (λ t. until_tab (skip_space t.1)) (next_word path content h) ∙ skip_content content k
