-- ===== src/Scanf.antt =====
-- `sscanf(s, "%s %s", a, b)`: the first two words of a text, over buffers that have been cleared, as
-- the storage server's are. A conversion that finds no word leaves its buffer alone. The naming
-- server's thread has not cleared its `path`: NamingServer.Create has what comes of a request
-- without a second word there.
use nfs_mock.Base.{[], ◌∷◌, ◌≡◌, refl, false, All, Bytes, if◌then◌else◌}
use nfs_mock.Whitespace.{is_space}

unfoldable pub skip_space : Bytes → Bytes
skip_space [] = []
skip_space (c ∷ s) = let rest = skip_space s in if is_space c then rest else c ∷ s

-- the bytes up to the next whitespace, and what is left
unfoldable pub token : Bytes → Bytes × Bytes
token [] = ([], [])
token (c ∷ s) = let rest = token s in if is_space c then ([], c ∷ s) else (c ∷ rest.0, rest.1)

unfoldable pub scan_two : Bytes → Bytes × Bytes
unfolding skip_space token
scan_two s =
    let (first, rest) = token (skip_space s) in
    let (second, _) = token (skip_space rest) in (first, second)

-- a word
abbrev pub AllSolid : Bytes → Type 0
AllSolid = All (λ c. is_space c ≡ false)

pub skip_space_word : (w : Bytes) → AllSolid w → skip_space w ≡ w
unfolding skip_space
skip_space_word [] h = refl
skip_space_word (c ∷ w) (hc, h) = rw hc

pub token_word : (w : Bytes) → AllSolid w → token w ≡ (w, [])
unfolding token
token_word [] h = refl
token_word (c ∷ w) (hc, h) = rw (hc, token_word w h)
