-- ===== src/Client/Tokens.antt =====
-- `strtok(response, " ")` until it returns NULL (clientfunctions.c): the tokens of a text.
use nfs_mock.Base.{◌≡◌, ◌≢◌, refl, false, List, [], ◌∷◌, ◌++◌, Bytes, All, ◌==◌, if◌then◌else◌}

-- An empty token does not count.
unfoldable pub add_token : Bytes → List Bytes → List Bytes
add_token [] tokens = tokens
add_token (c ∷ w) tokens = (c ∷ w) ∷ tokens

-- the token that the text begins with, and the tokens behind it
unfoldable pub split_tokens : Bytes → Bytes × List Bytes
unfolding add_token
split_tokens [] = ([], [])
split_tokens (c ∷ s) =
    let rest = split_tokens s in
    if c == b' ' then ([], add_token rest.0 rest.1) else (c ∷ rest.0, rest.1)

unfoldable pub tokens : Bytes → List Bytes
unfolding split_tokens
tokens s = let (first, rest) = split_tokens s in add_token first rest

-- no blank in the text
abbrev pub NoBlank : Bytes → Type 0
NoBlank = All (λ c. (c == b' ') ≡ false)

split_tokens-word : (w : Bytes) → NoBlank w → split_tokens w ≡ (w, [])
unfolding split_tokens
split_tokens-word [] h = refl
split_tokens-word (c ∷ w) (hc, h) = rw (hc, split_tokens-word w h)

split_tokens-append :
    (w s : Bytes)
    → NoBlank w
    → split_tokens (w ++ b' ' ∷ s) ≡ (w, add_token (split_tokens s).0 (split_tokens s).1)
unfolding split_tokens
split_tokens-append [] s h = refl
split_tokens-append (c ∷ w) s (hc, h) = rw (hc, split_tokens-append w s h)

add_token_cons : (w : Bytes) (ts : List Bytes) → w ≢ [] → add_token w ts ≡ w ∷ ts
unfolding add_token
add_token_cons [] ts h = absurd (h refl)
add_token_cons (c ∷ w) ts h = refl

-- Two words with a blank between them are the two tokens.
pub tokens_two :
    (v w : Bytes) → NoBlank v → NoBlank w → v ≢ [] → w ≢ [] → tokens (v ++ b' ' ∷ w) ≡ v ∷ w ∷ []
unfolding tokens
tokens_two v w hv hw nv nw =
    rw
      (
        split_tokens-append v w hv,
        split_tokens-word w hw,
        add_token_cons w [] nw,
        add_token_cons v (w ∷ []) nv,
      )
      refl
