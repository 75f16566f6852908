-- ===== src/Protocol/Requests.antt =====
-- A request on its way: the client strips the line that the user has typed (clientfunctions.c), and the
-- naming server strips what it receives (NamingServerModule.c).
use nfs_mock.Base.{
  ◌<◌, ◌≡◌, refl, sym, ap, ◌∙◌, Bool, true, false, [], ◌∷◌, ◌++◌, append-nil, arith, Bytes, codes,
  length, drop, drop_at, Lacks, c_str,
}
use nfs_mock.Whitespace.{strip, client_strip}
use nfs_mock.Whitespace.Edges.{EndsSolid, IsTrimmed, line}
use nfs_mock.Whitespace.Collapse.{collapse}
use nfs_mock.Whitespace.ServerStrip.{strip-drop}
use nfs_mock.Whitespace.ClientStrip.{client_strip-append}
use nfs_mock.Paths.{extract_path}
use nfs_mock.Paths.Words.{extract_words, fitting}
use nfs_mock.Scanf.{AllSolid}
use nfs_mock.NamingServer.Dispatch.{path_of}
use nfs_mock.StorageServer.Words.{IsWord, IsWord-AllSolid, read_request, write_request}

-- the array `request` after `fgets`: the line with its end
abbrev pub typed : (text pad : Bytes) → Bytes
typed text pad = line [] text (10 ∷ []) pad

pub client_request :
    (text pad : Bytes)
    → IsTrimmed text
    → Lacks 0 text
    → c_str (client_strip (typed text pad)) ≡ text
client_request text pad trimmed lack =
    client_strip-append [] text (10 ∷ []) pad tt trimmed (refl, tt) lack
    ∙ ap (λ s. text ++ s)
        (ap (drop (length text)) (sym (append-nil text)) ∙ drop_at text [] (length text) refl)
    ∙ append-nil text

pub server_request :
    (text : Bytes)
    → IsTrimmed text
    → Lacks 0 text
    → c_str (strip (text ++ 0 ∷ [])) ≡ collapse false text
server_request text trimmed lack = strip-drop [] text [] [] tt trimmed tt lack (omega arith)

collapse-solid : (w r : Bytes) → AllSolid w → collapse false (w ++ r) ≡ w ++ collapse false r
unfolding collapse
collapse-solid [] r h = refl
collapse-solid (c ∷ w) r (hc, h) = rw (hc, collapse-solid w r h) refl

collapse-word : (b : Bool) (w r : Bytes) → IsWord w → collapse b (w ++ r) ≡ w ++ collapse false r
unfolding collapse
collapse-word b [] r h = absurd h
collapse-word b (c ∷ w) r (hc, h) = rw (hc, collapse-solid w r h) refl

pub collapse-read :
    (path : Bytes) → IsWord path → collapse false (read_request path) ≡ read_request path
unfolding collapse
collapse-read path word =
    ap (λ s. codes "READ " ++ s)
      (ap (collapse true) (sym (append-nil path))
        ∙ collapse-word true path [] word
        ∙ append-nil path)

pub collapse-write :
    (path content : Bytes)
    → IsWord path
    → collapse false (write_request path content)
      ≡ codes "WRITE " ++ (path ++ b' ' ∷ collapse true content)
unfolding collapse
collapse-write path content word =
    ap (λ s. codes "WRITE " ++ s) (collapse-word true path (b' ' ∷ content) word)

solid-Lacks : (w : Bytes) → AllSolid w → Lacks b' ' w
solid-Lacks [] h = tt
solid-Lacks (c ∷ w) (hc, h) = (ground arith, solid-Lacks w h)

-- a path that a client can name: a word that the naming server's buffer holds
abbrev pub IsPath : Bytes → Type 0
IsPath path = IsWord path × Lacks 0 path × (length path < 1024)

path-fitting : (path : Bytes) → length path < 1024 → fitting path [] 1024 ≡ path
path-fitting path h = ground arith

pub path_of-read : (path : Bytes) → IsPath path → path_of (read_request path) ≡ path
path_of-read path (word, lack, fits) =
    ap (λ s. extract_path (codes "READ " ++ s) [] 1024) (sym (append-nil path))
    ∙ (extract_words (codes "READ") path [] [] [] 1024
        (omega arith, (omega arith, (omega arith, (omega arith, tt))))
        (solid-Lacks path (IsWord-AllSolid path word)) tt tt).1
    ∙ path-fitting path fits

pub path_of-write :
    (path rest : Bytes) → IsPath path → path_of (codes "WRITE " ++ (path ++ b' ' ∷ rest)) ≡ path
path_of-write path rest (word, lack, fits) =
    (extract_words (codes "WRITE") path [] (b' ' ∷ rest) [] 1024
      (omega arith, (omega arith, (omega arith, (omega arith, (omega arith, tt)))))
      (solid-Lacks path (IsWord-AllSolid path word)) tt refl).1
    ∙ path-fitting path fits

EndsSolid-append : (s t : Bytes) → EndsSolid t → EndsSolid (s ++ t)
EndsSolid-append [] t h = h
EndsSolid-append (c ∷ []) [] h = absurd h
EndsSolid-append (c ∷ []) (d ∷ t) h = h
EndsSolid-append (c ∷ d ∷ s) t h = EndsSolid-append (d ∷ s) t h

word-EndsSolid : (w : Bytes) → IsWord w → EndsSolid w
word-EndsSolid [] h = absurd h
word-EndsSolid (c ∷ []) h = h.0
word-EndsSolid (c ∷ d ∷ w) (_, h) = word-EndsSolid (d ∷ w) h

pub read-IsTrimmed : (path : Bytes) → IsWord path → IsTrimmed (read_request path)
read-IsTrimmed path word = (refl, EndsSolid-append (codes "READ ") path (word-EndsSolid path word))

pub write-IsTrimmed :
    (path content : Bytes) → EndsSolid content → IsTrimmed (write_request path content)
write-IsTrimmed path content h = (
  refl,
  EndsSolid-append (codes "WRITE ") (path ++ b' ' ∷ content)
      (EndsSolid-append path (b' ' ∷ content) (EndsSolid-append (b' ' ∷ []) content h)),
)
