-- ===== src/NamingServer/Copying.antt =====
-- What a COPY passes on of a source that sends its chunks to the end (NamingServerModule.c:
-- `handleClientInput`).
use nfs_mock.Base.{◌≡◌, refl, true, List, [], ◌∷◌, Bool, Bytes}
use nfs_mock.NamingServer.Copy.{Received, chunk, closed, relay}

-- a source that sends its chunks and closes, with a destination that takes each
abbrev pub whole : List Bytes → List (Received × Bool)
whole [] = (closed, true) ∷ []
whole (b ∷ chunks) = (chunk b, true) ∷ whole chunks

pub relay-whole : (chunks : List Bytes) → relay (whole chunks) ≡ chunks
unfolding relay
relay-whole [] = refl
relay-whole (b ∷ chunks) = rw (relay-whole chunks) refl
