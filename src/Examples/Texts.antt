-- ===== src/Examples/Texts.antt =====
-- Texts: requests, paths, numbers and lines that the theorems on strings apply to.
use nfs_mock.Base.{◌≡◌, refl, false, [], ◌∷◌, ◌++◌, arith, drop, Bytes, codes, c_str}
use nfs_mock.Decimal.{pos, decimal, atoi, atoi-decimal}
use nfs_mock.Whitespace.{strip, client_strip}
use nfs_mock.Whitespace.Edges.{line}
use nfs_mock.Whitespace.Collapse.{collapse}
use nfs_mock.Whitespace.ServerStrip.{strip-drop}
use nfs_mock.Whitespace.ClientStrip.{client_strip-append}
use nfs_mock.Paths.{extract_path, extract_path_third}
use nfs_mock.Paths.Words.{fitting, extract_words}
use nfs_mock.Checks.{every-Lacks}

atoi-decimal_example : atoi (decimal 8001 ++ b' ' ∷ []) ≡ pos 8001
atoi-decimal_example = atoi-decimal 8001 (b' ' ∷ []) refl

abbrev two_blanks : Bytes
two_blanks = b' ' ∷ b' ' ∷ []

abbrev command : Bytes
command = codes "READ a"

strip-drop_example :
    c_str (strip (line two_blanks command (10 ∷ []) [])) ≡ drop 2 (collapse false command)
unfolding collapse
strip-drop_example =
    strip-drop two_blanks command (10 ∷ []) [] (refl, (refl, tt)) (refl, refl) (refl, tt)
      (every-Lacks 0 command refl) (omega arith)

client_strip-append_example :
    c_str (client_strip (line two_blanks command (10 ∷ []) []))
    ≡ command ++ drop 6 (two_blanks ++ command)
client_strip-append_example =
    client_strip-append two_blanks command (10 ∷ []) [] (refl, (refl, tt)) (refl, refl) (refl, tt)
      (every-Lacks 0 command refl)

extract_words_example :
    (extract_path (codes "COPY") [] 1024 ≡ [])
    × (extract_path (codes "COPY" ++ b' ' ∷ (codes "./a" ++ [])) [] 1024
        ≡ fitting (codes "./a") [] 1024)
    × (extract_path_third (codes "COPY" ++ b' ' ∷ codes "./a") [] 1024 ≡ [])
    × (extract_path_third
          (codes "COPY" ++ b' ' ∷ (codes "./a" ++ b' ' ∷ (codes "./b" ++ [])))
          []
          1024
        ≡ fitting (codes "./b") [] 1024)
extract_words_example =
    extract_words (codes "COPY") (codes "./a") (codes "./b") [] [] 1024
      (every-Lacks b' ' (codes "COPY") refl) (every-Lacks b' ' (codes "./a") refl)
      (every-Lacks b' ' (codes "./b") refl) tt
