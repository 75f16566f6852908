-- ===== src/Client/Strings.antt =====
-- `removeWhitespace` (clientfunctions.c), which nothing calls: the text is the naming server's.
use nfs_mock.Base.{Bytes}
use nfs_mock.Whitespace

unfoldable pub remove_whitespace : Bytes → Bytes
remove_whitespace = Whitespace.remove_whitespace
