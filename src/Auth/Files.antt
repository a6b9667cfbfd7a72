-- ===== src/Auth/Files.antt =====
-- internal/auth/files.go: the two files of the password-file and acl-file plugins.
use mosquitto_operator.Base.{
  Option, none, some, List, [], ◌∷◌, ◌++◌, Bytes, codes, ◌=?◌, if◌then◌else◌,
}
use mosquitto_operator.Base.Dict.{Dict, get_or, insert}
use mosquitto_operator.Base.Strings.{cut, split}
use mosquitto_operator.Api.{MosquittoAcl}
use mosquitto_operator.Auth.Defs.{Accepted}

abbrev pub passwd_key : Bytes
passwd_key = codes "passwd"

abbrev pub acl_key : Bytes
acl_key = codes "acl"

abbrev pub newline : Bytes → Bytes
newline s = 10 ∷ s

-- What one line of a passwd file adds to the hashes.
unfoldable pub read_line : Option (Bytes × Bytes) → Dict Bytes → Dict Bytes
read_line none hashes = hashes
read_line (some (username, hash)) hashes =
    if username =? [] then hashes else insert username hash hashes

unfoldable pub read_lines : List Bytes → Dict Bytes → Dict Bytes
read_lines [] hashes = hashes
read_lines (line ∷ lines) hashes = read_lines lines (read_line (cut line b':') hashes)

unfoldable pub hashes : Dict Bytes → Dict Bytes
unfolding read_lines read_line
hashes previous = read_lines (split (get_or passwd_key [] previous) 10) []

unfoldable pub passwd_text : List Accepted → Bytes
passwd_text [] = []
passwd_text (u ∷ us) = u.username ++ b':' ∷ (u.hash ++ newline (passwd_text us))

unfoldable pub topic_lines : List MosquittoAcl → Bytes
topic_lines [] = []
topic_lines (entry ∷ acls) =
    codes "topic " ++ (entry.access ++ b' ' ∷ (entry.topic ++ newline (topic_lines acls)))

unfoldable pub user_block : Accepted → Bytes
unfolding topic_lines
user_block u = codes "user " ++ (u.username ++ newline (topic_lines u.acls))

-- The blocks behind the first, each after an empty line.
unfoldable pub more_blocks : List Accepted → Bytes
unfolding user_block
more_blocks [] = []
more_blocks (u ∷ us) = newline (user_block u ++ more_blocks us)

unfoldable pub acl_text : List Accepted → Bytes
unfolding more_blocks
acl_text [] = []
acl_text (u ∷ us) = user_block u ++ more_blocks us

unfoldable pub render_files : List Accepted → Dict Bytes
unfolding passwd_text acl_text
render_files users = (passwd_key, passwd_text users) ∷ (acl_key, acl_text users) ∷ []
