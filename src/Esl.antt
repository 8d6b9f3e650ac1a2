-- ===== src/Esl.antt =====
-- Replies and arguments of FreeSWITCH commands: `isESLOK` of inbound/router.go and dialer/manual.go,
-- and the escapes of both.
use callvoice.Common.{
  Bool, [], ◌∷◌, Text, codes, trim_space, has_prefix, contains, to_lower, if◌then◌else◌, ◌==◌, ◌||◌,
}

unfoldable pub is_esl_ok : Text → Bool
unfolding trim_space has_prefix
is_esl_ok body = has_prefix (trim_space body) (codes "+OK")

-- A kill of a channel that is gone counts as done.
unfoldable pub is_killed : Text → Bool
unfolding is_esl_ok contains to_lower
is_killed body = is_esl_ok body || contains (to_lower body) (codes "no such")

-- `escapeFS`: a backslash before each backslash and each space.
unfoldable pub escape_fs : Text → Text
escape_fs [] = []
escape_fs (c ∷ s) = if c == b'\\' || c == b' ' then b'\\' ∷ (c ∷ escape_fs s) else c ∷ escape_fs s
