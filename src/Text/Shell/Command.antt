-- ===== src/Text/Shell/Command.antt =====
-- The recorded command line, as `commandLine` writes it, typed again.
use fie_importer.Prelude.{Option, List, []}
use fie_importer.Prelude.Bytes.{Bytes}
use fie_importer.Text.Shell.Words.{read_words, between}

-- A whole command line, read as words; `none` where it would need more of the shell.
unfoldable pub read_command : Bytes → Option (List Bytes)
unfolding read_words
read_command = read_words between [] []
