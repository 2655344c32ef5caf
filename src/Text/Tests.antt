-- ===== src/Text/Tests.antt =====
-- Quoting and grouping at concrete texts, and the theorems at inputs that meet their hypotheses.
use fie_importer.Prelude.{[], ◌≡◌, refl, some, List, ◌∷◌, ◌++◌, arith, pos}
use fie_importer.Prelude.Bytes.{Bytes, codes}
use fie_importer.Text.Replace.{replace_all}
use fie_importer.Text.Sql.{quote, read_quoted, read_quoted-quote}
use fie_importer.Text.Shell.{all_safe, is_safe, base, shell_quote, command_line, join}
use fie_importer.Text.Decimal.{format_uint}
use fie_importer.Text.Group.{group, group_digits}

quote_runs : quote (codes "it's") ≡ codes "'it''s'"
unfolding quote replace_all
quote_runs = refl

read_quoted-quote_example :
    read_quoted (quote (codes "it's") ++ codes ", x") ≡ some (codes "it's", codes ", x")
read_quoted-quote_example = read_quoted-quote (codes "it's") (codes ", x") (omega arith)

abbrev arguments : List Bytes
arguments = codes "--filter=a b" ∷ [] ∷ codes "it's" ∷ codes "plain" ∷ []

command_runs :
    command_line (codes "/usr/bin/fie-importer" ∷ arguments)
    ≡ codes "fie-importer '--filter=a b' '' 'it'\\''s' plain"
unfolding command_line base shell_quote replace_all is_safe all_safe join
command_runs = refl

group_runs : group (pos 20486494) ≡ codes "20,486,494"
unfolding group group_digits format_uint
group_runs = refl
