-- ===== src/Dotenv/Tests.antt =====
-- Runs of apps/web/src/lib/dotenv.ts on the inputs of its test file.
use vexdock.Base.{Bool, false, ltb, ◌||◌, ◌&&◌, ◌==◌, ◌≡◌, refl, true, [], ◌∷◌, String, map}
use vexdock.Text.{Text, codes}
use vexdock.Text.{
  is_space, is_line_end, trim_start, trim_end, trim, index_of, split, join, replace_all,
}
use vexdock.Dotenv.Value.{
  needs_quotes, escape, quote, unescape, unquote, closing_from, closing_quote, comment_at,
  drop_comment, opens_comment, without_comment,
}
use vexdock.Dotenv.Entries.{read_pair, read_trimmed, read_line, read_lines, entries}
use vexdock.Dotenv.Vars.{
  line_of, was_secret, vars_of, problems_of, env_key, key_problem, key_problems,
}
use vexdock.Dotenv.Vars.{EnvVar, from_dotenv, to_dotenv, line_problems, save_problems}

abbrev var : String → Text → EnvVar
var k v = record { key = codes k; value = v; is_secret = true; updated_at = [] }

-- Unfolds all of the code.
unfoldable pub dotenv_code : Unit {0}
unfolding is_space is_line_end trim_start trim_end trim index_of split join replace_all needs_quotes
    escape quote unescape unquote closing_from closing_quote comment_at drop_comment opens_comment
    without_comment read_pair read_trimmed read_line read_lines entries line_of to_dotenv was_secret
    vars_of from_dotenv problems_of line_problems env_key key_problem key_problems save_problems
dotenv_code = tt

pasted :
    from_dotenv (codes "# comment\n\nA=\"line1\\nline2\"\nB='raw'\nC=\n") []
    ≡ var "A" (codes "line1\nline2") ∷ var "B" (codes "raw") ∷ var "C" [] ∷ []
unfolding dotenv_code
pasted = refl

comments :
    map
      (λ v. v.value)
      (from_dotenv
        (codes "A=\"x\" # note\nB=plain # note\nC=no#comment\nD='y' # note\nE=\"-\nabc\n-\" # pem")
        [])
    ≡ codes "x" ∷ codes "plain" ∷ codes "no#comment" ∷ codes "y" ∷ codes "-\nabc\n-" ∷ []
unfolding dotenv_code
comments = refl

broken :
    line_problems (codes "A=1\njust words\nB=\"never closed\nC=2")
    ≡ codes "\"just words\" is not KEY=value: fix the line or delete it."
      ∷ codes "B opens a quote that never closes: add the closing \"."
      ∷ []
unfolding dotenv_code
broken = refl

refused :
    save_problems (codes "1A=x\nB=1\nB=2\nC=3")
    ≡ codes "\"1A\" is not a valid key: use letters, digits and _, and do not start with a digit."
      ∷ codes "\"B\" appears twice: keep one."
      ∷ []
unfolding dotenv_code
refused = refl

windows_path :
    to_dotenv (var "DIR" (codes "C:\\new\\\nnext") ∷ []) ≡ codes "DIR=\"C:\\\\new\\\\\\nnext\""
unfolding dotenv_code
windows_path = refl

-- The order of code units.
unfoldable pub after_units : Text → Text → Bool
after_units [] t = false
after_units (x ∷ s) [] = true
after_units (x ∷ s) (y ∷ t) = ltb y x || (x == y && after_units s t)
