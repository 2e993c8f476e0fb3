-- ===== src/Format/AccessLine/Tests.antt =====
-- Access lines of apps/web/src/lib/format.test.ts's kind.
use vexdock.Base.{◌≡◌, refl, some, none, [], ◌∷◌, arith}
use vexdock.Text.{codes, is_space}
use vexdock.Format.Scan.{each_of, span}
use vexdock.Format.AccessLine.{
  AccessLine, exponent, to_double, is_solid, parse_access_line, path_from, skip_time, tail_at,
  word_at,
}
use vexdock.Format.AccessLine.Printed.{IsOf, printed, parse_access_line-printed}

-- A server that prints no number of bytes, and a path that holds a quote.
abbrev moved : AccessLine
moved = record {
  client = codes "10.0.0.7";
  method = codes "GET";
  path = codes "/a\"b";
  status = codes "304";
  bytes = 0;
}

dash_test :
    parse_access_line
      (codes "10.0.0.7 - - [01/Jan/2026:10:00:00 +0000] \"GET /a\"b HTTP/1.1\" 304 - x")
    ≡ some moved
unfolding parse_access_line word_at skip_time path_from tail_at span each_of is_space
dash_test = refl

-- nginx's error log is prose.
prose_test : parse_access_line (codes "open() failed: no such file") ≡ none
unfolding parse_access_line word_at skip_time path_from tail_at span each_of is_space
prose_test = refl

-- 2 ^ 53 + 1 has no double, and is halfway between two.
double_test : to_double 9007199254740993 ≡ 9007199254740992
unfolding to_double exponent
double_test = refl

address-IsOf : IsOf is_solid (codes "10.0.0.7")
unfolding is_space
address-IsOf = (λ e. ground arith, refl)

dash-IsOf : IsOf is_solid (codes "-")
unfolding is_space
dash-IsOf = (λ e. ground arith, refl)

get-IsOf : IsOf is_solid (codes "GET")
unfolding is_space
get-IsOf = (λ e. ground arith, refl)

path-IsOf : IsOf is_solid (codes "/a\"b")
unfolding is_space
path-IsOf = (λ e. ground arith, refl)

parse_access_line-printed_example :
    parse_access_line (
      printed
        (codes "10.0.0.7")
        (codes "-")
        (codes "-")
        (codes "now")
        (codes "GET")
        (codes "/a\"b")
        (codes "HTTP/1.1")
        50
        48
        48
        512
        (codes "-"))
    ≡ some (record {
      client = codes "10.0.0.7";
      method = codes "GET";
      path = codes "/a\"b";
      status = 50 ∷ 48 ∷ 48 ∷ [];
      bytes = 512;
    })
parse_access_line-printed_example =
    parse_access_line-printed (codes "10.0.0.7") (codes "-") (codes "-") (codes "now") (codes "GET")
      (codes "/a\"b") (codes "HTTP/1.1") 50 48 48 512 (codes "-") address-IsOf dash-IsOf dash-IsOf
      (λ e. ground arith, refl) get-IsOf path-IsOf refl (refl, refl, refl) (omega arith)
