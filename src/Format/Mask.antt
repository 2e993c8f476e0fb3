-- ===== src/Format/Mask.antt =====
-- Names and addresses in apps/web/src/lib/format.ts: `maskUrlPassword`, `shortSha`, `containerName`.
pub mod Laws
use vexdock.Base.{
  ℕ, zero, suc, ◌+◌, ◌-◌, Bool, true, false, not, Option, none, some, List, [], ◌∷◌, ◌++◌,
  if◌then◌else◌, length, take, drop,
}
use vexdock.Text.{Text, codes, text_eq, has_prefix, index_after}

-- `indexOf` and `lastIndexOf` of a text; `none` is -1.
unfoldable pub index_of_text : Text → Text → Option ℕ
index_of_text part [] = if has_prefix part [] then some 0 else none
index_of_text part (c ∷ cs) =
    let rest = index_after (index_of_text part cs) in
    if has_prefix part (c ∷ cs) then some 0 else rest

-- The place of the last occurrence that begins behind the first character, or at it.
abbrev pub last_of : Option ℕ → Bool → Option ℕ
last_of (some i) here = some (suc i)
last_of none here = if here then some 0 else none

unfoldable pub last_index_of : Text → Text → Option ℕ
last_index_of part [] = if has_prefix part [] then some 0 else none
last_index_of part (c ∷ cs) = last_of (last_index_of part cs) (has_prefix part (c ∷ cs))

-- `url.slice(0, at + 3)`
abbrev pub scheme_of : Text → Option ℕ → Text
scheme_of url none = take 2 url
scheme_of url (some at) = take (at + 3) url

-- `url.slice(at)`: -1 is the last character.
abbrev pub tail_of : Text → Option ℕ → Text
tail_of url none = drop (length url - 1) url
tail_of url (some at) = drop at url

abbrev pub bullets : Text
bullets = 0x2022 ∷ 0x2022 ∷ 0x2022 ∷ []

-- `@${host}:`
abbrev pub at_host : Text → Text
at_host host = b'@' ∷ host ++ b':' ∷ []

abbrev pub user_part : Text → Text
user_part user = if text_eq user [] then [] else user ++ b':' ∷ []

unfoldable pub mask_url_password : Text → Text → Text → Text
mask_url_password url user host =
    scheme_of url (index_of_text (codes "://") url)
    ++ user_part user
    ++ bullets
    ++ tail_of url (last_index_of (at_host host) url)

unfoldable pub short_sha : Option Text → Text
short_sha none = codes "-"
short_sha (some []) = codes "-"
short_sha (some (c ∷ cs)) = take 7 (c ∷ cs)

-- `replace(/^\//u, '')`
abbrev pub without_slash : Text → Text
without_slash [] = []
without_slash (c ∷ cs) = if has_prefix (b'/' ∷ []) (c ∷ cs) then cs else c ∷ cs

unfoldable pub container_name : List Text → Text → Text
container_name [] id = take 12 id
container_name (name ∷ names) id = without_slash name
