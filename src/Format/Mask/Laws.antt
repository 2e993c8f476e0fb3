-- ===== src/Format/Mask/Laws.antt =====
-- What `maskUrlPassword` of apps/web/src/lib/format.ts leaves of a connection URL.
use vexdock.Base.{
  ℕ, suc, ◌+◌, ◌≡◌, refl, ap, ◌∙◌, some, [], ◌∷◌, ◌++◌, arith, length, take, drop,
  drop-append_length, append_assoc,
}
use vexdock.Text.{Text, codes}
use vexdock.Text.Laws.{Lacks}
use vexdock.Format.Mask.{
  index_of_text, last_index_of, scheme_of, tail_of, at_host, user_part, bullets, mask_url_password,
}

-- The first `://` of a URL stands behind its scheme.
index-scheme :
    (scheme rest : Text)
    → Lacks b':' scheme
    → index_of_text (codes "://") (scheme ++ codes "://" ++ rest) ≡ some (length scheme)
unfolding index_of_text
index-scheme [] rest h = refl
index-scheme (c ∷ scheme) rest h = ground (arith, index-scheme scheme rest)

take-scheme :
    (scheme rest : Text)
    → take (length scheme + 3) (scheme ++ codes "://" ++ rest) ≡ scheme ++ codes "://"
take-scheme [] rest = refl
take-scheme (c ∷ scheme) rest =
    let next : suc (length scheme) + 3 ≡ suc (length scheme + 3) = omega arith in
    rw next (ap (λ r. c ∷ r) (take-scheme scheme rest))

-- Nothing in front moves the last occurrence.
last_index_of-append :
    (part front rest : Text) (i : ℕ)
    → last_index_of part rest ≡ some i
    → last_index_of part (front ++ rest) ≡ some (length front + i)
unfolding last_index_of
last_index_of-append part [] rest i h = h ∙ ap some (omega arith)
last_index_of-append part (c ∷ front) rest i h =
    rw (last_index_of-append part front rest i h) (ap some (omega arith))

-- The password is gone whatever it holds, `@`, `:` and the user's name included, and the rest of
-- the URL is as it was, where the scheme has no colon and `@host:` does not occur again behind it.
pub mask_url_password-hides :
    (scheme user password host rest : Text)
    → Lacks b':' scheme
    → last_index_of (at_host host) (at_host host ++ rest) ≡ some 0
    → mask_url_password
        (scheme ++ codes "://" ++ (user_part user ++ password) ++ (at_host host ++ rest))
        user
        host
      ≡ scheme ++ codes "://" ++ user_part user ++ bullets ++ (at_host host ++ rest)
unfolding mask_url_password
mask_url_password-hides scheme user password host rest no_colon only =
    let middle = user_part user ++ password in
    let tail = at_host host ++ rest in
    let front = scheme ++ codes "://" ++ middle in
    let whole : front ++ tail ≡ scheme ++ codes "://" ++ (middle ++ tail) =
      append_assoc (scheme ++ codes "://") middle tail in
    let begins : index_of_text (codes "://") (front ++ tail) ≡ some (length scheme) =
      ap (index_of_text (codes "://")) whole ∙ index-scheme scheme (middle ++ tail) no_colon in
    let ends : last_index_of (at_host host) (front ++ tail) ≡ some (length front) =
      last_index_of-append (at_host host) front tail 0 only ∙ ap some (omega arith) in
    let first : take (length scheme + 3) (front ++ tail) ≡ scheme ++ codes "://" =
      ap (take (length scheme + 3)) whole ∙ take-scheme scheme (middle ++ tail) in
    ap
      (λ o.
        scheme_of (front ++ tail) o
        ++ user_part user
        ++ bullets
        ++ tail_of (front ++ tail) (last_index_of (at_host host) (front ++ tail)))
      begins
    ∙ ap
        (λ o.
          take (length scheme + 3) (front ++ tail)
          ++ user_part user
          ++ bullets
          ++ tail_of (front ++ tail) o)
        ends
    ∙ ap (λ r. r ++ user_part user ++ bullets ++ drop (length front) (front ++ tail)) first
    ∙ ap (λ r. scheme ++ codes "://" ++ user_part user ++ bullets ++ r)
        (drop-append_length front tail)
