-- ===== src/Tests/Auth.antt =====
-- server/src/auth.c on concrete names and cookies.
use ott_server.Auth.Cookie.{cookie_loop, drop_separators, parse_cookie}
use ott_server.Auth.Cookie.Laws.{
  IsCookie, build_cookies, parse_cookie-build_cookies, parse_cookie_ends,
}
use ott_server.Auth.Names.{trim_end}
use ott_server.Base.{All, List, [], arith, refl, ◌∷◌, ◌≡◌, ◌≢◌}
use ott_server.Cstr.{Bytes, codes, lookup, split_at, str_eq}
use ott_server.Http.Read.{failed, ok, or_fail, stuck}

abbrev cookies : List (Bytes × Bytes)
cookies = (codes "a", codes "1") ∷ (codes "ott_session", codes "x9_") ∷ []

cookie_found :
    parse_cookie (codes "ott_session") 128 (codes "a=1; ott_session=x9_ ; b") ≡ ok (codes "x9_")
unfolding parse_cookie cookie_loop drop_separators split_at str_eq trim_end
cookie_found = refl

-- A cookie without `=` takes the name of the next one with it.
cookie_hidden : parse_cookie (codes "ott_session") 128 (codes "a; ott_session=x9_") ≡ failed
unfolding parse_cookie cookie_loop drop_separators split_at str_eq trim_end
cookie_hidden = refl

cookies-IsCookie : All (IsCookie 128) cookies
unfolding trim_end
cookies-IsCookie = (
  (((refl, refl), tt), (refl, tt), refl, omega arith),
  (
    (
      (
        (refl, refl),
        (
          (refl, refl),
          (
            (refl, refl),
            (
              (refl, refl),
              (
                (refl, refl),
                (
                  (refl, refl),
                  (
                    (refl, refl),
                    ((refl, refl), ((refl, refl), ((refl, refl), ((refl, refl), tt)))),
                  ),
                ),
              ),
            ),
          ),
        ),
      ),
      (refl, (refl, (refl, tt))),
      refl,
      omega arith,
    ),
    tt,
  ),
)

parse_cookie-build_cookies_example :
    parse_cookie (codes "ott_session") 128 (build_cookies cookies)
    ≡ or_fail (lookup (codes "ott_session") cookies)
parse_cookie-build_cookies_example =
    parse_cookie-build_cookies (codes "ott_session") 128 cookies (omega arith) cookies-IsCookie

parse_cookie_ends_example : parse_cookie (codes "ott_session") 128 (codes "a=1; b") ≢ stuck
parse_cookie_ends_example = parse_cookie_ends (codes "ott_session") 128 (codes "a=1; b")
