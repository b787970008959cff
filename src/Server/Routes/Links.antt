-- ===== src/Server/Routes/Links.antt =====
-- The addresses that the lists of server/src/video.c and history.c hold, and the table of routes.
use ott_server.Base.{
  All, List, Option, [], ap, append-nil, arith, false, length, length-append, le→leb, pos, refl,
  some, subst, sym, take, take_all, ℕ, ◌++◌, ◌-◌, ◌==◌, ◌∙◌, ◌∷◌, ◌≡◌, ◌≤◌,
}
use ott_server.Cstr.{
  Bytes, codes, decimal, decimal-All, decimal-head, int_max, length-decimal, split_all,
  starts_digit, str_eq, strtol, strtol-decimal, truncated,
}
use ott_server.Http.{Request, get}
use ott_server.Router.{
  Context, Param, find_param, find_route, match_segments, method_eq, non_empty, path_matches,
  route_params, router_get_param, segment_match, segments,
}
use ott_server.Server.Routes.{Handler, call_stream, call_thumbnail, routes}
use ott_server.Video.Listing.{stream_url, thumbnail_url}
use ott_server.Video.Query.Params.{split_all-head}
use ott_server.Video.Titles.{int_of, parse_int}

under_videos :
    (u : Bytes)
    → split_all b'/' (codes "/api/videos/" ++ u)
      ≡ [] ∷ codes "api" ∷ codes "videos" ∷ split_all b'/' u
unfolding split_all
under_videos u = refl

-- The segments of the address of something of a video.
video_segments :
    (id : ℕ) (part : Bytes)
    → id ≤ int_max
    → length part ≤ 20
    → segments (truncated 128 (codes "/api/videos/" ++ (decimal id ++ b'/' ∷ part)))
      ≡ codes "api" ∷ codes "videos" ∷ decimal id ∷ non_empty (split_all b'/' part)
unfolding non_empty
video_segments id part small short =
    let (c, s, e, _) = decimal-head id in
    let digits = length-decimal 10 id (omega arith) (omega arith) in
    let whole = codes "/api/videos/" ++ (decimal id ++ b'/' ∷ part) in
    let size : length whole ≤ 43 =
      omega (arith, length-append (decimal id) (b'/' ∷ part), digits) in
    let fits : truncated 128 whole ≡ whole = take_all (128 - 1) whole (omega (arith, size)) in
    let digits_only : All (λ d. (d == b'/') ≡ false) (decimal id) =
      decimal-All (λ d. (d == b'/') ≡ false) id (λ k h. ground arith) in
    let cut : take 511 whole ≡ whole = take_all 511 whole (omega (arith, size)) in
    let rest : codes "api" ∷ codes "videos" ∷ non_empty (split_all b'/' (decimal id ++ b'/' ∷ part))
        ≡ codes "api" ∷ codes "videos" ∷ decimal id ∷ non_empty (split_all b'/' part) =
      subst
        (λ d.
          codes "api" ∷ codes "videos" ∷ non_empty (split_all b'/' (d ++ b'/' ∷ part))
          ≡ codes "api" ∷ codes "videos" ∷ d ∷ non_empty (split_all b'/' part))
        (sym e)
        (ap (λ r. codes "api" ∷ codes "videos" ∷ non_empty r)
          (split_all-head b'/' c s part (subst (All (λ d. (d == b'/') ≡ false)) e digits_only))) in
    ap segments fits
    ∙ (ap (λ w. non_empty (split_all b'/' w)) cut
        ∙ (ap non_empty (under_videos (decimal id ++ b'/' ∷ part)) ∙ rest))

-- The parameters of the request for a video.
abbrev pub id_param : ℕ → List Param
id_param id = record { key = codes "id"; value = decimal id } ∷ []

short_id : (id : ℕ) → id ≤ int_max → take 255 (decimal id) ≡ decimal id
short_id id small =
    take_all 255 (decimal id) (omega (arith, length-decimal 10 id (omega arith) (omega arith)))

-- The first route for a request whose path has these segments.
routed_stream :
    (digits : Bytes) (req : Request)
    → req.method ≡ get
    → segments req.path ≡ codes "api" ∷ codes "videos" ∷ digits ∷ codes "stream" ∷ []
    → find_route routes req
      ≡ some (call_stream, record { key = codes "id"; value = take 255 digits } ∷ [])
unfolding find_route route_params method_eq path_matches match_segments segment_match str_eq
    split_all non_empty
routed_stream digits req m p = rw (m, p) refl

routed_thumbnail :
    (digits : Bytes) (req : Request)
    → req.method ≡ get
    → segments req.path ≡ codes "api" ∷ codes "videos" ∷ digits ∷ codes "thumbnail" ∷ []
    → find_route routes req
      ≡ some (call_thumbnail, record { key = codes "id"; value = take 255 digits } ∷ [])
unfolding find_route route_params method_eq path_matches match_segments segment_match str_eq
    split_all non_empty
routed_thumbnail digits req m p = rw (m, p) refl

with_id :
    (handler : Handler) (id : ℕ)
    → id ≤ int_max
    → ◌≡◌ {A = Option (Handler × List Param)}
        (some (handler, record { key = codes "id"; value = take 255 (decimal id) } ∷ []))
        (some (handler, id_param id))
with_id handler id small =
    ap (λ d. some (handler, record { key = codes "id"; value = d } ∷ [])) (short_id id small)

read_id :
    (id : ℕ) (ctx : Context)
    → id ≤ int_max
    → parse_int (router_get_param (record ctx { params = id_param id }) (codes "id")) ≡ some id
unfolding router_get_param find_param str_eq parse_int starts_digit
read_id id ctx small =
    let read : strtol (decimal id ++ []) ≡ (pos id, []) = strtol-decimal id [] (omega arith) refl in
    let whole : strtol (decimal id) ≡ (pos id, []) =
      ap strtol (sym (append-nil (decimal id))) ∙ read in
    ap int_of whole ∙ rw (le→leb id int_max small) refl

-- A GET of the address that a list gives for the stream or the thumbnail of a video goes to the
-- handler of streams or thumbnails, which reads the id of this video.
pub find_route-stream_url :
    (id : ℕ) (stream thumbnail : Request) (ctx : Context)
    → id ≤ int_max
    → stream.method ≡ get
    → stream.path ≡ stream_url id
    → thumbnail.method ≡ get
    → thumbnail.path ≡ thumbnail_url id
    → (find_route routes stream ≡ some (call_stream, id_param id))
      × (find_route routes thumbnail ≡ some (call_thumbnail, id_param id))
      × (parse_int (router_get_param (record ctx { params = id_param id }) (codes "id")) ≡ some id)
unfolding split_all non_empty
find_route-stream_url id stream thumbnail ctx small m p n q = (
  routed_stream (decimal id) stream m
        (ap segments p ∙ video_segments id (codes "stream") small (omega arith))
      ∙ with_id call_stream id small,
  routed_thumbnail (decimal id) thumbnail n
        (ap segments q ∙ video_segments id (codes "thumbnail") small (omega arith))
      ∙ with_id call_thumbnail id small,
  read_id id ctx small,
)
