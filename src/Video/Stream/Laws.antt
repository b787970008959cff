-- ===== src/Video/Stream/Laws.antt =====
-- The answer of `video_handle_stream` to a request with a range.
use ott_server.Base.{Bool}
use ott_server.Http.Response.{Files}
