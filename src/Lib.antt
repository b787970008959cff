-- ===== src/Lib.antt =====
-- OTT_Server is a video streaming server in C: one process that accepts connections, hands each to a
-- pool of workers, parses an HTTP request, authenticates it by a session cookie, and either runs the
-- handler of an API route or sends a static file. Users, sessions, videos and watch positions are in
-- an SQLite database. This library models its code under server/src and server/include, and the
-- schema server/schema.sql.
--
-- A C string is the list of its bytes before the NUL (Cstr), a fixed buffer a bound on its length, and
-- -1 or NULL is `none` or `false`. Numbers are natural numbers or signed integers; sizes wrap at 2^64
-- where the code relies on them, and longs are clamped as strtol does.
--
--   Base, Cstr     shared tests, lists, signed integers; string.h, strings.h, ctype.h, strtol, %d.
--   Utils          server/src/utils.c: Builder (string_builder_t, sb_append), Json
--                  (sb_append_json_string, json_get_string, json_get_double), Base64
--                  (base64url_encode), Pieces (runs of appends), Files
--                  (ensure_directory, read_file, trim_trailing_newline).
--   Http           server/src/http.c: Buffer (ensure_capacity), Socket (recv, send_all), Read (the
--                  reading loops), Parse (request line and headers), Receive (http_parse_request),
--                  Response (http_send_response, http_send_file_response).
--   Router         server/src/router.c: path_matches and segment_match, router_handle, and Send
--                  (router_send_json, router_send_json_error).
--   Db             server/schema.sql and server/src/db.c: Tables, Engine (the SQL statements on users
--                  and sessions and what they mean), Accounts (the db_ functions on them), Library
--                  (the tables of videos and watch history, and in Statements the SQL on them), Videos
--                  and Watching (the db_ functions on them), Open (db_init, db_close, db_run_schema).
--   Auth           server/src/auth.c: Names (trim_whitespace, is_valid_username), Cookie
--                  (parse_cookie), Password (hashing, tokens), Session (load_session,
--                  auth_authenticate_request), Login (login, logout, me), Register (register,
--                  default users).
--   Video          server/src/video.c: Query (url_decode_component, query_get_param,
--                  query_get_int, the page of a list), Range (parse_range_header), Titles
--                  (has_mp4_extension, make_title, parse_int), Resume (the map of resume positions,
--                  the list of file names), Sync (sync_media_directory), Watcher
--                  (media_watch_loop, start_media_watcher, getenv_int), Listing (video_handle_list,
--                  append_video_row), Stream (video_handle_stream, video_handle_thumbnail).
--   Ffmpeg         server/src/ffmpeg.c: the cache of thumbnails.
--   History        server/src/history.c: history_handle_get, history_handle_update.
--   ThreadPool     server/src/threadpool.c: the linked list of jobs (Queue), workers, and all
--                  interleavings of their steps (Order); Lifecycle (thread_pool_init and
--                  thread_pool_destroy, whose joins are taken to return).
--   Server         server/src/main.c: Static (serve_static_file, choose_path), Routes (the table),
--                  Handlers (what its entries run), Connection (handle_client), Loop (the loops with
--                  epoll and poll, on the descriptors of clients), Listen (create_listen_socket,
--                  make_nonblocking, make_blocking), Start (main's settings, and what it acquires and
--                  releases).
--   Tests          concrete runs.
--
-- How they meet: Server.Loop hands descriptors to the pool; a worker runs handle_client, which parses
-- the request, authenticates it by the tables of accounts, and searches the table of Server.Routes
-- with Router.router_handle or serves a static file. Server.Handlers runs the handler that is found.
-- All take the state of the database engine and the context and return both; responses go to the client
-- in the context. The engine has two views, the tables of accounts (Db.Tables) and those of videos and
-- history (Db.Library), and a statement for each.
--
-- Fuel: the growth of the string builder has 65 rounds, enough for every size up to 2^63; that of the
-- request buffer 26, enough to pass 8 MiB from one byte; the reading loops take more fuel than bytes
-- arrive; parse_cookie takes one round more than the header has bytes; a sweep of poll has a round for
-- every slot.
--
-- Code that is not the repository's is a parameter: malloc and realloc (which requests are granted),
-- recv and send (the pieces that arrive, the bytes that each send takes), the file system, strtod,
-- RAND_bytes and PBKDF2 of OpenSSL, the time, readdir and stat, ffmpeg's process, %.3f, doubles, and
-- SQLite: an engine whose statements each fail and leave the tables alone or do what SQL says
-- (IsSqlite, IsEngine; IsFaultless for one that never fails), with LIKE and the order of rows with the
-- same time as parameters; where it matters, rows come in the order of updated_at (Db.Library.Order,
-- IsOrdered), and the table of history has one row per user and video (IsKeyed), which every statement
-- keeps (Db.Library.Keys.Kept). An upsert advances the counter of AUTOINCREMENT also when it updates,
-- and a NaN that is bound is read back as zero. The calls that make sockets and threads, open, lseek,
-- sendfile and read return what they like.
--
-- Not modelled: signals, time stamps, logging, and the browser code under web.
-- Stack buffers are not modelled beyond their sizes; the product session_ttl_hours * 3600 is taken not
-- to overflow an int. A file that is streamed stays as it is meanwhile, and the blobs
-- of a hash and a salt have their full lengths, as the program writes them: it would compare shorter
-- ones with what the stack holds.
pub mod Base
pub mod Cstr
pub mod Utils
pub mod Http
pub mod Router
pub mod Auth
pub mod Db
pub mod Video
pub mod Ffmpeg
pub mod History
pub mod Server
pub mod ThreadPool
mod Tests
