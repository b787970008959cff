-- ===== src/Video/Sync/Laws.antt =====
-- The library of videos after `sync_media_directory`, over an engine that never fails and with
-- memory for the names.
use ott_server.Base.{
  Bool, Bool-cases, List, Option, [], ap, append-nil, append_assoc, false, if◌then◌else◌, inl, inr,
  none, pos, refl, some, subst, sym, true, ℕ, ◌&&◌, ◌++◌, ◌∙◌, ◌∷◌, ◌≡◌,
}
use ott_server.Cstr.{Bytes, str_eq}
use ott_server.Db.Library.{Library, Video, find_file, listed}
use ott_server.Db.Library.Laws.{file_id, file_id-upserted_video, id_or}
use ott_server.Db.Library.Order.{Columns}
use ott_server.Db.Library.Statements.{
  IsFaultless, Reply, Statement, effect, upsert_video, upserted_video,
}
use ott_server.Db.Videos.{db_prune_missing_videos, db_upsert_video, is_row_or_done}
use ott_server.Router.{non_empty}
use ott_server.Video.Resume.{Growing, filename_list_add}
use ott_server.Video.Resume.Laws.{ids}
use ott_server.Video.Sync.{
  after_upsert, and_track, is_media, no_names, prune, scan, sync_media_directory,
}
use ott_server.Video.Sync.Names.{
  IsScanned, IsScanned-prune, IsScanned-step, IsSynced, filename_list_add_granted,
  listed-media_names, listed-non_empty-media_names, media_names,
}
use ott_server.Video.Sync.Prune.{db_prune_missing_videos_lem}
use ott_server.Video.Titles.{make_title}

module _ {Double Conn : Type 0} (like : Bytes → Bytes → Bool) (sql : Columns Double)
    (run : Conn → Statement Double → Conn × Reply Double) (view : Conn → Library Double)
    (exists : Conn → ℕ → Bool) (clock : Conn → Bytes) where
  module _ (grants copies : ℕ → Bool) where
    -- The loop ends with the names of the videos, and each of them has a row.
    abbrev Scanned : Conn → Growing Bytes → List Bytes → Conn × Option (Growing Bytes) → Type 0
    Scanned db files entries after =
        (all : Growing Bytes) × (after.1 ≡ some all)
        × (all.items ≡ files.items ++ media_names entries)
        × ((n : Bytes)
            → IsScanned (file_id n (view db).videos) (listed n (media_names entries))
                (file_id n (view after.0).videos))

    unchanged : (before : Option ℕ) → IsScanned before false before
    unchanged none = refl
    unchanged (some id) = refl

    -- The calls for a name go on once its row and its name are stored.
    after_upsert_done :
        (r : Conn × Bool) (files more : Growing Bytes) (name : Bytes)
        (rest : Conn → Growing Bytes → Conn × Option (Growing Bytes))
        → r.1 ≡ true
        → filename_list_add grants copies files name ≡ some more
        → after_upsert run grants copies r files name rest ≡ rest r.0 more
    after_upsert_done r files more name rest e tracked =
        subst (λ x. after_upsert run grants copies (r.0, x) files name rest ≡ rest r.0 more) (sym e)
          (ap (λ o. and_track run grants copies r.0 o (rest r.0)) tracked)

    returned_row :
        (l : Library Double) (title name : Bytes) (row : Option Video)
        → is_row_or_done (upserted_video l title name none (pos 0) row).1 ≡ true
    returned_row l title name none = refl
    returned_row l title name (some v) = refl

    scan_lem :
        (db : Conn) (files : Growing Bytes) (entries : List Bytes)
        → IsFaultless like sql run view exists clock
        → ((n : ℕ) → grants n ≡ true)
        → ((n : ℕ) → copies n ≡ true)
        → Scanned db files entries (scan run grants copies db files entries)
    unfolding scan media_names listed db_upsert_video effect
    scan_lem db files [] law granted copied =
        (files, refl, sym (append-nil files.items), λ n. unchanged (file_id n (view db).videos))
    scan_lem db files (name ∷ entries) law granted copied = elim (Bool-cases (is_media name)) [
      | inr other ↦ rw other (scan_lem db files entries law granted copied)
      | inl video ↦
          let statement = upsert_video (make_title name 256) name none (pos 0) in
          let ran = run db statement in
          let (tables, answer) = law db statement in
          let (more, tracked, items) =
            filename_list_add_granted grants copies files name granted copied in
          let (all, success, names, ids) = scan_lem ran.0 more entries law granted copied in
          let stored : is_row_or_done ran.1 ≡ true =
            ap is_row_or_done answer
            ∙ returned_row (view db) (make_title name 256) name (find_file name (view db).videos) in
          let row : (n : Bytes)
              → file_id n (view ran.0).videos
                ≡ id_or (file_id n (view db).videos)
                    (if str_eq name n then some (view db).next_video else none) =
            λ n.
              ap (λ l. file_id n l.videos) tables
              ∙ file_id-upserted_video (view db) (make_title name 256) name none (pos 0) n in
          rw
            (
              video,
              after_upsert_done (ran.0, is_row_or_done ran.1) files more name
                  (λ d f. scan run grants copies d f entries) stored tracked,
            )
            (
              all,
              success,
              names
                  ∙ (ap (λ xs. xs ++ media_names entries) items
                      ∙ append_assoc files.items (name ∷ []) (media_names entries)),
              λ n.
                  IsScanned-step (file_id n (view db).videos) (str_eq name n)
                    (listed n (media_names entries)) (view db).next_video _
                    (subst
                      (λ id.
                        IsScanned id (listed n (media_names entries))
                          (file_id n (view (scan run grants copies ran.0 more entries).0).videos))
                      (row n) (ids n)),
            )
    ]

    -- Over an engine that never fails and with memory for the names, the synchronization with a
    -- directory succeeds. Afterwards a file has a row exactly if it is an entry of the directory
    -- that is a video, and a file that had one before and still is there keeps its id.
    pub sync_media_directory_lem :
        (db : Conn) (entries : List Bytes) (n : Bytes)
        → IsFaultless like sql run view exists clock
        → ((k : ℕ) → grants k ≡ true)
        → ((k : ℕ) → copies k ≡ true)
        → ((sync_media_directory run grants copies db (some entries)).1 ≡ true)
          × IsSynced
              (file_id n (view db).videos)
              (is_media n && listed n entries)
              (file_id n (view (sync_media_directory run grants copies db (some entries)).0).videos)
    unfolding sync_media_directory
    sync_media_directory_lem db entries n law granted copied =
        let (all, success, names, ids) = scan_lem db no_names entries law granted copied in
        let scanned = scan run grants copies db no_names entries in
        let ran : prune run grants copies scanned
            ≡ ((db_prune_missing_videos run scanned.0 all.items).0, true) =
          ap (λ o. prune run grants copies (scanned.0, o)) success in
        let there : listed n (non_empty all.items) ≡ (is_media n && listed n entries) =
          ap (λ xs. listed n (non_empty xs)) names
          ∙ (listed-non_empty-media_names entries n ∙ listed-media_names entries n) in
        rw ran (
          refl,
          subst (λ id. IsSynced (file_id n (view db).videos) (is_media n && listed n entries) id)
              (sym (
                db_prune_missing_videos_lem like sql run view exists clock scanned.0 all.items n law
                ∙ ap (λ b. if b then file_id n (view scanned.0).videos else none) there))
              (IsScanned-prune (file_id n (view db).videos) (is_media n && listed n entries) _ (
                subst
                  (λ b.
                    IsScanned (file_id n (view db).videos) b (file_id n (view scanned.0).videos))
                  (listed-media_names entries n) (ids n))),
        )
