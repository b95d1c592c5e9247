-- ===== src/FileManager/Compaction.antt =====
-- `run_garbage_collection` of src/internal_queue_file_manager.rs: the files that are written anew.
use Prim.Native.String.{◌++◌ as ◌<>◌}
use brqueue.Base.{◌≡◌, refl, ◌∙◌, String, false, some, List, [], ok, string_eq, ◌==◌, Eq, filter}
use brqueue.Std.Fs.{Disk, Bytes, no_faults}
use brqueue.Std.HashMap
use brqueue.Std.HashSet
use brqueue.Std.HashSet.{HashSet}
use brqueue.Std.BufWriter
use brqueue.Std.BufWriter.Writes.{Written, get-Written, Written-trans}
use brqueue.Models.{Priority, high, low}
use brqueue.Models.QueueItem.{QueueItem}
use brqueue.FileItemReader.{Codec, serialize_items}
use brqueue.FileManager.Files.{items, completed, extension, get_file_path, >>=-step}
use brqueue.FileManager.Access.{is_live}
use brqueue.FileManager.Collection.{backup, rewrite, compact, write_new}
use brqueue.FileManager.Opened.{store_at}
use brqueue.FileManager.Recording.{read_items-eq}
use brqueue.FileManager.Rewriting.{write_and_flush-Rewritten}
use brqueue.FileManager.Views.{
  View, Sees, put, hide, Sees-Written, Sees-insert, Sees-remove, rename-eq, remove_file-eq,
  create-eq, with_disk-ok,
}

backup_apart : (p : Priority) → (extension (items p) == backup (items p)) ≡ false
unfolding backup string_eq
backup_apart high = refl
backup_apart low = refl

module _ {U T : Type 0} ⦃e : Eq U⦄ (codec : Codec (QueueItem U T)) (base q : String) where
  write_new-eq :
      {X : Type 0} (writer : Codec X) (path : String) (xs : List X) (bytes : Bytes) (disk : Disk)
      → serialize_items writer xs ≡ ok bytes
      → let d = HashMap.insert disk path [] in
        (t : Disk) × (write_new no_faults writer path xs d ≡ (ok tt, t)) × Written path disk bytes t
  unfolding write_new BufWriter.drop BufWriter.flush
  write_new-eq writer path xs bytes disk h =
      let d = HashMap.insert disk path [] in
      let emptied : Written path disk [] d = λ j. HashMap.get-insert disk path j [] in
      let w =
        write_and_flush-Rewritten writer path xs bytes [] d [] h
          (get-Written path disk d [] emptied) in
      (_, rw w.step refl, Written-trans path disk d _ [] bytes emptied w.written)

  rewrite-eq :
      (ids : Codec U) (p : Priority) (completed_ids : HashSet U) (xs : List (QueueItem U T))
      (old bytes : Bytes) (disk : Disk)
      → HashMap.get disk (base <> backup (items p)) ≡ some old
      → serialize_items codec xs ≡ ok old
      → serialize_items codec (filter (is_live completed_ids) xs) ≡ ok bytes
      → (d : Disk) × (rewrite no_faults codec ids base p completed_ids (store_at base q disk)
          ≡ (ok tt, store_at base q d))
        × Written (base <> extension (items p)) disk bytes d
  unfolding rewrite get_file_path
  rewrite-eq ids p completed_ids xs old bytes disk there h k =
      let path = base <> extension (items p) in
      let other : HashMap.get (HashMap.insert disk path []) (base <> backup (items p)) ≡ some old =
        Sees-insert base q disk (λ s. HashMap.get disk (base <> s)) (λ s. refl)
          (extension (items p)) [] (backup (items p))
        ∙ rw (backup_apart p) there in
      let w = write_new-eq codec path (filter (is_live completed_ids) xs) bytes disk k in
      (
        w.0,
        >>=-step _ _
            (create-eq base q disk (λ s. HashMap.get disk (base <> s)) (λ s. refl)
              (extension (items p)))
            (>>=-step _ _
              (read_items-eq codec xs (base <> backup (items p)) old
                (store_at base q (HashMap.insert disk path [])) other h)
              (with_disk-ok (write_new no_faults codec path (filter (is_live completed_ids) xs))
                base q (HashMap.insert disk path []) w.0 w.1)),
        w.2,
      )

-- The files after `compact`.
abbrev pub compacted_view : Bytes → Bytes → Bytes → Bytes → View → View
compacted_view old_high old_low new_high new_low v = hide (extension completed) (
    hide (backup (items low)) (
      hide (backup (items high)) (
        put (extension (items low)) new_low (
          put (extension (items high)) new_high (
            put (backup (items low)) old_low (
              hide (extension (items low))
                (put (backup (items high)) old_high (hide (extension (items high)) v))))))))

module _ {U T : Type 0} ⦃e : Eq U⦄ (codec : Codec (QueueItem U T)) (ids : Codec U)
    (base q : String) where
  pub compact-eq :
      (disk : Disk) (v : View) (highs lows : List (QueueItem U T)) (completed_ids : List U)
      (old_high old_low old_completed new_high new_low : Bytes)
      → Sees base disk v
      → v (extension (items high)) ≡ some old_high
      → v (extension (items low)) ≡ some old_low
      → v (extension completed) ≡ some old_completed
      → serialize_items codec highs ≡ ok old_high
      → serialize_items codec lows ≡ ok old_low
      → serialize_items ids completed_ids ≡ ok old_completed
      → let live = is_live (HashSet.from_iter completed_ids) in
        serialize_items codec (filter live highs) ≡ ok new_high
        → serialize_items codec (filter live lows) ≡ ok new_low
        → (d : Disk) × (compact no_faults codec ids base (store_at base q disk)
            ≡ (ok tt, store_at base q d))
          × Sees base d (compacted_view old_high old_low new_high new_low v)
  unfolding compact get_file_path string_eq backup
  compact-eq disk v highs lows done old_high old_low old_completed new_high new_low sees high_there
        low_there completed_there h l c nh nl =
      let high_path = base <> extension (items high) in
      let low_path = base <> extension (items low) in
      let d1 =
        HashMap.insert (HashMap.remove disk high_path) (base <> backup (items high)) old_high in
      let v1 = put (backup (items high)) old_high (hide (extension (items high)) v) in
      let s1 : Sees base d1 v1 =
        Sees-insert base q _ _ (Sees-remove base q disk v sees (extension (items high)))
          (backup (items high)) old_high in
      let d2 = HashMap.insert (HashMap.remove d1 low_path) (base <> backup (items low)) old_low in
      let v2 = put (backup (items low)) old_low (hide (extension (items low)) v1) in
      let s2 : Sees base d2 v2 =
        Sees-insert base q _ _ (Sees-remove base q d1 v1 s1 (extension (items low)))
          (backup (items low)) old_low in
      let completed_ids = HashSet.from_iter done in
      let w3 =
        rewrite-eq codec base q ids high completed_ids highs old_high new_high d2
          (s2 (backup (items high))) h nh in
      let v3 = put (extension (items high)) new_high v2 in
      let s3 : Sees base w3.0 v3 =
        Sees-Written base q d2 v2 s2 (extension (items high)) new_high w3.0 w3.2 in
      let w4 =
        rewrite-eq codec base q ids low completed_ids lows old_low new_low w3.0
          (s3 (backup (items low))) l nl in
      let v4 = put (extension (items low)) new_low v3 in
      let s4 : Sees base w4.0 v4 =
        Sees-Written base q w3.0 v3 s3 (extension (items low)) new_low w4.0 w4.2 in
      let d5 = HashMap.remove w4.0 (base <> backup (items high)) in
      let v5 = hide (backup (items high)) v4 in
      let s5 : Sees base d5 v5 = Sees-remove base q w4.0 v4 s4 (backup (items high)) in
      let d6 = HashMap.remove d5 (base <> backup (items low)) in
      let v6 = hide (backup (items low)) v5 in
      let s6 : Sees base d6 v6 = Sees-remove base q d5 v5 s5 (backup (items low)) in
      (
        HashMap.remove d6 (base <> extension completed),
        >>=-step _ _
            (rename-eq base q disk v sees (extension (items high)) (backup (items high)) old_high
              high_there)
            (>>=-step _ _
              (rename-eq base q d1 v1 s1 (extension (items low)) (backup (items low)) old_low
                low_there)
              (>>=-step _ _
                (read_items-eq ids done (base <> extension completed) old_completed
                  (store_at base q d2) (s2 (extension completed) ∙ completed_there) c)
                (>>=-step _ _ w3.1 (
                  >>=-step _ _ w4.1 (
                    >>=-step _ _
                      (remove_file-eq base q w4.0 v4 s4 (backup (items high)) old_high refl)
                      (>>=-step _ _
                        (remove_file-eq base q d5 v5 s5 (backup (items low)) old_low refl)
                        (remove_file-eq base q d6 v6 s6 (extension completed) old_completed
                          completed_there))))))),
        Sees-remove base q d6 v6 s6 (extension completed),
      )
