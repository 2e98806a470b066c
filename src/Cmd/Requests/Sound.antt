-- ===== src/Cmd/Requests/Sound.antt =====
-- The requests of libpconn/dlp_cmd.c stay within the buffers that they are written into.
use coldsync.Base.{arith, ltb, ◌==◌, Bool-cases, inl, inr}
use coldsync.Base.{[], ◌∷◌, length-append}
use coldsync.Cmd.System.{log_text}
use coldsync.Bytes.{put_ubyte, put_uword, put_udword}
use coldsync.Cmd.{Request}
use coldsync.Cmd.Memory.{dlpcmd_puttime}
use coldsync.Cmd.Records
use coldsync.Cmd.Blocks
use coldsync.Cmd.Resources
use coldsync.Cmd.Info
use coldsync.Cmd.System
use coldsync.Cmd.Storage
use coldsync.Cmd.Databases
use coldsync.Cmd.Applications
use coldsync.Cmd.NetSync
use coldsync.Cmd.Lists
use coldsync.Cmd.Slots
use coldsync.Cmd.Requests.{IsSound, no_args-IsSound, with_arg-IsSound, with_allocated-IsSound}
use coldsync.Cmd.Requests.Kinds.{
  IsRequest, of_read_user_info, of_write_user_info, of_read_sys_info, of_get_sys_date_time,
  of_set_sys_date_time, of_read_storage_info, of_read_db_list, of_open_db, of_create_db,
  of_close_db, of_delete_db, of_read_app_block, of_write_app_block, of_read_sort_block,
  of_write_sort_block, of_read_next_modified_rec, of_read_record_by_id, of_write_record,
  of_delete_record, of_read_resource_by_index, of_read_resource_by_type, of_write_resource,
  of_delete_resource, of_clean_up_database, of_reset_sync_flags, of_call_application,
  of_reset_system, of_add_sync_log_entry, of_read_open_db_info, of_move_category, of_open_conduit,
  of_end_of_sync, of_reset_record_index, of_read_record_id_list, of_read_next_rec_in_category,
  of_read_next_modified_rec_in_category, of_read_app_preference, of_write_app_preference,
  of_read_net_sync_info, of_write_net_sync_info, of_read_feature, of_find_db_by_type_creator,
  of_exp_card_info,
}
use coldsync.Cmd.Requests.Lengths.{
  length-put_name, length-log_text, length-user_info_bytes, length-preference_bytes,
  length-net_sync_bytes,
}

-- Every request of the library but the one for a record by its index stays within the buffer that it
-- is written into, has one argument at most, and a number of less than 128; the number of an
-- argument has six bits and its size 32, so that the bytes of a request have room for them.
pub IsRequest-IsSound : {request : Request} → IsRequest request → IsSound request
unfolding put_ubyte put_uword put_udword dlpcmd_puttime coldsync.Cmd.Blocks.read_block
    coldsync.Cmd.Blocks.write_block coldsync.Cmd.Records.handle_request
    coldsync.Cmd.Records.in_category coldsync.Cmd.Info.read_user_info
    coldsync.Cmd.Info.write_user_info coldsync.Cmd.Info.read_sys_info
    coldsync.Cmd.Info.get_sys_date_time coldsync.Cmd.Info.set_sys_date_time
    coldsync.Cmd.Storage.read_storage_info coldsync.Cmd.Databases.read_db_list
    coldsync.Cmd.Databases.open_db coldsync.Cmd.Databases.create_db coldsync.Cmd.Databases.close_db
    coldsync.Cmd.Databases.delete_db coldsync.Cmd.Blocks.read_app_block
    coldsync.Cmd.Blocks.write_app_block coldsync.Cmd.Blocks.read_sort_block
    coldsync.Cmd.Blocks.write_sort_block coldsync.Cmd.Records.read_next_modified_rec
    coldsync.Cmd.Records.read_record_by_id coldsync.Cmd.Records.write_record
    coldsync.Cmd.Records.delete_record coldsync.Cmd.Resources.read_resource_by_index
    coldsync.Cmd.Resources.read_resource_by_type coldsync.Cmd.Resources.write_resource
    coldsync.Cmd.Resources.delete_resource coldsync.Cmd.Records.clean_up_database
    coldsync.Cmd.Records.reset_sync_flags coldsync.Cmd.Applications.call_application
    coldsync.Cmd.System.reset_system coldsync.Cmd.System.add_sync_log_entry
    coldsync.Cmd.Databases.read_open_db_info coldsync.Cmd.Records.move_category
    coldsync.Cmd.System.open_conduit coldsync.Cmd.System.end_of_sync
    coldsync.Cmd.Records.reset_record_index coldsync.Cmd.Lists.read_record_id_list
    coldsync.Cmd.Records.read_next_rec_in_category
    coldsync.Cmd.Records.read_next_modified_rec_in_category
    coldsync.Cmd.Applications.read_app_preference coldsync.Cmd.Applications.write_app_preference
    coldsync.Cmd.NetSync.read_net_sync_info coldsync.Cmd.NetSync.write_net_sync_info
    coldsync.Cmd.System.read_feature coldsync.Cmd.Databases.find_db_by_type_creator
    coldsync.Cmd.Slots.exp_card_info
IsRequest-IsSound of_read_user_info = no_args-IsSound 0x10 (omega arith)
IsRequest-IsSound (of_write_user_info userinfo) =
    with_arg-IsSound 0x11 0x20 _ _ (omega arith) (omega arith) (length-user_info_bytes userinfo)
      (omega arith)
IsRequest-IsSound of_read_sys_info =
    with_arg-IsSound 0x12 0x20 _ _ (omega arith) (omega arith) (omega arith) (omega arith)
IsRequest-IsSound of_get_sys_date_time = no_args-IsSound 0x13 (omega arith)
IsRequest-IsSound (of_set_sys_date_time ptime) =
    with_arg-IsSound 0x14 0x20 _ _ (omega arith) (omega arith) (omega arith) (omega arith)
IsRequest-IsSound (of_read_storage_info card) =
    with_arg-IsSound 0x15 0x20 _ _ (omega arith) (omega arith) (omega arith) (omega arith)
IsRequest-IsSound (of_read_db_list iflags card start) =
    with_arg-IsSound 0x16 0x20 _ _ (omega arith) (omega arith) (omega arith) (omega arith)
IsRequest-IsSound (of_open_db card name mode) =
    with_arg-IsSound 0x17 0x20 _ _ (omega arith) (omega arith) (length-put_name _ name)
      (omega arith)
IsRequest-IsSound (of_create_db newdb) =
    with_arg-IsSound 0x18 0x20 _ _ (omega arith) (omega arith) (length-put_name _ newdb.name)
      (omega arith)
IsRequest-IsSound (of_close_db handle flags) = elim (Bool-cases (handle == 0xff)) [
  | inl all_of_them ↦
      rw all_of_them
        (with_arg-IsSound 0x19 0x21 0 [] (omega arith) (omega arith) (omega arith) (omega arith))
  | inr one ↦ elim (Bool-cases (flags == 0)) [
    | inl plain ↦
        rw (one, plain)
          (with_arg-IsSound 0x19 0x20 _ _ (omega arith) (omega arith) (omega arith) (omega arith))
    | inr update ↦
        rw (one, update)
          (with_arg-IsSound 0x19 0x22 _ _ (omega arith) (omega arith) (omega arith) (omega arith))
  ]
]
IsRequest-IsSound (of_delete_db card name) =
    with_arg-IsSound 0x1a 0x20 _ _ (omega arith) (omega arith) (length-put_name _ name)
      (omega arith)
IsRequest-IsSound (of_read_app_block handle offset len) =
    with_arg-IsSound 0x1b 0x20 _ _ (omega arith) (omega arith) (omega arith) (omega arith)
IsRequest-IsSound (of_write_app_block handle payload h) =
    with_allocated-IsSound 0x1c 0x20 _ _ (omega arith) (omega arith) (omega arith)
      (omega (arith, h))
IsRequest-IsSound (of_read_sort_block handle offset len) =
    with_arg-IsSound 0x1d 0x20 _ _ (omega arith) (omega arith) (omega arith) (omega arith)
IsRequest-IsSound (of_write_sort_block handle payload h) =
    with_allocated-IsSound 0x1e 0x20 _ _ (omega arith) (omega arith) (omega arith)
      (omega (arith, h))
IsRequest-IsSound (of_read_next_modified_rec handle) =
    with_arg-IsSound 0x1f 0x20 _ _ (omega arith) (omega arith) (omega arith) (omega arith)
IsRequest-IsSound (of_read_record_by_id handle id offset len) =
    with_arg-IsSound 0x20 0x20 _ _ (omega arith) (omega arith) (omega arith) (omega arith)
IsRequest-IsSound (of_write_record handle flags id attributes category payload h) =
    with_allocated-IsSound 0x21 0x20 _ _ (omega arith) (omega arith) (omega arith) h
IsRequest-IsSound (of_delete_record handle flags recid) =
    with_arg-IsSound 0x22 0x20 _ _ (omega arith) (omega arith) (omega arith) (omega arith)
IsRequest-IsSound (of_read_resource_by_index handle index offset len) =
    with_arg-IsSound 0x23 0x20 _ _ (omega arith) (omega arith) (omega arith) (omega arith)
IsRequest-IsSound (of_read_resource_by_type handle type id offset len) =
    with_arg-IsSound 0x23 0x21 _ _ (omega arith) (omega arith) (omega arith) (omega arith)
IsRequest-IsSound (of_write_resource handle type id payload h) =
    with_allocated-IsSound 0x24 0x20 _ _ (omega arith) (omega arith) (omega arith)
      (omega (arith, h))
IsRequest-IsSound (of_delete_resource handle flags type id) =
    with_arg-IsSound 0x25 0x20 _ _ (omega arith) (omega arith) (omega arith) (omega arith)
IsRequest-IsSound (of_clean_up_database handle) =
    with_arg-IsSound 0x26 0x20 _ _ (omega arith) (omega arith) (omega arith) (omega arith)
IsRequest-IsSound (of_reset_sync_flags handle) =
    with_arg-IsSound 0x27 0x20 _ _ (omega arith) (omega arith) (omega arith) (omega arith)
IsRequest-IsSound (of_call_application version appcall param h) =
    elim (Bool-cases (ltb version 0x02000000)) [
      | inl early ↦
          rw early
            (with_allocated-IsSound 0x28 0x20 _ _ (omega arith) (omega arith) (omega arith) h)
      | inr late ↦
          rw late (with_allocated-IsSound 0x28 0x21 _ _ (omega arith) (omega arith) (omega arith) h)
    ]
IsRequest-IsSound of_reset_system = no_args-IsSound 0x29 (omega arith)
IsRequest-IsSound (of_add_sync_log_entry msg) =
    with_arg-IsSound 0x2a 0x20 _ _ (omega arith) (omega arith) (omega arith)
      (omega (arith, length-log_text msg, length-append (log_text msg) (0 ∷ [])))
IsRequest-IsSound (of_read_open_db_info handle) =
    with_arg-IsSound 0x2b 0x20 _ _ (omega arith) (omega arith) (omega arith) (omega arith)
IsRequest-IsSound (of_move_category handle from to) =
    with_arg-IsSound 0x2c 0x20 _ _ (omega arith) (omega arith) (omega arith) (omega arith)
IsRequest-IsSound of_open_conduit = no_args-IsSound 0x2e (omega arith)
IsRequest-IsSound (of_end_of_sync status) =
    with_arg-IsSound 0x2f 0x20 _ _ (omega arith) (omega arith) (omega arith) (omega arith)
IsRequest-IsSound (of_reset_record_index handle) =
    with_arg-IsSound 0x30 0x20 _ _ (omega arith) (omega arith) (omega arith) (omega arith)
IsRequest-IsSound (of_read_record_id_list handle flags start max) =
    with_arg-IsSound 0x31 0x20 _ _ (omega arith) (omega arith) (omega arith) (omega arith)
IsRequest-IsSound (of_read_next_rec_in_category handle category) =
    with_arg-IsSound 0x32 0x20 _ _ (omega arith) (omega arith) (omega arith) (omega arith)
IsRequest-IsSound (of_read_next_modified_rec_in_category handle category) =
    with_arg-IsSound 0x33 0x20 _ _ (omega arith) (omega arith) (omega arith) (omega arith)
IsRequest-IsSound (of_read_app_preference creator id len flags) =
    with_arg-IsSound 0x34 0x20 _ _ (omega arith) (omega arith) (omega arith) (omega arith)
IsRequest-IsSound (of_write_app_preference creator id flags version payload fresh h e) =
    with_allocated-IsSound 0x35 0x20 _ _ (omega arith) (omega arith)
      (omega (arith, length-preference_bytes creator id flags version payload fresh e))
      (omega (arith, h))
IsRequest-IsSound of_read_net_sync_info = no_args-IsSound 0x36 (omega arith)
IsRequest-IsSound (of_write_net_sync_info modflags newinfo h1 h2 h3) =
    with_arg-IsSound 0x37 0x20 _ _ (omega arith) (omega arith)
      (length-net_sync_bytes modflags newinfo h1 h2 h3) (omega arith)
IsRequest-IsSound (of_read_feature creator featurenum) =
    with_arg-IsSound 0x38 0x20 _ _ (omega arith) (omega arith) (omega arith) (omega arith)
IsRequest-IsSound (of_find_db_by_type_creator creator type newsearch) =
    with_arg-IsSound 0x39 0x22 _ _ (omega arith) (omega arith) (omega arith) (omega arith)
IsRequest-IsSound (of_exp_card_info slotnum) =
    with_arg-IsSound 0x3e 0x20 _ _ (omega arith) (omega arith) (omega arith) (omega arith)
