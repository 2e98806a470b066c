-- ===== src/Cmd/Requests/Kinds.antt =====
-- The requests of libpconn/dlp_cmd.c but the one for a record by its index, by the functions that make
-- them.
use coldsync.Base.{ℕ, ◌+◌, ◌≤◌, ◌<◌, ◌^◌, ◌≡◌, Bool, List, length}
use coldsync.Bytes.{IsUword}
use coldsync.Cmd.{Request}
use coldsync.Cmd.Memory.{DlpTime}
use coldsync.Cmd.Info.{SetUserInfo}
use coldsync.Cmd.Databases.{CreateDbReq}
use coldsync.Cmd.Applications.{AppCall}
use coldsync.Cmd.NetSync.{NetSyncInfo}
use coldsync.Cmd.Records
use coldsync.Cmd.Blocks
use coldsync.Cmd.Resources
use coldsync.Cmd.Info
use coldsync.Cmd.System
use coldsync.Cmd.Storage
use coldsync.Cmd.Databases
use coldsync.Cmd.Applications
use coldsync.Cmd.NetSync
use coldsync.Cmd.Lists
use coldsync.Cmd.Slots

-- The requests that the functions make. Lengths that C keeps in a word or double word are such, and
-- arrays have the lengths that they are declared with.
pub data IsRequest : Request → Type 0 where
  of_read_user_info : IsRequest Info.read_user_info
  of_write_user_info : (userinfo : SetUserInfo) → IsRequest (Info.write_user_info userinfo)
  of_read_sys_info : IsRequest Info.read_sys_info
  of_get_sys_date_time : IsRequest Info.get_sys_date_time
  of_set_sys_date_time : (ptime : DlpTime) → IsRequest (Info.set_sys_date_time ptime)
  of_read_storage_info : (card : ℕ) → IsRequest (Storage.read_storage_info card)
  of_read_db_list : (iflags card start : ℕ) → IsRequest (Databases.read_db_list iflags card start)
  of_open_db : (card : ℕ) (name : List ℕ) (mode : ℕ) → IsRequest (Databases.open_db card name mode)
  of_create_db : (newdb : CreateDbReq) → IsRequest (Databases.create_db newdb)
  of_close_db : (handle flags : ℕ) → IsRequest (Databases.close_db handle flags)
  of_delete_db : (card : ℕ) (name : List ℕ) → IsRequest (Databases.delete_db card name)
  of_read_app_block : (handle offset len : ℕ) → IsRequest (Blocks.read_app_block handle offset len)
  of_write_app_block :
      (handle : ℕ) (payload : List ℕ)
      → IsUword (length payload)
      → IsRequest (Blocks.write_app_block handle payload)
  of_read_sort_block :
      (handle offset len : ℕ) → IsRequest (Blocks.read_sort_block handle offset len)
  of_write_sort_block :
      (handle : ℕ) (payload : List ℕ)
      → IsUword (length payload)
      → IsRequest (Blocks.write_sort_block handle payload)
  of_read_next_modified_rec : (handle : ℕ) → IsRequest (Records.read_next_modified_rec handle)
  of_read_record_by_id :
      (handle id offset len : ℕ) → IsRequest (Records.read_record_by_id handle id offset len)
  of_write_record :
      (handle flags id attributes category : ℕ) (payload : List ℕ)
      → 8 + length payload < 2 ^ 32
      → IsRequest (Records.write_record handle flags id attributes category payload)
  of_delete_record : (handle flags recid : ℕ) → IsRequest (Records.delete_record handle flags recid)
  of_read_resource_by_index :
      (handle index offset len : ℕ)
      → IsRequest (Resources.read_resource_by_index handle index offset len)
  of_read_resource_by_type :
      (handle type id offset len : ℕ)
      → IsRequest (Resources.read_resource_by_type handle type id offset len)
  of_write_resource :
      (handle type id : ℕ) (payload : List ℕ)
      → IsUword (length payload)
      → IsRequest (Resources.write_resource handle type id payload)
  of_delete_resource :
      (handle flags type id : ℕ) → IsRequest (Resources.delete_resource handle flags type id)
  of_clean_up_database : (handle : ℕ) → IsRequest (Records.clean_up_database handle)
  of_reset_sync_flags : (handle : ℕ) → IsRequest (Records.reset_sync_flags handle)
  of_call_application :
      (version : ℕ) (appcall : AppCall) (param : List ℕ)
      → 22 + length param < 2 ^ 32
      → IsRequest (Applications.call_application version appcall param)
  of_reset_system : IsRequest System.reset_system
  of_add_sync_log_entry : (msg : List ℕ) → IsRequest (System.add_sync_log_entry msg)
  of_read_open_db_info : (handle : ℕ) → IsRequest (Databases.read_open_db_info handle)
  of_move_category : (handle from to : ℕ) → IsRequest (Records.move_category handle from to)
  of_open_conduit : IsRequest System.open_conduit
  of_end_of_sync : (status : ℕ) → IsRequest (System.end_of_sync status)
  of_reset_record_index : (handle : ℕ) → IsRequest (Records.reset_record_index handle)
  of_read_record_id_list :
      (handle flags start max : ℕ) → IsRequest (Lists.read_record_id_list handle flags start max)
  of_read_next_rec_in_category :
      (handle category : ℕ) → IsRequest (Records.read_next_rec_in_category handle category)
  of_read_next_modified_rec_in_category :
      (handle category : ℕ) → IsRequest (Records.read_next_modified_rec_in_category handle category)
  of_read_app_preference :
      (creator id len flags : ℕ) → IsRequest (Applications.read_app_preference creator id len flags)
  of_write_app_preference :
      (creator id flags version : ℕ) (payload fresh : List ℕ)
      → IsUword (length payload)
      → length fresh ≡ length payload
      → IsRequest (Applications.write_app_preference creator id flags version payload fresh)
  of_read_net_sync_info : IsRequest NetSync.read_net_sync_info
  of_write_net_sync_info :
      (modflags : ℕ) (newinfo : NetSyncInfo)
      → length newinfo.hostname ≤ 256
      → length newinfo.hostaddr ≤ 128
      → length newinfo.hostnetmask ≤ 128
      → IsRequest (NetSync.write_net_sync_info modflags newinfo)
  of_read_feature : (creator featurenum : ℕ) → IsRequest (System.read_feature creator featurenum)
  of_find_db_by_type_creator :
      (creator type : ℕ) (newsearch : Bool)
      → IsRequest (Databases.find_db_by_type_creator creator type newsearch)
  of_exp_card_info : (slotnum : ℕ) → IsRequest (Slots.exp_card_info slotnum)
