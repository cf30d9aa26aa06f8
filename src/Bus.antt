-- ===== src/Bus.antt =====
-- What the components tell the daemon about the D-Bus: which thing they publish or unpublish at which
-- object path (`ul_daemon_publish`, `ul_daemon_unpublish` of src/daemon.c), and how a method call is
-- answered.
use udisks_lvm.Base.{Option, Bytes}

-- A volume group, a logical volume, or an interface of a block; the first two with their name.
pub data Thing : Type 0 where
  volume_group logical_volume : Bytes → Thing
  physical_volume_block logical_volume_block : Thing

-- The path is `none` where the source passes NULL.
pub data Action : Type 0 where
  publish unpublish : Option Bytes → Thing → Action

-- The members of `UDisksError` that the program sends, and G_DBUS_ERROR_FAILED.
pub data ErrorCode : Type 0 where
  failed already_cancelled : ErrorCode
  dbus_failed : ErrorCode
  not_authorized not_authorized_dismissed not_authorized_can_obtain : ErrorCode

-- g_dbus_method_invocation_return_error, or one of the generated `..._complete_...` functions, with
-- the object path that it returns if it returns one.
pub data Reply : Type 0 where
  completed : Reply
  completed_path : Option Bytes → Reply
  error : ErrorCode → Bytes → Reply
