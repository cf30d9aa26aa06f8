-- ===== src/Daemon/Reader.antt =====
-- src/daemon.c: `ul_daemon_spawn_for_variant`, which runs the helper and gives what it printed to a
-- callback. That the bytes are taken for a GVariant of the type is not modelled.
pub mod Collected
use udisks_lvm.Base.{
  ℕ, Bool, true, false, ◌||◌, Option, none, some, List, [], ◌∷◌, ◌++◌, Bytes, codes, ◌==◌,
  if◌then◌else◌,
}

-- What the callback is called with: the process, and the bytes of the result or a `GError`.
pub data Callback : Type 0 where
  called_result called_error : (pid : ℕ) (text : Bytes) → Callback

-- `VariantReaderData`, with whether the watch of the child and that of the output are there, and the
-- callbacks, the latest first.
pub record Reader : Type 0 where
  pub child_watch : Bool
  pub output_watch : Bool
  pub pid : ℕ
  pub output : Bytes
  pub callbacks : List Callback

-- g_spawn_async_with_pipes
pub data Spawned : Type 0 where
  spawn_error : Bytes → Spawned
  spawn_pid : ℕ → Spawned

unfoldable pub has_slash : Bytes → Bool
has_slash [] = false
has_slash (c ∷ s) = c == b'/' || has_slash s

-- g_build_filename, PACKAGE_LIB_DIR, PACKAGE_DATA_DIR, and `resource_dir`.
module _ (build_filename : List Bytes → Bytes) (lib_dir data_dir : Bytes)
    (resource_dir : Option Bytes) where
  unfoldable pub resource_path : Option Bytes → Bool → Bytes → Bytes
  resource_path (some dir) arch_specific file = build_filename (dir ∷ file ∷ [])
  resource_path none true file = build_filename (lib_dir ∷ codes "udisks2" ∷ file ∷ [])
  resource_path none false file = build_filename (data_dir ∷ codes "udisks2" ∷ file ∷ [])

  -- `ul_daemon_get_resource_path`
  unfoldable pub get_resource_path : Bool → Bytes → Bytes
  unfolding resource_path
  get_resource_path arch_specific file = resource_path resource_dir arch_specific file

  -- `argv[0]` as it is run; strchr (argv[0], '/').
  unfoldable pub program : Bytes → Bytes
  unfolding has_slash get_resource_path
  program arg = if has_slash arg then arg else get_resource_path true arg

-- The reader, and the process that is returned.
unfoldable pub spawn_for_variant : Spawned → Reader × ℕ
spawn_for_variant (spawn_error message) = (
  record {
    child_watch = false;
    output_watch = false;
    pid = 0;
    output = [];
    callbacks = called_error 0 message ∷ [];
  },
  0,
)
spawn_for_variant (spawn_pid pid) = (
  record { child_watch = true; output_watch = true; pid = pid; output = []; callbacks = [] },
  pid,
)

unfoldable pub variant_reader_child_output : Bytes → Reader → Reader
variant_reader_child_output chunk self = record self { output = self.output ++ chunk }

abbrev pub to_end : Option Bytes → Bytes
to_end none = []
to_end (some buf) = buf

-- `variant_reader_watch_child`, with the process, the message of g_spawn_check_exit_status, and what
-- g_io_channel_read_to_end still finds.
unfoldable pub variant_reader_watch_child : ℕ → Option Bytes → Option Bytes → Reader → Reader
variant_reader_watch_child pid (some message) rest self = record self {
  pid = 0;
  callbacks = called_error pid message ∷ self.callbacks;
}
variant_reader_watch_child pid none rest self = record self {
  pid = 0;
  output = self.output ++ to_end rest;
  callbacks = called_result pid (self.output ++ to_end rest) ∷ self.callbacks;
}

-- `variant_reader_destroy`, when the watch of the child is removed behind its callback.
unfoldable pub variant_reader_destroy : Reader → Reader
variant_reader_destroy self = record self { child_watch = false; output_watch = false }

pub data Event : Type 0 where
  output_ready : Bytes → Event
  child_exited : Option Bytes → Option Bytes → Event

unfoldable pub handle_output : Bool → Bytes → Reader → Reader
unfolding variant_reader_child_output
handle_output true chunk self = variant_reader_child_output chunk self
handle_output false chunk self = self

unfoldable pub handle_exit : Bool → Option Bytes → Option Bytes → Reader → Reader
unfolding variant_reader_watch_child variant_reader_destroy
handle_exit true e rest self =
    variant_reader_destroy (variant_reader_watch_child self.pid e rest self)
handle_exit false e rest self = self

unfoldable pub handle : Event → Reader → Reader
unfolding handle_output handle_exit
handle (output_ready chunk) self = handle_output self.output_watch chunk self
handle (child_exited e rest) self = handle_exit self.child_watch e rest self

unfoldable pub run : List Event → Reader → Reader
unfolding handle
run [] self = self
run (e ∷ es) self = run es (handle e self)
