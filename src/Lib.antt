-- ===== src/Lib.antt =====
-- udisks-lvm: a D-Bus daemon that shows the volume groups and logical volumes of LVM beside the
-- objects of udisksd, and runs the LVM commands that its methods ask for.
--
-- The parts. The manager (src/manager.c) learns from uevents that something has changed, has the
-- names of the groups listed by the helper program, and keeps one volume group for each (Manager,
-- with Manager.Updates for the timeout between a uevent and the listing, Manager.Create for the
-- method that creates a group, and Manager.Mirror for the blocks of udisksd, which the daemon
-- overlays). A volume group (src/volumegroup.c) has the helper report on it, and brings its table
-- of logical volumes and the blocks of the system in line with the report (VolumeGroup: Update for
-- the properties and volumes, Blocks for the blocks, Refresh for the callbacks that get the report,
-- Poll for polling, Handlers for its methods, Visible for which volumes are shown). Logical
-- volumes, physical volumes and blocks (src/logicalvolume.c, src/physicalvolume.c, src/block.c) are
-- LogicalVolume, PhysicalVolume and Block. The daemon (src/daemon.c) exports objects, finds them by
-- their path, and ends when it is not needed (Daemon, Daemon.Publish, Daemon.Lifecycle), exports
-- the jobs while they run (Daemon.JobObjects), and reads what the helper prints (Daemon.Reader).
-- Methods start jobs: Jobs has what runs in them, Jobs.Answered follows such a job to the answer of
-- its call, and Completion how the caller is answered, which src/manager.c, src/volumegroup.c and
-- src/logicalvolume.c each write out for themselves (Completion.Creation, Completion.Groups and
-- Completion.Volumes, put together in Completion.Calls). Util is src/util.c: the encoding of names
-- (Util.Name), object paths (Util.ObjectPath), exit statuses (Util.Status) and the wiping of
-- devices (Util.Wipe). Invocation is src/invocation.c: the table of clients, which the daemon
-- counts, and the authorization of their calls. Job is src/job.c, what all jobs have in common,
-- with the estimate of their end in Job.Progress, over any arithmetic of doubles; SpawnedJob and
-- ThreadedJob are src/spawnedjob.c and src/threadedjob.c, the two kinds of jobs: SpawnedJob.Events
-- has the start of the child and the callbacks as events, SpawnedJob.Setup the change of user.
-- Helper is src/helper.c, the program that the daemon runs to ask lvm2app. System puts the manager,
-- its groups and their helpers together, as they follow the system: events are uevents, timeouts,
-- and helpers that end in any order; System.Start has how the manager is constructed. Cycle follows
-- what lvm2app lists through the helper, the pipe and the reader into a volume group. Main is
-- src/main.c: the main loop and what ends it. Accessors has the properties that the classes of
-- these files install in GLib, and what an object is behind its construction. Base has what the
-- components share, and Tests the theorems at concrete inputs.
--
-- How they correspond. A function of the source has a definition of the same name, in which the
-- object it changes is passed in and returned. A string is the list of its bytes (Base, Bytes),
-- NULL is `none`, a hash table with string keys is an association list (Base.Table), a GVariant
-- dictionary is data (Variant). What a component publishes and unpublishes is returned as a list of
-- actions (Bus). Of a call of the operating system the outcome is given by an oracle that sees the
-- calls before (Util.Host), so a run returns or raises together with the calls it has made (that
-- g_spawn_check_exit_status accepts exit status 0 and no other is a law of it); D-Bus, polkit, the
-- identifiers of timeouts and processes, and what udev and udisksd know of a device are arguments.
-- Callbacks of the main loop run one at a time, and are steps (VolumeGroup.Poll, Completion,
-- Manager.Updates, Invocation.Clients, System, Daemon.Lifecycle, SpawnedJob.Events, ThreadedJob).
--
-- Bounds. Loops over lists are structural, and there is fuel in two places: Base.Decimal prints
-- twenty digits, enough for a 64-bit number, and Helper.write_all makes as many calls as it has
-- fuel, for which the number of bytes is enough when each call writes one. Numbers of 64 bits
-- appear where they are printed; a `gint` that is tested for being positive is read as its 32-bit
-- pattern. Counts are not bounded.
--
-- Not modelled: the text of log messages; the registration of signals and types, and the
-- notification of properties; how GLib prints and serializes what the helper reports; in
-- src/daemon.c the publication of what has to be unique; how the daemon and the manager connect to
-- D-Bus, udev and udisksd; memory, except that Completion follows the closure of a call and
-- SpawnedJob what a released job has set to NULL.
pub mod Base
pub mod Variant
pub mod Util
pub mod Bus
pub mod PhysicalVolume
pub mod Block
pub mod LogicalVolume
pub mod VolumeGroup
pub mod Completion
pub mod Daemon
pub mod Jobs
pub mod Manager
pub mod Invocation
pub mod Job
pub mod ThreadedJob
pub mod SpawnedJob
pub mod Helper
pub mod Cycle
pub mod Main
pub mod System
pub mod Accessors
pub mod Tests
