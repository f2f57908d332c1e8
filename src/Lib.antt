-- ===== src/Lib.antt =====
-- docker-vm-runner runs a virtual machine inside a container. Environment variables are read into
-- one configuration (app/config.py with the helpers of app/utils.py, the tables of
-- app/constants.py and the records of app/models.py); a manager prepares files and firmware and
-- describes the machine to libvirt (app/vm.py, app/network.py); services around it give a console
-- and an API (app/services.py), and app/cli.py runs the phases in order.
--
-- The files:
--   Base       the helpers: texts as lists of code points with the methods of `str`, numbers as
--              `int` and `str` read and write them, dicts in the order of insertion, exceptions
--              as values (app/exceptions.py), equality as an instance
--   Constants  app/constants.py, Models app/models.py
--   Host       what is read from outside: the file system as an interface with the laws of
--              `mkdir -p`, and the values of the kernel, PyYAML, hashlib and float arithmetic
--   Utils      app/utils.py: Env (`get_env`, `get_env_bool`, `parse_int_env`), Names
--              (`derive_vm_name`, `sanitize_mount_target`, `is_oci_reference`), Size
--              (`validate_disk_size`, `parse_size_to_bytes`, `parse_resource_size`), Mac
--              (`random_mac`, `deterministic_mac`), Download (`download_file`,
--              `download_file_with_retry`)
--   Config     app/config.py: `parse_env` in Parse, and its parts: Resources, Choices, Boot, Arch,
--              Indexed and Nics (`get_env_indexed`, `build_nic`), Filesystems
--              (`build_filesystem`), Ports, Ipxe, Disks
--   Xml        the element trees of xml.etree
--   Network    app/network.py: `render_network_xml`
--   Effects    code that acts on the outside: the calls of the operating system and of libvirt, and
--              the programs that make them, with what such programs keep (Keep), have done when
--              they return (Outcomes), call (Calls) and raise (Raise), and the loop of the
--              waits (Polling)
--   Runtime    app/runtime.py
--   Services   app/services.py: the manager's state, Libvirt (daemons, sockets, `wait_for_path` of
--              app/utils.py), Redfish, Pool, Session (`start`, `start_novnc`, `stop`)
--   Vm         app/vm.py: Machine (the attributes of `VMManager`), Domain
--              (`_render_domain_xml`), Prepare (decisions of `prepare`, `_prepare_firmware`),
--              Disks (`_prepare_work_image`, `_prepare_extra_disks`), Tools (`_start_tpm`,
--              `_extract_qemu_binary`), Guest (`wait_for_guest_agent`), Wait
--              (`wait_until_stopped`), Manager and Lifecycle (`connect`, `_define_domain`, `start`,
--              `cleanup`)
--   Cli        app/cli.py: `main`, with Console, Preview (--show-xml), Launch (the constructors and
--              the way to the session) and Session (the try statement with its `finally`); Closing and Ending
--              are about its end
--
-- A function that raises returns a `Result`; the reasons stand for the messages, with the values
-- that a message quotes. `parse_env` takes the environment as a dict and passes the state of the
-- file system along, since a share's missing directory is created. The loops over indexed
-- variables run on fuel, one round for each variable of the environment and one more: an index
-- is only passed if a variable with this index is set, and two indices never name one variable.
-- If a loop ran out of fuel, the error `out_of_fuel` would show it.
--
-- Code that acts on the outside is a function from the outside, the object and the calls made so
-- far to a result, the object and the calls. The outside is a parameter: it answers each call, and
-- its answer may depend on all calls before, so a theorem about every outside covers every order of
-- events; what a theorem needs of it is a record of named conditions. Signals are not calls: in
-- `wait_until_stopped` they are events between the rounds of the loop. The waits for a path and
-- for the guest agent run on fuel, and the clock may be set back: it is enough to have one round more
-- than the pauses after which the clock shows that the time is over. The
-- copying of a download has a bound on the chunks; what is proved of downloads holds for every bound.
--
-- An error is an `Exception`, or an interrupt (`KeyboardInterrupt`, `SystemExit`), which
-- `except Exception` lets through. In `main`, `parse_env` and what is read of the host are programs
-- that are given.
--
-- Not modelled: log lines and the wording of messages; `lower`, `upper`, `isdigit` and `isalpha`
-- outside of ASCII; the limit on the digits that `int` reads; the serialisation of element trees;
-- the progress of downloads, image conversion, archives and pulls of OCI images; `_guest_exec`
-- and the wait for cloud-init; the seed of cloud-init; the attached console and the banner of
-- app/cli.py.
pub mod Base
pub mod Constants
pub mod Models
pub mod Utils
pub mod Effects
pub mod Runtime
pub mod Services
pub mod Host
pub mod Config
pub mod Xml
pub mod Network
pub mod Vm
pub mod Cli
