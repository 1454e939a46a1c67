-- ===== src/Lib.antt =====
-- Verification library of twoliter, the tool that builds Bottlerocket variants and kits.
--
-- The program reads a project file, resolves the kits and the SDK that the project depends on
-- against a container registry, pins them in a lock file, and fetches them for a build. Beside it
-- stand tools that publish what is built; of these the library models the update metadata, which
-- says to which hosts an update is offered and which migrations lead from one version to another,
-- and the publication of SSM parameters, by which images are found.
--
-- Project (Project, Project/Identifier, Project/Vendors, Project/Validate)
--   twoliter/src/project/mod.rs, twoliter/src/project/vendor.rs, twoliter/src/docker/image.rs and
--   twoliter/src/schema_version.rs. Strings are lists of code points. A version is a type with an
--   equality and a written form. A vended artifact is always taken as its Image, which is what
--   from_vended_artifact makes of it. Maps are lists of entries. Project.Validate finds, reads and
--   validates a project file in a map from paths to contents, with the toml crate as a parameter.
-- Lock (Lock, Lock/Resolve, Lock/Load, Lock/Markers, Lock/Archive, Lock/Fetch,
-- Lock/Extract)
--   twoliter/src/project/lock. Lock has the resolution of one image. The registry, with the parsers
--   of what it serves, is a parameter: a snapshot that answers alike for the whole run. Lock.Resolve
--   is Lock::resolve: the variables of the loop are a record, a visit is one turn of its body, and
--   the rounds run on fuel. The loop may run forever where every kit names a further one, so the
--   fuel is enough when the names and vendors reached are finitely many. The theorems speak of
--   Reachable, an inductive definition of the kits that a project reaches, and rest on an
--   invariant that visits keep (Invariant, Visit, Rounds, Complete).
--   Lock.Load is the lock file: create, load, and their SDK-only variant. Lock.Markers is
--   lock/verification.rs with Project::load_lock; the three lock types are three records. In the
--   files of these modules an operation on the file system does not fail, except that a file may be
--   missing. Lock.Archive is lock/archive.rs on a disk of directories; a pull that
--   fails leaves what it likes in the directory. Lock.Fetch is the metadata
--   file that fetch keeps, and Lock.Extract the extraction of the kits of a lock.
-- UpdateMetadata (UpdateMetadata/Waves, Manifest, Migrations, Seeds)
--   tools/update-metadata/src/lib.rs. A map of waves is its list of entries in the order of the
--   keys. Manifest/Policy says which waves set_waves makes of a policy. Seeds are natural numbers, as the sources only add nothing to them; the single-precision
--   division of a percentage is computed as IEEE 754 does, with 127 tries for the exponent, which
--   are enough for all u32 quotients. The search for migrations runs on fuel, one more than there
--   are transitions.
-- Variant (Variant, Variant/Parts)
--   Variant::parse of tools/bottlerocket-variant/src/lib.rs.
-- Ssm (Ssm/Input, Template, Difference, Put, Fetch, Prefix, Publish, Validate, Promote)
--   tools/pubsys/src/aws/ssm, validate_ssm and promote_ssm beside it. The requests to AWS are
--   functions over a state of the world, and records of laws say what is documented of them: the live
--   values are those that an accepted request has put, and a reply has live values only. Ssm.Put is
--   set_parameters: its requests take effect one by one, in an order that the world chooses, and its
--   loop runs on fuel, for which eleven rounds are enough: a request is given up after five failures,
--   and the interval can be doubled four times. Ssm.Fetch is get_parameters and
--   validate_parameters, Ssm.Prefix get_parameters_by_prefix, Ssm.Input parse_ami_input, and
--   Ssm.Template template.rs with the tinytemplate crate as a parameter. Ssm.Publish is run of ssm,
--   from the rendered parameters on, and Ssm.Promote is promote_ssm, which shares with it the
--   setting of what differs; whether appending to the output file succeeds is a parameter of it, and
--   what is appended is Ssm.Promote.Append. Ssm.Validate is validate_ssm.
-- Ami (Ami/Wait, Describe, Validate)
--   tools/pubsys/src/aws/ami and validate_ami: Ami.Describe is describe_images_in_region, Ami.Validate
--   the comparison with the expected images and its summary. Ami.Wait is wait_for_ami, with its
--   counters as bytes: at most 165 successes can be required before they overflow, and 92 rounds more
--   than are required are enough fuel. The bytes wrap as in a release build; a debug build panics there.
-- ParseDatetime, Chrono
--   parse_offset of tools/parse-datetime/src/lib.rs. The chrono crate is an interface of times and
--   durations with the laws that the theorems use; its panics on overflow are not modelled.
-- Prelude has what the other modules share; Examples has test inputs and tests.
--
-- Not modelled: logging, messages of errors, JSON and TOML, the clock, network and docker calls, the
-- rest of pubsys (repositories, the registration of images and their permissions), and the other
-- tools of the workspace (buildsys, testsys, pipesys, krane), which are listed as components of their
-- own.
pub mod Prelude
pub mod Project
pub mod Lock
pub mod Variant
pub mod Chrono
pub mod ParseDatetime
pub mod UpdateMetadata
pub mod Ami
pub mod Ssm
pub mod Examples
