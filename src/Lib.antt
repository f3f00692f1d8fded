-- ===== src/Lib.antt =====
-- FileTribe (client of an IPFS and Ethereum based file sharing program), as a library of definitions
-- and theorems. A group of accounts shares files: every member keeps copies, the contents travel over
-- IPFS as chains of encrypted diffs, the group's state (members, encrypted hash of the shared list of
-- file metadata) stands in a contract, and members get the group key from each other in sessions.
--
-- Parts, and where they stand:
--   Prelude         booleans, lists, bytes, UTF-8, results; no code of the program
--   Crypto          tribecrypto/*.go and utils/signatureutils.go
--   Collections     collections/map.go and list.go
--   Fs              client/fs: Disk (utils/fileutils.go and the calls of the os package), Meta
--                   (client/fs/meta), Storage (storage.go), File (file.go, diffnode.go), Repo
--                   (grouprepo.go), External (what is called and not implemented)
--   Group           client/group.go
--   Communication   client/communication: Message (message.go, contact.go, addressbook.go,
--                   p2pconnection.go), Server and Client (the two sessions), Exchange (both side by
--                   side), Manager (p2pmanager.go)
--   GroupContext    client/groupcontext.go: Opening, Commit, Access (grants and views), and Events
--                   (client/groupevents.go: proposals, approvals, and what a changed hash does)
--   Account         client/account.go
--   UserContext     client/usercontext.go and client/events.go: the state of a user and its requests,
--                   SignUp, Startup (from NewUserContext to BuildGroups), Events (the handlers of
--                   events and of delivered keys), Steps (what can happen, in any order)
--   Main            main/main.go: Cli (the command line), Routes, Handlers (of the HTTP server)
--   Tests           the theorems at concrete inputs
--
-- How the parts interact. `Group` holds the key under which `Fs.Repo` loads the list of metadata of a
-- change set; `Fs.Repo` keeps a `Fs.File` per name, which uploads and downloads through `Fs.Storage`
-- with the boxes of `Crypto`. A `Communication.Manager` finds a session by its id and starts its next
-- step; a server session asks its callback for members and keys. A `GroupContext` starts sessions for
-- the key of a proposal, has the repository check it when the key is there, and approves it. A
-- `UserContext` keeps one `GroupContext` per group, opens them at its start from what `Fs.Storage` has
-- saved, and is the callback of the server sessions; a handler of `Main` calls it for each request.
--
-- How state and operations correspond. A struct is a record of the same name and fields, without
-- locks, loggers and the objects that are passed as arguments here (storage, ipfs, group). A method
-- is a function with the method's name in snake case; one that writes to its receiver returns it
-- beside its result, also where it fails, since the source keeps what it has written. `(value, error)`
-- is a `Result`, whose third constructor is a panic; nil is `none`. A method that holds one lock
-- throughout is one step; goroutines are queued calls of a manager, run in any order.
-- Bytes are natural numbers, strings are their bytes, an address is a number. Random values are
-- arguments.
--
-- Parameters. golang.org/x/crypto, go-diff, go-ethereum's hashes and signatures, encoding/json, the
-- IPFS node and the network are records of functions (`SecretBox`, `Box`, `Differ`, `Codec`,
-- `External`, `Network`, `Eth`, `Router`) with laws that state their documented behaviour
-- (`IsSecretBox`, …); Tests shows that the laws can hold. go-diff and encoding/json keep
-- valid UTF-8 only (`is_utf8`): a `Differ` leads from text to text where both are, and `coerced` is
-- what JSON keeps of a diff. Names, paths and hashes, which go through JSON too, are taken as valid.
--
-- Bounds and fuel. A nonce is 192 bits, and its update wraps around at 2 ^ 192. `seal` and
-- `open_file` recurse on fuel that is one more than the input's length, which is enough, as every
-- round but the last takes at least one byte. `download` takes its fuel as an argument: the source
-- follows a chain of nodes that others have made, and nothing bounds its length.
--
-- Not modelled: the clients of IPFS and of the contracts (ipfs, eth, client/eth.go, client/auth.go),
-- whose calls are parameters; the subscriptions to events, whose handlers are steps; the configuration
-- and the start of the daemon; the unused pubsub connection (client/communication/groupconnection.go)
-- but for its Kill, and the cache (client/fs/cache.go); the making of directories, as a disk here is
-- its files; locks that only guard one step; the texts of errors; and logging.
pub mod Prelude
pub mod Crypto
pub mod Collections
pub mod Fs
pub mod Account
pub mod Group
pub mod Communication
pub mod GroupContext
pub mod UserContext
pub mod Main
pub mod Tests
