-- ===== src/Lib.antt =====
-- Verification of bas-cpp, a C++ library of streams, volumes, URIs and access control.
--
-- Five parts of the library are modelled, each as functions that run, with the theorems about them in
-- modules named for what they prove.
--
-- * Access control, src/bas/security. A caller asks whether identities may do an action on a resource. A
--   PolicyStore keeps access lists (ACList of AcEntry) under the key of the identity's realm; a check
--   collects the entries of the identities it is asked about, the permission matcher (Permission.cpp)
--   scores each entry against the request, and a resolver (AccessDecisionResolver.cpp) makes one decision
--   of the scored entries.
--     Security/Permission.antt    Permission.cpp: toString, parse and their helpers
--     Security/Permission/Matcher.antt    Permission.cpp: matches, specificity and their helpers
--     Security/Types.antt    Types.hpp and the text forms of its enumerations
--     Security/Realm.antt    Realm.cpp and Identity.cpp: comparison and keys
--     Security/Acl.antt    AcEntry, ACList, AceMatch and the decisions
--     Security/Resolver.antt    AccessDecisionResolver.cpp
--     Security/PolicyStore.antt    PolicyStore.cpp: DefaultPolicyStore and the checks over it
-- * The FAT32 volume, src/bas/volume/fat32, over a block device, src/bas/volume/dev/MemDevice.cpp. The
--   volume's chains of clusters are kept in an allocation table that a cluster manager holds in memory;
--   what changes there is marked, and a flush writes the marked clusters to the device in runs.
--     Volume/Device.antt    MemDevice.cpp: read and write
--     Volume/Fat32/ClusterManager.antt    Fat32ClusterManager.cpp: get, set, the searches, the hint
--     Volume/Fat32/Flush.antt    Fat32ClusterManager.cpp: the constructor and flushDirty
--     Volume/Fat32/Chain.antt    Fat32Volume_write.cpp and Fat32Volume.cpp: allocateCluster,
--       freeClusterChain, allocateClusterChain, readClusterChain
--     Volume/Fat32/Realloc.antt    Fat32Volume_write.cpp: analyzeReallocStrategy, reallocClusters
--     Volume/Fat32/Dates.antt, Names.antt, Entry.antt    fat32_utils.cpp, and from Fat32Volume.cpp and
--       Fat32Volume_write.cpp the short and long names and the slots of a directory
--     Volume/Fat32/Vol.antt    the volume over its device and table, as a monad
--     Volume/Fat32/Directory.antt, Directory/Writing.antt    parseDirectoryCluster,
--       writeDirectoryEntryToDisk
--     Volume/Fat32/Removal.antt    findDirEntryLocation, updateDirEntry, markDirectoryEntryAsDeleted
--     Volume/Fat32/Boot.antt    parseBootSector, findFreeDirEntrySlots
-- * The URI type, src/bas/net/URI.cpp, which names what the streams and the devices stand on.
--     Net/Uri.antt    URI.cpp: parse, parseAuthority, deriveDirBase, spec
-- * Byte streams, src/bas/io. The look-ahead stream keeps a buffer in front of another stream, which is an
--   interface of operations and laws here; the stream over an array meets it.
--     Io/RawStream.antt    LAInputStream.hpp: readUnbuffered and skipUnbuffered, with their laws
--     Io/LookAhead.antt    LAInputStream.cpp: every operation
--     Io/ArrayStream.antt    Uint8ArrayInputStream.cpp
-- * Paths, src/bas/util, which name the files of the volumes.
--     Util/Path.antt    Path.cpp
--     Util/PathHelper.antt    PathHelper.cpp
--
-- Conventions. Text is a list of bytes, a byte a number. A `uint32_t` is a number; where the source can wrap
-- or masks bits, `%` is written out. A function that may throw answers an Option, a Boolean with the
-- state, or an Outcome, each with the state left behind where the source keeps one. A std::vector is a
-- list; std::sort is a sort by insertion and std::unique drops equal neighbours.
--
-- Fuel. Only loops whose end depends on data have fuel: the parser of permissions has one more than the
-- length of the text, since a round reads a byte; freeClusterChain and readClusterChain have one more than
-- the number of entries, since a round clears an entry or meets a cluster for the first time. A block read
-- of the look-ahead stream has as many rounds as bytes are asked for, readBytesUntilEOF and readRawLine one
-- more than there are bytes left. Path::normalize has fuel because it need not return. Without fuel enough
-- the parser, the chains, the two reads and normalize answer what no run of the code does.
--
-- Bounds. FAT32 cluster numbers have 28 bits and the values from 0x0FFFFFF8 on are marks; theorems about
-- chains assume a table of at most 0x0FFFFFF8 entries, as the format does. A signed 64-bit offset of a
-- stream is its 64 bits as a number; buffers are assumed to stay below 2^63 bytes.
--
-- Not modelled: what calls the operating system or another library (ext4 by libext2fs, zip by libzip, the
-- network by libcurl, character sets by ICU, JSON by Boost), the command-line tools, and the parts of the
-- library that the list of components names as such.
pub mod Prelude
pub mod Security
pub mod Volume
pub mod Net
pub mod Io
pub mod Util
