-- ===== src/Fs.antt =====
-- client/fs/ and utils/fileutils.go: the disk, file metas, shared files and a group's repository.
pub mod Disk
pub mod Meta
pub mod External
pub mod Storage
pub mod File
pub mod Repo
